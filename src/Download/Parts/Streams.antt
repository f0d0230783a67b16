-- ===== src/Download/Parts/Streams.antt =====
-- The streams that `currentStream` of internal/cache gives for parts, and the states around a read.
use git_hub_action_cache_ser.Prelude.{
  ℕ, ◌≤◌, ◌<◌, length, ◌≡◌, refl, sym, subst, ◌⊎◌, inl, inr, Bool, true, false, Option, none, some,
  [], ◌++◌, if-cases,
}
use git_hub_action_cache_ser.Db.{Bytes}
use git_hub_action_cache_ser.Download.Parts.Faithful.{IsOpened}
use git_hub_action_cache_ser.Download.Parts.{
  StreamError, no_error, eof, wrapped_eof, failed, ReaderError, stream_error, closed_pipe,
  unexpected_eof, cache_not_found, open_failed, close_failed, out_of_rounds, Opened, opened,
  not_found, unavailable, Adapter, PartsReader, Request, refused, request, CurrentStream, stopped,
  streaming, ReadResult, close_current, close, settle, after_open, serve, from_current,
  current_stream,
}

-- What a read says of the bytes that were not given: `io.EOF` comes after the last, and
-- `io.ErrUnexpectedEOF` not at all; `F` is what a failure shows,
-- and `G` what success does.
abbrev pub IsAllowed : Type 0 → Type 0 → ReaderError → Bytes → Type 0
IsAllowed F G (stream_error eof) more = more ≡ []
IsAllowed F G (stream_error no_error) more = G
IsAllowed F G (stream_error wrapped_eof) more = F
IsAllowed F G (stream_error failed) more = F
IsAllowed F G unexpected_eof more = ⊥
IsAllowed F G closed_pipe more = F
IsAllowed F G cache_not_found more = F
IsAllowed F G open_failed more = F
IsAllowed F G close_failed more = F
IsAllowed F G out_of_rounds more = Unit

module _ {T P : Type 0} (rest : T → Bytes) (finished : P → P) (IsAt : P → Bytes → Type 0) where
  -- What follows the bytes of an open stream, or what follows where none is open.
  abbrev pub HasLeft : Option T → P → Bytes → Type 0
  HasLeft none p s = IsAt p s
  HasLeft (some t) p s = (more : Bytes) × (s ≡ rest t ++ more) × IsAt (finished p) more

module _ {W T P : Type 0} (F : Type 0) (rest : T → Bytes) (finished : P → P)
    (IsAt : P → Bytes → Type 0) where
  -- A reader is closed, or its stream and the parts after it are the bytes.
  abbrev pub IsBefore : PartsReader W T P → Bytes → Type 0
  IsBefore r s =
      ((r.closed ≡ true) × F)
      ⊎ ((r.closed ≡ false) × HasLeft rest finished IsAt r.current r.position s)

  abbrev pub Gives : Bytes → ReadResult W T P → Type 0
  Gives s (bytes, e, r) =
      (more : Bytes) × (s ≡ bytes ++ more)
      × IsAllowed F (F ⊎ (0 < length bytes)) e more
      × IsBefore r more

  -- The same of a number of reads.
  abbrev pub GivesAll : ℕ → Bytes → ReadResult W T P → Type 0
  GivesAll n s (bytes, e, r) =
      (more : Bytes) × (s ≡ bytes ++ more)
      × IsAllowed F (F ⊎ (n ≤ length bytes)) e more
      × IsBefore r more

  abbrev pub Serves : Bytes → Request W T P → Type 0
  Serves s (refused e p) = (e ≡ stream_error eof) × (s ≡ []) × IsAt p s
  Serves s (request start now later) =
      IsAt now s
      × ((w : W) → IsOpened F (start w).0)
      × ((w : W) (t : T)
          → (start w).0 ≡ opened t
          → (more : Bytes) × (s ≡ rest t ++ more) × IsAt (finished later) more)

  abbrev pub StandsIn : T → Bytes → PartsReader W T P → Type 0
  StandsIn t more r =
      ((r.closed ≡ true) × F)
      ⊎ ((r.closed ≡ false) × (r.current ≡ some t) × IsAt (finished r.position) more)

  pub StandsIn-IsBefore :
      (t : T) (r : PartsReader W T P) (more : Bytes)
      → StandsIn t more r
      → IsBefore r (rest t ++ more)
  StandsIn-IsBefore t r more (inl c) = inl c
  StandsIn-IsBefore t r more (inr (c, e, h)) = inr (
    c,
    subst (λ o. HasLeft rest finished IsAt o r.position (rest t ++ more)) (sym e) (more, refl, h),
  )

  abbrev pub Streams : Bytes → CurrentStream W T P → Type 0
  Streams s (stopped e r) = IsAllowed F (F ⊎ (0 < 0)) e s × IsBefore r s
  Streams s (streaming t r) =
      (more : Bytes) × (s ≡ rest t ++ more) × (r.closed ≡ false) × IsAt (finished r.position) more

  module _ (a : Adapter W T) (stays : (w : W) → a.closing w ≡ true → F) where
    close_current-closed :
        (o : Option T) (r : PartsReader W T P) → (close_current a o r).1.closed ≡ true
    unfolding close_current
    close_current-closed none r = refl
    close_current-closed (some t) r = refl

    close-closed : (r : PartsReader W T P) → (close a r).1.closed ≡ true
    unfolding close
    close-closed r =
        if-cases (λ (x : Bool × PartsReader W T P). x.1.closed ≡ true) r.closed _ _ (λ e. e)
          (λ e. close_current-closed r.current r)

    settle-IsBefore : (r : PartsReader W T P) (s : Bytes) → IsBefore r s → IsBefore (settle a r) s
    unfolding settle
    settle-IsBefore r s h =
        if-cases (λ x. IsBefore x s) (a.closing r.storage) _ _
          (λ e. inl (close-closed r, stays r.storage e)) (λ e. h)

    pub settle-StandsIn :
        (t : T) (more : Bytes) (r : PartsReader W T P)
        → StandsIn t more r
        → StandsIn t more (settle a r)
    unfolding settle
    settle-StandsIn t more r h =
        if-cases (StandsIn t more) (a.closing r.storage) _ _
          (λ e. inl (close-closed r, stays r.storage e)) (λ e. h)

    of_closed : (r : PartsReader W T P) (s : Bytes) → r.closed ≡ true → IsBefore r s → F
    of_closed r s e (inl (c, f)) = f
    of_closed r s e (inr (c, k)) = cc

    after_open-Streams :
        (s : Bytes) (later : P) (o : Opened T) (r : PartsReader W T P)
        → IsBefore r s
        → IsOpened F o
        → ((t : T)
            → o ≡ opened t
            → (more : Bytes) × (s ≡ rest t ++ more) × IsAt (finished later) more)
        → Streams s (after_open a later o r)
    unfolding after_open
    after_open-Streams s later (opened t) r h f g =
        if-cases (Streams s) r.closed _ _ (λ e. (of_closed r s e h, inl (e, of_closed r s e h)))
          (λ e. let (more, q, k) = g t refl in (more, q, e, k))
    after_open-Streams s later not_found r h f g = (f, h)
    after_open-Streams s later unavailable r h f g = (f, h)

    serve-Streams :
        (s : Bytes) (q : Request W T P) (r : PartsReader W T P)
        → r.closed ≡ false
        → r.current ≡ none
        → Serves s q
        → Streams s (serve a q r)
    unfolding serve
    serve-Streams s (refused e p) r c n (k, z, h) = (
      subst (λ x. IsAllowed F (F ⊎ (0 < 0)) x s) (sym k) z,
      inr (c, subst (λ o. HasLeft rest finished IsAt o p s) (sym n) h),
    )
    serve-Streams s (request start now later) r c n (h, f, k) =
        after_open-Streams s later _ _
          (settle-IsBefore _ s (inr (c, subst (λ o. HasLeft rest finished IsAt o now s) (sym n) h)))
          (f r.storage) (k r.storage)

    module _ (next : P → Request W T P) (ends : StreamError → Bool)
        (serves : (p : P) (s : Bytes) → IsAt p s → Serves s (next p)) where
      from_current-Streams :
          (s : Bytes) (o : Option T) (r : PartsReader W T P)
          → r.closed ≡ false
          → r.current ≡ o
          → HasLeft rest finished IsAt o r.position s
          → Streams s (from_current a next finished ends o r)
      unfolding from_current
      from_current-Streams s none r c n h =
          serve-Streams s (next r.position) r c n (serves r.position s h)
      from_current-Streams s (some t) r c n (more, q, h) = (more, q, c, h)

      of_open :
          (r : PartsReader W T P) (s : Bytes)
          → r.closed ≡ false
          → IsBefore r s
          → HasLeft rest finished IsAt r.current r.position s
      of_open r s e (inl c) = cc
      of_open r s e (inr (c, k)) = k

      pub current_stream-Streams :
          (s : Bytes) (r : PartsReader W T P)
          → IsBefore r s
          → Streams s (current_stream a next finished ends r)
      unfolding current_stream
      current_stream-Streams s r h =
          if-cases (Streams s) r.closed _ _ (λ e. (of_closed r s e h, inl (e, of_closed r s e h)))
            (λ e. from_current-Streams s r.current r e refl (of_open r s e h))
