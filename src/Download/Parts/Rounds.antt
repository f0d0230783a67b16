-- ===== src/Download/Parts/Rounds.antt =====
-- The rounds of `Read` of the streams over parts of internal/cache, for any adapter.
use git_hub_action_cache_ser.Prelude.{
  ℕ, zero, suc, ◌+◌, ◌≤◌, ◌<◌, ◌≡◌, ◌≢◌, refl, ap, subst, Bool, true, false, Option, none, some, [],
  ◌∷◌, is_none, if-cases, Bool-cases, inl, inr, arith,
}
use git_hub_action_cache_ser.Db.{Bytes}
use git_hub_action_cache_ser.Download.Parts.{
  StreamError, out_of_rounds, Opened, opened, not_found, unavailable, Adapter, PartsReader, Request,
  refused, request, CurrentStream, stopped, streaming, ReadResult, close_current, close, settle,
  after_open, serve, from_current, current_stream, finish_part, at_part_end, after_read, on_read,
  read_current, read,
}

-- Two ways to go on that give the same, and do not run out of rounds.
abbrev pub IsSame : {W T P : Type 0} → ReadResult W T P → ReadResult W T P → Type 0
IsSame x y = (x ≡ y) × (x.1 ≢ out_of_rounds)

abbrev pub open_count : {T : Type 0} → Option T → ℕ
open_count none = 0
open_count (some t) = 1

module _ {W T P : Type 0} (left : P → ℕ) where
  -- A request opens a later part, and an end is an error of the code.
  abbrev pub IsForward : P → Request W T P → Type 0
  IsForward p (refused e q) = e ≢ out_of_rounds
  IsForward p (request start now later) = suc (left later) ≤ left p

  abbrev pub rounds_needed : PartsReader W T P → ℕ
  rounds_needed r = left r.position + open_count r.current

  abbrev IsWithin : ℕ → CurrentStream W T P → Type 0
  IsWithin n (stopped e r) = e ≢ out_of_rounds
  IsWithin n (streaming t r) = suc (left r.position) ≤ n

  module _ (a : Adapter W T) where
    close_current-position :
        (o : Option T) (r : PartsReader W T P) → (close_current a o r).1.position ≡ r.position
    unfolding close_current
    close_current-position none r = refl
    close_current-position (some t) r = refl

    settle-position : (r : PartsReader W T P) → (settle a r).position ≡ r.position
    unfolding settle close
    settle-position r =
        if-cases (λ (x : PartsReader W T P). x.position ≡ r.position) (a.closing r.storage) _ _
          (λ e.
            if-cases (λ (x : Bool × PartsReader W T P). x.1.position ≡ r.position) r.closed _ _
              (λ c. refl) (λ c. close_current-position r.current r))
          (λ e. refl)

    module _ (next : P → Request W T P) (finished : P → P) (ends : StreamError → Bool)
        (forward : (p : P) → IsForward p (next p))
        (keeps : (p : P) → left (finished p) ≡ left p) where
      after_open-IsWithin :
          (n : ℕ) (later : P) (o : Opened T) (r : PartsReader W T P)
          → suc (left later) ≤ n
          → IsWithin n (after_open a later o r)
      unfolding after_open
      after_open-IsWithin n later (opened t) r h =
          if-cases (IsWithin n) r.closed _ _ (λ e q. cc) (λ e. h)
      after_open-IsWithin n later not_found r h = λ q. cc
      after_open-IsWithin n later unavailable r h = λ q. cc

      serve-IsWithin :
          (p : P) (q : Request W T P) (r : PartsReader W T P)
          → IsForward p q
          → IsWithin (left p) (serve a q r)
      unfolding serve
      serve-IsWithin p (refused e q) r h = h
      serve-IsWithin p (request start now later) r h = after_open-IsWithin (left p) later _ _ h

      from_current-IsWithin :
          (o : Option T) (r : PartsReader W T P)
          → IsWithin (left r.position + open_count o) (from_current a next finished ends o r)
      unfolding from_current
      from_current-IsWithin none r =
          let e : left r.position ≡ left r.position + 0 = omega arith in
          subst (λ n. IsWithin n (serve a (next r.position) r)) e
            (serve-IsWithin r.position (next r.position) r (forward r.position))
      from_current-IsWithin (some t) r = omega arith

      current_stream-IsWithin :
          (r : PartsReader W T P)
          → IsWithin (rounds_needed r) (current_stream a next finished ends r)
      unfolding current_stream
      current_stream-IsWithin r =
          if-cases (IsWithin (rounds_needed r)) r.closed _ _ (λ e q. cc)
            (λ e. from_current-IsWithin r.current r)

      -- After the end of a part no stream is open.
      finish_part-rounds_needed :
          (t : T) (r : PartsReader W T P)
          → rounds_needed (finish_part a next finished ends t r).1 ≡ left r.position
      unfolding finish_part
      finish_part-rounds_needed t r =
          if-cases (λ (x : Bool × PartsReader W T P). rounds_needed x.1 ≡ left r.position)
            (is_none r.current) _ _ (λ e. closed_count r.current e)
            (λ e. omega (arith, keeps r.position))
        where
          closed_count :
              (o : Option T) → is_none o ≡ true → left r.position + open_count o ≡ left r.position
          closed_count none e = omega arith
          closed_count (some t) e = cc

      at_part_end-IsSame :
          (bytes : Bytes) (x : Bool × PartsReader W T P)
          (again again' : PartsReader W T P → ReadResult W T P)
          → IsSame (again x.1) (again' x.1)
          → IsSame
              (at_part_end a next finished ends bytes x again)
              (at_part_end a next finished ends bytes x again')
      unfolding at_part_end
      at_part_end-IsSame (b ∷ bytes) (failure, r) again again' h = (refl, λ q. cc)
      at_part_end-IsSame [] (true, r) again again' h = (refl, λ q. cc)
      at_part_end-IsSame [] (false, r) again again' h = h

      on_read-IsSame :
          (n : ℕ) (x : Bytes × StreamError × T × W) (r : PartsReader W T P)
          (again again' : PartsReader W T P → ReadResult W T P)
          → suc (left r.position) ≤ n
          → ((r : PartsReader W T P) → suc (rounds_needed r) ≤ n → IsSame (again r) (again' r))
          → IsSame
              (on_read a next finished ends x r again)
              (on_read a next finished ends x r again')
      unfolding on_read after_read
      on_read-IsSame n (bytes, e, t, w) r again again' h g = elim (Bool-cases (ends e)) [
        | inl q ↦ rw q (at_part_end-IsSame bytes _ again again' (g _ fewer))
        | inr q ↦ rw q (refl, λ k. cc)
      ]
        where
          fewer :
              suc (
                rounds_needed
                  (finish_part a next finished ends t (after_read a next finished ends t w r)).1)
              ≤ n
          fewer = omega (
            arith,
            finish_part-rounds_needed t (after_read a next finished ends t w r),
            ap left (settle-position (record r { current = some t; storage = w })),
          )

      read_current-IsSame :
          (n size : ℕ) (x : CurrentStream W T P)
          (again again' : PartsReader W T P → ReadResult W T P)
          → IsWithin n x
          → ((r : PartsReader W T P) → suc (rounds_needed r) ≤ n → IsSame (again r) (again' r))
          → IsSame
              (read_current a next finished ends size x again)
              (read_current a next finished ends size x again')
      unfolding read_current
      read_current-IsSame n size (stopped e r) again again' h g = (refl, h)
      read_current-IsSame n size (streaming t r) again again' h g =
          on_read-IsSame n _ r again again' h g

      pub read-IsSame :
          (rounds rounds' size : ℕ) (r : PartsReader W T P)
          → rounds_needed r < rounds
          → rounds_needed r < rounds'
          → IsSame
              (read a next finished ends rounds size r)
              (read a next finished ends rounds' size r)
      unfolding read
      read-IsSame zero rounds' size r h k = absurd (omega arith)
      read-IsSame (suc rounds) zero size r h k = absurd (omega arith)
      read-IsSame (suc rounds) (suc rounds') size r h k =
          read_current-IsSame (rounds_needed r) size _ _ _ (current_stream-IsWithin r)
            (λ r' l. read-IsSame rounds rounds' size r' (omega arith) (omega arith))
