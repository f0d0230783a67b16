-- ===== src/Download/Parts/Reading.antt =====
-- `Read` of the streams over parts of internal/cache, for any kind of position.
use git_hub_action_cache_ser.Prelude.{
  ℕ, zero, suc, ◌<◌, length, ◌≡◌, refl, ap, sym, subst, ◌∙◌, ◌⊎◌, inl, inr, Bool, true, false,
  Option, none, some, is_none, [], ◌∷◌, ◌++◌, append-nil, append_assoc, if-cases, arith,
}
use git_hub_action_cache_ser.Db.{Bytes}
use git_hub_action_cache_ser.Download.Parts.Faithful.{IsProgress}
use git_hub_action_cache_ser.Download.Parts.{
  StreamError, no_error, eof, wrapped_eof, failed, stream_error, Adapter, PartsReader, Request,
  CurrentStream, stopped, streaming, ReadResult, wraps_eof, finish_part, at_part_end, after_read,
  on_read, read_current, read,
}
use git_hub_action_cache_ser.Download.Parts.Streams.{
  IsAllowed, IsBefore, Gives, Serves, StandsIn, Streams, StandsIn-IsBefore, settle-StandsIn,
  current_stream-Streams,
}

module _ {W T P : Type 0} (F : Type 0) (rest : T → Bytes) (finished : P → P)
    (IsAt : P → Bytes → Type 0) (a : Adapter W T) (stays : (w : W) → a.closing w ≡ true → F)
    (next : P → Request W T P) (ends : StreamError → Bool)
    (serves : (p : P) (s : Bytes) → IsAt p s → Serves F rest finished IsAt s (next p))
    (ends-wraps : (e : StreamError) → ends e ≡ true → wraps_eof e ≡ true)
    (ends-eof : ends eof ≡ true) (closes : (t : T) (w : W) → (a.close t w).0 ≡ true → F)
    (progress : (size : ℕ) (t : T) (w : W)
      → F ⊎ (0 < size)
      → IsProgress F ((a.read size t w).0, (a.read size t w).1))
    (reads : (size : ℕ) (t : T) (w : W) → rest t ≡ (a.read size t w).0 ++ rest (a.read size t w).2)
    (emptied : (size : ℕ) (t : T) (w : W)
      → wraps_eof (a.read size t w).1 ≡ true
      → rest (a.read size t w).2 ≡ []) where
  some-not_none : (o : Option T) {t : T} → o ≡ some t → ¬ (is_none o ≡ true)
  some-not_none none e n = cc
  some-not_none (some t) e n = cc

  finish_part-IsBefore :
      (t : T) (more : Bytes) (r : PartsReader W T P)
      → StandsIn F rest finished IsAt t more r
      → IsBefore F rest finished IsAt (finish_part a next finished ends t r).1 more
  unfolding finish_part
  finish_part-IsBefore t more r (inl c) =
      if-cases (λ (x : Bool × PartsReader W T P). IsBefore F rest finished IsAt x.1 more)
        (is_none r.current) _ _ (λ e. inl c) (λ e. inl c)
  finish_part-IsBefore t more r (inr (c, e, h)) =
      if-cases (λ (x : Bool × PartsReader W T P). IsBefore F rest finished IsAt x.1 more)
        (is_none r.current) _ _ (λ n. absurd (some-not_none r.current e n)) (λ n. inr (c, h))

  finish_part-fails :
      (t : T) (r : PartsReader W T P) → (finish_part a next finished ends t r).0 ≡ true → F
  unfolding finish_part
  finish_part-fails t r =
      if-cases (λ (x : Bool × PartsReader W T P). x.0 ≡ true → F) (is_none r.current) _ _
        (λ n e. cc) (λ n e. closes t r.storage e)

  at_part_end-Gives :
      (more bytes : Bytes) (x : Bool × PartsReader W T P)
      (again : PartsReader W T P → ReadResult W T P)
      → IsBefore F rest finished IsAt x.1 more
      → (x.0 ≡ true → F)
      → ((r : PartsReader W T P)
          → IsBefore F rest finished IsAt r more
          → Gives F rest finished IsAt more (again r))
      → Gives F rest finished IsAt (bytes ++ more) (at_part_end a next finished ends bytes x again)
  unfolding at_part_end
  at_part_end-Gives more (b ∷ bytes) (failure, r) again h k g = (more, refl, inr (omega arith), h)
  at_part_end-Gives more [] (true, r) again h k g = (more, refl, k refl, h)
  at_part_end-Gives more [] (false, r) again h k g = g r h

  after_read-StandsIn :
      (t : T) (w : W) (more : Bytes) (r : PartsReader W T P)
      → r.closed ≡ false
      → IsAt (finished r.position) more
      → StandsIn F rest finished IsAt t more (after_read a next finished ends t w r)
  unfolding after_read
  after_read-StandsIn t w more r c h =
      settle-StandsIn F rest finished IsAt a stays t more _ (inr (c, refl, h))

  on_read-Gives :
      (s more : Bytes) (x : Bytes × StreamError × T × W) (r : PartsReader W T P)
      (again : PartsReader W T P → ReadResult W T P)
      → s ≡ (x.0 ++ rest x.2) ++ more
      → (wraps_eof x.1 ≡ true → rest x.2 ≡ [])
      → IsProgress F (x.0, x.1)
      → r.closed ≡ false
      → IsAt (finished r.position) more
      → ((r : PartsReader W T P)
          → IsBefore F rest finished IsAt r more
          → Gives F rest finished IsAt more (again r))
      → Gives F rest finished IsAt s (on_read a next finished ends x r again)
  unfolding on_read
  on_read-Gives s more (bytes, e, t, w) r again q z p c h g =
      let kept = after_read a next finished ends t w r in
      let stands = after_read-StandsIn t w more r c h in
      let done = finish_part a next finished ends t kept in
      if-cases (Gives F rest finished IsAt s) (ends e) _ _
        (λ k.
          subst
            (λ y. Gives F rest finished IsAt y (at_part_end a next finished ends bytes done again))
            (sym (at_end (z (ends-wraps e k))))
            (at_part_end-Gives more bytes done again (finish_part-IsBefore t more kept stands)
              (finish_part-fails t kept) g))
        (λ k. (
          rest t ++ more,
          q ∙ append_assoc bytes (rest t) more,
          passed_on e (rest t ++ more) k p,
          StandsIn-IsBefore F rest finished IsAt t kept more stands,
        ))
    where
      at_end : rest t ≡ [] → s ≡ bytes ++ more
      at_end y = q ∙ ap (λ u. (bytes ++ u) ++ more) y ∙ ap (λ u. u ++ more) (append-nil bytes)

      passed_on :
          (e : StreamError) (u : Bytes)
          → ends e ≡ false
          → IsProgress F (bytes, e)
          → IsAllowed F (F ⊎ (0 < length bytes)) (stream_error e) u
      passed_on eof u k p = cc
      passed_on no_error u k p = p
      passed_on wrapped_eof u k p = p
      passed_on failed u k p = p

  read_current-Gives :
      (size : ℕ) (s : Bytes) (x : CurrentStream W T P)
      (again : PartsReader W T P → ReadResult W T P)
      → F ⊎ (0 < size)
      → Streams F rest finished IsAt s x
      → ((more : Bytes) (r : PartsReader W T P)
          → IsBefore F rest finished IsAt r more
          → Gives F rest finished IsAt more (again r))
      → Gives F rest finished IsAt s (read_current a next finished ends size x again)
  unfolding read_current
  read_current-Gives size s (stopped e r) again room (k, h) g = (s, refl, k, h)
  read_current-Gives size s (streaming t r) again room (more, q, c, h) g =
      on_read-Gives s more (a.read size t r.storage) r again
        (q ∙ ap (λ u. u ++ more) (reads size t r.storage)) (emptied size t r.storage)
        (progress size t r.storage room) c h (g more)

  pub read-Gives :
      (rounds size : ℕ) (s : Bytes) (r : PartsReader W T P)
      → F ⊎ (0 < size)
      → IsBefore F rest finished IsAt r s
      → Gives F rest finished IsAt s (read a next finished ends rounds size r)
  unfolding read
  read-Gives zero size s r room h = (s, refl, tt, h)
  read-Gives (suc rounds) size s r room h =
      read_current-Gives size s _ (read a next finished ends rounds size) room
        (current_stream-Streams F rest finished IsAt a stays next ends serves s r h)
        (λ more r' k. read-Gives rounds size more r' room k)
