-- ===== src/Download/Parts/Series.antt =====
-- Series of reads from the streams over parts of internal/cache.
use git_hub_action_cache_ser.Prelude.{
  ℕ, suc, ◌≤◌, ◌<◌, length, length-append, All, ◌≡◌, ◌≢◌, refl, ap, sym, ◌∙◌, ◌⊎◌, inl, inr, List,
  [], ◌∷◌, ◌++◌, append-nil, append_assoc, arith,
}
use git_hub_action_cache_ser.Db.{Bytes}
use git_hub_action_cache_ser.Download.Parts.{
  no_error, eof, wrapped_eof, failed, ReaderError, stream_error, closed_pipe, unexpected_eof,
  cache_not_found, open_failed, close_failed, out_of_rounds, PartsReader, ReadResult, then_read,
  read_each,
}
use git_hub_action_cache_ser.Download.Parts.Streams.{IsAllowed, IsBefore, Gives, GivesAll}

module _ {W T P : Type 0} (F : Type 0) (rest : T → Bytes) (finished : P → P)
    (IsAt : P → Bytes → Type 0) where
  then_read-GivesAll :
      (n : ℕ) (s : Bytes) (x later : ReadResult W T P)
      → Gives F rest finished IsAt s x
      → ((more : Bytes)
          → IsBefore F rest finished IsAt x.2 more
          → GivesAll F rest finished IsAt n more later)
      → GivesAll F rest finished IsAt (suc n) s (then_read x later)
  then_read-GivesAll n s (bytes, stream_error no_error, r) (more, e, r') (left, q, k, h) g =
      let (last, q2, k2, h2) = g left h in
      (last, q ∙ ap (λ u. bytes ++ u) q2 ∙ sym (append_assoc bytes more last), longer e last k2, h2)
    where
      added : F ⊎ (n ≤ length more) → F ⊎ (suc n ≤ length (bytes ++ more))
      added (inl f) = inl f
      added (inr l) = elim k [
        | inl f ↦ inl f
        | inr b ↦ inr (omega (arith, length-append bytes more))
      ]

      longer :
          (e : ReaderError) (last : Bytes)
          → IsAllowed F (F ⊎ (n ≤ length more)) e last
          → IsAllowed F (F ⊎ (suc n ≤ length (bytes ++ more))) e last
      longer (stream_error no_error) last k2 = added k2
      longer (stream_error eof) last k2 = k2
      longer (stream_error wrapped_eof) last k2 = k2
      longer (stream_error failed) last k2 = k2
      longer closed_pipe last k2 = k2
      longer unexpected_eof last k2 = k2
      longer cache_not_found last k2 = k2
      longer open_failed last k2 = k2
      longer close_failed last k2 = k2
      longer out_of_rounds last k2 = k2
  then_read-GivesAll n s (bytes, stream_error eof, r) later h g = h
  then_read-GivesAll n s (bytes, stream_error wrapped_eof, r) later h g = h
  then_read-GivesAll n s (bytes, stream_error failed, r) later h g = h
  then_read-GivesAll n s (bytes, closed_pipe, r) later h g = h
  then_read-GivesAll n s (bytes, unexpected_eof, r) later h g = h
  then_read-GivesAll n s (bytes, cache_not_found, r) later h g = h
  then_read-GivesAll n s (bytes, open_failed, r) later h g = h
  then_read-GivesAll n s (bytes, close_failed, r) later h g = h
  then_read-GivesAll n s (bytes, out_of_rounds, r) later h g = h

  pub read_each-GivesAll :
      (f : ℕ → PartsReader W T P → ReadResult W T P)
      → ((size : ℕ) (s : Bytes) (r : PartsReader W T P)
          → F ⊎ (0 < size)
          → IsBefore F rest finished IsAt r s
          → Gives F rest finished IsAt s (f size r))
      → (sizes : List ℕ) (s : Bytes) (r : PartsReader W T P) → All (λ size. F ⊎ (0 < size)) sizes
      → IsBefore F rest finished IsAt r s
      → GivesAll F rest finished IsAt (length sizes) s (read_each f sizes r)
  unfolding read_each
  read_each-GivesAll f g [] s r room h = (s, refl, inr (omega arith), h)
  read_each-GivesAll f g (size ∷ sizes) s r (b, room) h =
      then_read-GivesAll (length sizes) s (f size r) _ (g size s r b h)
        (λ more. read_each-GivesAll f g sizes more (f size r).2 room)

-- Bytes from the front of a text, all of it at `io.EOF`, and neither an unexpected end nor an end of
-- the rounds.
abbrev pub IsReadOf : {W T P : Type 0} → Bytes → ReadResult W T P → Type 0
IsReadOf total (bytes, e, r) =
    (more : Bytes) × (total ≡ bytes ++ more)
    × ((e ≢ stream_error eof) ⊎ (more ≡ []))
    × (e ≢ unexpected_eof)
    × (e ≢ out_of_rounds)

-- The whole text and its end.
abbrev pub IsWholeRead : {W T P : Type 0} → Bytes → ReadResult W T P → Type 0
IsWholeRead total (bytes, e, r) = (bytes ≡ total) × (e ≡ stream_error eof)

allowed_parts :
    (G : Type 0) (e : ReaderError) (more : Bytes)
    → IsAllowed (Unit {0}) G e more
    → ((e ≢ stream_error eof) ⊎ (more ≡ [])) × (e ≢ unexpected_eof)
allowed_parts G (stream_error eof) more h = (inr h, λ q. cc)
allowed_parts G (stream_error no_error) more h = (inl (λ q. cc), λ q. cc)
allowed_parts G (stream_error wrapped_eof) more h = (inl (λ q. cc), λ q. cc)
allowed_parts G (stream_error failed) more h = (inl (λ q. cc), λ q. cc)
allowed_parts G closed_pipe more h = (inl (λ q. cc), λ q. cc)
allowed_parts G unexpected_eof more h = absurd h
allowed_parts G cache_not_found more h = (inl (λ q. cc), λ q. cc)
allowed_parts G open_failed more h = (inl (λ q. cc), λ q. cc)
allowed_parts G close_failed more h = (inl (λ q. cc), λ q. cc)
allowed_parts G out_of_rounds more h = (inl (λ q. cc), λ q. cc)

pub any_sizes : (sizes : List ℕ) → All (λ size. Unit {0} ⊎ (0 < size)) sizes
any_sizes [] = tt
any_sizes (size ∷ sizes) = (inl tt, any_sizes sizes)

pub positive_room :
    (sizes : List ℕ) → All (λ size. 0 < size) sizes → All (λ size. ⊥ ⊎ (0 < size)) sizes
positive_room [] h = tt
positive_room (size ∷ sizes) (h, k) = (inr h, positive_room sizes k)

module _ {W T P : Type 0} (rest : T → Bytes) (finished : P → P) (IsAt : P → Bytes → Type 0) where
  pub GivesAll-IsReadOf :
      (n : ℕ) (s : Bytes) (x : ReadResult W T P)
      → GivesAll Unit rest finished IsAt n s x
      → x.1 ≢ out_of_rounds
      → IsReadOf s x
  GivesAll-IsReadOf n s (bytes, e, r) (more, q, k, h) z =
      let (u, v) = allowed_parts _ e more k in (more, q, u, v, z)

  pub GivesAll-IsWholeRead :
      (n : ℕ) (s : Bytes) (x : ReadResult W T P)
      → length s < n
      → GivesAll ⊥ rest finished IsAt n s x
      → x.1 ≢ out_of_rounds
      → IsWholeRead s x
  GivesAll-IsWholeRead n s (bytes, stream_error eof, r) l (more, q, k, h) z =
      (sym (q ∙ ap (λ u. bytes ++ u) k ∙ append-nil bytes), refl)
  GivesAll-IsWholeRead n s (bytes, stream_error no_error, r) l (more, q, inl k, h) z = absurd k
  GivesAll-IsWholeRead n s (bytes, stream_error no_error, r) l (more, q, inr k, h) z =
      absurd (omega (arith, ap length q, length-append bytes more))
  GivesAll-IsWholeRead n s (bytes, stream_error wrapped_eof, r) l (more, q, k, h) z = absurd k
  GivesAll-IsWholeRead n s (bytes, stream_error failed, r) l (more, q, k, h) z = absurd k
  GivesAll-IsWholeRead n s (bytes, closed_pipe, r) l (more, q, k, h) z = absurd k
  GivesAll-IsWholeRead n s (bytes, unexpected_eof, r) l (more, q, k, h) z = absurd k
  GivesAll-IsWholeRead n s (bytes, cache_not_found, r) l (more, q, k, h) z = absurd k
  GivesAll-IsWholeRead n s (bytes, open_failed, r) l (more, q, k, h) z = absurd k
  GivesAll-IsWholeRead n s (bytes, close_failed, r) l (more, q, k, h) z = absurd k
  GivesAll-IsWholeRead n s (bytes, out_of_rounds, r) l (more, q, k, h) z = absurd (z refl)

then_read-rounds :
    {W T P : Type 0} (x later : ReadResult W T P)
    → x.1 ≢ out_of_rounds
    → later.1 ≢ out_of_rounds
    → (then_read x later).1 ≢ out_of_rounds
then_read-rounds (bytes, stream_error no_error, r) later h k = k
then_read-rounds (bytes, stream_error eof, r) later h k = h
then_read-rounds (bytes, stream_error wrapped_eof, r) later h k = h
then_read-rounds (bytes, stream_error failed, r) later h k = h
then_read-rounds (bytes, closed_pipe, r) later h k = h
then_read-rounds (bytes, unexpected_eof, r) later h k = h
then_read-rounds (bytes, cache_not_found, r) later h k = h
then_read-rounds (bytes, open_failed, r) later h k = h
then_read-rounds (bytes, close_failed, r) later h k = h
then_read-rounds (bytes, out_of_rounds, r) later h k = h

pub read_each-rounds :
    {W T P : Type 0} (f : ℕ → PartsReader W T P → ReadResult W T P)
    → ((size : ℕ) (r : PartsReader W T P) → (f size r).1 ≢ out_of_rounds)
    → (sizes : List ℕ) (r : PartsReader W T P) → (read_each f sizes r).1 ≢ out_of_rounds
unfolding read_each
read_each-rounds f h [] r = λ q. cc
read_each-rounds f h (size ∷ sizes) r =
    then_read-rounds (f size r) _ (h size r) (read_each-rounds f h sizes (f size r).2)
