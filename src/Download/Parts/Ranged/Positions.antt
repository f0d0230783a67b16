-- ===== src/Download/Parts/Ranged/Positions.antt =====
-- Where the reader of internal/cache/ranged_parts_reader.go stands in a payload.
use git_hub_action_cache_ser.Prelude.{
  ℕ, zero, suc, ◌+◌, ◌-◌, ◌≤◌, ◌<◌, min, ◌≡◌, ◌≢◌, refl, ap, sym, ◌∙◌, true, false, List, [], ◌++◌,
  length, take, drop, leb, ◌==◌, if-cases, arith, length-append, length-drop, take-append,
  drop-append, drop-all, take-min,
}
use git_hub_action_cache_ser.Db.{Bytes}
use git_hub_action_cache_ser.Download.PartIndex.{part_size}
use git_hub_action_cache_ser.Download.PartIndex.Boundaries.{size_at, part_size-size_at, length-ends}
use git_hub_action_cache_ser.Download.PartIndex.Location.{index_of_sizes}
use git_hub_action_cache_ser.Download.Parts.{Adapter, request}
use git_hub_action_cache_ser.Download.Parts.Faithful.{IsFaithful, FailsOnly, payload}
use git_hub_action_cache_ser.Download.Parts.Streams.{Serves}
use git_hub_action_cache_ser.Download.Parts.Ranged.{
  RangedPosition, finish_count, available, skip_part, next_range,
}

-- The sizes are those of the parts.
abbrev pub HasSizes : (ℕ → Bytes) → List ℕ → Type 0
HasSizes part xs = (i : ℕ) → i < length xs → size_at xs i ≡ length (part i)

abbrev pub tail_bytes : (ℕ → Bytes) → List ℕ → ℕ → Bytes
tail_bytes part xs i = payload part i (length xs - i)

-- A position inside a part, or past the last, from which the parts have the bytes that remain.
abbrev pub IsAtRange : (ℕ → Bytes) → List ℕ → RangedPosition → Bytes → Type 0
IsAtRange part xs p s =
    (p.parts ≡ index_of_sizes xs)
    × (p.index < length xs → p.part_offset ≤ length (part p.index))
    × (p.remaining + p.part_offset ≤ length (tail_bytes part xs p.index))
    × (s ≡ take p.remaining (drop p.part_offset (tail_bytes part xs p.index)))

tail_bytes-step :
    (part : ℕ → Bytes) (xs : List ℕ) (i : ℕ)
    → i < length xs
    → tail_bytes part xs i ≡ part i ++ tail_bytes part xs (suc i)
tail_bytes-step part xs i h =
    let e : length xs - i ≡ suc (length xs - suc i) = omega arith in ap (λ k. payload part i k) e

length-tail_end :
    (part : ℕ → Bytes) (xs : List ℕ) (i : ℕ) → length xs ≤ i → length (tail_bytes part xs i) ≡ 0
length-tail_end part xs i h =
    let e : length xs - i ≡ 0 = omega arith in ap (λ k. length (payload part i k)) e

-- What a range takes of a text before another: the part's bytes, then those after them.
range-split :
    (offset remaining : ℕ) (xs ys : Bytes)
    → offset ≤ length xs
    → take remaining (drop offset (xs ++ ys))
      ≡ take (min (length xs - offset) remaining) (drop offset xs)
        ++ take (remaining - (length xs - offset)) ys
range-split offset remaining xs ys h =
    let e : length (drop offset xs) ≡ length xs - offset = length-drop offset xs in
    ap (take remaining) (drop-append offset xs ys h)
    ∙ take-append remaining (drop offset xs) ys
    ∙ ap (λ k. take remaining (drop offset xs) ++ take (remaining - k) ys) e
    ∙ ap (λ b. b ++ take (remaining - (length xs - offset)) ys)
        (sym (take-min remaining (drop offset xs)))
    ∙ ap
        (λ k. take (min k remaining) (drop offset xs) ++ take (remaining - (length xs - offset)) ys)
        e

module _ {W T : Type 0} (F : Type 0) (a : Adapter W T) (part : ℕ → Bytes) (rest : T → Bytes)
    (xs : List ℕ) (sizes : HasSizes part xs) (f : IsFaithful a part rest)
    (u : FailsOnly F a part (length xs)) where
  available_size :
      (p : RangedPosition)
      → p.parts ≡ index_of_sizes xs
      → p.index < length xs
      → available p ≡ length (part p.index) - p.part_offset
  available_size p e h =
      ap (λ parts. part_size parts p.index - p.part_offset) e
      ∙ ap (λ k. k - p.part_offset) (part_size-size_at xs p.index h ∙ sizes p.index h)

  skip_part-IsAtRange :
      (p : RangedPosition) (s : Bytes)
      → IsAtRange part xs p s
      → p.index < length xs
      → available p ≡ 0
      → IsAtRange part xs (skip_part p) s
  skip_part-IsAtRange p s (e, c, l, q) h z =
      let step = tail_bytes-step part xs p.index h in
      let at_end : length (part p.index) ≤ p.part_offset = omega (arith, available_size p e h, z) in
      (
        e,
        λ k. omega arith,
        omega (
          arith,
          ap length step,
          length-append (part p.index) (tail_bytes part xs (suc p.index)),
        ),
        q
            ∙ ap (λ b. take p.remaining (drop p.part_offset b)) step
            ∙ ap (take p.remaining) (
                drop-append p.part_offset (part p.index) (tail_bytes part xs (suc p.index)) (c h)
                ∙ ap (λ b. b ++ tail_bytes part xs (suc p.index))
                    (drop-all p.part_offset (part p.index) at_end)),
      )

  request-Serves :
      (p : RangedPosition) (s : Bytes)
      → IsAtRange part xs p s
      → p.index < length xs
      → available p ≢ 0
      → p.remaining ≢ 0
      → Serves F rest finish_count (IsAtRange part xs) s (
          request (a.open_range p.index p.part_offset (min (available p) p.remaining)) p (record p {
            index = suc p.index;
            part_offset = 0;
            current_count = min (available p) p.remaining;
          }))
  unfolding finish_count
  request-Serves p s (e, c, l, q) h z r =
      let tail = tail_bytes part xs (suc p.index) in
      let step = tail_bytes-step part xs p.index h in
      let size = available_size p e h in
      let count : min (length (part p.index) - p.part_offset) p.remaining
          ≡ min (available p) p.remaining =
        omega (arith, size) in
      let left : p.remaining - (length (part p.index) - p.part_offset)
          ≡ p.remaining - min (available p) p.remaining =
        omega (arith, size) in
      let fits : p.part_offset + min (available p) p.remaining ≤ length (part p.index) =
        omega (arith, size, c h) in
      (
        (e, c, l, q),
        λ w. u.ranged p.index p.part_offset (min (available p) p.remaining) w h fits,
        λ w t o. (
          take (p.remaining - min (available p) p.remaining) tail,
          q
              ∙ ap (λ b. take p.remaining (drop p.part_offset b)) step
              ∙ range-split p.part_offset p.remaining (part p.index) tail (c h)
              ∙ ap
                  (λ k.
                    take k (drop p.part_offset (part p.index))
                    ++ take (p.remaining - (length (part p.index) - p.part_offset)) tail)
                  count
              ∙ ap
                  (λ k.
                    take (min (available p) p.remaining) (drop p.part_offset (part p.index))
                    ++ take k tail)
                  left
              ∙ ap (λ b. b ++ take (p.remaining - min (available p) p.remaining) tail)
                  (sym (f.ranged p.index p.part_offset (min (available p) p.remaining) w t fits o)),
          (
            e,
            λ k. omega arith,
            omega (arith, ap length step, length-append (part p.index) tail, size),
            refl,
          ),
        ),
      )

  pub next_range-Serves :
      (rounds : ℕ) (p : RangedPosition) (s : Bytes)
      → length xs - p.index < rounds
      → IsAtRange part xs p s
      → Serves F rest finish_count (IsAtRange part xs) s (next_range a rounds p)
  unfolding next_range
  next_range-Serves zero p s h g = absurd (omega arith)
  next_range-Serves (suc rounds) p s h (e, c, l, q) =
      if-cases (Serves F rest finish_count (IsAtRange part xs) s) (p.remaining == 0) _ _
        (λ z. (refl, q ∙ nothing p.remaining _ z, (e, c, l, q)))
        (λ r.
          if-cases (Serves F rest finish_count (IsAtRange part xs) s)
            (leb (length p.parts.ends) p.index) _ _ (λ past. absurd (beyond r past))
            (λ within.
              if-cases (Serves F rest finish_count (IsAtRange part xs) s) (available p == 0) _ _
                (λ z.
                  next_range-Serves rounds (skip_part p) s (omega (arith, inside within))
                    (skip_part-IsAtRange p s (e, c, l, q) (inside within) (is_zero _ z)))
                (λ z.
                  request-Serves p s (e, c, l, q) (inside within) (is_positive _ z)
                    (is_positive _ r))))
    where
      nothing : (n : ℕ) (b : Bytes) → (n == 0) ≡ true → take n b ≡ []
      nothing n b z = let k : n ≡ 0 = ground arith in ap (λ m. take m b) k

      is_zero : (n : ℕ) → (n == 0) ≡ true → n ≡ 0
      is_zero n z = ground arith

      is_positive : (n : ℕ) → (n == 0) ≡ false → n ≢ 0
      is_positive n z = ground arith

      ends : length p.parts.ends ≡ length xs
      ends = ap (λ parts. length parts.ends) e ∙ length-ends 0 xs

      less : (n m i : ℕ) → n ≡ m → leb n i ≡ false → i < m
      less n m i k z = ground arith

      more : (n m i : ℕ) → n ≡ m → leb n i ≡ true → m ≤ i
      more n m i k z = ground arith

      inside : leb (length p.parts.ends) p.index ≡ false → p.index < length xs
      inside z = less _ _ p.index ends z

      beyond : (p.remaining == 0) ≡ false → ¬ (leb (length p.parts.ends) p.index ≡ true)
      beyond r z =
          is_positive p.remaining r
            (omega (arith, l, length-tail_end part xs p.index (more _ _ p.index ends z)))
