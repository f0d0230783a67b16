-- ===== src/Download/ExactLength/Reads.antt =====
-- Series of reads from the reader of internal/storage/storage.go.
use git_hub_action_cache_ser.Prelude.{
  ℕ, ◌+◌, ◌-◌, ◌≤◌, ◌≡◌, refl, true, List, [], ◌∷◌, if◌then◌else◌, ltb, ◌==◌, length, length-append,
  arith, Bool-cases, inl, inr, ◌⊎◌, ◌≢◌,
}
use git_hub_action_cache_ser.Db.{Bytes}
use git_hub_action_cache_ser.Download.ExactLength.{
  ReadError, no_error, eof, unexpected_eof, other_error, ExactLengthReader, after_read, exact_read,
  then_read, read_each,
}

module _ {S : Type 0} (read : ℕ → S → Bytes × ReadError × S) where
  -- The bytes and what remains add up to what remained, and nothing does at an end.
  abbrev IsExact : ℕ → Bytes × ReadError × ExactLengthReader S → Type 0
  IsExact before (bytes, e, r) = (length bytes + r.remaining ≡ before) × (e ≡ eof → r.remaining ≡ 0)

  after_read-IsExact :
      (before : ℕ) (bytes : Bytes) (e : ReadError) (s : S)
      → length bytes ≤ before
      → IsExact before (after_read read (before - length bytes) (bytes, e, s))
  after_read-IsExact before bytes eof s h = elim (Bool-cases (before - length bytes == 0)) [
    | inl q ↦ rw q (omega arith, λ e. ground arith)
    | inr q ↦ rw q (omega arith, λ e. absurd (not_eof e))
  ]
    where
      not_eof : ¬ (unexpected_eof ≡ eof)
      not_eof e = cc
  after_read-IsExact before bytes no_error s h = (omega arith, λ e. absurd (differ e))
    where
      differ : ¬ (no_error ≡ eof)
      differ e = cc
  after_read-IsExact before bytes unexpected_eof s h = (omega arith, λ e. absurd (differ e))
    where
      differ : ¬ (unexpected_eof ≡ eof)
      differ e = cc
  after_read-IsExact before bytes other_error s h = (omega arith, λ e. absurd (differ e))
    where
      differ : ¬ (other_error ≡ eof)
      differ e = cc

  module _ (contract : (size : ℕ) (s : S) → length (read size s).0 ≤ size) where
    exact_read-IsExact :
        (size : ℕ) (r : ExactLengthReader S) → IsExact r.remaining (exact_read read size r)
    unfolding exact_read
    exact_read-IsExact size r = elim (Bool-cases (r.remaining == 0)) [
      | inl q ↦ rw q (omega arith, λ e. zero_of r.remaining q)
      | inr q ↦
          rw q
            (after_read-IsExact r.remaining _ _ _ (within size r.remaining (contract _ r.reader)))
    ]
      where
        zero_of : (n : ℕ) → (n == 0) ≡ true → n ≡ 0
        zero_of n h = ground arith

        within : (size n : ℕ) {k : ℕ} → k ≤ (if ltb n size then n else size) → k ≤ n
        within size n h = ground arith

    then_read-IsExact :
        (before : ℕ) (x rest : Bytes × ReadError × ExactLengthReader S)
        → IsExact before x
        → IsExact x.2.remaining rest
        → IsExact before (then_read read x rest)
    then_read-IsExact before (bytes, no_error, r) (more, e, r') h g =
        (omega (arith, length-append bytes more, h.0, g.0), g.1)
    then_read-IsExact before (bytes, eof, r) rest h g = h
    then_read-IsExact before (bytes, unexpected_eof, r) rest h g = h
    then_read-IsExact before (bytes, other_error, r) rest h g = h

    read_each-IsExact :
        (sizes : List ℕ) (r : ExactLengthReader S) → IsExact r.remaining (read_each read sizes r)
    unfolding read_each
    read_each-IsExact [] r = (omega arith, λ e. absurd (differ e))
      where
        differ : ¬ (no_error ≡ eof)
        differ e = cc
    read_each-IsExact (size ∷ sizes) r =
        then_read-IsExact r.remaining (exact_read read size r) _ (exact_read-IsExact size r)
          (read_each-IsExact sizes (exact_read read size r).2)

    -- A stream for `count` bytes over a reader that fills no more than its buffer: what a series of
    -- reads gives is never more than `count` bytes, and is exactly `count` where it ends with `io.EOF`,
    -- so no truncated object passes for a whole one.
    pub read_each-exact :
        (sizes : List ℕ) (s : S) (count : ℕ)
        → (length (read_each read sizes (record { reader = s; remaining = count })).0 ≤ count)
          × (((read_each read sizes (record { reader = s; remaining = count })).1 ≢ eof)
              ⊎ (length (read_each read sizes (record { reader = s; remaining = count })).0
                  ≡ count))
    read_each-exact sizes s count =
        go (read_each read sizes (record { reader = s; remaining = count }))
          (read_each-IsExact sizes (record { reader = s; remaining = count }))
      where
        go :
            (x : Bytes × ReadError × ExactLengthReader S)
            → IsExact count x
            → (length x.0 ≤ count) × ((x.1 ≢ eof) ⊎ (length x.0 ≡ count))
        go (bytes, eof, r) h = (omega (arith, h.0), inr (omega (arith, h.0, h.1 refl)))
        go (bytes, no_error, r) h = (omega (arith, h.0), inl (λ e. cc))
        go (bytes, unexpected_eof, r) h = (omega (arith, h.0), inl (λ e. cc))
        go (bytes, other_error, r) h = (omega (arith, h.0), inl (λ e. cc))
