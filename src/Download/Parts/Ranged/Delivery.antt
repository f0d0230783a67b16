-- ===== src/Download/Parts/Ranged/Delivery.antt =====
-- What the reader of internal/cache/ranged_parts_reader.go delivers of a payload, by the index of its
-- parts from internal/cache/part_index.go.
use git_hub_action_cache_ser.Prelude.{
  ℕ, zero, suc, ◌+◌, ◌-◌, ◌≤◌, ◌<◌, ◌≡◌, ◌≢◌, refl, ap, subst, sym, ◌∙◌, inl, inr, ◌⊎◌, true, false,
  Option, none, some, List, ◌++◌, append-nil, append_assoc, All, length, take, drop, leb, ◌==◌,
  if-cases, arith, length-append, drop-length_add,
}
use git_hub_action_cache_ser.Db.{Bytes}
use git_hub_action_cache_ser.Download.PartIndex.{
  PartIndex, max_int64, new_part_index, SortSearch, locate,
}
use git_hub_action_cache_ser.Download.PartIndex.Boundaries.{
  sum, sum_before, positives, sum_before-suc, sum_before-length, length-ends,
  new_part_index-positives,
}
use git_hub_action_cache_ser.Download.PartIndex.Location.{index_of_sizes, IsInPart, locate-part}
use git_hub_action_cache_ser.Download.Parts.{
  StreamError, eof, out_of_rounds, Adapter, PartsReader, Request, refused, request, wraps_eof, read,
  read_each,
}
use git_hub_action_cache_ser.Download.Parts.Faithful.{IsFaithful, FailsOnly, IsReliable, payload}
use git_hub_action_cache_ser.Download.Parts.Rounds.{IsForward, IsSame, read-IsSame, open_count}
use git_hub_action_cache_ser.Download.Parts.Streams.{Serves, IsBefore, Gives, GivesAll}
use git_hub_action_cache_ser.Download.Parts.Reading.{read-Gives}
use git_hub_action_cache_ser.Download.Parts.Series.{
  IsWholeRead, GivesAll-IsWholeRead, positive_room, read_each-GivesAll, read_each-rounds,
}
use git_hub_action_cache_ser.Download.Parts.Ranged.{
  RangedPosition, new_ranged_reader, finish_count, ranged_left, available, skip_part, next_range,
  next_stream, read_ranged,
}
use git_hub_action_cache_ser.Download.Parts.Ranged.Positions.{
  HasSizes, IsAtRange, tail_bytes, next_range-Serves,
}

payload-append :
    (part : ℕ → Bytes) (j i m : ℕ)
    → payload part j (i + m) ≡ payload part j i ++ payload part (j + i) m
payload-append part j zero m =
    let e : 0 + m ≡ m = omega arith in
    let k : j ≡ j + 0 = omega arith in ap (payload part j) e ∙ ap (λ n. payload part n m) k
payload-append part j (suc i) m =
    let e : suc i + m ≡ suc (i + m) = omega arith in
    let k : suc j + i ≡ j + suc i = omega arith in
    ap (payload part j) e
    ∙ ap (λ b. part j ++ b) (payload-append part (suc j) i m)
    ∙ sym (append_assoc (part j) (payload part (suc j) i) (payload part (suc j + i) m))
    ∙ ap (λ n. payload part j (suc i) ++ payload part n m) k

module _ (part : ℕ → Bytes) (xs : List ℕ) (sizes : HasSizes part xs) where
  length-payload : (i : ℕ) → i ≤ length xs → length (payload part 0 i) ≡ sum_before xs i
  length-payload zero h = refl
  length-payload (suc i) h = omega (
    arith,
    next,
    ap length (payload-append part 0 i 1),
    one,
    length-append (payload part 0 i) (payload part (0 + i) 1),
    length-payload i (omega arith),
    sum_before-suc xs i,
    sizes i (omega arith),
  )
    where
      one : length (payload part (0 + i) 1) ≡ length (part i)
      one =
          let k : 0 + i ≡ i = omega arith in
          ap (λ n. length (payload part n 1)) k ∙ ap length (append-nil (part i))

      next : length (payload part 0 (suc i)) ≡ length (payload part 0 (i + 1))
      next = let e : suc i ≡ i + 1 = omega arith in ap (λ n. length (payload part 0 n)) e

  payload-split :
      (i : ℕ)
      → i ≤ length xs
      → payload part 0 (length xs) ≡ payload part 0 i ++ tail_bytes part xs i
  payload-split i h =
      let e : length xs ≡ i + (length xs - i) = omega arith in
      let k : 0 + i ≡ i = omega arith in
      ap (payload part 0) e
      ∙ payload-append part 0 i (length xs - i)
      ∙ ap (λ n. payload part 0 i ++ payload part n (length xs - i)) k

  length-tail : (i : ℕ) → i ≤ length xs → sum_before xs i + length (tail_bytes part xs i) ≡ sum xs
  length-tail i h = omega (
    arith,
    ap length (payload-split i h),
    length-append (payload part 0 i) (tail_bytes part xs i),
    length-payload i h,
    length-payload (length xs) (omega arith),
    sum_before-length xs,
  )

  start-IsAtRange :
      (offset count : ℕ) (x : ℕ × ℕ)
      → offset + count ≤ sum xs
      → ((offset < sum xs) × IsInPart xs offset x) ⊎ ((sum xs ≤ offset) × (x ≡ (length xs, 0)))
      → IsAtRange part xs
          (record {
            parts = index_of_sizes xs;
            index = x.0;
            part_offset = x.1;
            remaining = count;
            current_count = 0;
          })
          (take count (drop offset (payload part 0 (length xs))))
  start-IsAtRange offset count (i, inner) l (inl (h, (k, q, r))) = (
    refl,
    λ z. omega (arith, sizes i k),
    omega (arith, length-tail i (omega arith)),
    ap (take count) (
        ap (λ n. drop n (payload part 0 (length xs))) offset_at
        ∙ ap (drop (length (payload part 0 i) + inner)) (payload-split i (omega arith))
        ∙ drop-length_add (payload part 0 i) (tail_bytes part xs i) inner),
  )
    where
      offset_at : offset ≡ length (payload part 0 i) + inner
      offset_at = omega (arith, length-payload i (omega arith))
  start-IsAtRange offset count x l (inr (h, q)) =
      subst
        (λ y.
          IsAtRange part xs
            (record {
              parts = index_of_sizes xs;
              index = y.0;
              part_offset = y.1;
              remaining = count;
              current_count = 0;
            })
            (take count (drop offset (payload part 0 (length xs)))))
        (sym q) (refl, λ z. omega arith, omega arith, nothing)
    where
      nothing :
          take count (drop offset (payload part 0 (length xs)))
          ≡ take count (drop 0 (tail_bytes part xs (length xs)))
      nothing =
          let e : count ≡ 0 = omega arith in
          ap (λ n. take n (drop offset (payload part 0 (length xs)))) e
          ∙ ap (λ n. take n (drop 0 (tail_bytes part xs (length xs)))) (sym e)

wraps_eof-wraps : (e : StreamError) → wraps_eof e ≡ true → wraps_eof e ≡ true
wraps_eof-wraps e h = h

wraps_eof-eof : wraps_eof eof ≡ true
unfolding wraps_eof
wraps_eof-eof = refl

module _ {W T : Type 0} (a : Adapter W T) where
  IsForward-earlier :
      (p q : RangedPosition) (x : Request W T RangedPosition)
      → ranged_left q ≤ ranged_left p
      → IsForward ranged_left q x
      → IsForward ranged_left p x
  IsForward-earlier p q (refused e k) h g = g
  IsForward-earlier p q (request start now later) h g = omega arith

  next_range-IsForward :
      (rounds : ℕ) (p : RangedPosition)
      → ranged_left p < rounds
      → IsForward ranged_left p (next_range a rounds p)
  unfolding next_range
  next_range-IsForward zero p h = absurd (omega arith)
  next_range-IsForward (suc rounds) p h =
      if-cases (IsForward ranged_left p) (p.remaining == 0) _ _ (λ z q. cc)
        (λ z.
          if-cases (IsForward ranged_left p) (leb (length p.parts.ends) p.index) _ _ (λ y q. cc)
            (λ y.
              if-cases (IsForward ranged_left p) (available p == 0) _ _
                (λ v. IsForward-earlier p (skip_part p) _ (omega arith) (
                  next_range-IsForward rounds (skip_part p)
                    (fewer (length p.parts.ends) p.index y h)))
                (λ v. less (length p.parts.ends) p.index y)))
    where
      less : (n i : ℕ) → leb n i ≡ false → suc (n - suc i) ≤ n - i
      less n i y = ground arith

      fewer : (n i : ℕ) → leb n i ≡ false → n - i < suc rounds → n - suc i < rounds
      fewer n i y h = ground arith

  next_stream-IsForward : (p : RangedPosition) → IsForward ranged_left p (next_stream a p)
  unfolding next_stream
  next_stream-IsForward p = next_range-IsForward (suc (ranged_left p)) p (omega arith)

  finish_count-left : (p : RangedPosition) → ranged_left (finish_count p) ≡ ranged_left p
  unfolding finish_count
  finish_count-left p = refl

  -- `Read` of a range into a buffer with room returns for every adapter and every state: with two
  -- rounds more than there are parts to open it does not run out of rounds, and further rounds change
  -- nothing.
  pub read_ranged-IsSame :
      (rounds size : ℕ) (r : PartsReader W T RangedPosition)
      → 0 < size
      → suc (suc (ranged_left r.position)) ≤ rounds
      → IsSame (read_ranged a size r) (read a (next_stream a) finish_count wraps_eof rounds size r)
  unfolding read_ranged
  read_ranged-IsSame rounds size r b h =
      let e : (size == 0) ≡ false = ground arith in
      rw e (
        read-IsSame ranged_left a (next_stream a) finish_count wraps_eof next_stream-IsForward
          finish_count-left _ rounds size r (enough r.current) (omega (arith, enough r.current)))
    where
      enough :
          (o : Option T)
          → ranged_left r.position + open_count o < suc (suc (ranged_left r.position))
      enough none = omega arith
      enough (some t) = omega arith

  read_ranged-rounds :
      (size : ℕ) (r : PartsReader W T RangedPosition) → (read_ranged a size r).1 ≢ out_of_rounds
  unfolding read_ranged
  read_ranged-rounds zero r = λ q. cc
  read_ranged-rounds (suc size) r =
      (read_ranged-IsSame (suc (suc (ranged_left r.position))) (suc size) r (omega arith)
        (omega arith)).1

  module _ (F : Type 0) (part : ℕ → Bytes) (rest : T → Bytes) (xs : List ℕ)
      (sizes : HasSizes part xs) (f : IsFaithful a part rest)
      (u : FailsOnly F a part (length xs)) where
    next_stream-Serves :
        (p : RangedPosition) (s : Bytes)
        → IsAtRange part xs p s
        → Serves F rest finish_count (IsAtRange part xs) s (next_stream a p)
    unfolding next_stream
    next_stream-Serves p s h =
        next_range-Serves F a part rest xs sizes f u (suc (ranged_left p)) p s
          (omega (arith, ap (λ parts. length parts.ends) h.0, length-ends 0 xs)) h

    read_ranged-Gives :
        (size : ℕ) (s : Bytes) (r : PartsReader W T RangedPosition)
        → F ⊎ (0 < size)
        → IsBefore F rest finish_count (IsAtRange part xs) r s
        → Gives F rest finish_count (IsAtRange part xs) s (read_ranged a size r)
    unfolding read_ranged
    read_ranged-Gives zero s r room h = (s, refl, room, h)
    read_ranged-Gives (suc size) s r room h =
        let e : (suc size == 0) ≡ false = ground arith in
        rw e (
          read-Gives F rest finish_count (IsAtRange part xs) a u.stays (next_stream a) wraps_eof
            next_stream-Serves wraps_eof-wraps wraps_eof-eof u.closes u.reads f.reads f.ends
            (suc (suc (ranged_left r.position))) (suc size) s r room h)

    read_ranged_each-GivesAll :
        (sort : SortSearch) (offset count : ℕ) (buffers : List ℕ) (w : W)
        → offset + count ≤ sum xs
        → All (λ size. F ⊎ (0 < size)) buffers
        → GivesAll F rest finish_count
            (IsAtRange part xs)
            (length buffers)
            (take count (drop offset (payload part 0 (length xs))))
            (read_each
              (read_ranged a)
              buffers
              (new_ranged_reader sort (index_of_sizes xs) offset count w))
    unfolding new_ranged_reader
    read_ranged_each-GivesAll sort offset count buffers w h room =
        read_each-GivesAll F rest finish_count (IsAtRange part xs) (read_ranged a) read_ranged-Gives
          buffers _ (new_ranged_reader sort (index_of_sizes xs) offset count w) room
          (inr (
            refl,
            start-IsAtRange part xs sizes offset count (locate sort (index_of_sizes xs) offset) h
                (locate-part xs offset sort),
          ))

    pub any_index :
        (sort : SortSearch) (index : PartIndex) (offset count : ℕ) (buffers : List ℕ) (w : W)
        → sum xs ≤ max_int64
        → new_part_index (positives xs) ≡ some index
        → offset + count ≤ sum xs
        → All (λ size. F ⊎ (0 < size)) buffers
        → GivesAll F rest finish_count
            (IsAtRange part xs)
            (length buffers)
            (take count (drop offset (payload part 0 (length xs))))
            (read_each (read_ranged a) buffers (new_ranged_reader sort index offset count w))
    any_index sort index offset count buffers w m e h room =
        subst
          (λ (i : PartIndex).
            GivesAll F rest finish_count (IsAtRange part xs) (length buffers)
              (take count (drop offset (payload part 0 (length xs))))
              (read_each (read_ranged a) buffers (new_ranged_reader sort i offset count w)))
          (some-injective (sym (new_part_index-positives xs m) ∙ e))
          (read_ranged_each-GivesAll sort offset count buffers w h room)
      where
        some-injective : {i j : PartIndex} → some i ≡ some j → i ≡ j
        some-injective e = cc

-- Where moreover no call of the adapter fails and nobody closes the reader, more reads into buffers
-- with room than the range has bytes give exactly the range's bytes and end with `io.EOF`.
pub read_ranged_each-IsWholeRead :
    {W T : Type 0} (a : Adapter W T) (part : ℕ → Bytes) (rest : T → Bytes)
    → IsFaithful a part rest
    → (sort : SortSearch) (xs : List ℕ) (index : PartIndex) → IsReliable a part (length xs)
    → HasSizes part xs
    → sum xs ≤ max_int64
    → new_part_index (positives xs) ≡ some index
    → (offset count : ℕ) (buffers : List ℕ) (w : W) → offset + count ≤ sum xs
    → All (λ size. 0 < size) buffers
    → length (take count (drop offset (payload part 0 (length xs)))) < length buffers
    → IsWholeRead
        (take count (drop offset (payload part 0 (length xs))))
        (read_each (read_ranged a) buffers (new_ranged_reader sort index offset count w))
read_ranged_each-IsWholeRead a part rest f sort xs index u sizes m e offset count buffers w h room
      l =
    GivesAll-IsWholeRead rest finish_count (IsAtRange part xs) (length buffers) _
      (read_each (read_ranged a) buffers (new_ranged_reader sort index offset count w)) l
      (any_index a ⊥ part rest xs sizes f u sort index offset count buffers w m e h
        (positive_room buffers room))
      (read_each-rounds (read_ranged a) (read_ranged-rounds a) buffers _)
