-- ===== src/Download/Parts/Whole/Delivery.antt =====
-- What the reader of internal/cache/parts_reader.go delivers of a folder.
use git_hub_action_cache_ser.Prelude.{
  ℕ, suc, ◌+◌, ◌-◌, ◌≤◌, ◌<◌, ◌≡◌, ◌≢◌, refl, ap, ◌∙◌, inr, ◌⊎◌, true, false, List, [], ◌++◌, All,
  length, leb, if-cases, Option, none, some, sym, arith,
}
use git_hub_action_cache_ser.Db.{Bytes}
use git_hub_action_cache_ser.Download.Parts.{
  StreamError, no_error, eof, wrapped_eof, failed, out_of_rounds, Adapter, PartsReader, is_eof,
  wraps_eof, read, read_each,
}
use git_hub_action_cache_ser.Download.Parts.Faithful.{IsFaithful, FailsOnly, IsReliable, payload}
use git_hub_action_cache_ser.Download.Parts.Rounds.{IsForward, IsSame, read-IsSame, open_count}
use git_hub_action_cache_ser.Download.Parts.Streams.{Serves, IsBefore, Gives, GivesAll}
use git_hub_action_cache_ser.Download.Parts.Reading.{read-Gives}
use git_hub_action_cache_ser.Download.Parts.Series.{
  IsWholeRead, GivesAll-IsWholeRead, positive_room, read_each-GivesAll, read_each-rounds,
}
use git_hub_action_cache_ser.Download.Parts.Whole.{
  PartsPosition, new_parts_reader, keep_position, parts_left, next_part, read_parts,
}

abbrev IsAtPart : (ℕ → Bytes) → ℕ → PartsPosition → Bytes → Type 0
IsAtPart part n p s = (p.part_count ≡ n) × (s ≡ payload part p.index (n - p.index))

payload-step :
    (part : ℕ → Bytes) (i n : ℕ)
    → i < n
    → payload part i (n - i) ≡ part i ++ payload part (suc i) (n - suc i)
payload-step part i n h =
    let e : n - i ≡ suc (n - suc i) = omega arith in ap (λ k. payload part i k) e

payload-end : (part : ℕ → Bytes) (i n : ℕ) → n ≤ i → payload part i (n - i) ≡ []
payload-end part i n h = let e : n - i ≡ 0 = omega arith in ap (λ k. payload part i k) e

is_eof-wraps : (e : StreamError) → is_eof e ≡ true → wraps_eof e ≡ true
unfolding is_eof wraps_eof
is_eof-wraps eof h = refl
is_eof-wraps no_error h = cc
is_eof-wraps wrapped_eof h = cc
is_eof-wraps failed h = cc

is_eof-eof : is_eof eof ≡ true
unfolding is_eof
is_eof-eof = refl

module _ {W T : Type 0} (a : Adapter W T) where
  next_part-IsForward : (p : PartsPosition) → IsForward parts_left p (next_part a p)
  unfolding next_part
  next_part-IsForward p =
      if-cases (IsForward parts_left p) (leb p.part_count p.index) _ _ (λ e q. cc)
        (λ e. ground arith)

  keep_position-left : (p : PartsPosition) → parts_left (keep_position p) ≡ parts_left p
  unfolding keep_position
  keep_position-left p = refl

  -- `Read` returns for every adapter and state: with two rounds more than there are parts to open it
  -- does not run out of rounds, and further rounds change nothing.
  read_parts-IsSame :
      (rounds size : ℕ) (r : PartsReader W T PartsPosition)
      → suc (suc (parts_left r.position)) ≤ rounds
      → IsSame (read_parts a size r) (read a (next_part a) keep_position is_eof rounds size r)
  unfolding read_parts
  read_parts-IsSame rounds size r h =
      read-IsSame parts_left a (next_part a) keep_position is_eof next_part-IsForward
        keep_position-left _ rounds size r (enough r.current) (omega (arith, enough r.current))
    where
      enough :
          (o : Option T) → parts_left r.position + open_count o < suc (suc (parts_left r.position))
      enough none = omega arith
      enough (some t) = omega arith

  read_parts-rounds :
      (size : ℕ) (r : PartsReader W T PartsPosition) → (read_parts a size r).1 ≢ out_of_rounds
  read_parts-rounds size r =
      (read_parts-IsSame (suc (suc (parts_left r.position))) size r (omega arith)).1

  module _ (F : Type 0) (part : ℕ → Bytes) (rest : T → Bytes) (n : ℕ) (f : IsFaithful a part rest)
      (u : FailsOnly F a part n) where
    next_part-Serves :
        (p : PartsPosition) (s : Bytes)
        → IsAtPart part n p s
        → Serves F rest keep_position (IsAtPart part n) s (next_part a p)
    unfolding next_part keep_position
    next_part-Serves p s (c, e) =
        if-cases (Serves F rest keep_position (IsAtPart part n) s) (leb p.part_count p.index) _ _
          (λ l. (refl, e ∙ payload-end part p.index n (past p.part_count p.index c l), (c, e)))
          (λ l.
            let within : p.index < n = inside p.part_count p.index c l in
            (
              (c, e),
              λ w. u.whole p.index w within,
              λ w t o. (
                payload part (suc p.index) (n - suc p.index),
                e
                    ∙ payload-step part p.index n within
                    ∙ ap (λ b. b ++ payload part (suc p.index) (n - suc p.index))
                        (sym (f.whole p.index w t o)),
                (c, refl),
              ),
            ))
      where
        past : (k i : ℕ) → k ≡ n → leb k i ≡ true → n ≤ i
        past k i c l = ground arith

        inside : (k i : ℕ) → k ≡ n → leb k i ≡ false → i < n
        inside k i c l = ground arith

    read_parts-Gives :
        (size : ℕ) (s : Bytes) (r : PartsReader W T PartsPosition)
        → F ⊎ (0 < size)
        → IsBefore F rest keep_position (IsAtPart part n) r s
        → Gives F rest keep_position (IsAtPart part n) s (read_parts a size r)
    unfolding read_parts
    read_parts-Gives size s r room h =
        read-Gives F rest keep_position (IsAtPart part n) a u.stays (next_part a) is_eof
          next_part-Serves is_eof-wraps is_eof-eof u.closes u.reads f.reads f.ends _ size s r room h

    read_parts_each-GivesAll :
        (sizes : List ℕ) (w : W)
        → All (λ size. F ⊎ (0 < size)) sizes
        → GivesAll F rest keep_position
            (IsAtPart part n)
            (length sizes)
            (payload part 0 n)
            (read_each (read_parts a) sizes (new_parts_reader n w))
    unfolding new_parts_reader
    read_parts_each-GivesAll sizes w room =
        read_each-GivesAll F rest keep_position (IsAtPart part n) (read_parts a) read_parts-Gives
          sizes (payload part 0 n) (new_parts_reader n w) room (inr (refl, (refl, from_start)))
      where
        from_start : payload part 0 n ≡ payload part 0 (n - 0)
        from_start = let e : n ≡ n - 0 = omega arith in ap (payload part 0) e

-- Where no call of the adapter fails and nobody closes the reader, more reads into buffers with room
-- than the parts have bytes give all the parts' bytes in order and end with `io.EOF`.
pub read_parts_each-IsWholeRead :
    {W T : Type 0} (a : Adapter W T) (part : ℕ → Bytes) (rest : T → Bytes)
    → IsFaithful a part rest
    → (part_count : ℕ) → IsReliable a part part_count
    → (sizes : List ℕ) (w : W) → All (λ size. 0 < size) sizes
    → length (payload part 0 part_count) < length sizes
    → IsWholeRead
        (payload part 0 part_count)
        (read_each (read_parts a) sizes (new_parts_reader part_count w))
read_parts_each-IsWholeRead a part rest f n u sizes w room h =
    GivesAll-IsWholeRead rest keep_position (IsAtPart part n) (length sizes) (payload part 0 n)
      (read_each (read_parts a) sizes (new_parts_reader n w)) h
      (read_parts_each-GivesAll a ⊥ part rest n f u sizes w (positive_room sizes room))
      (read_each-rounds (read_parts a) (read_parts-rounds a) sizes (new_parts_reader n w))
