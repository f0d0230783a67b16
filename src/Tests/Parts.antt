-- ===== src/Tests/Parts.antt =====
-- A folder of three parts, one of them empty, in a storage that keeps its objects in memory.
use git_hub_action_cache_ser.Prelude.{
  ℕ, zero, suc, ◌≤◌, ◌<◌, ◌≡◌, refl, ap, inl, inr, ◌⊎◌, true, false, List, [], ◌∷◌, ◌++◌, some,
  take, drop, arith,
}
use git_hub_action_cache_ser.Db.{Bytes, codes}
use git_hub_action_cache_ser.Download.PartIndex.{
  new_part_index, add_sizes, locate, locate_part, part_size,
}
use git_hub_action_cache_ser.Download.PartIndex.Boundaries.{positives}
use git_hub_action_cache_ser.Download.PartIndex.Location.{index_of_sizes}
use git_hub_action_cache_ser.Download.Parts.{
  Adapter, opened, StreamError, no_error, eof, wraps_eof, is_eof, read_each, read, read_current,
  current_stream, from_current, serve, after_open, settle, close, close_current, on_read,
  at_part_end, after_read, finish_part, PartsReader, stream_error,
}
use git_hub_action_cache_ser.Download.Parts.Faithful.{IsFaithful, IsProgress, IsReliable, payload}
use git_hub_action_cache_ser.Download.Parts.Series.{IsWholeRead}
use git_hub_action_cache_ser.Download.Parts.Rounds.{IsSame}
use git_hub_action_cache_ser.Download.Parts.Whole.{
  read_parts, new_parts_reader, next_part, keep_position,
}
use git_hub_action_cache_ser.Download.Parts.Whole.Delivery.{read_parts_each-IsWholeRead}
use git_hub_action_cache_ser.Download.Parts.Ranged.{
  RangedPosition, ranged_left, read_ranged, new_ranged_reader, next_stream, next_range,
  finish_count,
}
use git_hub_action_cache_ser.Download.Parts.Ranged.Positions.{HasSizes}
use git_hub_action_cache_ser.Download.Parts.Ranged.Delivery.{
  read_ranged-IsSame, read_ranged_each-IsWholeRead,
}
use git_hub_action_cache_ser.Tests.Downloads.{search_from_front, linear}

abbrev part : ℕ → Bytes
part zero = codes "ab"
part (suc zero) = []
part (suc (suc i)) = codes "cde"

abbrev memory_read : ℕ → Bytes → ℕ → Bytes × StreamError × Bytes × ℕ
memory_read size [] w = ([], eof, [], w)
memory_read size (b ∷ t) w = (take size (b ∷ t), no_error, drop size (b ∷ t), w)

-- The state counts the openings; the stream is what is left of its text.
abbrev memory : Adapter ℕ Bytes
memory = record {
  open_part = λ i w. (opened (part i), suc w);
  open_range = λ i offset count w. (opened (take count (drop offset (part i))), suc w);
  read = memory_read;
  close = λ t w. (false, w);
  closing = λ w. false;
}

abbrev left_of : Bytes → Bytes
left_of t = t

take-drop : (n : ℕ) (s : Bytes) → s ≡ take n s ++ drop n s
take-drop zero s = refl
take-drop (suc n) [] = refl
take-drop (suc n) (b ∷ s) = ap (λ t. b ∷ t) (take-drop n s)

memory_read-takes :
    (size : ℕ) (t : Bytes) (w : ℕ) → t ≡ (memory_read size t w).0 ++ (memory_read size t w).2
memory_read-takes size [] w = refl
memory_read-takes size (b ∷ t) w = take-drop size (b ∷ t)

memory_read-ends :
    (size : ℕ) (t : Bytes) (w : ℕ)
    → wraps_eof (memory_read size t w).1 ≡ true
    → (memory_read size t w).2 ≡ []
unfolding wraps_eof
memory_read-ends size [] w h = refl
memory_read-ends size (b ∷ t) w h = cc

injected : (s t : Bytes) → opened s ≡ opened t → t ≡ s
injected s t h = cc

memory-IsFaithful : IsFaithful memory part left_of
memory-IsFaithful = record {
  whole = λ i w t h. injected (part i) t h;
  ranged = λ i offset count w t l h. injected (take count (drop offset (part i))) t h;
  reads = memory_read-takes;
  ends = memory_read-ends;
}

memory-IsReliable : IsReliable memory part 3
memory-IsReliable = record {
  whole = λ i w h. tt;
  ranged = λ i offset count w h l. tt;
  reads = progress;
  closes = λ t w h. cc;
  stays = λ w h. cc;
}
  where
    progress :
        (size : ℕ) (t : Bytes) (w : ℕ)
        → ⊥ ⊎ (0 < size)
        → IsProgress ⊥ ((memory_read size t w).0, (memory_read size t w).1)
    progress size [] w h = tt
    progress zero (b ∷ t) w (inl h) = absurd h
    progress zero (b ∷ t) w (inr h) = absurd (omega arith)
    progress (suc size) (b ∷ t) w h = inr (omega arith)

abbrev part_sizes : List ℕ
part_sizes = 2 ∷ 0 ∷ 3 ∷ []

memory-HasSizes : HasSizes part part_sizes
memory-HasSizes zero h = refl
memory-HasSizes (suc zero) h = refl
memory-HasSizes (suc (suc zero)) h = refl
memory-HasSizes (suc (suc (suc i))) h = absurd (omega arith)

abbrev buffers : List ℕ
buffers = 2 ∷ 2 ∷ 2 ∷ 2 ∷ 2 ∷ 2 ∷ []

read_parts_each-run :
    ((read_each (read_parts memory) buffers (new_parts_reader 3 0)).0 ≡ codes "abcde")
    × ((read_each (read_parts memory) buffers (new_parts_reader 3 0)).1 ≡ stream_error eof)
unfolding read_each read_parts read read_current current_stream from_current serve after_open settle
    close close_current on_read at_part_end after_read finish_part next_part keep_position is_eof
    new_parts_reader
read_parts_each-run = (refl, refl)

read_parts_each-IsWholeRead_example :
    IsWholeRead (payload part 0 3) (read_each (read_parts memory) buffers (new_parts_reader 3 0))
read_parts_each-IsWholeRead_example =
    read_parts_each-IsWholeRead memory part left_of memory-IsFaithful 3 memory-IsReliable buffers 0
      (omega arith) (omega arith)

sizes_index : new_part_index (positives part_sizes) ≡ some (index_of_sizes part_sizes)
unfolding new_part_index add_sizes
sizes_index = refl

abbrev middle : PartsReader ℕ Bytes RangedPosition
middle = new_ranged_reader search_from_front (index_of_sizes part_sizes) 1 3 0

-- Three bytes from the second on: the last of the first part, and two of the third.
read_ranged_each-run :
    ((read_each (read_ranged memory) buffers middle).0 ≡ codes "bcd")
    × ((read_each (read_ranged memory) buffers middle).1 ≡ stream_error eof)
unfolding read_each read_ranged read read_current current_stream from_current serve after_open
    settle close close_current on_read at_part_end after_read finish_part next_stream next_range
    finish_count wraps_eof new_ranged_reader locate locate_part linear part_size
read_ranged_each-run = (refl, refl)

middle-left : suc (suc (ranged_left middle.position)) ≤ 9
unfolding new_ranged_reader locate locate_part linear
middle-left = omega arith

read_ranged-IsSame_example :
    IsSame
      (read_ranged memory 2 middle)
      (read memory (next_stream memory) finish_count wraps_eof 9 2 middle)
read_ranged-IsSame_example = read_ranged-IsSame memory 9 2 middle (omega arith) middle-left

read_ranged_each-IsWholeRead_example :
    IsWholeRead (take 3 (drop 1 (payload part 0 3))) (read_each (read_ranged memory) buffers middle)
read_ranged_each-IsWholeRead_example =
    read_ranged_each-IsWholeRead memory part left_of memory-IsFaithful search_from_front part_sizes
      (index_of_sizes part_sizes) memory-IsReliable memory-HasSizes (omega arith) sizes_index 1 3
      buffers 0 (omega arith) (omega arith) (omega arith)
