-- ===== src/Download/Parts/Ranged.antt =====
-- `rangedPartsReadCloser` of internal/cache/ranged_parts_reader.go: a range of the payload that the
-- parts of a folder make.
pub mod Positions
pub mod Delivery
use git_hub_action_cache_ser.Prelude.{
  ℕ, zero, suc, ◌+◌, ◌-◌, min, none, false, List, [], if◌then◌else◌, leb, ◌==◌, length,
}
use git_hub_action_cache_ser.Download.PartIndex.{PartIndex, SortSearch, locate, part_size}
use git_hub_action_cache_ser.Download.Parts.{
  Adapter, PartsReader, ReaderError, stream_error, unexpected_eof, out_of_rounds, no_error, eof,
  Request, refused, request, CurrentStream, ReadResult, wraps_eof, current_stream, read,
}

pub record RangedPosition : Type 0 where
  pub parts : PartIndex
  pub index : ℕ
  pub part_offset : ℕ
  pub remaining : ℕ
  pub current_count : ℕ

-- `newRangedPartsReadCloser`, for the range of `count` bytes at an offset
unfoldable pub new_ranged_reader :
    {W T : Type 0} → SortSearch → PartIndex → ℕ → ℕ → W → PartsReader W T RangedPosition
new_ranged_reader sort parts offset count storage =
    let (index, part_offset) = locate sort parts offset in
    record {
      position = record {
        parts = parts;
        index = index;
        part_offset = part_offset;
        remaining = count;
        current_count = 0;
      };
      current = none;
      closed = false;
      storage = storage;
    }

-- What `finishPart` does to the counts.
unfoldable pub finish_count : RangedPosition → RangedPosition
finish_count p = record p { remaining = p.remaining - p.current_count; current_count = 0 }

-- The parts that are left to open.
abbrev pub ranged_left : RangedPosition → ℕ
ranged_left p = length p.parts.ends - p.index

abbrev pub available : RangedPosition → ℕ
available p = part_size p.parts p.index - p.part_offset

abbrev pub skip_part : RangedPosition → RangedPosition
skip_part p = record p { index = suc p.index; part_offset = 0 }

module _ {W T : Type 0} (a : Adapter W T) where
  -- The loop of `currentStream` where no stream is open, with the rounds that remain.
  unfoldable pub next_range : ℕ → RangedPosition → Request W T RangedPosition
  next_range zero p = refused out_of_rounds p
  next_range (suc rounds) p =
      let skipped = next_range rounds (skip_part p) in
      if p.remaining == 0
      then refused (stream_error eof) p
      else if leb (length p.parts.ends) p.index
      then refused unexpected_eof p
      else if available p == 0
      then skipped
      else request (a.open_range p.index p.part_offset (min (available p) p.remaining)) p
          (record p {
            index = suc p.index;
            part_offset = 0;
            current_count = min (available p) p.remaining;
          })

  -- With a round for each part that is left, and one for the end.
  unfoldable pub next_stream : RangedPosition → Request W T RangedPosition
  next_stream p = next_range (suc (ranged_left p)) p

  unfoldable pub ranged_current_stream :
      PartsReader W T RangedPosition → CurrentStream W T RangedPosition
  ranged_current_stream = current_stream a next_stream finish_count wraps_eof

  -- `Read`: the rounds are enough for each part that is left, the open stream and the end.
  unfoldable pub read_ranged : ℕ → PartsReader W T RangedPosition → ReadResult W T RangedPosition
  read_ranged size r =
      if size == 0
      then ([], stream_error no_error, r)
      else read a next_stream finish_count wraps_eof (suc (suc (ranged_left r.position))) size r
