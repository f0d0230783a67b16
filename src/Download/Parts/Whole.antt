-- ===== src/Download/Parts/Whole.antt =====
-- `partsReadCloser` of internal/cache/parts_reader.go: the parts of a folder, one after the other.
pub mod Delivery
use git_hub_action_cache_ser.Prelude.{ℕ, suc, ◌+◌, ◌-◌, none, false, List, if◌then◌else◌, leb}
use git_hub_action_cache_ser.Download.Parts.{
  Adapter, PartsReader, ReaderError, stream_error, eof, Request, refused, request, CurrentStream,
  ReadResult, is_eof, current_stream, finish_part, read,
}

pub record PartsPosition : Type 0 where
  pub part_count : ℕ
  pub index : ℕ

-- `newPartsReadCloser`
unfoldable pub new_parts_reader : {W T : Type 0} → ℕ → W → PartsReader W T PartsPosition
new_parts_reader part_count storage = record {
  position = record { part_count = part_count; index = 0 };
  current = none;
  closed = false;
  storage = storage;
}

unfoldable pub keep_position : PartsPosition → PartsPosition
keep_position p = p

-- The parts that are left to open.
abbrev pub parts_left : PartsPosition → ℕ
parts_left p = p.part_count - p.index

module _ {W T : Type 0} (a : Adapter W T) where
  -- The part that `currentStream` opens.
  unfoldable pub next_part : PartsPosition → Request W T PartsPosition
  next_part p =
      if leb p.part_count p.index
      then refused (stream_error eof) p
      else request (a.open_part p.index) p (record p { index = suc p.index })

  unfoldable pub parts_current_stream :
      PartsReader W T PartsPosition → CurrentStream W T PartsPosition
  parts_current_stream = current_stream a next_part keep_position is_eof

  -- `Read`: the rounds are enough for each part that is left, the open stream and the end.
  unfoldable pub read_parts : ℕ → PartsReader W T PartsPosition → ReadResult W T PartsPosition
  read_parts size r =
      read a next_part keep_position is_eof (suc (suc (parts_left r.position))) size r
