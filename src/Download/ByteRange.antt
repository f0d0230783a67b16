-- ===== src/Download/ByteRange.antt =====
-- internal/cache/byte_range.go: the byte ranges of a request against the size of the payload. The
-- numbers are `int64`; no sum or difference below leaves that type, since each result lies between
-- 0 and the size.
pub mod Selection
use git_hub_action_cache_ser.Prelude.{
  ℕ, ◌+◌, ◌-◌, Bool, ◌||◌, List, [], ◌∷◌, if◌then◌else◌, ltb, leb, ◌==◌, min,
}
use git_hub_action_cache_ser.Prelude.Int.{ℤ, pos, negsuc}

pub data ByteRangeKind : Type 0 where
  closed_byte_range open_ended_byte_range suffix_byte_range : ByteRangeKind
  -- any other value of the kind's `uint8`
  other_kind : ByteRangeKind

pub record ByteRange : Type 0 where
  pub kind : ByteRangeKind
  pub first : ℤ
  pub last : ℤ
  pub suffix : ℤ

pub record DownloadRange : Type 0 where
  pub offset : ℕ
  pub count : ℕ

pub data Resolution : Type 0 where
  resolved : DownloadRange → Resolution
  invalid : Resolution
  -- `RangeNotSatisfiableError` with its size
  not_satisfiable : ℕ → Resolution

unfoldable pub closed_byte_range_of : ℤ → ℤ → ByteRange
closed_byte_range_of first last = record {
  kind = closed_byte_range;
  first = first;
  last = last;
  suffix = pos 0;
}

unfoldable pub open_ended_byte_range_of : ℤ → ByteRange
open_ended_byte_range_of first = record {
  kind = open_ended_byte_range;
  first = first;
  last = pos 0;
  suffix = pos 0;
}

unfoldable pub suffix_byte_range_of : ℤ → ByteRange
suffix_byte_range_of length = record {
  kind = suffix_byte_range;
  first = pos 0;
  last = pos 0;
  suffix = length;
}

-- One candidate: an error, the answer, or `continue`.
pub data Candidate : Type 0 where
  fails : Candidate
  skips : Candidate
  answers : DownloadRange → Candidate

abbrev resolve_closed : ℕ → ℤ → ℤ → Candidate
resolve_closed size (pos first) (pos last) =
    if ltb last first
    then fails
    else if leb size first
    then skips
    else answers (record { offset = first; count = min last (size - 1) - first + 1 })
resolve_closed size _ _ = fails

abbrev resolve_open_ended : ℕ → ℤ → Candidate
resolve_open_ended size (pos first) =
    if leb size first then skips else answers (record { offset = first; count = size - first })
resolve_open_ended size (negsuc n) = fails

abbrev resolve_suffix : ℕ → ℤ → Candidate
resolve_suffix size (pos suffix) =
    if suffix == 0 || size == 0
    then skips
    else answers (record { offset = size - min suffix size; count = min suffix size })
resolve_suffix size (negsuc n) = fails

abbrev resolve_kind : ByteRangeKind → ℕ → ByteRange → Candidate
resolve_kind closed_byte_range size r = resolve_closed size r.first r.last
resolve_kind open_ended_byte_range size r = resolve_open_ended size r.first
resolve_kind suffix_byte_range size r = resolve_suffix size r.suffix
resolve_kind other_kind size r = fails

unfoldable pub resolve_candidate : ℕ → ByteRange → Candidate
resolve_candidate size r = resolve_kind r.kind size r

-- The loop over the candidates.
unfoldable pub resolve_from : ℕ → List ByteRange → Resolution
resolve_from size [] = not_satisfiable size
resolve_from size (r ∷ rs) = elim (resolve_candidate size r) [
  | fails ↦ invalid
  | answers d ↦ resolved d
  | skips ↦ resolve_from size rs
]

-- `resolveByteRanges`
unfoldable pub resolve_byte_ranges : List ByteRange → ℤ → Resolution
resolve_byte_ranges rs (negsuc n) = invalid
resolve_byte_ranges rs (pos size) = resolve_from size rs
