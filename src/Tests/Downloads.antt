-- ===== src/Tests/Downloads.antt =====
-- Ranges and parts of a payload.
use git_hub_action_cache_ser.Prelude.{
  some, any, ℕ, zero, suc, ◌+◌, ◌≤◌, ◌<◌, ◌≡◌, refl, ◌⊎◌, subst, inl, inr, Bool-cases, Bool, true,
  false, List, [], ◌∷◌, if◌then◌else◌, arith,
}
use git_hub_action_cache_ser.Prelude.Int.{pos}
use git_hub_action_cache_ser.Download.ByteRange.{
  closed_byte_range, suffix_byte_range, ByteRange, closed_byte_range_of, suffix_byte_range_of,
  resolve_byte_ranges,
}
use git_hub_action_cache_ser.Download.ByteRange.Selection.{Explains, resolve_byte_ranges-explained}
use git_hub_action_cache_ser.Download.PartIndex.{SortSearch, new_part_index, locate, locate_part}
use git_hub_action_cache_ser.Download.PartIndex.Boundaries.{IsIndexOf, new_part_index-IsIndexOf}
use git_hub_action_cache_ser.Download.PartIndex.Location.{IsInPart, index_of_sizes, locate-part}
use git_hub_action_cache_ser.Db.{codes, bytes_eq}
use git_hub_action_cache_ser.Download.RangeHeader.{
  Header, ranges, parse_download_ranges, preferred_range_header, trim_left, trim_right, cut, split,
  parse_set, equal_fold, parse_specs, parse_spec, parse_range_decimal, decimal,
}
use git_hub_action_cache_ser.Download.RangeHeader.Texts.{int_range, parse_spec-text_of}
use git_hub_action_cache_ser.Download.RangeHeader.Accepted.{
  IsAcceptable, parse_download_ranges-IsAcceptable, parse_download_ranges-explained,
}

-- A search from the front, which is one that `sort.Search` may be.
unfoldable pub linear : ℕ → ℕ → (ℕ → Bool) → ℕ
linear start zero f = start
linear start (suc n) f = let rest = linear (start + 1) n f in if f start then start else rest

pub linear-bound : (start n : ℕ) (f : ℕ → Bool) → linear start n f ≤ start + n
unfolding linear
linear-bound start zero f = omega arith
linear-bound start (suc n) f = ground (arith, linear-bound (start + 1) n f)

pub linear-found :
    (start n : ℕ) (f : ℕ → Bool) → linear start n f < start + n → f (linear start n f) ≡ true
unfolding linear
linear-found start zero f h = absurd (omega arith)
linear-found start (suc n) f h = elim (Bool-cases (f start)) [
  | inl e ↦ rw e e
  | inr e ↦ rw e (linear-found (start + 1) n f (let h' = rw e at h in omega arith))
]

here-or-later : (start i : ℕ) → start ≤ i → (start ≡ i) ⊎ (start + 1 ≤ i)
here-or-later start i l = ground arith

pub linear-below :
    (start n : ℕ) (f : ℕ → Bool) (i : ℕ) → start ≤ i → i < linear start n f → f i ≡ false
unfolding linear
linear-below start zero f i l h = absurd (omega arith)
linear-below start (suc n) f i l h = elim (Bool-cases (f start)) [
  | inl e ↦ let h' = rw e at h in absurd (omega arith)
  | inr e ↦ elim (here-or-later start i l) [
    | inl same ↦ subst (λ j. f j ≡ false) same e
    | inr later ↦ linear-below (start + 1) n f i later (let h' = rw e at h in h')
  ]
]

abbrev pub search_from_front : SortSearch
search_from_front = record {
  search = linear 0;
  search_bound = λ n f mono. omega (arith, linear-bound 0 n f);
  search_below = λ n f mono i h. linear-below 0 n f i (omega arith) h;
  search_found = λ n f mono h. linear-found 0 n f (omega arith);
}

abbrev candidates : List ByteRange
candidates = closed_byte_range_of (pos 50) (pos 60) ∷ suffix_byte_range_of (pos 4) ∷ []

resolve_byte_ranges-explained_example :
    Explains candidates 10 (resolve_byte_ranges candidates (pos 10))
unfolding closed_byte_range_of suffix_byte_range_of
resolve_byte_ranges-explained_example =
    resolve_byte_ranges-explained candidates 10 (omega arith, (tt, tt))

new_part_index-IsIndexOf_example :
    IsIndexOf (pos 4 ∷ pos 6 ∷ []) (new_part_index (pos 4 ∷ pos 6 ∷ []))
new_part_index-IsIndexOf_example =
    new_part_index-IsIndexOf (pos 4 ∷ pos 6 ∷ []) (omega arith, (omega arith, tt))

locate-part_example :
    ((5 < 10) × IsInPart (4 ∷ 6 ∷ []) 5 (locate search_from_front (index_of_sizes (4 ∷ 6 ∷ [])) 5))
    ⊎ ((10 ≤ 5) × (locate search_from_front (index_of_sizes (4 ∷ 6 ∷ [])) 5 ≡ (2, 0)))
locate-part_example = locate-part (4 ∷ 6 ∷ []) 5 search_from_front

-- The sixth byte is the second of the second part.
locate-run : locate search_from_front (index_of_sizes (4 ∷ 6 ∷ [])) 5 ≡ (1, 1)
unfolding locate locate_part linear
locate-run = refl

-- `Range: bytes= 1-3 , -2`
abbrev header : Header
header = record { x_ms_range = []; range = codes "bytes= 1-3 , -2" ∷ []; if_range = [] }

abbrev parsed : List ByteRange
parsed =
    record { kind = closed_byte_range; first = pos 1; last = pos 3; suffix = pos 0 }
    ∷ record { kind = suffix_byte_range; first = pos 0; last = pos 0; suffix = pos 2 }
    ∷ []

header-parsed : parse_download_ranges header ≡ ranges parsed
unfolding parse_download_ranges preferred_range_header trim_left trim_right cut split parse_set
    equal_fold bytes_eq parse_specs parse_spec parse_range_decimal decimal any closed_byte_range_of
    suffix_byte_range_of
header-parsed = refl

parse_download_ranges-IsAcceptable_example : IsAcceptable (parse_download_ranges header)
parse_download_ranges-IsAcceptable_example = parse_download_ranges-IsAcceptable header

parse_download_ranges-explained_example : Explains parsed 10 (resolve_byte_ranges parsed (pos 10))
parse_download_ranges-explained_example =
    parse_download_ranges-explained header parsed 10 header-parsed

parse_spec-text_of_example :
    parse_spec (codes "12-345") ≡ some (closed_byte_range_of (pos 12) (pos 345))
unfolding any decimal
parse_spec-text_of_example =
    parse_spec-text_of (int_range (codes "12") (codes "345"))
      ((refl, refl, omega arith), (refl, refl, omega arith), omega arith)
