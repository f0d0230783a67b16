-- ===== src/Download/RangeHeader.antt =====
-- internal/httpapi/handler/range.go: the ranges of a request's headers. Header values are ASCII texts,
-- so a byte is a character and white space is that of ASCII.
pub mod Accepted
pub mod Texts
use git_hub_action_cache_ser.Prelude.{
  ℕ, ◌+◌, ◌-◌, ◌*◌, Bool, true, false, not, ◌&&◌, ◌||◌, Option, none, some, List, [], ◌∷◌, map,
  if◌then◌else◌, ltb, leb, ◌==◌, length, any,
}
use git_hub_action_cache_ser.Prelude.Int.{pos}
use git_hub_action_cache_ser.Db.{Bytes, codes, bytes_eq}
use git_hub_action_cache_ser.Download.ByteRange.{
  ByteRange, closed_byte_range_of, open_ended_byte_range_of, suffix_byte_range_of,
}
use git_hub_action_cache_ser.Download.PartIndex.{max_int64}

abbrev pub is_empty {ℓ} : {A : Type ℓ} → List A → Bool
is_empty [] = true
is_empty (x ∷ xs) = false

abbrev pub is_space : ℕ → Bool
is_space b = b == 32 || leb 9 b && leb b 13

-- `strings.TrimLeft` and `strings.TrimRight` of white space
unfoldable pub trim_left : Bytes → Bytes
trim_left [] = []
trim_left (b ∷ s) = let rest = trim_left s in if is_space b then rest else b ∷ s

unfoldable pub trim_right : Bytes → Bytes
trim_right [] = []
trim_right (b ∷ s) = let rest = trim_right s in if is_space b && is_empty rest then [] else b ∷ rest

-- `strings.TrimSpace`
abbrev pub trim_space : Bytes → Bytes
trim_space s = trim_right (trim_left s)

abbrev pub cut_rest : ℕ → Option (Bytes × Bytes) → Option (Bytes × Bytes)
cut_rest b none = none
cut_rest b (some (before, after)) = some (b ∷ before, after)

-- `strings.Cut` at a character
unfoldable pub cut : ℕ → Bytes → Option (Bytes × Bytes)
cut separator [] = none
cut separator (b ∷ s) =
    let rest = cut separator s in if b == separator then some ([], s) else cut_rest b rest

abbrev pub split_rest : ℕ → List Bytes → List Bytes
split_rest b [] = (b ∷ []) ∷ []
split_rest b (word ∷ words) = (b ∷ word) ∷ words

-- `strings.Split` at a character
unfoldable pub split : ℕ → Bytes → List Bytes
split separator [] = [] ∷ []
split separator (b ∷ s) =
    let rest = split separator s in if b == separator then [] ∷ rest else split_rest b rest

-- `strings.Contains` of a character
abbrev pub contains : ℕ → Bytes → Bool
contains separator s = any (λ b. b == separator) s

abbrev pub lower : ℕ → ℕ
lower b = if leb 65 b && leb b 90 then b + 32 else b

-- `strings.EqualFold`
unfoldable pub equal_fold : Bytes → Bytes → Bool
equal_fold s t = bytes_eq (map lower s) (map lower t)

abbrev pub is_digit : ℕ → Bool
is_digit b = leb 48 b && leb b 57

unfoldable pub decimal : ℕ → Bytes → ℕ
decimal value [] = value
decimal value (b ∷ s) = decimal (value * 10 + (b - 48)) s

-- `parseRangeDecimal`; `strconv.ParseInt` refuses a number that is no `int64`.
unfoldable pub parse_range_decimal : Bytes → Option ℕ
parse_range_decimal value =
    if is_empty value || any (λ b. not (is_digit b)) value
    then none
    else if leb (decimal 0 value) max_int64
    then some (decimal 0 value)
    else none

abbrev pub parse_suffix : Option ℕ → Option ByteRange
parse_suffix none = none
parse_suffix (some count) = some (suffix_byte_range_of (pos count))

abbrev pub parse_bounds : ℕ → Option ℕ → Option ByteRange
parse_bounds first none = none
parse_bounds first (some last) =
    if ltb last first then none else some (closed_byte_range_of (pos first) (pos last))

abbrev pub parse_from : Option ℕ → Bytes → Option ByteRange
parse_from none last_text = none
parse_from (some first) last_text =
    if is_empty last_text
    then some (open_ended_byte_range_of (pos first))
    else parse_bounds first (parse_range_decimal last_text)

abbrev pub parse_interval : Option (Bytes × Bytes) → Option ByteRange
parse_interval none = none
parse_interval (some (first_text, last_text)) =
    if contains 45 last_text then none else parse_from (parse_range_decimal first_text) last_text

-- One specifier without the space round it.
abbrev pub parse_trimmed : Bytes → Option ByteRange
parse_trimmed [] = none
parse_trimmed (b ∷ rest) =
    if b == 45
    then if contains 45 rest then none else parse_suffix (parse_range_decimal rest)
    else parse_interval (cut 45 (b ∷ rest))

-- The body of the loop over the specifiers.
unfoldable pub parse_spec : Bytes → Option ByteRange
parse_spec raw = parse_trimmed (trim_space raw)

abbrev pub add_range : Option ByteRange → Option (List ByteRange) → Option (List ByteRange)
add_range (some r) (some rs) = some (r ∷ rs)
add_range _ _ = none

unfoldable pub parse_specs : List Bytes → Option (List ByteRange)
parse_specs [] = some []
parse_specs (raw ∷ raws) = add_range (parse_spec raw) (parse_specs raws)

-- The values of the headers that are read.
pub record Header : Type 0 where
  pub x_ms_range : List Bytes
  pub range : List Bytes
  pub if_range : List Bytes

pub data Preferred : Type 0 where
  bad_header no_header : Preferred
  header_value : (value : Bytes) (xms_range : Bool) → Preferred

abbrev pub range_header : List Bytes → Preferred
range_header [] = no_header
range_header (v ∷ []) =
    if is_empty (trim_space v) then no_header else header_value (trim_space v) false
range_header (v ∷ w ∷ vs) = bad_header

abbrev pub xms_range_header : List Bytes → List Bytes → Preferred
xms_range_header [] range_values = range_header range_values
xms_range_header (v ∷ []) range_values =
    if is_empty (trim_space v) then range_header range_values else header_value (trim_space v) true
xms_range_header (v ∷ w ∷ vs) range_values = bad_header

-- `preferredRangeHeader`
unfoldable pub preferred_range_header : Header → Preferred
preferred_range_header h = xms_range_header h.x_ms_range h.range

-- The ranges, no ranges to heed, or `errMalformedRange`.
pub data Parsed : Type 0 where
  malformed ignored : Parsed
  ranges : List ByteRange → Parsed

abbrev pub parsed_specs : Option (List ByteRange) → Parsed
parsed_specs none = malformed
parsed_specs (some rs) = ranges rs

unfoldable pub parse_set : Bytes → List Bytes → Parsed
parse_set unit_text parts =
    if not (equal_fold (trim_space unit_text) (codes "bytes"))
    then ignored
    else if length parts == 0 || ltb 8 (length parts)
    then malformed
    else parsed_specs (parse_specs parts)

abbrev pub parse_cut : Option (Bytes × Bytes) → Parsed
parse_cut none = malformed
parse_cut (some (unit_text, set)) = parse_set unit_text (split 44 set)

abbrev pub parse_preferred : List Bytes → Preferred → Parsed
parse_preferred if_range bad_header = malformed
parse_preferred if_range no_header = ignored
parse_preferred if_range (header_value value xms_range) =
    if not (is_empty if_range)
    then if xms_range then malformed else ignored
    else if ltb 256 (length value)
    then malformed
    else parse_cut (cut 61 value)

-- `parseDownloadRanges`
unfoldable pub parse_download_ranges : Header → Parsed
parse_download_ranges h = parse_preferred h.if_range (preferred_range_header h)
