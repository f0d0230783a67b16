-- ===== src/Download/RangeHeader/Accepted.antt =====
-- What the headers give that `parseDownloadRanges` of internal/httpapi/handler/range.go accepts.
use git_hub_action_cache_ser.Prelude.{
  ℕ, suc, Bool, true, false, not, ◌||◌, ◌==◌, ltb, if◌then◌else◌, ◌≤◌, ◌<◌, ◌≡◌, refl, subst, ap,
  Option, none, some, List, [], ◌∷◌, length, arith,
}
use git_hub_action_cache_ser.Prelude.Int.{pos}
use git_hub_action_cache_ser.Db.{Bytes}
use git_hub_action_cache_ser.Download.ByteRange.{
  ByteRange, closed_byte_range_of, open_ended_byte_range_of, suffix_byte_range_of,
  resolve_byte_ranges,
}
use git_hub_action_cache_ser.Download.ByteRange.Selection.{
  AreWellFormed, Explains, IsWellFormed, resolve_byte_ranges-explained,
}
use git_hub_action_cache_ser.Download.RangeHeader.{
  Header, Preferred, Parsed, malformed, ignored, ranges, parse_spec, parse_specs, parse_set,
  parse_download_ranges, parse_trimmed, parsed_specs, is_empty, cut, add_range, parse_preferred,
  parse_cut, preferred_range_header, trim_space, split,
}

abbrev IsOrdered : ByteRange → Type 0
IsOrdered r = IsWellFormed r.kind r.first r.last r.suffix

parse_trimmed-IsOrdered : (spec : Bytes) (r : ByteRange) → parse_trimmed spec ≡ some r → IsOrdered r
unfolding closed_byte_range_of open_ended_byte_range_of suffix_byte_range_of
parse_trimmed-IsOrdered spec r e = ground arith

add_range-AreWellFormed :
    (o : Option ByteRange) (tail : Option (List ByteRange)) (raws : List Bytes)
    (rs : List ByteRange)
    → ((r : ByteRange) → o ≡ some r → IsOrdered r)
    → ((xs : List ByteRange) → tail ≡ some xs → AreWellFormed xs × (length xs ≡ length raws))
    → add_range o tail ≡ some rs
    → AreWellFormed rs × (length rs ≡ suc (length raws))
add_range-AreWellFormed none tail raws rs ordered ih e = cc
add_range-AreWellFormed (some r) none raws rs ordered ih e = cc
add_range-AreWellFormed (some r) (some xs) raws rs ordered ih e =
    subst (λ ys. AreWellFormed ys × (length ys ≡ suc (length raws))) (some-injective e)
      ((ordered r refl, (ih xs refl).0), ap suc (ih xs refl).1)
  where
    some-injective : {ys zs : List ByteRange} → some ys ≡ some zs → ys ≡ zs
    some-injective p = cc

parse_specs-AreWellFormed :
    (parts : List Bytes) (rs : List ByteRange)
    → parse_specs parts ≡ some rs
    → AreWellFormed rs × (length rs ≡ length parts)
unfolding parse_specs parse_spec
parse_specs-AreWellFormed [] rs e = ground arith
parse_specs-AreWellFormed (raw ∷ raws) rs e =
    add_range-AreWellFormed (parse_spec raw) (parse_specs raws) raws rs
      (parse_trimmed-IsOrdered (trim_space raw)) (parse_specs-AreWellFormed raws) e

-- What a header gives: ordered ranges, at least one and at most eight.
abbrev pub IsAcceptable : Parsed → Type 0
IsAcceptable (ranges rs) = AreWellFormed rs × (0 < length rs) × (length rs ≤ 8)
IsAcceptable _ = Unit

if-IsAcceptable :
    (b : Bool) (x y : Parsed)
    → (b ≡ true → IsAcceptable x)
    → (b ≡ false → IsAcceptable y)
    → IsAcceptable (if b then x else y)
if-IsAcceptable true x y p q = p refl
if-IsAcceptable false x y p q = q refl

parsed_specs-IsAcceptable :
    (parts : List Bytes) (o : Option (List ByteRange))
    → parse_specs parts ≡ o
    → (length parts == 0 || ltb 8 (length parts)) ≡ false
    → IsAcceptable (parsed_specs o)
parsed_specs-IsAcceptable parts none e bounded = tt
parsed_specs-IsAcceptable parts (some rs) e bounded =
    let (ordered, same) = parse_specs-AreWellFormed parts rs e in
    (
      ordered,
      (sized (length parts) (length rs) same bounded).0,
      (sized (length parts) (length rs) same bounded).1,
    )
  where
    sized : (n m : ℕ) → m ≡ n → (n == 0 || ltb 8 n) ≡ false → (0 < m) × (m ≤ 8)
    sized n m e b = ground arith

parse_set-IsAcceptable : (u : Bytes) (parts : List Bytes) → IsAcceptable (parse_set u parts)
unfolding parse_set
parse_set-IsAcceptable u parts =
    if-IsAcceptable _ ignored _ (λ e. tt)
      (λ e.
        if-IsAcceptable _ malformed _ (λ e. tt)
          (parsed_specs-IsAcceptable parts (parse_specs parts) refl))

parse_cut-IsAcceptable : (o : Option (Bytes × Bytes)) → IsAcceptable (parse_cut o)
parse_cut-IsAcceptable none = tt
parse_cut-IsAcceptable (some (unit_text, set)) = parse_set-IsAcceptable unit_text (split 44 set)

-- Where a request's headers give ranges at all, these are between one and eight, each with its bounds
-- in order and none below 0.
pub parse_download_ranges-IsAcceptable : (h : Header) → IsAcceptable (parse_download_ranges h)
unfolding parse_download_ranges
parse_download_ranges-IsAcceptable h = go h.if_range (preferred_range_header h)
  where
    go : (if_range : List Bytes) (p : Preferred) → IsAcceptable (parse_preferred if_range p)
    go if_range Preferred.bad_header = tt
    go if_range Preferred.no_header = tt
    go if_range (Preferred.header_value value xms_range) =
        if-IsAcceptable (not (is_empty if_range)) (if xms_range then malformed else ignored)
          (if ltb 256 (length value) then malformed else parse_cut (cut 61 value))
          (λ e. if-IsAcceptable xms_range malformed ignored (λ e. tt) (λ e. tt))
          (λ e.
            if-IsAcceptable (ltb 256 (length value)) malformed (parse_cut (cut 61 value)) (λ e. tt)
              (λ e. parse_cut-IsAcceptable (cut 61 value)))

-- The ranges of a header resolve, whatever the size of the payload, to the bytes that the first
-- satisfiable one asks for, or all of them ask for no byte.
pub parse_download_ranges-explained :
    (h : Header) (rs : List ByteRange) (size : ℕ)
    → parse_download_ranges h ≡ ranges rs
    → Explains rs size (resolve_byte_ranges rs (pos size))
parse_download_ranges-explained h rs size e =
    resolve_byte_ranges-explained rs size
      (subst IsAcceptable e (parse_download_ranges-IsAcceptable h)).0
