-- ===== src/Download/RangeHeader/Texts.antt =====
-- The specifiers of RFC 9110 as texts, for `parseDownloadRanges` of
-- internal/httpapi/handler/range.go.
use git_hub_action_cache_ser.Prelude.{
  ℕ, ◌≤◌, ◌≡◌, refl, ◌∙◌, ap, Bool, true, false, not, some, [], ◌∷◌, ◌++◌, ltb, ◌==◌, any,
  any-append, arith,
}
use git_hub_action_cache_ser.Prelude.Int.{pos}
use git_hub_action_cache_ser.Db.{Bytes}
use git_hub_action_cache_ser.Download.ByteRange.{
  ByteRange, closed_byte_range_of, open_ended_byte_range_of, suffix_byte_range_of,
}
use git_hub_action_cache_ser.Download.PartIndex.{max_int64}
use git_hub_action_cache_ser.Download.RangeHeader.{
  is_empty, is_space, is_digit, trim_left, trim_right, trim_space, cut, contains, decimal,
  parse_range_decimal, parse_trimmed, parse_spec, parse_interval,
}

-- A specifier by the digits of its numbers.
pub data RangeSpec : Type 0 where
  int_range : (first last : Bytes) → RangeSpec
  from_range : (first : Bytes) → RangeSpec
  suffix_range : (count : Bytes) → RangeSpec

abbrev pub text_of : RangeSpec → Bytes
text_of (int_range first last) = first ++ 45 ∷ last
text_of (from_range first) = first ++ 45 ∷ []
text_of (suffix_range count) = 45 ∷ count

abbrev pub range_of : RangeSpec → ByteRange
range_of (int_range first last) =
    closed_byte_range_of (pos (decimal 0 first)) (pos (decimal 0 last))
range_of (from_range first) = open_ended_byte_range_of (pos (decimal 0 first))
range_of (suffix_range count) = suffix_byte_range_of (pos (decimal 0 count))

abbrev pub IsNumber : Bytes → Type 0
IsNumber s =
    (is_empty s ≡ false) × (any (λ b. not (is_digit b)) s ≡ false) × (decimal 0 s ≤ max_int64)

-- The numbers are digits and of 64 bits, and an interval does not end before it begins.
abbrev pub IsRangeSpec : RangeSpec → Type 0
IsRangeSpec (int_range first last) =
    IsNumber first × IsNumber last × (decimal 0 first ≤ decimal 0 last)
IsRangeSpec (from_range first) = IsNumber first
IsRangeSpec (suffix_range count) = IsNumber count

no_digit_is :
    (q : ℕ → Bool) (s : Bytes)
    → ((b : ℕ) → is_digit b ≡ true → q b ≡ false)
    → any (λ b. not (is_digit b)) s ≡ false
    → any q s ≡ false
unfolding any
no_digit_is q [] h e = refl
no_digit_is q (b ∷ s) h e = ground (arith, h b, no_digit_is q s h)

trim_left-id : (s : Bytes) → any is_space s ≡ false → trim_left s ≡ s
unfolding trim_left any
trim_left-id [] e = refl
trim_left-id (b ∷ s) e = ground arith

trim_right-id : (s : Bytes) → any is_space s ≡ false → trim_right s ≡ s
unfolding trim_right any
trim_right-id [] e = refl
trim_right-id (b ∷ s) e = ground (arith, trim_right-id s)

trim_space-id : (s : Bytes) → any is_space s ≡ false → trim_space s ≡ s
trim_space-id s e = ap trim_right (trim_left-id s e) ∙ trim_right-id s e

cut-append : (c : ℕ) (s t : Bytes) → any (λ b. b == c) s ≡ false → cut c (s ++ c ∷ t) ≡ some (s, t)
unfolding cut any
cut-append c [] t e = ground arith
cut-append c (b ∷ s) t e = ground (arith, cut-append c s t)

parse_range_decimal-some : (s : Bytes) → IsNumber s → parse_range_decimal s ≡ some (decimal 0 s)
unfolding parse_range_decimal
parse_range_decimal-some s (n, d, m) = rw n (rw d (ground arith))

digit_is_no_space : (b : ℕ) → is_digit b ≡ true → is_space b ≡ false
digit_is_no_space b h = ground arith

digit_is_no_dash : (b : ℕ) → is_digit b ≡ true → (b == 45) ≡ false
digit_is_no_dash b h = ground arith

no_space : (s : Bytes) → IsNumber s → any is_space s ≡ false
no_space s h = no_digit_is is_space s digit_is_no_space h.1

no_dash : (s : Bytes) → IsNumber s → contains 45 s ≡ false
no_dash s h = no_digit_is (λ b. b == 45) s digit_is_no_dash h.1

text-no_space : (r : RangeSpec) → IsRangeSpec r → any is_space (text_of r) ≡ false
unfolding any
text-no_space (int_range first last) h =
    any-append is_space first (45 ∷ last) ∙ ground (arith, no_space first h.0, no_space last h.1)
text-no_space (from_range first) h =
    any-append is_space first (45 ∷ []) ∙ ground (arith, no_space first h)
text-no_space (suffix_range count) h = no_space count h

head_is_no_dash : (b : ℕ) (s : Bytes) → contains 45 (b ∷ s) ≡ false → (b == 45) ≡ false
unfolding any
head_is_no_dash b s h = ground arith

-- A text that begins with a digit is an interval.
trimmed_interval :
    (s t : Bytes) → IsNumber s → parse_trimmed (s ++ 45 ∷ t) ≡ parse_interval (some (s, t))
trimmed_interval [] t h = absurd (not_empty h.0)
  where
    not_empty : ¬ (true ≡ false)
    not_empty e = cc
trimmed_interval (b ∷ s) t h =
    rw (head_is_no_dash b s (no_dash (b ∷ s) h))
      (ap parse_interval (cut-append 45 (b ∷ s) t (no_dash (b ∷ s) h)))

no_dash_at_end : contains 45 [] ≡ false
unfolding any
no_dash_at_end = refl

parse_trimmed-text_of :
    (r : RangeSpec) → IsRangeSpec r → parse_trimmed (text_of r) ≡ some (range_of r)
parse_trimmed-text_of (int_range first last) (f, l, ordered) =
    trimmed_interval first last f
    ∙ rw (no_dash last l) (
        rw (parse_range_decimal-some first f)
          (rw l.0 (rw (parse_range_decimal-some last l) (rw (in_order _ _ ordered) refl))))
  where
    in_order : (a b : ℕ) → a ≤ b → ltb b a ≡ false
    in_order a b h = ground arith
parse_trimmed-text_of (from_range first) f =
    trimmed_interval first [] f ∙ rw (parse_range_decimal-some first f) (rw no_dash_at_end refl)
parse_trimmed-text_of (suffix_range count) c =
    rw (no_dash count c) (rw (parse_range_decimal-some count c) refl)

-- Each specifier of RFC 9110 whose numbers are of 64 bits, an interval not ending before it begins, is
-- parsed into its range.
pub parse_spec-text_of :
    (r : RangeSpec) → IsRangeSpec r → parse_spec (text_of r) ≡ some (range_of r)
unfolding parse_spec
parse_spec-text_of r h =
    ap parse_trimmed (trim_space-id (text_of r) (text-no_space r h)) ∙ parse_trimmed-text_of r h
