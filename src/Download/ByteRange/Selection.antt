-- ===== src/Download/ByteRange/Selection.antt =====
-- Which bytes a range of internal/cache/byte_range.go asks for, and which a resolved one covers.
use git_hub_action_cache_ser.Prelude.{
  ℕ, ◌+◌, ◌≢◌, ◌≤◌, ◌<◌, ◌≡◌, refl, ◌↔◌, ◌⊎◌, inl, inr, List, [], ◌∷◌, arith,
}
use git_hub_action_cache_ser.Prelude.Int.{ℤ, pos, negsuc}
use git_hub_action_cache_ser.Download.ByteRange.{
  ByteRangeKind, closed_byte_range, open_ended_byte_range, suffix_byte_range, other_kind, ByteRange,
  DownloadRange, Resolution, resolved, invalid, not_satisfiable, Candidate, fails, skips, answers,
  resolve_kind, resolve_candidate, resolve_from, resolve_byte_ranges,
}

-- The byte `i` of a payload of `size` bytes is asked for, by the forms of RFC 9110: from `first` to
-- `last`, from `first` on, or among the last `suffix`.
abbrev pub AsksKind : ByteRangeKind → ℤ → ℤ → ℤ → ℕ → ℕ → Type 0
AsksKind closed_byte_range (pos first) (pos last) suffix size i =
    (first ≤ i) × (i ≤ last) × (i < size)
AsksKind open_ended_byte_range (pos first) last suffix size i = (first ≤ i) × (i < size)
AsksKind suffix_byte_range first last (pos suffix) size i = (size ≤ i + suffix) × (i < size)
AsksKind _ first last suffix size i = ⊥

abbrev pub Asks : ByteRange → ℕ → ℕ → Type 0
Asks r size i = AsksKind r.kind r.first r.last r.suffix size i

-- The bytes of a download range.
abbrev pub Covers : DownloadRange → ℕ → Type 0
Covers d i = (d.offset ≤ i) × (i < d.offset + d.count)

-- Candidates before the answer ask for no byte of the payload, and the answer for exactly the
-- covered ones.
abbrev pub Selects : List ByteRange → ℕ → DownloadRange → Type 0
Selects [] size d = ⊥
Selects (r ∷ rs) size d =
    ((i : ℕ) → Asks r size i ↔ Covers d i) ⊎ (((i : ℕ) → ¬ Asks r size i) × Selects rs size d)

abbrev pub AsksNothing : List ByteRange → ℕ → Type 0
AsksNothing [] size = Unit
AsksNothing (r ∷ rs) size = ((i : ℕ) → ¬ Asks r size i) × AsksNothing rs size

answers-Asks :
    (k : ByteRangeKind) (f l s : ℤ) (size : ℕ) (d : DownloadRange)
    → resolve_kind k size (record { kind = k; first = f; last = l; suffix = s }) ≡ answers d
    → (i : ℕ) → AsksKind k f l s size i ↔ Covers d i
answers-Asks closed_byte_range (pos f) (pos l) s size d e i = (λ a. ground arith, λ c. ground arith)
answers-Asks closed_byte_range (pos f) (negsuc l) s size d e i = cc
answers-Asks closed_byte_range (negsuc f) l s size d e i = cc
answers-Asks open_ended_byte_range (pos f) l s size d e i = (λ a. ground arith, λ c. ground arith)
answers-Asks open_ended_byte_range (negsuc f) l s size d e i = cc
answers-Asks suffix_byte_range f l (pos s) size d e i = (λ a. ground arith, λ c. ground arith)
answers-Asks suffix_byte_range f l (negsuc s) size d e i = cc
answers-Asks other_kind f l s size d e i = cc

answers-inside :
    (k : ByteRangeKind) (f l s : ℤ) (size : ℕ) (d : DownloadRange)
    → resolve_kind k size (record { kind = k; first = f; last = l; suffix = s }) ≡ answers d
    → (d.offset + d.count ≤ size) × (0 < d.count)
answers-inside closed_byte_range (pos f) (pos l) s size d e = ground arith
answers-inside closed_byte_range (pos f) (negsuc l) s size d e = cc
answers-inside closed_byte_range (negsuc f) l s size d e = cc
answers-inside open_ended_byte_range (pos f) l s size d e = ground arith
answers-inside open_ended_byte_range (negsuc f) l s size d e = cc
answers-inside suffix_byte_range f l (pos s) size d e = ground arith
answers-inside suffix_byte_range f l (negsuc s) size d e = cc
answers-inside other_kind f l s size d e = cc

skips-asks_nothing :
    (k : ByteRangeKind) (f l s : ℤ) (size : ℕ)
    → resolve_kind k size (record { kind = k; first = f; last = l; suffix = s }) ≡ skips
    → (i : ℕ) → ¬ AsksKind k f l s size i
skips-asks_nothing closed_byte_range (pos f) (pos l) s size e i a = ground arith
skips-asks_nothing closed_byte_range (pos f) (negsuc l) s size e i a = cc
skips-asks_nothing closed_byte_range (negsuc f) l s size e i a = cc
skips-asks_nothing open_ended_byte_range (pos f) l s size e i a = ground arith
skips-asks_nothing open_ended_byte_range (negsuc f) l s size e i a = cc
skips-asks_nothing suffix_byte_range f l (pos s) size e i a = ground arith
skips-asks_nothing suffix_byte_range f l (negsuc s) size e i a = cc
skips-asks_nothing other_kind f l s size e i a = cc

-- A candidate that no request header can produce: its numbers are out of order or below zero.
abbrev pub IsWellFormed : ByteRangeKind → ℤ → ℤ → ℤ → Type 0
IsWellFormed closed_byte_range (pos first) (pos last) suffix = first ≤ last
IsWellFormed open_ended_byte_range (pos first) last suffix = Unit
IsWellFormed suffix_byte_range first last (pos suffix) = Unit
IsWellFormed _ first last suffix = ⊥

abbrev pub AreWellFormed : List ByteRange → Type 0
AreWellFormed [] = Unit
AreWellFormed (r ∷ rs) = IsWellFormed r.kind r.first r.last r.suffix × AreWellFormed rs

well_formed-ne-fails :
    (k : ByteRangeKind) (f l s : ℤ) (size : ℕ)
    → IsWellFormed k f l s
    → resolve_kind k size (record { kind = k; first = f; last = l; suffix = s }) ≢ fails
well_formed-ne-fails closed_byte_range (pos f) (pos l) s size w = ground arith
well_formed-ne-fails closed_byte_range (pos f) (negsuc l) s size w = absurd w
well_formed-ne-fails closed_byte_range (negsuc f) l s size w = absurd w
well_formed-ne-fails open_ended_byte_range (pos f) l s size w = ground arith
well_formed-ne-fails open_ended_byte_range (negsuc f) l s size w = absurd w
well_formed-ne-fails suffix_byte_range f l (pos s) size w = ground arith
well_formed-ne-fails suffix_byte_range f l (negsuc s) size w = absurd w
well_formed-ne-fails other_kind f l s size w = absurd w

-- What a resolution says of the candidates.
abbrev pub Explains : List ByteRange → ℕ → Resolution → Type 0
Explains rs size (resolved d) = Selects rs size d × (d.offset + d.count ≤ size) × (0 < d.count)
Explains rs size (not_satisfiable n) = (n ≡ size) × AsksNothing rs size
Explains rs size invalid = ⊥

skipped :
    (r : ByteRange) (rs : List ByteRange) (size : ℕ) (x : Resolution)
    → ((i : ℕ) → ¬ Asks r size i)
    → Explains rs size x
    → Explains (r ∷ rs) size x
skipped r rs size (resolved d) none_asked h = (inr (none_asked, h.0), h.1, h.2)
skipped r rs size (not_satisfiable n) none_asked h = (h.0, (none_asked, h.1))
skipped r rs size invalid none_asked h = h

-- Where all ranges are well-formed, they resolve to the bytes that the first satisfiable one asks for, a
-- nonempty stretch inside the payload, where all before it ask for no byte; or they are refused as not
-- satisfiable, with the size of the payload, and all of them ask for no byte. They are not invalid.
pub resolve_byte_ranges-explained :
    (rs : List ByteRange) (size : ℕ)
    → AreWellFormed rs
    → Explains rs size (resolve_byte_ranges rs (pos size))
unfolding resolve_byte_ranges resolve_from resolve_candidate
resolve_byte_ranges-explained [] size w = (refl, tt)
resolve_byte_ranges-explained (r ∷ rs) size (w, ws) =
    go (resolve_candidate size r) refl (resolve_from size rs)
      (resolve_byte_ranges-explained rs size ws)
  where
    go :
        (c : Candidate)
        → resolve_candidate size r ≡ c
        → (rest : Resolution) → Explains rs size rest
        → Explains (r ∷ rs) size (
            let x : Resolution = elim c [
              | fails ↦ invalid
              | answers d ↦ resolved d
              | skips ↦ rest
            ] in
            x)
    go fails e rest h = absurd (well_formed-ne-fails r.kind r.first r.last r.suffix size w e)
    go (answers d) e rest h = (
      inl (answers-Asks r.kind r.first r.last r.suffix size d e),
      (answers-inside r.kind r.first r.last r.suffix size d e).0,
      (answers-inside r.kind r.first r.last r.suffix size d e).1,
    )
    go skips e rest h =
        skipped r rs size rest (skips-asks_nothing r.kind r.first r.last r.suffix size e) h
