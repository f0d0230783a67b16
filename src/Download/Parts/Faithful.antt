-- ===== src/Download/Parts/Faithful.antt =====
-- What the streams over parts rely on in the storage adapter: the bytes that an open stream still
-- holds, `rest`, are those of the part or of the range of it that was asked for, and a read takes them
-- from the front, all of them before an end. An adapter may fail at any call.
use git_hub_action_cache_ser.Prelude.{
  ℕ, zero, suc, ◌+◌, ◌≤◌, ◌<◌, ◌⊎◌, inl, ◌≡◌, true, [], ◌++◌, length, take, drop,
}
use git_hub_action_cache_ser.Db.{Bytes}
use git_hub_action_cache_ser.Download.Parts.{
  Adapter, Opened, opened, not_found, unavailable, StreamError, no_error, eof, wrapped_eof, failed,
  wraps_eof,
}

pub record IsFaithful {W T : Type 0} (a : Adapter W T) (part : ℕ → Bytes) (rest : T → Bytes)
    : Type 0 where
  pub whole : (i : ℕ) (w : W) (t : T) → (a.open_part i w).0 ≡ opened t → rest t ≡ part i
  pub ranged :
      (i offset count : ℕ) (w : W) (t : T)
      → offset + count ≤ length (part i)
      → (a.open_range i offset count w).0 ≡ opened t
      → rest t ≡ take count (drop offset (part i))
  pub reads : (size : ℕ) (t : T) (w : W) → rest t ≡ (a.read size t w).0 ++ rest (a.read size t w).2
  pub ends :
      (size : ℕ) (t : T) (w : W)
      → wraps_eof (a.read size t w).1 ≡ true
      → rest (a.read size t w).2 ≡ []

-- What a read that does not fail gives, and an opening; `F` is what a failure would show.
abbrev pub IsProgress : Type 0 → Bytes × StreamError → Type 0
IsProgress F (bytes, no_error) = F ⊎ (0 < length bytes)
IsProgress F (bytes, eof) = Unit
IsProgress F (bytes, wrapped_eof) = F
IsProgress F (bytes, failed) = F

abbrev pub IsOpened : {T : Type 0} → Type 0 → Opened T → Type 0
IsOpened F (opened t) = Unit
IsOpened F not_found = F
IsOpened F unavailable = F

-- Where no failure is shown: the storage has every range of its first parts, its reads into a buffer
-- with room make progress, closing a stream succeeds, and nobody closes the reader meanwhile.
pub record FailsOnly (F : Type 0) {W T : Type 0} (a : Adapter W T) (part : ℕ → Bytes) (n : ℕ)
    : Type 0 where
  pub whole : (i : ℕ) (w : W) → i < n → IsOpened F (a.open_part i w).0
  pub ranged :
      (i offset count : ℕ) (w : W)
      → i < n
      → offset + count ≤ length (part i)
      → IsOpened F (a.open_range i offset count w).0
  pub reads :
      (size : ℕ) (t : T) (w : W)
      → F ⊎ (0 < size)
      → IsProgress F ((a.read size t w).0, (a.read size t w).1)
  pub closes : (t : T) (w : W) → (a.close t w).0 ≡ true → F
  pub stays : (w : W) → a.closing w ≡ true → F

-- An adapter whose calls all succeed while nobody closes the reader.
abbrev pub IsReliable : {W T : Type 0} → Adapter W T → (ℕ → Bytes) → ℕ → Type 0
IsReliable a part n = FailsOnly ⊥ a part n

-- Any adapter may fail.
pub may_fail :
    {W T : Type 0} (a : Adapter W T) (part : ℕ → Bytes) (n : ℕ) → FailsOnly (Unit {0}) a part n
may_fail {W} {T} a part n = record {
  whole = λ i w h. any_open (a.open_part i w).0;
  ranged = λ i offset count w h k. any_open (a.open_range i offset count w).0;
  reads = λ size t w h. any_read (a.read size t w).0 (a.read size t w).1;
  closes = λ t w h. tt;
  stays = λ w h. tt;
}
  where
    any_open : (o : Opened T) → IsOpened (Unit {0}) o
    any_open (opened t) = tt
    any_open not_found = tt
    any_open unavailable = tt

    any_read : (bytes : Bytes) (e : StreamError) → IsProgress (Unit {0}) (bytes, e)
    any_read bytes no_error = inl tt
    any_read bytes eof = tt
    any_read bytes wrapped_eof = tt
    any_read bytes failed = tt

-- The bytes of a number of parts, from one on.
abbrev pub payload : (ℕ → Bytes) → ℕ → ℕ → Bytes
payload part i zero = []
payload part i (suc n) = part i ++ payload part (suc i) n
