-- ===== src/Download/ExactLength.antt =====
-- `exactLengthReadCloser` of internal/storage/storage.go: a reader of exactly `count` bytes. The
-- wrapped `io.Reader` is a parameter, a function from the length of a buffer and a state; an error
-- that wraps `io.EOF` is `eof`. `Close` only passes the call on.
pub mod Reads
use git_hub_action_cache_ser.Prelude.{
  ℕ, ◌-◌, Bool, true, false, List, [], ◌∷◌, ◌++◌, if◌then◌else◌, ltb, ◌==◌, length,
}
use git_hub_action_cache_ser.Db.{Bytes}

pub data ReadError : Type 0 where
  no_error eof unexpected_eof other_error : ReadError

pub record ExactLengthReader (S : Type 0) : Type 0 where
  pub reader : S
  pub remaining : ℕ

module _ {S : Type 0} (read : ℕ → S → Bytes × ReadError × S) where
  abbrev after_read : ℕ → Bytes × ReadError × S → Bytes × ReadError × ExactLengthReader S
  after_read left (bytes, eof, s) = (
    bytes,
    (if left == 0 then if length bytes == 0 then eof else no_error else unexpected_eof),
    record { reader = s; remaining = left },
  )
  after_read left (bytes, e, s) = (bytes, e, record { reader = s; remaining = left })

  abbrev buffer_size : ℕ → ℕ → ℕ
  buffer_size size remaining = if ltb remaining size then remaining else size

  -- `Read`, with a buffer of the given size
  unfoldable pub exact_read : ℕ → ExactLengthReader S → Bytes × ReadError × ExactLengthReader S
  exact_read size r =
      if r.remaining == 0
      then ([], eof, r)
      else after_read (r.remaining - length (read (buffer_size size r.remaining) r.reader).0)
          (read (buffer_size size r.remaining) r.reader)

  -- What a read and those after it give together: an error ends them.
  abbrev pub then_read :
      Bytes × ReadError × ExactLengthReader S
      → Bytes × ReadError × ExactLengthReader S
      → Bytes × ReadError × ExactLengthReader S
  then_read (bytes, no_error, r) (more, e, r') = (bytes ++ more, e, r')
  then_read (bytes, e, r) rest = (bytes, e, r)

  -- Reads with buffers of the given sizes until one gives an error.
  unfoldable pub read_each : List ℕ → ExactLengthReader S → Bytes × ReadError × ExactLengthReader S
  read_each [] r = ([], no_error, r)
  read_each (size ∷ sizes) r = then_read (exact_read size r) (read_each sizes (exact_read size r).2)
