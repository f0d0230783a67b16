-- ===== src/Download/Parts.antt =====
-- The streams over the parts of a folder: what internal/cache/parts_reader.go and
-- internal/cache/ranged_parts_reader.go share, `Read`, `Close`, `currentStream` and `finishPart`, over
-- the position that each keeps. The storage adapter is a parameter, with its state passed on; it
-- names a part by its number, which `partObjectName` makes a name of. `closing` says whether another
-- goroutine called `Close` while the call of the adapter ran that led to a state.
pub mod Faithful
pub mod Rounds
pub mod Streams
pub mod Reading
pub mod Series
pub mod Whole
pub mod Ranged
use git_hub_action_cache_ser.Prelude.{
  ℕ, zero, suc, Bool, true, false, Option, none, some, List, [], ◌∷◌, ◌++◌, if◌then◌else◌, is_none,
}
use git_hub_action_cache_ser.Db.{Bytes}

-- What a stream of the storage reports: an end is `io.EOF` itself or an error that wraps it.
pub data StreamError : Type 0 where
  no_error eof wrapped_eof failed : StreamError

pub data ReaderError : Type 0 where
  stream_error : StreamError → ReaderError
  closed_pipe unexpected_eof cache_not_found open_failed close_failed out_of_rounds : ReaderError

pub data Opened (T : Type 0) : Type 0 where
  opened : T → Opened T
  not_found unavailable : Opened T

-- `storage.Adapter` and its streams; `close` gives whether it failed.
pub record Adapter (W T : Type 0) : Type 0 where
  pub open_part : ℕ → W → Opened T × W
  pub open_range : ℕ → ℕ → ℕ → W → Opened T × W
  pub read : ℕ → T → W → Bytes × StreamError × T × W
  pub close : T → W → Bool × W
  pub closing : W → Bool

pub record PartsReader (W T P : Type 0) : Type 0 where
  pub position : P
  pub current : Option T
  pub closed : Bool
  pub storage : W

-- What a position asks for where no stream is open: an end, or a stream, with the position before
-- the stream is there and the one after.
pub data Request (W T P : Type 0) : Type 0 where
  refused : ReaderError → P → Request W T P
  request : (W → Opened T × W) → P → P → Request W T P

pub data CurrentStream (W T P : Type 0) : Type 0 where
  stopped : ReaderError → PartsReader W T P → CurrentStream W T P
  streaming : T → PartsReader W T P → CurrentStream W T P

abbrev pub ReadResult : Type 0 → Type 0 → Type 0 → Type 0
ReadResult W T P = Bytes × ReaderError × PartsReader W T P

-- `err == io.EOF`, and `errors.Is(err, io.EOF)`
unfoldable pub is_eof : StreamError → Bool
is_eof eof = true
is_eof no_error = false
is_eof wrapped_eof = false
is_eof failed = false

unfoldable pub wraps_eof : StreamError → Bool
wraps_eof eof = true
wraps_eof wrapped_eof = true
wraps_eof no_error = false
wraps_eof failed = false

module _ {W T P : Type 0} (a : Adapter W T) where
  unfoldable pub close_current : Option T → PartsReader W T P → Bool × PartsReader W T P
  close_current none r = (false, record r { closed = true })
  close_current (some t) r = (
    (a.close t r.storage).0,
    record r { closed = true; current = none; storage = (a.close t r.storage).1 },
  )

  -- `Close`, with whether it gives an error
  unfoldable pub close : PartsReader W T P → Bool × PartsReader W T P
  close r = if r.closed then (false, r) else close_current r.current r

  -- What another goroutine leaves.
  unfoldable pub settle : PartsReader W T P → PartsReader W T P
  settle r = if a.closing r.storage then (close r).1 else r

  -- `currentStream` after the adapter's call
  unfoldable pub after_open : P → Opened T → PartsReader W T P → CurrentStream W T P
  after_open later (opened t) r =
      if r.closed
      then stopped closed_pipe (record r { storage = (a.close t r.storage).1 })
      else streaming t (record r { position = later; current = some t })
  after_open later not_found r = stopped cache_not_found r
  after_open later unavailable r = stopped open_failed r

  unfoldable pub serve : Request W T P → PartsReader W T P → CurrentStream W T P
  serve (refused e p) r = stopped e (record r { position = p })
  serve (request start now later) r =
      after_open later (start r.storage).0
        (settle (record r { position = now; storage = (start r.storage).1 }))

  module _ (next : P → Request W T P) (finished : P → P) (ends : StreamError → Bool) where
    unfoldable pub from_current : Option T → PartsReader W T P → CurrentStream W T P
    from_current none r = serve (next r.position) r
    from_current (some t) r = streaming t r

    -- `currentStream`
    unfoldable pub current_stream : PartsReader W T P → CurrentStream W T P
    current_stream r = if r.closed then stopped closed_pipe r else from_current r.current r

    -- `finishPart`, with whether it gives an error
    unfoldable pub finish_part : T → PartsReader W T P → Bool × PartsReader W T P
    finish_part t r = if is_none r.current then (false, r) else (
      (a.close t r.storage).0,
      record r {
        position = finished r.position;
        current = none;
        storage = (a.close t r.storage).1;
      },
    )

    -- What `Read` gives at the end of a part, or what the next round gives.
    unfoldable pub at_part_end :
        Bytes → Bool × PartsReader W T P → (PartsReader W T P → ReadResult W T P) → ReadResult W T P
    at_part_end (b ∷ bytes) (failure, r) again = (b ∷ bytes, stream_error no_error, r)
    at_part_end [] (true, r) again = ([], close_failed, r)
    at_part_end [] (false, r) again = again r

    -- The state after the stream's read: the stream is kept where nobody closed the reader.
    unfoldable pub after_read : T → W → PartsReader W T P → PartsReader W T P
    after_read t w r = settle (record r { current = some t; storage = w })

    unfoldable pub on_read :
        Bytes × StreamError × T × W
        → PartsReader W T P
        → (PartsReader W T P → ReadResult W T P)
        → ReadResult W T P
    on_read (bytes, e, t, w) r again =
        if ends e
        then at_part_end bytes (finish_part t (after_read t w r)) again
        else (bytes, stream_error e, after_read t w r)

    unfoldable pub read_current :
        ℕ → CurrentStream W T P → (PartsReader W T P → ReadResult W T P) → ReadResult W T P
    read_current size (stopped e r) again = ([], e, r)
    read_current size (streaming t r) again = on_read (a.read size t r.storage) r again

    -- `Read`, with a buffer of the given size and the rounds that remain
    unfoldable pub read : ℕ → ℕ → PartsReader W T P → ReadResult W T P
    read zero size r = ([], out_of_rounds, r)
    read (suc rounds) size r = read_current size (current_stream r) (read rounds size)

-- What a read and those after it give together: an error ends them.
abbrev pub then_read : {W T P : Type 0} → ReadResult W T P → ReadResult W T P → ReadResult W T P
then_read (bytes, stream_error no_error, r) (more, e, r') = (bytes ++ more, e, r')
then_read (bytes, e, r) rest = (bytes, e, r)

-- Reads with buffers of the given sizes until one gives an error.
unfoldable pub read_each :
    {W T P : Type 0} (f : ℕ → PartsReader W T P → ReadResult W T P)
    → List ℕ
    → PartsReader W T P
    → ReadResult W T P
read_each f [] r = ([], stream_error no_error, r)
read_each f (size ∷ sizes) r = then_read (f size r) (read_each f sizes (f size r).2)
