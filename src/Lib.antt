-- ===== src/Lib.antt =====
-- The cache server for GitHub Actions: clients upload cache entries in parts, the server keeps the parts
-- in a storage, merges them in the background, hands out downloads and removes what nobody needs.
--
-- The development follows the code by parts.
--
-- Db (internal/ent/schema, internal/storageoutbox): the tables as lists of records, with the
--   statements that the services issue. A query by id is the first row with that id.
-- Lifecycle (internal/storagelifecycle/service.go): each method of `Service` is a transaction over
--   the tables, written with the bind of Lifecycle/Tx; an error rolls the tables back.
--   Fence is `fenceDetachedLocation`, Reader the reader leases, Purge the removal of dangling entries,
--   Deletion the three requests for a deletion, Parts `ClaimPartsDeletion`, Materialization the lease
--   for a merge. Requests puts them in one order of arrival: a history is a list of requests, each at
--   its time. Protection is about reader leases through a history, Integrity
--   about the foreign keys, Exclusion about the lease for a merge.
-- Download: RangeHeader parses the ranges of a request (internal/httpapi/handler/range.go), ByteRange
--   resolves them against the size of a payload (internal/cache/byte_range.go), and PartIndex finds the
--   parts that hold its bytes and keeps indexes in a cache (internal/cache/part_index.go). ExactLength is
--   the reader that bounds a stream (internal/storage/storage.go). Parts are the readers over the parts of
--   a folder, Whole of all of them (internal/cache/parts_reader.go) and Ranged of a range
--   (internal/cache/ranged_parts_reader.go): `Read`, `Close`, `currentStream` and `finishPart` are
--   written once, over the position that each reader keeps. LeaseReleaser is the worker that releases
--   reader leases in batches (internal/cache/reader_lease_releaser.go), a state with the calls and the
--   cases of its `select` as events.
-- Matching (internal/cache/service.go, internal/cachekey): the scopes of a token, and the entry that
--   answers a request.
-- Outbox (internal/storageoutbox, internal/cleanup/service.go, internal/storagereconcile): the tasks
--   of the deletion outbox, and the delays between attempts.
-- Capacity (internal/storagecapacity/service.go): `Enforce`, which evicts the least recently used
--   locations until the usage reaches its target, with the eviction of Lifecycle for each candidate. Its
--   children are about its counts, the order of the pages, the place of the cursor and the outcome of an
--   eviction. Each eviction has its own time.
-- Uploads (internal/uploadsession, internal/cache/upload_activity.go): the deletion of idle uploads
--   and the renewal of their activity; Cleanup is `RunUploads` (internal/cleanup/service.go), which
--   deletes every idle upload page by page.
-- Inventory (internal/storage/inventory.go): the count of the indexed objects of a folder, with
--   their sizes.
-- Tests: concrete tables and payloads, and the theorems at them.
--
-- `AcquireReader` has three attempts: its loop runs on the number that is left. The loops of the
-- delays run on the rounds that remain, at most the attempts made; all others are recursions on
-- lists. Ids and tokens are numbers, times are milliseconds after the epoch and are not below 0.
-- Concurrent requests are modelled as the sequence of their transactions. The code excludes others
-- from a location by an update of its `lease_version`, the row lock, where it takes one; that the other
-- transactions are atomic too is an assumption, among them `acquireReaderOnce` for a location that is
-- merged, has a single part or is not merged by this server, for which it takes no lock
-- (internal/storagelifecycle/service.go). The clock is read once for each transaction, also where the
-- code reads it again for the fence, and the creation time of an outbox task, for which
-- internal/storageoutbox calls `time.Now`, is that of its transaction. Errors of the
-- connection and of a context that ends, except in the backoff of `AcquireReader`, are left out:
-- they roll the transaction back.
--
-- Not modelled: the generated client in internal/ent, the storage adapters, HTTP, configuration and
-- metrics, which are input and output or calls of libraries; the transfer of parts, merging, the
-- renewal of a lease during a download, the timers of the capacity service and the other cleanup
-- loops, whose parts are separate from those above. `RunUploads` runs with no other transaction
-- between its pages; it has a round for each upload and one for the last page, and each other round
-- deletes one. `sort.Search` and `io.Reader` are parameters with their documented behaviour. The
-- loop that evicts cached indexes has as many rounds as there are entries, and each round removes
-- one. The loops of the readers over parts have a round for each part that is left to open, one for
-- the stream that may be open and one for the end. Of a concurrent `Close` of such a reader the
-- model has the call at any time while the adapter opens or reads a stream. The loop of `Enforce`
-- has a round for each location and one for the last page, and a page has fifty locations as in the
-- code.
pub mod Prelude
pub mod Db
pub mod Capacity
pub mod Lifecycle
pub mod Download
pub mod Matching
pub mod Outbox
pub mod Inventory
pub mod Uploads
pub mod Tests
