-- ===== src/Download.antt =====
-- Serving a cache entry: byte ranges, the boundaries of its parts and the readers over them.
pub mod ByteRange
pub mod PartIndex
pub mod Parts
pub mod LeaseReleaser
pub mod ExactLength
pub mod RangeHeader
