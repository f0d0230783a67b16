-- ===== src/Tests.antt =====
-- Concrete tables and payloads, the theorems at them, and runs of the code on them.
mod Services
mod Downloads
mod Matches
mod Streams
mod Parts
mod Evictions
mod Leases
mod Inventories
