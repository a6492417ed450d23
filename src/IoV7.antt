-- ===== src/IoV7.antt =====
-- turbovec/src/io_v7.rs: the incremental file image.
pub mod Crc
pub mod Digest
pub mod Geo
pub mod Header
pub mod Image
pub mod Sync
pub mod Gather
pub mod Full
pub mod Load
mod Tests
