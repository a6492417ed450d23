-- ===== src/Lib.antt =====
-- Verification library of turbovec, a vector index that stores quantised vectors and searches them in
-- compressed form (the Rust crate turbovec/).
--
-- The program. `TurboQuantIndex` (turbovec/src/lib.rs) stores one encoded row per slot, 0 to len - 1;
-- removing a slot moves the last row into it. `IdMapIndex` (turbovec/src/id_map.rs) puts external ids
-- over the slots. Codes are packed in blocks of 32 rows (turbovec/src/pack.rs). A synced file
-- (turbovec/src/io_v7.rs) is a superblock, two header slots written in turn, and one unit per block; a
-- header names its generation, the tail rows, the redo operations of that commit and a digest of the
-- units it brought.
--
-- The files.
--   Common, Common/*: names of the library passed on; Boolean tests, lists over the native numbers,
--     membership, slices, little-endian bytes; the ruleset `tests`.
--   Error: the error enums of turbovec/src/error.rs, and `Outcome`, which is a result or a panic.
--   VectorIndex: the operations of `TurboQuantIndex` that `IdMapIndex` calls, with what they promise, as
--     an interface; `rows` is the list of what the slots hold.
--   IdMap, IdMap/*: turbovec/src/id_map.rs. The state is the record `IdMapIndex` with the source's
--     fields; `add_with_ids_2d`, `remove`, `contains`, `batch_addable`, `from_index_and_ids`, `from_v7_load` and
--     `try_search_with_allowlist` are functions of the same names, each from a state to the next state and
--     an answer. Table and Sorted: the table that is sorted at load time. Slots: the map from ids to
--     slots. Valid: the invariant. Contents: the row that an id has.
--   Pack, Pack/*: turbovec/src/pack.rs. Geometry: blocks and rows. Lanes: `read_code`, `write_code`,
--     `move_lane` and `zero_lane` in each native layout; the platform's choice of layout is an argument.
--   IoV7/Crc, Digest, Geo, Header: turbovec/src/io_v7.rs. `crc32`, `DeltaDigest`, `Geo`, `header_slot` and
--     `parse_header_at` are functions of the same names; bytes are natural numbers below 256, and a file
--     is a list of them.
--   IoV7/Image, Sync, Sync/*: the sync of turbovec/src/io_v7.rs. `plan_incremental` gives the writes of a
--     sync, and `run_sync` applies them to the bytes of a file; `choose_header` is the choice of a load
--     between the two headers. Chosen, Grouped, Covered: which units are written, and which slots the
--     header carries.
--     Written: the units and their digest. Commit: the header of a plan is legal. Torn: the states that a
--     crash may leave, any parts of the writes in any order. Writes, Crash: what a crash cannot touch.
--     Applied, Complete: what a sync that ends leaves. The `HashSet`s of slots are lists.
--   IoV7/Full, Full/*: `superblock` and `write_image` of turbovec/src/io_v7.rs.
--   IoV7/Gather, Gather/Copied: the tail rows and the redo payloads that `parse_image` copies out of a header.
--   IoV7/Load, Load/*: `parse_image` from the magic to its result; `codebook::codebook` and
--     `io::validate_calibration`, which compute with floats, are parameters of it.
--   Index: turbovec/src/lib.rs. `TurboQuantIndex` is the record of the source's fields, `new` and
--     `new_lazy` its constructors; a row of codes is one value, the encoder and the scan are records of
--     functions (`Kernel`, `SearchKernel`), and a panic is an answer that comes with the state it leaves.
--   Index/Chunks, Validate, Validate/Scan: the scan for an invalid coordinate (turbovec/src/encode.rs).
--   Index/Cache, Cache/Rebuilt: the blocked cache, a lane for each row in whole blocks, and its upkeep.
--   Index/Grow: `encode_and_append`, `add` and `add_2d`. Index/Shrink: `swap_remove` with its marks and
--     captures, and `capture_lookup`; Closed, Captured, Moved, Kept, Live: the rows and the captures after
--     it. Index/Mask, Search: the words of a mask, and the search with one.
--   Index/Valid, Valid/*: the invariant, and the rows as the operations change them. Index/Refines: the
--     index as an instance of VectorIndex, so that what is shown of the id map holds over it.
--   Index/Sync, Sync/Guards: `sync_v7_impl` as a state machine over what it finds at the path.
--   Index/Life, Life/*: adds, removals and syncs in any order, as a step relation that remembers what
--     the last file has: an incremental write brings only the slots of its plan.
--   Mapped, Mapped/*: the page cache of turbovec/src/mapped.rs.
--
-- Fuel and bounds. The loop of `DeltaDigest::push` runs on as much fuel as there are bytes, and each
-- round takes a byte; `Thirds` proves that this is enough. The batches of `write_image` run on as much
-- as there are blocks, and `Full/Pieces` proves that they are all the blocks in order. `chunks` runs on
-- the length of its list, and the loop of the page cache on the keys in its order. The limits of the format are the source's: 1024 operations in a group list, 32 rows in a block, 32-bit and 64-bit fields.
--
-- What is not modelled. Floating-point arithmetic (encoding, rotation, codebooks, scores) and the SIMD
-- kernels stay behind the interface; a scale is its 32-bit pattern. Errors of the file system are answers
-- of `SyncIo` and of nothing else; memory maps, locks and threads are not modelled: calls run one at a time. Allocation does not fail, and
-- `usize` is 64 bits where the source checks it. Of a load, `load_image` behind `parse_image`, which
-- compacts the units and applies the redo ops, is not modelled. Of the index, `calibrate`, the layout with planes, the
-- streaming search and the chunk loop of a mapped search are left out, and the lazily filled caches of a
-- search are not in its result. `swap_remove` is the one of x86_64, where it captures. The Python bindings are left out.
pub mod Common
pub mod Error
pub mod VectorIndex
pub mod IdMap
pub mod Pack
pub mod IoV7
pub mod Index
pub mod Mapped
