-- ===== src/Pack.antt =====
-- turbovec/src/pack.rs: the layouts of packed codes.
pub mod Geometry
pub mod Lanes
