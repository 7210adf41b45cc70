-- ===== src/Gc.antt =====
-- src/vfs/gc.py: the garbage collector.
pub mod Tiers
pub mod Collect
pub mod Blobs
pub mod Spared
