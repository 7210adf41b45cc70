-- ===== src/Vfs.antt =====
-- src/vfs/vfs.py: the operations of the orchestrator, one module for each group of methods.
pub mod Audit
pub mod Access
pub mod Retry
pub mod Quiet
pub mod Added
pub mod Write
pub mod Read
pub mod Restore
pub mod Copied
pub mod RoundTrip
pub mod Interleaved
pub mod Refused
pub mod Moved
pub mod Transfer
pub mod Grants
pub mod Granted
pub mod Search
pub mod Reindex
