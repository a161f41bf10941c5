-- ===== src/Commands.antt =====
-- The management commands, without their output.
pub mod Gc
pub mod Rechunk
pub mod Fsck
pub mod Repair
pub mod Namespaces
