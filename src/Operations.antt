-- ===== src/Operations.antt =====
-- operations.py: the file operations over the four tables.
pub mod Content
pub mod Info
pub mod Paths
pub mod Blocks
pub mod Writer
pub mod Write
pub mod Ranges
pub mod Directory
pub mod Listing
pub mod Transfer
pub mod Frame
