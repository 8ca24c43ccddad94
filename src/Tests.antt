-- ===== src/Tests.antt =====
-- Runs of the model on concrete inputs, and each theorem applied to such an input.
pub mod Layout
pub mod Bitmaps
pub mod Blocks
pub mod Allocation
pub mod Requests
pub mod Mounting
pub mod Reading
pub mod Disk
pub mod Remount
pub mod ReadWrite
pub mod Fresh
