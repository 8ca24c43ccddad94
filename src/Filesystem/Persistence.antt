-- ===== src/Filesystem/Persistence.antt =====
-- What a filesystem keeps on a device that does not fail: it is loaded as it was flushed.
pub mod Lines
pub mod Sound
pub mod CacheFlush
pub mod Flush
pub mod Load
pub mod Reload
