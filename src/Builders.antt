-- ===== src/Builders.antt =====
-- builders/: requests put together from parts.
pub mod BatchFile
