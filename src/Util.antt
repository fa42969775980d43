-- ===== src/Util.antt =====
-- Small arithmetic that every part of the file system uses.
pub mod Round
pub mod Range
