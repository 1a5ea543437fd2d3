-- ===== src/Common.antt =====
-- include/ecids_core/common and src/common: the types, codes and clock parts that the modules share.
pub mod Modes
pub mod Response
pub mod Frames
pub mod Geometry
pub mod Decimal
pub mod Timestamp
pub mod Counting
pub mod Double
pub mod Sorting
pub mod Json
