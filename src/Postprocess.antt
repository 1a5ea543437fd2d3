-- ===== src/Postprocess.antt =====
-- src/postprocess: what is read from the detections of the AI module.
pub mod Extract
pub mod Distance
pub mod Disparity
pub mod SameGap
pub mod Cleats
pub mod Edges
pub mod GapLines
pub mod Pipeline
pub mod Messages
pub mod Process
