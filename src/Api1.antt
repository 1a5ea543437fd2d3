-- ===== src/Api1.antt =====
-- src/api1: what the camera sends, and the commands to it.
pub mod CameraClient
pub mod Subscriber
pub mod Frames
