-- ===== src/Data.antt =====
-- src/data: the frame buffer and the queue in front of the image encoder.
pub mod Buffer
pub mod Config
pub mod Encoder
pub mod Recent
