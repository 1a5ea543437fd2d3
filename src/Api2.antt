-- ===== src/Api2.antt =====
-- src/api2: what the AI service answers.
pub mod Dealer
