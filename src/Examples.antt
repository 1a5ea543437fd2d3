-- ===== src/Examples.antt =====
-- Runs at concrete inputs, by the part of the program.
pub mod Data
pub mod Database
pub mod Wss
pub mod Flow
pub mod Requests
pub mod Post
pub mod Gaps
pub mod Base64
pub mod Health
pub mod History
pub mod Published
pub mod Handshake
pub mod Http
pub mod Loops
pub mod Dealer
pub mod Camera
pub mod Folder
pub mod Matching
pub mod Settings
pub mod Clients
