-- ===== src/Api3.antt =====
-- src/api3: the WebSocket server and the HTTPS front end.
pub mod Wss
pub mod Http
