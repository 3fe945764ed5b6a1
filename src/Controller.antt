-- ===== src/Controller.antt =====
-- controller/: the HTTP handlers.
pub mod Api
pub mod Send
pub mod Routes
