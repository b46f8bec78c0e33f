-- ===== src/Web.antt =====
-- The web server of p2.
pub mod Queue
pub mod Text
pub mod Http
pub mod Client
pub mod Server
mod Tests
