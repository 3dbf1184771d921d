-- ===== src/Server.antt =====
-- server: the certificates of the servers.
pub mod TlsReloader
pub mod Rotation
mod Tests
