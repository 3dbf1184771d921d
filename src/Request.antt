-- ===== src/Request.antt =====
-- requestutils: what is read from a request.
pub mod Http
pub mod Credential
pub mod Parts
pub mod Query
mod Tests
