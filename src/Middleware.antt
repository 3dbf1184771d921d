-- ===== src/Middleware.antt =====
-- middleware: what stands around the handlers.
pub mod Healthcheck
pub mod Signature
pub mod Authentication
pub mod Authenticated
pub mod Presigned
pub mod Samples
mod Tests
mod AuthenticationTests
