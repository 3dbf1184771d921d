-- ===== src/S3/Backend.antt =====
-- aws/service/s3/backendconfig.go: the configuration in `Config`, the endpoints in `Endpoint`, the
-- credentials in `Credentials`, and the proofs in the other modules.
pub mod Endpoint
pub mod Credentials
pub mod Config
pub mod Valid
pub mod Resolve
