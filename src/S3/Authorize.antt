-- ===== src/S3/Authorize.antt =====
-- aws/service/s3: the authorization middleware and the error codes.
pub mod Errors
pub mod Claims
pub mod Middleware
pub mod Granted
