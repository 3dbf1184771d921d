-- ===== src/Credentials.antt =====
-- aws/credentials: the credentials that the proxy issues.
pub mod SecretKey
pub mod Derived
pub mod Issue
pub mod Valid
mod Tests
