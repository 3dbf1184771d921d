-- ===== src/Sts.antt =====
-- aws/service/sts: the exchange of a token for temporary credentials.
pub mod Duration
pub mod Errors
pub mod Oidc
pub mod Server
pub mod Issued
pub mod Accepted
pub mod Samples
mod OidcTests
mod Tests
mod ServerTests
