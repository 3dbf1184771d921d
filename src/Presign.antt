-- ===== src/Presign.antt =====
-- presign: the signatures of requests and of presigned URLs.
pub mod Headers
pub mod Signed
pub mod Library
pub mod HmacV1
pub mod Genuine
pub mod RoundTrip
pub mod Samples
pub mod V4
pub mod Url
pub mod Signing
mod Tests
