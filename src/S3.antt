-- ===== src/S3.antt =====
-- aws/service/s3: the backends, the IAM actions of a request and its authorization.
pub mod Backend
pub mod Action
pub mod RequesterPays
pub mod Retarget
pub mod Authorize
pub mod Routing
pub mod Proxy
pub mod Forwarded
pub mod ResponseHeaders
pub mod Pipeline
pub mod Samples
pub mod Urls
mod Tests
mod ProxyTests
mod PipelineTests
