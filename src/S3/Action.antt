-- ===== src/S3/Action.antt =====
-- aws/service/s3/iam.go and api/apiactions.go: the IAM actions that a request needs.
pub mod Path
pub mod Required
