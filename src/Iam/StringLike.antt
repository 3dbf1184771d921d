-- ===== src/Iam/StringLike.antt =====
-- `iamStringLike` of aws/service/iam/policy-evaluation.go, with the parts of Go's `regexp` and
-- `strings.Replacer` that it calls.
mod Defs
pub mod Regex
pub mod Sound
pub mod Infix
unfoldable pub use Defs.{iam_string_like}
mod Tests
