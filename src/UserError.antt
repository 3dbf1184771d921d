-- ===== src/UserError.antt =====
-- usererror/usererror.go: errors that carry a message for the user beside internal details.
mod Facing
pub mod Flat
pub use Facing.*
unfoldable pub use Facing.{get, message, unwrap, is_user_facing, as_flat_sensitive_string}
mod Tests
