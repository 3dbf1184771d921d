-- ===== src/Text.antt =====
-- The functions of Go's `strings` package that the source calls, on texts as lists of characters.
-- A Go string is a sequence of bytes; a text that is no valid UTF-8 is not modelled.
mod Pieces
mod Splitting
pub use Pieces.*
unfoldable pub use Pieces.{
  split, split_skip, lower, upper, join, has_prefix, trim_left, trim, trim_space, to_lower,
  to_upper, remove_all,
}
pub use Splitting.*
