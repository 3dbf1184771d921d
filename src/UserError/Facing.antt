-- ===== src/UserError/Facing.antt =====
-- Errors, the search for the user facing one, and the flat text for the log.
use fakes3pp.Prelude.{String, Bool, true, false, Option, none, some, List, [], ◌∷◌}
use fakes3pp.Text.{append, join}

-- Go's `error` values. `text` comes of `errors.New` or a plain `fmt.Errorf`, `wrapped` of
-- `fmt.Errorf` with `%w`: its whole message and the error inside. `user` is a `*userError`, with
-- the user's message and the error that it wraps; `user_only` is one that wraps nil.
pub data Error : Type 0 where
  text : String → Error
  wrapped : String → Error → Error
  user : String → Error → Error
  user_only : String → Error

-- `New(wrapped, userfacingMsg)`.
abbrev pub new : Option Error → String → Error
new none msg = user_only msg
new (some e) msg = user msg e

-- `Error()`.
unfoldable pub message : Error → String
message (text m) = m
message (wrapped m e) = m
message (user m e) = m
message (user_only m) = m

-- `errors.Unwrap(e)`; nil for an error that wraps nothing.
unfoldable pub unwrap : Error → Option Error
unwrap (text m) = none
unwrap (wrapped m e) = some e
unwrap (user m e) = some e
unwrap (user_only m) = none

-- `IsUserFacing(e)`: the type assertion `e.(UserError)`.
unfoldable pub is_user_facing : Error → Bool
is_user_facing (user m e) = true
is_user_facing (user_only m) = true
is_user_facing _ = false

-- `errors.As(e, &ue)`: the first error of the chain that is a `UserError`.
unfoldable pub first_user_error : Error → Option Error
first_user_error (text m) = none
first_user_error (wrapped m e) = first_user_error e
first_user_error (user m e) = some (user m e)
first_user_error (user_only m) = some (user_only m)

-- `Get(e)`, where `none` is nil.
unfoldable pub get : Option Error → Option Error
unfolding first_user_error
get none = none
get (some e) = first_user_error e

abbrev marked : String → String
marked m = append "<userfacing> " (append m " </userfacing>")

-- The loop of `AsFlatSensitiveString`, from an error on: an entry for each error of the chain, and
-- the innermost one by its message alone.
flat_strings : Error → List String
flat_strings (text m) = m ∷ []
flat_strings (wrapped m e) = m ∷ flat_strings e
flat_strings (user m e) = marked m ∷ flat_strings e
flat_strings (user_only m) = m ∷ []

-- `AsFlatSensitiveString(e)`.
unfoldable pub as_flat_sensitive_string : Option Error → String
unfolding flat_strings join
as_flat_sensitive_string none = ""
as_flat_sensitive_string (some e) = join (flat_strings e) " <- "
