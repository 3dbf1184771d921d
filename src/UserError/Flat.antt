-- ===== src/UserError/Flat.antt =====
-- What `Get` and `AsFlatSensitiveString` show of a chain of errors.
use fakes3pp.Prelude.{String, ◌≡◌, refl, true, Option, none, some, arith}
use fakes3pp.UserError.Facing.{Error, text, wrapped, user, user_only, get, is_user_facing, message}

-- The chain with every message that no user may see replaced by another.
unfoldable pub redact : (String → String) → Error → Error
redact f (text m) = text (f m)
redact f (wrapped m e) = wrapped (f m) (redact f e)
redact f (user m e) = user m (redact f e)
redact f (user_only m) = user_only m

-- What `Get` finds is user facing, in any chain.
pub get-is_user_facing : (e : Option Error) {u : Error} → get e ≡ some u → is_user_facing u ≡ true
unfolding get is_user_facing
get-is_user_facing none h = cc
get-is_user_facing (some (text m)) h = cc
get-is_user_facing (some (wrapped m e)) h = get-is_user_facing (some e) h
get-is_user_facing (some (user m e)) h = ground arith
get-is_user_facing (some (user_only m)) h = ground arith

-- The message of what `Get` finds, if it finds anything.
abbrev pub user_message : Option Error → Option String
user_message e = elim (get e) [ none ↦ none | some u ↦ some (message u) ]

-- Whatever stands in the internal messages of a chain, the user sees the same message.
pub user_message-redact :
    (f : String → String) (e : Error) → user_message (some (redact f e)) ≡ user_message (some e)
unfolding get redact message
user_message-redact f (text m) = refl
user_message-redact f (wrapped m e) = user_message-redact f e
user_message-redact f (user m e) = refl
user_message-redact f (user_only m) = refl
