-- ===== src/UserError/Tests.antt =====
-- The theorems on chains of errors at a concrete chain.
use fakes3pp.Prelude.{◌≡◌, refl, some}
use fakes3pp.UserError.Facing.{Error, text, wrapped, user, get, first_user_error}

abbrev expired : Error
expired = wrapped "could not get claims" (user "Session credentials are expired" (text "key 42"))

found : get (some expired) ≡ some (user "Session credentials are expired" (text "key 42"))
unfolding get first_user_error
found = refl
