-- ===== src/Request/Tests.antt =====
-- The theorems on credential values and queries at concrete values.
use fakes3pp.Prelude.{◌≡◌, refl, ◌↔◌, true, false, [], ◌∷◌, length, arith}
use fakes3pp.Text.{split, split_skip, join, has_prefix}
use fakes3pp.Map.{lookup}
use fakes3pp.Outcome.{ok, panic}
use fakes3pp.Request.Credential.{access_key_id, region_name, get_credential_part}
use fakes3pp.Request.Parts.{get_credential_part-join, get_credential_part-panic}
use fakes3pp.Request.Http.{Values}
use fakes3pp.Request.Query.{is_same_query, IsCovered, is_same_query_iff}

get_credential_part-join_example :
    get_credential_part
      (join ("AK" ∷ "20240101" ∷ "eu" ∷ "s3" ∷ "aws4_request" ∷ []) "/")
      region_name
    ≡ ok "eu"
get_credential_part-join_example =
    get_credential_part-join "AK" "20240101" "eu" refl refl refl region_name

two_parts : length (split "AK/20240101" "/") ≡ 2
unfolding split split_skip has_prefix
two_parts = refl

get_credential_part-panic_example : get_credential_part "AK/20240101" access_key_id ≡ panic
get_credential_part-panic_example =
    get_credential_part-panic "AK/20240101" access_key_id (omega (arith, two_parts))

abbrev twice_a : Values
twice_a = ("k", "a" ∷ "a" ∷ []) ∷ []

abbrev a_and_b : Values
a_and_b = ("k", "a" ∷ "b" ∷ []) ∷ []

not_symmetric : (is_same_query twice_a a_and_b ≡ true) × (is_same_query a_and_b twice_a ≡ false)
unfolding is_same_query lookup
not_symmetric = (refl, refl)

is_same_query_iff_example :
    (is_same_query twice_a a_and_b ≡ true)
    ↔ ((length twice_a ≡ length a_and_b) × IsCovered twice_a a_and_b)
is_same_query_iff_example = is_same_query_iff twice_a a_and_b
