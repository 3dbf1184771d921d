-- ===== src/Request/Credential.antt =====
-- requestutils/amz-credential-value.go: the parts of an X-Amz-Credential value.
use fakes3pp.Prelude.{ℕ, String, not, none, some, List, [], ◌∷◌, get_elem?, str_eq, if◌then◌else◌}
use fakes3pp.Text.{append, has_prefix, split, size, drop}
use fakes3pp.UserError.{text, user}
use fakes3pp.Outcome.{Result, ok, fail, panic, ◌>>=◌}
use fakes3pp.Request.Http.{Values, Request, query_get, header_get}

-- `CredentialPart`.
pub data CredentialPart : Type 0 where
  access_key_id date region_name service_name type : CredentialPart

abbrev pub index : CredentialPart → ℕ
index access_key_id = 0
index date = 1
index region_name = 2
index service_name = 3
index type = 4

-- `parts[i]`, which panics out of range.
abbrev pub part_at : List String → CredentialPart → Result String
part_at parts i = elim (get_elem? parts (index i)) [ none ↦ panic | some s ↦ ok s ]

-- `GetCredentialPart`.
unfoldable pub get_credential_part : String → CredentialPart → Result String
get_credential_part credential_string credential_part =
    let parts = split credential_string "/" in
    let unsupported = fail (
      user "authorization header was not a supported sigv4"
        (text (append "unsupported format credentialString " credential_string))) in
    let wanted = part_at parts credential_part in
    do
      service ← part_at parts service_name
      typed ←
          if not (str_eq service "s3")
          then fail (text "authorization header was not for S3")
          else part_at parts type
      if not (str_eq typed "aws4_request") then unsupported else wanted

abbrev expected_authorization_start_with_credential : String
expected_authorization_start_with_credential = "AWS4-HMAC-SHA256 Credential="

-- `getSignatureCredentialStringFromRequestAuthHeader`.
unfoldable pub credential_string_from_auth_header : String → Result String
credential_string_from_auth_header h =
    if str_eq h ""
    then fail (text "programming error should use empty authHeader to get credential part")
    else if not (has_prefix h expected_authorization_start_with_credential)
    then fail (text "invalid authorization header")
    else elim (split (drop (size expected_authorization_start_with_credential) h) ",") [
      | [] ↦ panic
      | s ∷ _ ↦ ok s
    ]

-- `getSignatureCredentialStringFromRequestQParams`; `%v` of the parameters is left out.
unfoldable pub credential_string_from_q_params : Values → Result String
credential_string_from_q_params q =
    if not (str_eq (query_get q "X-Amz-Algorithm") "AWS4-HMAC-SHA256")
    then fail (text "no Authorization header nor x-amz-algorithm query parameter present: ")
    else if str_eq (query_get q "X-Amz-Credential") ""
    then fail (text "empty X-Amz-Credential parameter: ")
    else ok (query_get q "X-Amz-Credential")

-- `GetSignatureCredentialPartFromRequest`.
unfoldable pub get_signature_credential_part_from_request : Request → CredentialPart → Result String
get_signature_credential_part_from_request r credential_part =
    let authorization_header = header_get r.header "Authorization" in
    let credential_string =
      if not (str_eq authorization_header "")
      then credential_string_from_auth_header authorization_header
      else credential_string_from_q_params r.query in
    do s ← credential_string; get_credential_part s credential_part

-- `GetRegionFromRequest`.
unfoldable pub get_region_from_request : Request → String → Result String
get_region_from_request req fallback =
    elim (get_signature_credential_part_from_request req region_name) [
      | ok region ↦ ok region
      | fail e ↦ ok fallback
      | panic ↦ panic
    ]
