-- ===== src/Middleware/AuthenticationTests.antt =====
-- The authentication of concrete requests.
use fakes3pp.Prelude.{◌≡◌, ◌↔◌, refl, some}
use fakes3pp.Text.{append}
use fakes3pp.Request.Http.{Request}
use fakes3pp.Context.{RequestCtx, get_session_token, new_context_from_http_request}
use fakes3pp.Presign.Samples.{hmac_request, v4_query}
use fakes3pp.Middleware.Samples.{services, secret, signed_request}
use fakes3pp.Middleware.Signature.{Handled, authenticated}
use fakes3pp.Middleware.Authentication.{aws_auth_n, handle_auth_n_normal, handle_auth_n_presigned}
use fakes3pp.Middleware.Authenticated.{IsGenuine, handle_auth_n_normal_iff}
use fakes3pp.Middleware.Presigned.{IsPresignedGenuine, handle_auth_n_presigned_genuine}

abbrev ctx : RequestCtx
ctx = new_context_from_http_request "id" signed_request

handle_auth_n_normal_iff_example :
    ((h : Handled) × (handle_auth_n_normal services 1000 (signed_request, some ctx)
        ≡ authenticated h))
    ↔ IsGenuine services 1000 signed_request ctx
handle_auth_n_normal_iff_example = handle_auth_n_normal_iff services 1000 signed_request ctx

abbrev presigned_request : Request
presigned_request = record hmac_request { query = v4_query (append secret "-presigned") }

-- The one is genuine, the other goes on.
both_requests :
    IsGenuine services 1000 signed_request ctx
    × ((h : Handled) × (handle_auth_n_presigned services 1000 (presigned_request, some ctx)
          ≡ authenticated h)
        × (aws_auth_n services 1000 (presigned_request, some ctx) ≡ authenticated h))
unfolding fakes3pp.Text.split fakes3pp.Text.trim_left fakes3pp.Text.to_lower fakes3pp.Map.lookup
    fakes3pp.Map.insert fakes3pp.Map.delete fakes3pp.Map.contains fakes3pp.Request.Http.canonical
    fakes3pp.Request.Http.query_get fakes3pp.Request.Http.query_has fakes3pp.Request.Http.header_get
    fakes3pp.Request.Http.header_del fakes3pp.Request.Http.header_set
    fakes3pp.Request.Http.header_add fakes3pp.Request.Credential.get_credential_part
    fakes3pp.Request.Credential.credential_string_from_auth_header
    fakes3pp.Request.Credential.credential_string_from_q_params
    fakes3pp.Request.Credential.get_signature_credential_part_from_request
    fakes3pp.Request.Credential.get_region_from_request
    fakes3pp.Presign.Headers.temporary_remove_headers
    fakes3pp.Presign.Headers.signed_headers_of_query
    fakes3pp.Presign.Headers.get_signed_headers_from_request
    fakes3pp.Presign.Headers.temporary_remove_untrusted_headers
    fakes3pp.Presign.V4.get_s3_sign_request_params fakes3pp.Presign.V4.pre_sign_request_with_creds
    fakes3pp.Presign.V4.sign_request_with_creds fakes3pp.Presign.V4.x_amz_date_to_time
    fakes3pp.Presign.V4.signing_time fakes3pp.Presign.V4.sign_with_creds
    fakes3pp.Presign.Url.is_s3_v4_query fakes3pp.Presign.Url.get_amz_credential
    fakes3pp.Presign.Url.get_amz_security_token fakes3pp.Presign.Url.get_access_key_id
    fakes3pp.Presign.Url.make_presigned_url fakes3pp.Presign.Url.get_sign_time
    fakes3pp.Presign.Url.get_signature_from_v4_query_url fakes3pp.Presign.Url.expected_v4_signature
    fakes3pp.Presign.Url.get_v4_details fakes3pp.Presign.Url.get_presigned_url_details
    fakes3pp.Presign.HmacV1.is_hmac_v1_query fakes3pp.Context.set_auth_type
    fakes3pp.Context.new_context_from_http_request fakes3pp.Credentials.SecretKey.digit
    fakes3pp.Credentials.SecretKey.encode_to_string
    fakes3pp.Credentials.SecretKey.calculate_secret_key
    fakes3pp.S3.Authorize.Claims.extract_token_claims
    fakes3pp.Middleware.Signature.is_presigned_aws_request
    fakes3pp.Middleware.Signature.clean_removable_query_parameters
    fakes3pp.Middleware.Signature.request_to_check
    fakes3pp.Middleware.Signature.get_credentials_from_request
    fakes3pp.Middleware.Signature.make_sure_session_token_is_for_access_key
    fakes3pp.Middleware.Authentication.check_details fakes3pp.Middleware.Authentication.check_token
    fakes3pp.Middleware.Authentication.handle_auth_n_presigned
    fakes3pp.Middleware.Authentication.aws_auth_n
both_requests = (
  ("AK", "good", "eu", refl, (_, refl, refl), refl, (secret, _, _, refl, refl, refl, refl)),
  (_, refl, refl),
)

abbrev passed : Handled
passed = both_requests.1.0

handle_auth_n_presigned_genuine_example : IsPresignedGenuine services 1000 presigned_request ctx
handle_auth_n_presigned_genuine_example =
    handle_auth_n_presigned_genuine services 1000 presigned_request ctx passed both_requests.1.1
