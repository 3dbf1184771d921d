-- ===== src/Presign/Url.antt =====
-- presign/s3v4query.go, presign/factory.go, presign/utils.go, and `GetPresignedUrlDetails` of
-- presign/hmacv1query.go: what a presigned URL says, and whether its signature is valid.
use fakes3pp.Prelude.{
  ℕ, ◌*◌, ◌/◌, String, Bool, false, not, ◌&&◌, Option, none, List, ltb, str_eq, if◌then◌else◌,
}
use fakes3pp.Text.{append}
use fakes3pp.UserError.{Error, text, user, message}
use fakes3pp.Outcome.{Result, ok, fail, ◌>>=◌, map_error}
use fakes3pp.Request.Http.{Request, header_get, header_add, query_get}
use fakes3pp.Request.Credential.{access_key_id, get_credential_part}
use fakes3pp.S3.Backend.Credentials.{AwsCredentials}
use fakes3pp.Presign.Headers.{temporary_remove_untrusted_headers}
use fakes3pp.Presign.Library.{Library, SecretDeriver}
use fakes3pp.Presign.HmacV1.{
  is_hmac_v1_query, get_expires, get_hmac_v1_query_security_token, has_valid_signature,
}
use fakes3pp.Presign.V4.{
  second, seconds, add_duration, pre_sign_request_with_creds, x_amz_date_to_time,
}

-- `isS3V4Query`.
unfoldable pub is_s3_v4_query : Request → Bool
is_s3_v4_query r =
    not (str_eq (query_get r.query "X-Amz-Signature") "")
    && (not (str_eq (query_get r.query "X-Amz-Credential") "")
        && not (str_eq (query_get r.query "X-Amz-Algorithm") ""))

-- `getAmzCredential`, `getAmzSecurityToken` and `getAccessKeyId`.
unfoldable pub get_amz_credential : Request → String
get_amz_credential r = query_get r.query "X-Amz-Credential"

unfoldable pub get_amz_security_token : Request → String
get_amz_security_token r = query_get r.query "X-Amz-Security-Token"

unfoldable pub get_access_key_id : Request → Result String
get_access_key_id r = get_credential_part (get_amz_credential r) access_key_id

-- The two kinds of `PresignedUrl`.
pub data PresignedUrl : Type 0 where
  hmac_v1 s3_v4 : Request → PresignedUrl

-- `MakePresignedUrl`. The URL in the text of its error is left out.
unfoldable pub make_presigned_url : Request → Result PresignedUrl
make_presigned_url r =
    if is_hmac_v1_query r
    then ok (hmac_v1 r)
    else if is_s3_v4_query r
    then ok (s3_v4 r)
    else fail (text "unsupported presign request; ")

-- The results of `GetPresignedUrlDetails`: whether the signature is valid, the credentials, and the
-- time of expiry in nanoseconds.
pub record Details : Type 0 where
  pub is_valid : Bool
  pub creds : AwsCredentials
  pub expires : ℕ

abbrev pub with_host : Request → Request
with_host c =
    if str_eq (header_get c.header "Host") ""
    then record c { header = header_add c.header "Host" c.host }
    else c

-- The credentials of a URL.
abbrev pub url_credentials : String → String → String → AwsCredentials
url_credentials key secret token = record {
  access_key_id = key;
  secret_access_key = secret;
  session_token = token;
  can_expire = false;
}

abbrev pub invalid_header : Error → Error
invalid_header e =
    user "Invalid authorization header" (text "could not temporary remove untrusted headers")

module _ (L : Library) where
  open L use {atoi, parse_query}

  -- `epochStrToTime`, in nanoseconds.
  unfoldable pub epoch_str_to_time : String → Result ℕ
  epoch_str_to_time s = do n ← atoi s; ok (n * second)

  -- `getSignTime`.
  unfoldable pub get_sign_time : Request → Result ℕ
  get_sign_time r = x_amz_date_to_time L (query_get r.query "X-Amz-Date")

  -- `getSignatureFromV4QueryUrl`, with `GetQueryParamsFromUrl` of requestutils.
  unfoldable pub get_signature_from_v4_query_url : String → Result String
  get_signature_from_v4_query_url input_url = do
    q ← parse_query input_url
    let signature = query_get q "X-Amz-Signature"
    if str_eq signature ""
        then fail (text (append "url got empty signature: " input_url))
        else ok signature

  -- `haveSameSigv4QuerySignature`.
  unfoldable pub have_same_sigv4_query_signature : String → String → Result Bool
  have_same_sigv4_query_signature url1 url2 = do
    s1 ← get_signature_from_v4_query_url url1
    s2 ← get_signature_from_v4_query_url url2
    ok (str_eq s1 s2)

  abbrev pub bad_expiry : Error → Error
  bad_expiry e = text (append "InvalidSignature: could not get Expire seconds: " (message e))

  abbrev bad_signing : Error → Error
  bad_signing e =
      text (append "InvalidSignature: encountered error trying to sign a similar req: " (message e))

  -- The signature that a URL of these credentials has, for the signed headers of the context.
  unfoldable pub expected_v4_signature :
      Option (List String) → Request → AwsCredentials → ℕ → ℕ → Result String
  expected_v4_signature of_context r creds expiry_seconds sign_date = do
    kept ← map_error invalid_header (temporary_remove_untrusted_headers of_context (with_host r))
    signed_uri ← map_error bad_signing (
        pre_sign_request_with_creds L (record r { header = kept.0 }) expiry_seconds sign_date creds
          "")
    get_signature_from_v4_query_url signed_uri

  -- `GetPresignedUrlDetails` of presign/s3v4query.go.
  unfoldable pub get_v4_details : Option (List String) → Request → SecretDeriver → Result Details
  get_v4_details of_context r deriver = do
    key ← get_access_key_id r
    secret ← deriver key
    let creds = url_credentials key secret (get_amz_security_token r)
    sign_date ← get_sign_time r
    expiry_seconds ← map_error bad_expiry (atoi (query_get r.query "X-Amz-Expires"))
    calculated_signature ← expected_v4_signature of_context r creds expiry_seconds sign_date
    ok (record {
      is_valid = str_eq (query_get r.query "X-Amz-Signature") calculated_signature;
      creds = creds;
      expires = add_duration (sign_date * second) (seconds expiry_seconds);
    })

  -- `GetPresignedUrlDetails` of presign/hmacv1query.go, at the time `now` in seconds.
  unfoldable pub get_hmac_v1_details : ℕ → Request → SecretDeriver → Result Details
  get_hmac_v1_details now r deriver = do
    secret ← deriver (query_get r.query "AWSAccessKeyId")
    let creds =
        url_credentials (query_get r.query "AWSAccessKeyId") secret
          (get_hmac_v1_query_security_token r)
    is_valid ← has_valid_signature L now r creds
    expires ← epoch_str_to_time (get_expires r)
    ok (record { is_valid = is_valid; creds = creds; expires = expires })

  -- The method of the interface `PresignedUrl`.
  unfoldable pub get_presigned_url_details :
      ℕ → Option (List String) → PresignedUrl → SecretDeriver → Result Details
  get_presigned_url_details now of_context (hmac_v1 r) deriver = get_hmac_v1_details now r deriver
  get_presigned_url_details now of_context (s3_v4 r) deriver = get_v4_details of_context r deriver

  -- The callback of `IsPresignedUrlWithValidSignature`.
  abbrev known_secret : AwsCredentials → SecretDeriver
  known_secret creds key =
      if not (str_eq creds.access_key_id key)
      then fail (text (append "mismatch between provided credential " creds.access_key_id))
      else ok creds.secret_access_key

  -- `IsPresignedUrlWithValidSignature`, at the time `now` in nanoseconds, of the request that
  -- `http.NewRequest` makes of the URL: whether it is valid, and whether it is expired.
  unfoldable pub is_presigned_url_with_valid_signature :
      ℕ → Request → AwsCredentials → Result (Bool × Bool)
  is_presigned_url_with_valid_signature now req creds = do
    purl ← make_presigned_url req
    details ← get_presigned_url_details (now / second) none purl (known_secret creds)
    ok (details.is_valid, ltb details.expires now)
