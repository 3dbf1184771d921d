-- ===== src/Presign/Tests.antt =====
-- The theorems on signed headers at concrete headers.
use fakes3pp.Prelude.{ℕ, ◌*◌, String, ◌≡◌, refl, true, none, some, [], ◌∷◌, map, arith}
use fakes3pp.Text.{join}
use fakes3pp.Map.{lookup, contains}
use fakes3pp.Outcome.{ok}
use fakes3pp.Request.Http.{Values, Request, canonical, header_get}
use fakes3pp.Presign.Headers.{temporary_remove_headers, get_signed_headers_from_request}
use fakes3pp.Request.Http.{query_get}
use fakes3pp.Presign.Library.{Url, SecretDeriver}
use fakes3pp.Presign.Samples.{
  sample_library, sample_library-ReadsQueries, sample_credentials, hmac_request, v4_request,
}
use fakes3pp.Presign.HmacV1.{
  calculate_s3_presigned_hmac_v1_query_url, get_expires, hmac_v1_signature, has_valid_signature,
}
use fakes3pp.Presign.RoundTrip.{has_valid_signature-calculate}
use fakes3pp.Presign.Genuine.{IsPlain, has_valid_signature_genuine}
use fakes3pp.Presign.V4.{second, seconds, add_duration, SignParams, get_s3_sign_request_params}
use fakes3pp.Presign.Url.{
  get_sign_time, Details, url_credentials, get_amz_security_token, get_access_key_id,
  expected_v4_signature, get_v4_details,
}
use fakes3pp.Presign.Signing.{
  signed_value, lookup-get_s3_sign_request_params, get_v4_details_genuine,
}
use fakes3pp.Presign.Signed.{
  IsCanonical, lookup-temporary_remove_headers, authorization,
  get_signed_headers_from_request-authorization,
}

abbrev two_headers : Values
two_headers = ("Host", "s3.local" ∷ []) ∷ ("X-Extra", "a" ∷ "b" ∷ []) ∷ []

two_headers-IsCanonical : IsCanonical two_headers
unfolding canonical
two_headers-IsCanonical = (refl, (refl, tt))

lookup-temporary_remove_headers_example :
    lookup "X-Extra" (temporary_remove_headers two_headers ("Host" ∷ [])).0 ≡ none
unfolding contains
lookup-temporary_remove_headers_example =
    lookup-temporary_remove_headers two_headers ("Host" ∷ []) "X-Extra" two_headers-IsCanonical

abbrev signed_request : Request
signed_request = record {
  method = "GET";
  scheme = "";
  url_host = "";
  content_length = some 0;
  host = "s3.local";
  path = "/b/k";
  query = [];
  header =
      (
        "Authorization",
        authorization "AWS4-HMAC-SHA256 Credential=AK/20240101/eu/s3/aws4_request" 1
              ("host" ∷ "x-amz-date" ∷ []) " Signature=00"
            ∷ [],
      )
      ∷ [];
}

header_is_there :
    header_get signed_request.header "Authorization"
    ≡ authorization "AWS4-HMAC-SHA256 Credential=AK/20240101/eu/s3/aws4_request" 1
        ("host" ∷ "x-amz-date" ∷ [])
        " Signature=00"
unfolding header_get canonical lookup
header_is_there = refl

get_signed_headers_from_request-authorization_example :
    get_signed_headers_from_request signed_request ≡ ok (map canonical ("host" ∷ "x-amz-date" ∷ []))
unfolding join
get_signed_headers_from_request-authorization_example =
    get_signed_headers_from_request-authorization signed_request
      "AWS4-HMAC-SHA256 Credential=AK/20240101/eu/s3/aws4_request" " Signature=00" "host" 1
      ("x-amz-date" ∷ []) header_is_there refl refl refl (refl, (refl, tt))

plain_request : IsPlain sample_library sample_library-ReadsQueries hmac_request sample_credentials
plain_request = (refl, refl)

hmac_request_is_valid :
    has_valid_signature sample_library 1000 hmac_request sample_credentials ≡ ok true
unfolding fakes3pp.Text.split fakes3pp.Text.to_upper fakes3pp.Map.lookup fakes3pp.Map.contains
    fakes3pp.Request.Http.query_get fakes3pp.Request.Query.is_same_query
    fakes3pp.Presign.HmacV1.get_expires fakes3pp.Presign.HmacV1.get_canonical_resource
    fakes3pp.Presign.HmacV1.get_canonical_request_string
    fakes3pp.Presign.HmacV1.build_hmac_v1_query_url fakes3pp.Presign.HmacV1.hmac_v1_signature
    fakes3pp.Presign.HmacV1.calculate_with_expiry_time
    fakes3pp.Presign.HmacV1.calculate_s3_presigned_hmac_v1_query_url
    fakes3pp.Presign.HmacV1.compare_request_with_url fakes3pp.Presign.HmacV1.has_valid_signature
    fakes3pp.Presign.Samples.escape fakes3pp.Presign.Samples.unescape
    fakes3pp.Presign.Samples.after_mark fakes3pp.Presign.Samples.parse
hmac_request_is_valid = refl

has_valid_signature_genuine_example :
    (signature : String) × (hmac_v1_signature sample_library hmac_request sample_credentials
        (get_expires hmac_request)
      ≡ ok signature)
    × (lookup "Signature" hmac_request.query ≡ some (signature ∷ []))
    × (lookup "AWSAccessKeyId" hmac_request.query ≡ some ("AK" ∷ []))
unfolding get_expires fakes3pp.Presign.Samples.escape query_get lookup
has_valid_signature_genuine_example =
    has_valid_signature_genuine sample_library sample_library-ReadsQueries hmac_request
      sample_credentials 1000 plain_request refl hmac_request_is_valid

abbrev deriver : SecretDeriver
deriver key = ok "SK"

abbrev v4_details : Details
v4_details = record { is_valid = true; creds = sample_credentials; expires = 3000000000000 }

v4_request_is_valid : get_v4_details sample_library none v4_request deriver ≡ ok v4_details
unfolding fakes3pp.Text.split fakes3pp.Map.lookup fakes3pp.Map.insert fakes3pp.Map.contains
    fakes3pp.Request.Http.canonical fakes3pp.Request.Http.query_get fakes3pp.Request.Http.query_has
    fakes3pp.Request.Http.header_get fakes3pp.Request.Http.header_add
    fakes3pp.Request.Credential.get_credential_part
    fakes3pp.Request.Credential.credential_string_from_q_params
    fakes3pp.Request.Credential.get_signature_credential_part_from_request
    fakes3pp.Presign.Headers.temporary_remove_headers
    fakes3pp.Presign.Headers.signed_headers_of_query
    fakes3pp.Presign.Headers.get_signed_headers_from_request
    fakes3pp.Presign.Headers.temporary_remove_untrusted_headers
    fakes3pp.Presign.V4.get_s3_sign_request_params fakes3pp.Presign.V4.pre_sign_request_with_creds
    fakes3pp.Presign.V4.x_amz_date_to_time fakes3pp.Presign.Url.get_amz_credential
    fakes3pp.Presign.Url.get_amz_security_token fakes3pp.Presign.Url.get_access_key_id
    fakes3pp.Presign.Url.get_sign_time fakes3pp.Presign.Url.get_signature_from_v4_query_url
    fakes3pp.Presign.Url.expected_v4_signature fakes3pp.Presign.Url.get_v4_details
v4_request_is_valid = refl

get_v4_details_genuine_example :
    (key secret : String) × (sign_date expiry_seconds : ℕ) × (get_access_key_id v4_request ≡ ok key)
    × (deriver key ≡ ok secret)
    × (v4_details.creds ≡ url_credentials key secret (get_amz_security_token v4_request))
    × (get_sign_time sample_library v4_request ≡ ok sign_date)
    × (sample_library.atoi (query_get v4_request.query "X-Amz-Expires") ≡ ok expiry_seconds)
    × (expected_v4_signature sample_library none v4_request
          (url_credentials key secret (get_amz_security_token v4_request))
          expiry_seconds
          sign_date
        ≡ ok (query_get v4_request.query "X-Amz-Signature"))
    × (3000000000000 ≡ add_duration (sign_date * second) (seconds expiry_seconds))
get_v4_details_genuine_example =
    get_v4_details_genuine sample_library none v4_request deriver v4_details v4_request_is_valid
      refl

abbrev listing : Request
listing = record v4_request {
  query = ("X-Amz-Signature", "00" ∷ []) ∷ ("list-type", "2" ∷ []) ∷ [];
}

abbrev made_ready : SignParams
made_ready = record {
  req = record listing { query = ("list-type", "2" ∷ []) ∷ ("X-Amz-Expires", "2000" ∷ []) ∷ [] };
  payload_hash = "UNSIGNED-PAYLOAD";
  service = "s3";
  region = "eu";
}

listing_is_ready :
    get_s3_sign_request_params sample_library listing (some 2000) "eu" ≡ ok made_ready
unfolding fakes3pp.Map.lookup fakes3pp.Map.insert fakes3pp.Map.delete
    fakes3pp.Request.Http.query_get fakes3pp.Request.Http.query_del fakes3pp.Request.Http.header_get
    fakes3pp.Request.Credential.credential_string_from_q_params
    fakes3pp.Request.Credential.get_signature_credential_part_from_request
    fakes3pp.Presign.V4.remove_params fakes3pp.Presign.V4.get_s3_sign_request_params
listing_is_ready = refl

lookup-get_s3_sign_request_params_example :
    lookup "list-type" made_ready.req.query
    ≡ signed_value sample_library (some 2000) listing.query "list-type"
lookup-get_s3_sign_request_params_example =
    lookup-get_s3_sign_request_params sample_library listing (some 2000) "eu" made_ready "list-type"
      (omega arith) listing_is_ready

abbrev to_presign : Request
to_presign = record hmac_request { query = [] }

abbrev made_url : String
made_url =
    "https:///b/k?AWSAccessKeyId=AK&Signature=SK-signed&x-amz-security-token=good&Expires=2000"

abbrev read_url : Url
read_url = record { scheme = "https"; host = ""; path = "/b/k"; query = hmac_request.query }

url_is_made :
    (calculate_s3_presigned_hmac_v1_query_url sample_library 1100 to_presign sample_credentials 900
      ≡ ok made_url)
    × (sample_library.parse_url made_url ≡ ok read_url)
unfolding fakes3pp.Text.split fakes3pp.Text.to_upper fakes3pp.Map.lookup
    fakes3pp.Request.Http.query_get fakes3pp.Presign.HmacV1.get_expires
    fakes3pp.Presign.HmacV1.get_canonical_resource
    fakes3pp.Presign.HmacV1.get_canonical_request_string
    fakes3pp.Presign.HmacV1.build_hmac_v1_query_url fakes3pp.Presign.HmacV1.hmac_v1_signature
    fakes3pp.Presign.HmacV1.calculate_with_expiry_time
    fakes3pp.Presign.HmacV1.get_expires_from_expiry_seconds
    fakes3pp.Presign.HmacV1.calculate_s3_presigned_hmac_v1_query_url fakes3pp.Presign.Samples.escape
    fakes3pp.Presign.Samples.unescape fakes3pp.Presign.Samples.after_mark
    fakes3pp.Presign.Samples.parse
url_is_made = (refl, refl)

has_valid_signature-calculate_example :
    has_valid_signature sample_library 1500
      (record to_presign { query = read_url.query })
      sample_credentials
    ≡ ok true
unfolding fakes3pp.Presign.Samples.escape
has_valid_signature-calculate_example =
    has_valid_signature-calculate sample_library sample_library-ReadsQueries to_presign
      sample_credentials 1100 1500 900 made_url read_url (refl, refl) (omega arith) refl refl
      url_is_made.0 url_is_made.1 refl refl
