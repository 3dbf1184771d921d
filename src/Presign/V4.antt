-- ===== src/Presign/V4.antt =====
-- presign/s3v4.go and presign/aws-conversion.go: signatures of version 4, of requests and of URLs.
use fakes3pp.Prelude.{
  ℕ, ◌+◌, ◌-◌, ◌*◌, ◌/◌, ◌%◌, ◌^◌, String, Option, none, some, List, [], ◌∷◌, ltb, str_eq,
  if◌then◌else◌,
}
use fakes3pp.Map.{insert}
use fakes3pp.UserError.{text}
use fakes3pp.Outcome.{Result, ok, fail, panic, ◌>>=◌}
use fakes3pp.Request.Http.{Values, Request, header_get, query_del}
use fakes3pp.Request.Credential.{region_name, get_signature_credential_part_from_request}
use fakes3pp.S3.Backend.Credentials.{AwsCredentials}
use fakes3pp.Presign.Library.{Library}

abbrev pub second : ℕ
second = 1000000000

-- `time.Duration(n) * time.Second`: the int64, modulo 2^64.
abbrev pub seconds : ℕ → ℕ
seconds n = (n * second) % 2 ^ 64

-- The division of an int64 by a second, which rounds towards zero.
abbrev pub in_seconds : ℕ → ℕ
in_seconds d = if ltb d (2 ^ 63) then d / second else (2 ^ 64 - (2 ^ 64 - d) / second) % 2 ^ 64

-- `Time.Add`, on nanoseconds since 1970.
abbrev pub add_duration : ℕ → ℕ → ℕ
add_duration t d = if ltb d (2 ^ 63) then t + d else t - (2 ^ 64 - d)

abbrev pub signature_query_param_names_to_remove : List String
signature_query_param_names_to_remove =
    "X-Amz-Algorithm" ∷ "X-Amz-Credential" ∷ "X-Amz-Date" ∷ "X-Amz-Security-Token"
    ∷ "x-amz-security-token" ∷ "X-Amz-SignedHeaders" ∷ "X-Amz-Signature" ∷ "Signature"
    ∷ "AWSAccessKeyId" ∷ "X-Request-ID" ∷ []

unfoldable pub remove_params : List String → Values → Values
remove_params [] query = query
remove_params (param_name ∷ names) query = remove_params names (query_del query param_name)

-- `none` is a lifetime that is negative.
abbrev pub with_expiry : Library → Option ℕ → Values → Values
with_expiry L none query = query
with_expiry L (some n) query =
    if ltb 0 n
    then insert "X-Amz-Expires" (L.format_int (in_seconds (seconds n)) ∷ []) query
    else query

-- What `GetS3SignRequestParams` works out beside what it passes on; the service is always s3.
pub record SignParams : Type 0 where
  pub req : Request
  pub payload_hash : String
  pub service : String
  pub region : String

abbrev pub region_or : Result String → String → Result String
region_or (ok region) default_region = ok region
region_or (fail e) default_region = ok default_region
region_or panic default_region = panic

module _ (L : Library) where
  open L use {parse_time, sign_http, presign_http}

  abbrev pub sign_query : Option ℕ → Values → Values
  sign_query expiry query =
      with_expiry L expiry (remove_params signature_query_param_names_to_remove query)

  -- `GetS3SignRequestParams`.
  unfoldable pub get_s3_sign_request_params : Request → Option ℕ → String → Result SignParams
  get_s3_sign_request_params req expiry default_region = do
    region ← region_or (get_signature_credential_part_from_request req region_name) default_region
    let payload_hash = header_get req.header "X-Amz-Content-Sha256"
    ok (record {
      req = record req { query = sign_query expiry req.query };
      payload_hash = if str_eq payload_hash "" then "UNSIGNED-PAYLOAD" else payload_hash;
      service = "s3";
      region = region;
    })

  -- `PreSignRequestWithCreds`, whose signed headers are left out.
  unfoldable pub pre_sign_request_with_creds :
      Request → ℕ → ℕ → AwsCredentials → String → Result String
  pre_sign_request_with_creds req expiry_in_seconds signing_time creds default_region =
      if ltb 0 expiry_in_seconds
      then (do
        p ← get_s3_sign_request_params req (some expiry_in_seconds) default_region
        presign_http creds p.req p.payload_hash p.service p.region signing_time)
      else fail (text "expiryInSeconds must be bigger than 0 for presigned requests")

  -- `SignRequestWithCreds`, with the request as it is then signed.
  unfoldable pub sign_request_with_creds :
      Request → Option ℕ → ℕ → AwsCredentials → String → Result Request
  sign_request_with_creds req expiry signing_time creds default_region = do
    p ← get_s3_sign_request_params req expiry default_region
    sign_http creds p.req p.payload_hash p.service p.region signing_time

  -- `XAmzDateToTime`.
  unfoldable pub x_amz_date_to_time : String → Result ℕ
  x_amz_date_to_time x_amz_date = parse_time x_amz_date

  -- `XAmzExpiryToTime`, in nanoseconds: the time, and the error beside it if any.
  unfoldable pub x_amz_expiry_to_time : String → ℕ → Result ℕ
  x_amz_expiry_to_time x_amz_date expiry_seconds = do
    t ← x_amz_date_to_time x_amz_date
    (if ltb expiry_seconds (365 * 24 * 3600)
        then ok (add_duration (t * second) (seconds expiry_seconds))
        else fail (text "invalid amount of expiry seconds"))

  abbrev or_now : Result ℕ → ℕ → Result ℕ
  or_now (ok t) now = ok t
  or_now (fail e) now = ok now
  or_now panic now = panic

  -- The time in `SignWithCreds`: that of the header X-Amz-Date, or the time `now`.
  unfoldable pub signing_time : Request → ℕ → Result ℕ
  signing_time req now =
      let amz_date = header_get req.header "X-Amz-Date" in
      if str_eq amz_date "" then ok now else or_now (x_amz_date_to_time amz_date) now

  -- `SignWithCreds`, at the time `now`.
  unfoldable pub sign_with_creds : ℕ → Request → AwsCredentials → String → Result Request
  sign_with_creds now req creds default_region = do
    t ← signing_time req now
    sign_request_with_creds req none t creds default_region
