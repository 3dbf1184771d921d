-- ===== src/Presign/HmacV1.antt =====
-- presign/hmacv1query.go: presigned URLs with a signature by HMAC-SHA1.
use fakes3pp.Prelude.{
  ℕ, ◌+◌, code, String, Bool, true, false, not, ◌&&◌, ◌||◌, Option, none, some, List, [], ◌∷◌, map,
  ltb, ◌==◌, str_eq, if◌then◌else◌,
}
use fakes3pp.Text.{append, has_prefix, join, to_lower, to_upper, trim}
use fakes3pp.Map.{Map, lookup, insert, contains}
use fakes3pp.UserError.{text}
use fakes3pp.Outcome.{Result, ok, fail, ◌>>=◌}
use fakes3pp.Request.Http.{
  Values, Request, header_get, header_set, header_add, header_del, header_values, query_get,
}
use fakes3pp.Request.Query.{is_same_query}
use fakes3pp.S3.Backend.Credentials.{AwsCredentials}
use fakes3pp.Presign.Library.{Library}

-- `isHmacV1Query`.
unfoldable pub is_hmac_v1_query : Request → Bool
is_hmac_v1_query r =
    not (str_eq (query_get r.query "Signature") "")
    && not (str_eq (query_get r.query "AWSAccessKeyId") "")

-- `getHmacV1QuerySecurityToken`.
unfoldable pub get_hmac_v1_query_security_token : Request → String
get_hmac_v1_query_security_token r =
    if str_eq (query_get r.query "x-amz-security-token") ""
    then query_get r.query "X-Amz-Security-Token"
    else query_get r.query "x-amz-security-token"

-- `getExpiresFromHmacv1QueryUrl`.
unfoldable pub get_expires : Request → String
get_expires r = query_get r.query "Expires"

abbrev has_token_key : Values → Bool
has_token_key [] = false
has_token_key ((hk, vs) ∷ h) = str_eq (to_lower hk) "x-amz-security-token" || has_token_key h

-- `assureSecTokenHeader`.
unfoldable pub assure_sec_token_header : Values → AwsCredentials → Values
assure_sec_token_header h creds =
    if str_eq creds.session_token ""
    then h
    else header_add (if has_token_key h then header_del h "x-amz-security-token" else h)
        "x-amz-security-token" creds.session_token

-- The first header whose name is the given one in lower case, of its first value without blanks
-- around; the empty text where there is none.
unfoldable pub standard_header : String → Values → Values → String
standard_header ih [] h = ""
standard_header ih ((hk, vs) ∷ rest) h =
    if str_eq (to_lower hk) ih then trim (header_get h hk) else standard_header ih rest h

abbrev interesting_headers : List String
interesting_headers = "content-md5" ∷ "content-type" ∷ "date" ∷ []

-- `getCanonicalStandardHeaders`: the text, and the headers with the date that it sets.
unfoldable pub get_canonical_standard_headers : Values → String → String × Values
get_canonical_standard_headers header expires =
    let h = header_set header "Date" expires in
    (join (map (λ ih. standard_header ih h h) interesting_headers) "\n", h)

-- `getCommaSeparatedTrimmedHeaderValues`.
unfoldable pub get_comma_separated_trimmed_header_values : Values → String → String
get_comma_separated_trimmed_header_values h header_key =
    join (map trim (header_values h header_key)) ","

-- Whether a text stands before another or is equal to it, byte by byte.
abbrev text_leb : String → String → Bool
text_leb String.[] t = true
text_leb (String.◌∷◌ c s) String.[] = false
text_leb (String.◌∷◌ c s) (String.◌∷◌ d t) =
    ltb (code c) (code d) || (code c == code d && text_leb s t)

abbrev insert_sorted : String → List String → List String
insert_sorted x [] = x ∷ []
insert_sorted x (y ∷ ys) = if text_leb x y then x ∷ y ∷ ys else y ∷ insert_sorted x ys

-- `slices.Sort`.
unfoldable pub sort : List String → List String
sort [] = []
sort (x ∷ xs) = insert_sorted x (sort xs)

-- The first loop of `getCanonicalCustomHeaders`: the keys in lower case, and a value for each.
unfoldable pub custom_headers : Values → Values → List String × Map String
custom_headers [] h = ([], [])
custom_headers ((hk, vs) ∷ rest) h =
    let (header_keys, headers) = custom_headers rest h in
    if has_prefix (to_lower hk) "x-amz-"
    then (
      to_lower hk ∷ header_keys,
      insert (to_lower hk) (get_comma_separated_trimmed_header_values h hk) headers,
    )
    else (header_keys, headers)

abbrev or_empty : Option String → String
or_empty none = ""
or_empty (some s) = s

abbrev header_line : Map String → String → String
header_line headers key = append key (append ":" (or_empty (lookup key headers)))

-- `getCanonicalCustomHeaders`.
unfoldable pub get_canonical_custom_headers : Values → String
get_canonical_custom_headers h =
    let (header_keys, headers) = custom_headers h h in
    join (map (header_line headers) (sort header_keys)) "\n"

abbrev query_string_arguments_of_interest : List String
query_string_arguments_of_interest =
    "accelerate" ∷ "acl" ∷ "cors" ∷ "defaultObjectAcl" ∷ "location" ∷ "logging" ∷ "partNumber"
    ∷ "policy" ∷ "torrent" ∷ "versioning" ∷ "versionId" ∷ "versions" ∷ "website" ∷ "uploads"
    ∷ "uploadId" ∷ "response-content-type" ∷ "response-content-language" ∷ "response-expires"
    ∷ "response-cache-control" ∷ "response-content-disposition" ∷ "response-content-encoding"
    ∷ "delete" ∷ "lifecycle" ∷ "tagging" ∷ "restore" ∷ "storageClass" ∷ "notification"
    ∷ "replication" ∷ "requestPayment" ∷ "analytics" ∷ "metrics" ∷ "inventory" ∷ "select"
    ∷ "select-type" ∷ "object-lock" ∷ []

abbrev pub is_of_interest : Values → Bool
is_of_interest [] = false
is_of_interest ((query_name, vs) ∷ q) =
    contains query_string_arguments_of_interest query_name || is_of_interest q

-- `getCanonicalResource`.
unfoldable pub get_canonical_resource : Request → Result String
get_canonical_resource r =
    if is_of_interest r.query
    then fail (text "processing query parameters of interest is not yet implemented")
    else ok r.path

abbrev with_newline : String → String
with_newline s = if str_eq s "" then "" else append s "\n"

-- The text of `getCanonicalRequestString`, from its parts.
abbrev canonical_text : String → String × Values → String → String
canonical_text method (standard, h) resource = append method (
    append "\n" (
      append standard
        (append "\n" (append (with_newline (get_canonical_custom_headers h)) resource))))

-- `getCanonicalRequestString`.
unfoldable pub get_canonical_request_string : Request → String → Result String
get_canonical_request_string r expires =
    let method = to_upper r.method in
    if not (str_eq method "GET") && not (str_eq method "HEAD")
    then fail (text "only Get and Head are implemented at the moment")
    else do
      resource ← get_canonical_resource r
      ok (canonical_text method (get_canonical_standard_headers r.header expires) resource)

module _ (L : Library) where
  open L use {hmac_sha1, base64, query_escape, parse_url, atoi, format_int}

  abbrev sec_token : AwsCredentials → String
  sec_token creds =
      if str_eq creds.session_token ""
      then ""
      else append "&x-amz-security-token=" (query_escape creds.session_token)

  -- Scheme, host and path of the URL.
  abbrev pub url_base : Request → String
  url_base r =
      append (if str_eq r.scheme "" then "https" else r.scheme)
        (append "://" (append r.url_host r.path))

  -- `buildHmacV1QueryUrl`.
  unfoldable pub build_hmac_v1_query_url : Request → AwsCredentials → String → String → String
  build_hmac_v1_query_url r creds expires signature = append (url_base r) (
      append "?AWSAccessKeyId=" (
        append (query_escape creds.access_key_id) (
          append "&Signature=" (
            append (query_escape signature)
              (append (sec_token creds) (append "&Expires=" expires))))))

  -- The signature in `calculateS3PresignedHmacV1QueryUrlWithExpiryTime`.
  unfoldable pub hmac_v1_signature : Request → AwsCredentials → String → Result String
  hmac_v1_signature r creds expires = do
    cs ←
        get_canonical_request_string (record r { header = assure_sec_token_header r.header creds })
          expires
    ok (base64 (hmac_sha1 creds.secret_access_key cs))

  -- `calculateS3PresignedHmacV1QueryUrlWithExpiryTime`.
  unfoldable pub calculate_with_expiry_time : Request → AwsCredentials → String → Result String
  calculate_with_expiry_time r creds expires = do
    signature ← hmac_v1_signature r creds expires
    ok (build_hmac_v1_query_url r creds expires signature)

  -- `getExpiresFromExpirySeconds`, at the time `now`.
  unfoldable pub get_expires_from_expiry_seconds : ℕ → ℕ → String
  get_expires_from_expiry_seconds now expiry_seconds = format_int (now + expiry_seconds)

  -- `CalculateS3PresignedHmacV1QueryUrl`, at the time `now`, for a number of seconds that is not
  -- negative. The numbers in the text of the second error are left out.
  unfoldable pub calculate_s3_presigned_hmac_v1_query_url :
      ℕ → Request → AwsCredentials → ℕ → Result String
  calculate_s3_presigned_hmac_v1_query_url now r creds expiry_seconds =
      let expires = get_expires r in
      if str_eq expires "" && expiry_seconds == 0
      then fail (text "got expirySeconds 0 but no expires in URL, impossible to get expires")
      else if ltb 0 expiry_seconds
      then (if not (str_eq expires "")
          then fail
              (text "got expirySeconds and expires in URL, impossible to now which expires to use")
          else calculate_with_expiry_time r creds
              (get_expires_from_expiry_seconds now expiry_seconds))
      else calculate_with_expiry_time r creds expires

  -- The last three results of `CompareRequestWithUrl` of requestutils/http-request.go.
  unfoldable pub compare_request_with_url : Request → String → Result (Bool × Bool × Bool)
  compare_request_with_url r input_url = do
    u ← parse_url input_url
    ok (str_eq u.host r.url_host, str_eq u.path r.path, is_same_query u.query r.query)

  -- `hasValidSignature`, at the time `now`.
  unfoldable pub has_valid_signature : ℕ → Request → AwsCredentials → Result Bool
  has_valid_signature now r creds = do
    expected_url ← calculate_s3_presigned_hmac_v1_query_url now r creds 0
    same ← compare_request_with_url r expected_url
    ok (same.0 && (same.1 && same.2))
