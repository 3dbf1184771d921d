-- ===== src/Presign/Library.antt =====
-- What the package presign calls of Go's library and of the AWS SDK, and the credentials that it is
-- given.
use fakes3pp.Prelude.{ℕ, String}
use fakes3pp.Outcome.{Result}
use fakes3pp.Request.Http.{Values, Request}
use fakes3pp.S3.Backend.Credentials.{AwsCredentials}

-- A `url.URL`, with `Query()` for its query.
pub record Url : Type 0 where
  pub scheme : String
  pub host : String
  pub path : String
  pub query : Values

-- Times are Unix times in seconds.
pub record Library : Type 0 where
  -- `crypto/hmac` with `crypto/sha1`, of a key and a text, and `base64.StdEncoding`.
  pub hmac_sha1 : String → String → String
  pub base64 : String → String
  -- `url.QueryEscape`, and `url.Parse` with `Query()`.
  pub query_escape : String → String
  pub parse_url : String → Result Url
  -- `url.ParseQuery` of the query of a URL.
  pub parse_query : String → Result Values
  -- `strconv.Atoi`, for numbers that are not negative, and `strconv.FormatInt` of the int64 that a
  -- number stands for modulo 2^64.
  pub atoi : String → Result ℕ
  pub format_int : ℕ → String
  -- `time.Parse` with the layout of X-Amz-Date.
  pub parse_time : String → Result ℕ
  -- `Signer.SignHTTP` and `Signer.PresignHTTP`, without the escaping of paths: of credentials, a
  -- request, the hash of its payload, a service, a region and a time.
  pub sign_http : AwsCredentials → Request → String → String → String → ℕ → Result Request
  pub presign_http : AwsCredentials → Request → String → String → String → ℕ → Result String

-- `SecretDeriver`.
abbrev pub SecretDeriver : Type 0
SecretDeriver = String → Result String
