-- ===== src/Credentials/Issue.antt =====
-- `NewAWSCredentials` and `isValid` of aws/credentials/credentials.go, and `CreateRS256PolicyToken` of
-- aws/credentials/jwt.go. Times are nanoseconds since 1970, durations residues modulo 2^64.
use fakes3pp.Prelude.{
  ℕ, ◌/◌, String, true, not, Option, none, some, List, ltb, str_eq, if◌then◌else◌,
}
use fakes3pp.UserError.{Error, text}
use fakes3pp.Outcome.{Result, ok, fail, ◌>>=◌}
use fakes3pp.Iam.Policy.Action.{AwsSessionTags}
use fakes3pp.S3.Backend.Credentials.{AwsCredentials}
use fakes3pp.S3.Authorize.Claims.{SessionClaims}
use fakes3pp.Sts.Duration.{time_add}
use fakes3pp.Credentials.SecretKey.{calculate_secret_key, new_access_key}

-- `AWSCredentials` of this package, which are not those of the SDK.
pub record IssuedCredentials : Type 0 where
  pub access_key : String
  pub secret_key : String
  pub session_token : String
  pub expiration : ℕ

-- `CreateRS256PolicyToken`, at the time `now`: the claims of the token. A numeric date has whole
-- seconds.
unfoldable pub create_rs256_policy_token :
    ℕ → String → String → String → String → ℕ → AwsSessionTags → SessionClaims
create_rs256_policy_token now issuer i_issuer subject role_arn expiry tags = record {
  role_arn = role_arn;
  i_issuer = i_issuer;
  tags = tags;
  issuer = issuer;
  subject = subject;
  exp = some (time_add now expiry / 1000000000);
  nbf = some (now / 1000000000);
  iat = some (now / 1000000000);
  access_key_id = "";
}

-- The private key, `crypto/sha1`, and what is used of the package jwt: a token's `SignedString`, by
-- its claims, and whether a token that is parsed with the public key is in order.
pub record KeyMaterial : Type 0 where
  pub private_key : Result String
  pub sha1 : List ℕ → List ℕ
  pub signed_string : String → SessionClaims → Result String
  pub check_token : String → String → Option Error

module _ (K : KeyMaterial) where
  open K use {private_key, sha1, signed_string, check_token}

  -- `NewAWSCredentials` for a token with these claims, at the time `now`, where `uuid_string` is what
  -- `uuid.New().String()` gives.
  unfoldable pub new_aws_credentials : ℕ → String → SessionClaims → ℕ → Result IssuedCredentials
  new_aws_credentials now uuid_string claims expiry = do
    key ← private_key
    session_token ← signed_string key (record claims { access_key_id = new_access_key uuid_string })
    secret_key ← calculate_secret_key sha1 private_key (new_access_key uuid_string)
    ok (record {
      access_key = new_access_key uuid_string;
      secret_key = secret_key;
      session_token = session_token;
      expiration = time_add now expiry;
    })

  -- `isValid`, at the time `now`.
  unfoldable pub is_valid : ℕ → IssuedCredentials → Result (Unit {0})
  is_valid now cred = if ltb cred.expiration now then fail (text "expired credentials") else do
    calculated_secret_key ← calculate_secret_key sha1 private_key cred.access_key
    (if not (str_eq calculated_secret_key cred.secret_key)
        then fail (text "invalid secret access key")
        else do
          signingkey ← private_key
          elim (check_token cred.session_token signingkey) [ none ↦ ok tt | some e ↦ fail e ])

-- `FromAwsFormat` and `Retrieve`, of the fields that both kinds have; the expiry is apart.
unfoldable pub from_aws_format : AwsCredentials → ℕ → IssuedCredentials
from_aws_format creds expires = record {
  access_key = creds.access_key_id;
  secret_key = creds.secret_access_key;
  session_token = creds.session_token;
  expiration = expires;
}

unfoldable pub retrieve : IssuedCredentials → AwsCredentials × ℕ
retrieve cred = (
  record {
    access_key_id = cred.access_key;
    secret_access_key = cred.secret_key;
    session_token = cred.session_token;
    can_expire = true;
  },
  cred.expiration,
)
