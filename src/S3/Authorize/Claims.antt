-- ===== src/S3/Authorize/Claims.antt =====
-- aws/credentials/jwt.go: the claims of a session token; and `GetPolicySessionDataFromClaims` of
-- aws/service/iam/policy-retrieval.go.
use fakes3pp.Prelude.{ℕ, String, Option, none, some, str_eq, if◌then◌else◌}
use fakes3pp.UserError.{Error, text, user, message}
use fakes3pp.Outcome.{Result, fail, map_error}
use fakes3pp.Iam.Policy.Action.{AwsSessionTags, PolicySessionData}

-- `SessionClaims`, with the fields of `IDPClaims` and `jwt.RegisteredClaims` that are read; `exp`,
-- `nbf` and `iat` are the Unix times of `ExpiresAt`, `NotBefore` and `IssuedAt`, or nil.
pub record SessionClaims : Type 0 where
  pub role_arn : String
  pub i_issuer : String
  pub tags : AwsSessionTags
  pub issuer : String
  pub subject : String
  pub exp : Option ℕ
  pub nbf : Option ℕ
  pub iat : Option ℕ
  pub access_key_id : String

-- The package github.com/golang-jwt/jwt, for one set of parser options.
pub record Jwt : Type 1 where
  pub KeyFunc : Type 0
  pub parse_unverified : String → Result SessionClaims
  pub parse_with_claims : String → KeyFunc → Result SessionClaims

abbrev on_expiry : Error → Error
on_expiry e =
    if str_eq (message e) "token has invalid claims: token is expired"
    then user "Session credentials are expired" e
    else e

-- `ExtractTokenClaims`; no key function is nil.
unfoldable pub extract_token_claims : (J : Jwt) → String → Option J.KeyFunc → Result SessionClaims
extract_token_claims J token key_func =
    if str_eq token ""
    then fail (text "invalid argument")
    else map_error on_expiry
        (elim key_func [ none ↦ J.parse_unverified token | some k ↦ J.parse_with_claims token k ])

-- `GetPolicySessionDataFromClaims`.
unfoldable pub get_policy_session_data_from_claims : SessionClaims → PolicySessionData
get_policy_session_data_from_claims claims = record {
  claims = record {
    subject = claims.subject;
    issuer = if str_eq claims.i_issuer "" then claims.issuer else claims.i_issuer;
  };
  tags = claims.tags;
  requested_region = "";
}
