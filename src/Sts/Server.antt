-- ===== src/Sts/Server.antt =====
-- aws/service/sts/server.go: a token of an identity provider is exchanged for credentials. Log lines,
-- the encoding of answers and the body of the request are left out.
use fakes3pp.Prelude.{ℕ, ◌*◌, String, Bool, not, Option, none, some, [], ◌∷◌, str_eq, if◌then◌else◌}
use fakes3pp.Text.{append}
use fakes3pp.Map.{insert, has_key}
use fakes3pp.UserError.{Error, text}
use fakes3pp.Outcome.{Result, ok, fail, panic}
use fakes3pp.Request.Http.{Values, query_get}
use fakes3pp.Iam.Policy.Action.{AwsSessionTags}
use fakes3pp.Iam.Manager.Cache.{Templates, Retriever, Manager, does_policy_exist}
use fakes3pp.Context.{
  RequestCtx, kind_string, other_kind, set_operation, add_access_log_info, get_request_id,
}
use fakes3pp.S3.Authorize.Claims.{SessionClaims, Jwt, extract_token_claims}
use fakes3pp.Credentials.Issue.{
  IssuedCredentials, KeyMaterial, create_rs256_policy_token, new_aws_credentials,
}
use fakes3pp.Sts.Duration.{Limits, calculate_final_duration_seconds}
use fakes3pp.Sts.Errors.{
  StsErrorCode, err_sts_missing_parameter, err_sts_invalid_parameter_value, err_sts_internal_error,
}

-- The fields of `STSServer`, with the packages that it calls. `atoi` gives the int64 of a text modulo
-- 2^64; `fqdns` is not empty, which its constructor checks, so that its first name stands apart.
pub record StsServer : Type 1 where
  pub J : Jwt
  pub oidc_key_func : J.KeyFunc
  pub K : KeyMaterial
  pub fqdn : String
  pub limits : Limits
  pub T : Templates
  pub retriever : Retriever
  pub atoi : String → Result ℕ

-- What a request changes: the record in its context, and the policies that the manager has kept.
abbrev pub StsState : Templates → Type 0
StsState T = Option RequestCtx × Manager T

-- What is answered: the credentials with the subject of the token, or an error; or the handler
-- panics.
pub data StsAnswer : Type 0 where
  issued : IssuedCredentials → String → StsAnswer
  refused : StsErrorCode → Error → StsAnswer
  crashed : StsAnswer

abbrev pub Answered : Templates → Type 0
Answered T = StsAnswer × StsState T

-- `if err != nil { writeSTSErrorResponse(…); return }` after a call.
abbrev pub or_answer {ℓ} :
    {A : Type ℓ} {T : Templates}
    → StsErrorCode
    → (Error → Error)
    → StsState T
    → Result A
    → (A → Answered T)
    → Answered T
or_answer code wrap s (ok a) next = next a
or_answer code wrap s (fail e) next = (refused code (wrap e), s)
or_answer code wrap s panic next = (crashed, s)

-- The loop of `parseForm`, over the values of the body that the form does not have.
unfoldable pub parse_form : Values → Values → Values
parse_form [] form = form
parse_form ((k, v) ∷ post_form) form =
    parse_form post_form (if has_key k form then form else insert k v form)

abbrev pub or_hour : String → String
or_hour s = if str_eq s "" then "3600" else s

abbrev pub in_nanoseconds : Option ℕ → Option ℕ
in_nanoseconds none = none
in_nanoseconds (some e) = some (e * 1000000000)

abbrev invalid : Error → Error
invalid e = text "invalid DurationSeconds"

module _ (S : StsServer) where
  open S use {J, oidc_key_func, K, fqdn, limits, T, retriever, atoi}

  -- `newProxyIssuedToken`, at the time `now`.
  unfoldable pub new_proxy_issued_token :
      ℕ → String → String → String → ℕ → AwsSessionTags → SessionClaims
  new_proxy_issued_token now subject issuer role_arn expiry tags =
      create_rs256_policy_token now fqdn issuer subject role_arn expiry tags

  -- The answer for the credentials. Their access key is logged before the error is looked at, which
  -- follows a nil pointer.
  abbrev pub answer_for :
      SessionClaims → String → StsState T → Result IssuedCredentials → Answered T
  answer_for claims role_arn (ctx, m) (ok cred) = (
    issued cred (append claims.issuer (append ":" claims.subject)),
    (
      add_access_log_info "sts"
          (("roleArn", kind_string role_arn)
            ∷ ("AKID", kind_string cred.access_key)
            ∷ ("subFromToken", kind_string (append claims.issuer (append ":" claims.subject)))
            ∷ ("Tags", other_kind)
            ∷ [])
          ctx,
      m,
    ),
  )
  answer_for claims role_arn s _ = (crashed, s)

  -- The credentials are made.
  unfoldable pub make_credentials :
      ℕ → String → SessionClaims → String → ℕ → StsState T → Answered T
  make_credentials now uuid_string claims role_arn duration s = answer_for claims role_arn s (
      new_aws_credentials K now uuid_string
        (new_proxy_issued_token now claims.subject claims.issuer role_arn duration claims.tags)
        duration)

  -- The role has to have a policy.
  unfoldable pub check_role : ℕ → String → SessionClaims → String → ℕ → StsState T → Answered T
  check_role now uuid_string claims role_arn duration (ctx, m) =
      let (exists, m') = does_policy_exist T retriever m role_arn in
      if not exists
      then (
        refused err_sts_invalid_parameter_value
            (text (append "invalid value for RoleArn: " role_arn)),
        (ctx, m'),
      )
      else make_credentials now uuid_string claims role_arn duration (ctx, m')

  -- The steps after the claims are known.
  unfoldable pub check_claims : ℕ → String → Values → SessionClaims → StsState T → Answered T
  check_claims now uuid_string form claims s =
      if str_eq claims.subject ""
      then (
        refused err_sts_invalid_parameter_value
            (text "STS JWT Token has `sub` claim missing, `sub` claim is mandatory"),
        s,
      )
      else if str_eq claims.issuer ""
      then (
        refused err_sts_invalid_parameter_value
            (text "STS JWT Token has `iss` claim missing, `iss` claim is mandatory"),
        s,
      )
      else or_answer err_sts_invalid_parameter_value invalid s
          (atoi (or_hour (query_get form "DurationSeconds")))
          (λ duration_seconds_int.
            or_answer err_sts_internal_error (λ e. e) s
              (calculate_final_duration_seconds limits now duration_seconds_int
                (in_nanoseconds claims.exp))
              (λ duration. check_role now uuid_string claims (query_get form "RoleArn") duration s))

  abbrev invalid_token : Option RequestCtx → Error → Error
  invalid_token ctx e = text (
      append "invalid webidentity token. If issue persist and need support share ID "
        (get_request_id ctx))

  -- `assumeRoleWithWebIdentity`, at the time `now`. Its operation is not one of S3.
  unfoldable pub assume_role_with_web_identity : ℕ → String → Values → StsState T → Answered T
  assume_role_with_web_identity now uuid_string form (ctx, m) =
      let named = set_operation none ctx in
      or_answer err_sts_invalid_parameter_value (invalid_token named) (named, m)
        (extract_token_claims J (query_get form "WebIdentityToken") (some oidc_key_func))
        (λ claims. check_claims now uuid_string form claims (named, m))

  -- `processSTSPost`, of the forms that `ParseForm` finds; on its error the values of the body are
  -- not added.
  unfoldable pub process_sts_post : ℕ → String → Bool → Values → Values → StsState T → Answered T
  process_sts_post now uuid_string parsed post_form form s =
      let whole = if parsed then parse_form post_form form else form in
      if not (str_eq (query_get whole "Version") "2011-06-15")
      then (
        refused err_sts_missing_parameter (
            text (
              append "invalid STS API version "
                (append (query_get whole "Version") ", expecting 2011-06-15"))),
        s,
      )
      else if str_eq (query_get whole "Action") "AssumeRoleWithWebIdentity"
      then assume_role_with_web_identity now uuid_string whole s
      else (
        refused err_sts_invalid_parameter_value
            (text (append "unsupported action " (query_get whole "Action"))),
        s,
      )
