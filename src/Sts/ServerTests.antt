-- ===== src/Sts/ServerTests.antt =====
-- The exchange of a concrete token.
use fakes3pp.Prelude.{String, ◌≡◌, refl, true, none, some, [], ◌∷◌, arith}
use fakes3pp.Outcome.{ok}
use fakes3pp.Request.Http.{Values, query_get}
use fakes3pp.Iam.Manager.Cache.{new_policy_manager}
use fakes3pp.S3.Authorize.Claims.{
  SessionClaims, extract_token_claims, get_policy_session_data_from_claims,
}
use fakes3pp.Credentials.Issue.{IssuedCredentials}
use fakes3pp.Middleware.Signature.{make_sure_session_token_is_for_access_key}
use fakes3pp.Sts.Server.{issued, process_sts_post, parse_form}
use fakes3pp.Sts.Samples.{server, proxy_jwt, proxy_jwt-ReadsSigned}
use fakes3pp.Sts.Issued.{IsEntitled, process_sts_post-IsEntitled}
use fakes3pp.Sts.Accepted.{process_sts_post-accepted}

abbrev body : Values
body =
    ("Version", "2011-06-15" ∷ [])
    ∷ ("Action", "AssumeRoleWithWebIdentity" ∷ [])
    ∷ ("RoleArn", "role" ∷ [])
    ∷ ("WebIdentityToken", "oidc" ∷ [])
    ∷ []

abbrev credentials : IssuedCredentials
credentials = record {
  access_key = "0123456789abcdef0123456789abcdef";
  secret_key = "MDEyMzQ1Njc4OWFiY2RlZjAxMjM0NTY3ODlhYmNkZW";
  session_token = "signed";
  expiration = 4600000000000;
}

abbrev uuid : String
uuid = "01234567-89ab-cdef-0123-456789abcdef"

exchange :
    (process_sts_post server 1000000000000 uuid true body [] (none, new_policy_manager server.T)).0
    ≡ issued credentials "idp:alice"
unfolding fakes3pp.Text.remove_all fakes3pp.Map.lookup fakes3pp.Map.insert
    fakes3pp.Request.Http.query_get fakes3pp.Credentials.SecretKey.digit
    fakes3pp.Credentials.SecretKey.encode_to_string
    fakes3pp.Credentials.SecretKey.calculate_secret_key
    fakes3pp.Credentials.SecretKey.new_access_key
    fakes3pp.Credentials.Issue.create_rs256_policy_token
    fakes3pp.Credentials.Issue.new_aws_credentials fakes3pp.S3.Authorize.Claims.extract_token_claims
    fakes3pp.Iam.Manager.Cache.get_policy_template fakes3pp.Iam.Manager.Cache.does_policy_exist
    fakes3pp.Sts.Duration.seconds fakes3pp.Sts.Duration.calculate_final_duration_seconds
    fakes3pp.Sts.Server.parse_form fakes3pp.Sts.Server.new_proxy_issued_token
    fakes3pp.Sts.Server.make_credentials fakes3pp.Sts.Server.check_role
    fakes3pp.Sts.Server.check_claims fakes3pp.Sts.Server.assume_role_with_web_identity
    fakes3pp.Sts.Server.process_sts_post
exchange = refl

process_sts_post-IsEntitled_example :
    IsEntitled server 1000000000000 uuid
      (parse_form body [])
      (new_policy_manager server.T)
      credentials
process_sts_post-IsEntitled_example =
    process_sts_post-IsEntitled server 1000000000000 uuid true body [] none
      (new_policy_manager server.T) credentials "idp:alice" exchange

process_sts_post-accepted_example :
    (make_sure_session_token_is_for_access_key proxy_jwt "key" "" "signed" credentials.access_key
      ≡ ok tt)
    × ((given read : SessionClaims) × (extract_token_claims server.J
            (query_get (parse_form body []) "WebIdentityToken")
            (some server.oidc_key_func)
          ≡ ok given)
        × (extract_token_claims proxy_jwt "signed" (some "key") ≡ ok read)
        × (read.role_arn ≡ query_get (parse_form body []) "RoleArn")
        × ((get_policy_session_data_from_claims read).claims.subject ≡ given.subject)
        × ((get_policy_session_data_from_claims read).claims.issuer ≡ given.issuer)
        × ((get_policy_session_data_from_claims read).tags ≡ given.tags))
process_sts_post-accepted_example =
    process_sts_post-accepted server proxy_jwt "key" 4000 1000000000000 uuid "" true body [] none
      (new_policy_manager server.T) credentials "idp:alice" (proxy_jwt-ReadsSigned 4000) exchange
      (omega arith) (omega arith)
