-- ===== src/Sts/Accepted.antt =====
-- That the proxy takes the credentials that were issued.
use fakes3pp.Prelude.{
  ℕ, ◌<◌, ◌≤◌, ◌/◌, String, ◌≡◌, refl, subst, Bool, false, Option, some, str_eq, eq_refl,
  if◌then◌else◌,
}
use fakes3pp.Outcome.{ok}
use fakes3pp.Request.Http.{Values, query_get}
use fakes3pp.Iam.Manager.Cache.{Manager}
use fakes3pp.Context.{RequestCtx}
use fakes3pp.S3.Authorize.Claims.{
  SessionClaims, Jwt, extract_token_claims, get_policy_session_data_from_claims,
}
use fakes3pp.Credentials.Valid.{new_aws_credentials_lem}
use fakes3pp.Credentials.Issue.{IssuedCredentials, create_rs256_policy_token, new_aws_credentials}
use fakes3pp.Middleware.Signature.{make_sure_session_token_is_for_access_key}
use fakes3pp.Sts.Duration.{time_add}
use fakes3pp.Sts.Server.{StsServer, issued, parse_form, new_proxy_issued_token, process_sts_post}
use fakes3pp.Sts.Issued.{proxy_claims, process_sts_post-IsEntitled}

module _ (S : StsServer) where
  open S use {J, oidc_key_func, K, fqdn, limits, T, retriever, atoi}

  -- What is used of the package jwt by the proxy, at a moment in whole seconds: a token that was signed
  -- with the private key is read back when its NotBefore has come and its ExpiresAt has not.
  pub record ReadsSigned (J' : Jwt) (key_func : J'.KeyFunc) (moment : ℕ) : Type 0 where
    pub reads :
        (key t : String) (claims : SessionClaims) (nbf exp : ℕ)
        → K.private_key ≡ ok key
        → K.signed_string key claims ≡ ok t
        → claims.nbf ≡ some nbf
        → claims.exp ≡ some exp
        → nbf ≤ moment
        → moment < exp
        → (str_eq t "" ≡ false) × (J'.parse_with_claims t key_func ≡ ok claims)

  -- The claims that the proxy reads from the token of issued credentials.
  token_read :
      (J' : Jwt) (key_func : J'.KeyFunc) (moment now : ℕ) (uuid_string : String)
      (claims : SessionClaims) (role_arn : String) (duration : ℕ) (cred : IssuedCredentials)
      → ReadsSigned J' key_func moment
      → new_aws_credentials K now uuid_string (proxy_claims S now claims role_arn duration) duration
        ≡ ok cred
      → now / 1000000000 ≤ moment
      → moment < cred.expiration / 1000000000
      → extract_token_claims J' cred.session_token (some key_func)
        ≡ ok (record (proxy_claims S now claims role_arn duration) {
          access_key_id = cred.access_key;
        })
  unfolding extract_token_claims new_proxy_issued_token create_rs256_policy_token
  token_read J' key_func moment now uuid_string claims role_arn duration cred laws made
        issued_before live =
      let (key, e1, e2, e3, x) =
        new_aws_credentials_lem K now uuid_string (proxy_claims S now claims role_arn duration)
          duration cred made in
      let (p, q) =
        laws.reads key cred.session_token
          (record (proxy_claims S now claims role_arn duration) { access_key_id = cred.access_key })
          (now / 1000000000) (time_add now duration / 1000000000) e1 e2 refl refl issued_before
          (subst (λ (t : ℕ). moment < t / 1000000000) x live) in
      rw (p, q) refl

  -- From the second of their issue until they expire, by the clock of the proxy, it takes the session
  -- token of issued credentials for their access key,
  -- and reads from it the role that was asked for, and the subject, the issuer and the tags of the
  -- token of the identity provider, whatever is done about legacy credentials.
  pub process_sts_post-accepted :
      (J' : Jwt) (key_func : J'.KeyFunc) (moment now : ℕ) (uuid_string legacy : String)
      (parsed : Bool) (post_form form : Values) (ctx : Option RequestCtx) (m : Manager T)
      (cred : IssuedCredentials) (sub : String)
      → ReadsSigned J' key_func moment
      → (process_sts_post S now uuid_string parsed post_form form (ctx, m)).0 ≡ issued cred sub
      → now / 1000000000 ≤ moment
      → moment < cred.expiration / 1000000000
      → (make_sure_session_token_is_for_access_key J' key_func legacy cred.session_token
            cred.access_key
          ≡ ok tt)
        × ((given read : SessionClaims) × (extract_token_claims J
                (query_get (if parsed then parse_form post_form form else form) "WebIdentityToken")
                (some oidc_key_func)
              ≡ ok given)
            × (extract_token_claims J' cred.session_token (some key_func) ≡ ok read)
            × (read.role_arn
                ≡ query_get (if parsed then parse_form post_form form else form) "RoleArn")
            × ((get_policy_session_data_from_claims read).claims.subject ≡ given.subject)
            × ((get_policy_session_data_from_claims read).claims.issuer ≡ given.issuer)
            × ((get_policy_session_data_from_claims read).tags ≡ given.tags))
  unfolding make_sure_session_token_is_for_access_key get_policy_session_data_from_claims
      new_proxy_issued_token create_rs256_policy_token
  process_sts_post-accepted J' key_func moment now uuid_string legacy parsed post_form form ctx m
        cred sub laws e issued_before live =
      let (claims, asked, duration, given, _, has_issuer, _, _, _, made) =
        process_sts_post-IsEntitled S now uuid_string parsed post_form form ctx m cred sub e in
      let role_arn = query_get (if parsed then parse_form post_form form else form) "RoleArn" in
      let read =
        token_read J' key_func moment now uuid_string claims role_arn duration cred laws made
          issued_before live in
      (
        rw (read, eq_refl cred.access_key) refl,
        (
          claims,
          record (proxy_claims S now claims role_arn duration) { access_key_id = cred.access_key },
          given,
          read,
          refl,
          refl,
          rw has_issuer refl,
          refl,
        ),
      )
