-- ===== src/Sts/Issued.antt =====
-- For what credentials are issued, and what they are good for.
use fakes3pp.Prelude.{
  ℕ, ◌+◌, ◌≤◌, ◌<◌, String, ◌≡◌, refl, sym, ap, subst, Bool, true, false, Bool-cases, inl, inr,
  Option, none, some, str_eq, arith, if◌then◌else◌,
}
use fakes3pp.UserError.{Error}
use fakes3pp.Outcome.{Result, ok, fail, panic}
use fakes3pp.Request.Http.{Values, query_get}
use fakes3pp.Iam.Manager.Cache.{Templates, Manager, does_policy_exist}
use fakes3pp.Context.{RequestCtx, set_operation}
use fakes3pp.S3.Authorize.Claims.{SessionClaims, extract_token_claims}
use fakes3pp.Credentials.Valid.{new_aws_credentials_lem}
use fakes3pp.Credentials.Issue.{IssuedCredentials, new_aws_credentials}
use fakes3pp.Sts.Duration.{
  IsConfigured, calculate_final_duration_seconds, calculate_final_duration_seconds-bounds,
}
use fakes3pp.Sts.Errors.{StsErrorCode}
use fakes3pp.Sts.Server.{
  StsServer, StsState, Answered, issued, crashed, or_answer, parse_form, or_hour, in_nanoseconds,
  new_proxy_issued_token, answer_for, make_credentials, check_role, check_claims,
  assume_role_with_web_identity, process_sts_post,
}

or_answer-eq-issued {ℓ} :
    {A : Type ℓ} {T : Templates} (code : StsErrorCode) (wrap : Error → Error) (s : StsState T)
    (m : Result A) (next : A → Answered T) (cred : IssuedCredentials) (sub : String)
    → (or_answer code wrap s m next).0 ≡ issued cred sub
    → (a : A) × (m ≡ ok a) × ((next a).0 ≡ issued cred sub)
or_answer-eq-issued code wrap s (ok a) next cred sub e = (a, refl, e)
or_answer-eq-issued code wrap s (fail x) next cred sub e = absurd (cc)
or_answer-eq-issued code wrap s panic next cred sub e = absurd (cc)

issued-eq-issued : (c d : IssuedCredentials) (s t : String) → issued c s ≡ issued d t → c ≡ d
issued-eq-issued c d s t e = cc

module _ (S : StsServer) where
  open S use {J, oidc_key_func, K, fqdn, limits, T, retriever, atoi}

  -- The token that is made for the claims of a provider's token.
  abbrev pub proxy_claims : ℕ → SessionClaims → String → ℕ → SessionClaims
  proxy_claims now claims role_arn duration =
      new_proxy_issued_token S now claims.subject claims.issuer role_arn duration claims.tags

  -- For which requests credentials are issued.
  abbrev pub IsEntitled : ℕ → String → Values → Manager T → IssuedCredentials → Type 0
  IsEntitled now uuid_string form m cred =
      (claims : SessionClaims) × (asked duration : ℕ) × (extract_token_claims J
          (query_get form "WebIdentityToken") (some oidc_key_func)
        ≡ ok claims)
      × (str_eq claims.subject "" ≡ false)
      × (str_eq claims.issuer "" ≡ false)
      × (atoi (or_hour (query_get form "DurationSeconds")) ≡ ok asked)
      × (calculate_final_duration_seconds limits now asked (in_nanoseconds claims.exp)
          ≡ ok duration)
      × ((does_policy_exist T retriever m (query_get form "RoleArn")).0 ≡ true)
      × (new_aws_credentials K now uuid_string
            (proxy_claims now claims (query_get form "RoleArn") duration) duration
          ≡ ok cred)

  answer_for-issued :
      (claims : SessionClaims) (role_arn : String) (s : StsState T) (r : Result IssuedCredentials)
      (cred : IssuedCredentials) (sub : String)
      → (answer_for S claims role_arn s r).0 ≡ issued cred sub
      → r ≡ ok cred
  answer_for-issued claims role_arn (ctx, m) (ok c) cred sub e =
      ap ok (issued-eq-issued c cred _ sub e)
  answer_for-issued claims role_arn s (fail x) cred sub e = absurd (cc)
  answer_for-issued claims role_arn s panic cred sub e = absurd (cc)

  check_role-issued :
      (now : ℕ) (uuid_string : String) (claims : SessionClaims) (role_arn : String) (duration : ℕ)
      (ctx : Option RequestCtx) (m : Manager T) (cred : IssuedCredentials) (sub : String)
      → (check_role S now uuid_string claims role_arn duration (ctx, m)).0 ≡ issued cred sub
      → ((does_policy_exist T retriever m role_arn).0 ≡ true)
        × (new_aws_credentials K now uuid_string
              (proxy_claims now claims role_arn duration)
              duration
            ≡ ok cred)
  unfolding check_role make_credentials
  check_role-issued now uuid_string claims role_arn duration ctx m cred sub e =
      elim (Bool-cases (does_policy_exist T retriever m role_arn).0) [
        | inl y ↦ (y, answer_for-issued claims role_arn _ _ cred sub (rw y at e))
        | inr y ↦ absurd (cc (rw y at e))
      ]

  assume_role-issued :
      (now : ℕ) (uuid_string : String) (form : Values) (ctx : Option RequestCtx) (m : Manager T)
      (cred : IssuedCredentials) (sub : String)
      → (assume_role_with_web_identity S now uuid_string form (ctx, m)).0 ≡ issued cred sub
      → IsEntitled now uuid_string form m cred
  unfolding assume_role_with_web_identity check_claims
  assume_role-issued now uuid_string form ctx m cred sub e =
      let (claims, e1, f1) =
        or_answer-eq-issued _ _ _
          (extract_token_claims J (query_get form "WebIdentityToken") (some oidc_key_func)) _ cred
          sub e in
      elim (Bool-cases (str_eq claims.subject "")) [
        | inl y ↦ absurd (cc (rw y at f1))
        | inr y ↦ elim (Bool-cases (str_eq claims.issuer "")) [
          | inl z ↦ absurd (cc (rw (y, z) at f1))
          | inr z ↦
              (let (asked, e2, f2) =
                  or_answer-eq-issued _ _ _ (atoi (or_hour (query_get form "DurationSeconds"))) _
                    cred sub (rw (y, z) at f1) in
                let (duration, e3, f3) =
                  or_answer-eq-issued _ _ _
                    (calculate_final_duration_seconds limits now asked (in_nanoseconds claims.exp))
                    _ cred sub f2 in
                let (p, made) =
                  check_role-issued now uuid_string claims (query_get form "RoleArn") duration
                    (set_operation none ctx) m cred sub f3 in
                (claims, asked, duration, e1, y, z, e2, e3, p, made))
        ]
      ]

  -- Credentials are issued only for a token that the verifier of the identity providers accepts and
  -- that has a subject and an issuer, for a role with a policy, and for a duration that was granted.
  pub process_sts_post-IsEntitled :
      (now : ℕ) (uuid_string : String) (parsed : Bool) (post_form form : Values)
      (ctx : Option RequestCtx) (m : Manager T) (cred : IssuedCredentials) (sub : String)
      → (process_sts_post S now uuid_string parsed post_form form (ctx, m)).0 ≡ issued cred sub
      → IsEntitled now uuid_string (if parsed then parse_form post_form form else form) m cred
  unfolding process_sts_post
  process_sts_post-IsEntitled now uuid_string parsed post_form form ctx m cred sub e =
      let whole = if parsed then parse_form post_form form else form in
      elim (Bool-cases (str_eq (query_get whole "Version") "2011-06-15")) [
        | inl y ↦
            elim (Bool-cases (str_eq (query_get whole "Action") "AssumeRoleWithWebIdentity")) [
              | inl z ↦ assume_role-issued now uuid_string whole ctx m cred sub (rw (y, z) at e)
              | inr z ↦ absurd (cc (rw (y, z) at e))
            ]
        | inr y ↦ absurd (cc (rw y at e))
      ]

  -- Credentials that are issued expire no sooner than the least and no later than the greatest
  -- duration that is configured, from the time of the request, which is after 1970.
  pub process_sts_post-expiration :
      (now : ℕ) (uuid_string : String) (parsed : Bool) (post_form form : Values)
      (ctx : Option RequestCtx) (m : Manager T) (cred : IssuedCredentials) (sub : String)
      → IsConfigured limits
      → 0 < now
      → (process_sts_post S now uuid_string parsed post_form form (ctx, m)).0 ≡ issued cred sub
      → (now + limits.min_allowed_duration ≤ cred.expiration)
        × (cred.expiration ≤ now + limits.max_allowed_duration)
  process_sts_post-expiration now uuid_string parsed post_form form ctx m cred sub c p e =
      let (claims, asked, duration, _, _, _, _, d, _, made) =
        process_sts_post-IsEntitled now uuid_string parsed post_form form ctx m cred sub e in
      let (_, lower, upper, _) =
        calculate_final_duration_seconds-bounds limits now asked (in_nanoseconds claims.exp)
          duration c p d in
      let (_, _, _, _, x) =
        new_aws_credentials_lem K now uuid_string
          (proxy_claims now claims
            (query_get (if parsed then parse_form post_form form else form) "RoleArn") duration)
          duration cred made in
      subst
        (λ (t : ℕ).
          (now + limits.min_allowed_duration ≤ t) × (t ≤ now + limits.max_allowed_duration))
        (sym x) (ground (arith, c.max_bound))

  -- When the private key cannot be had, the handler panics instead of answering with an error.
  pub make_credentials-no_key :
      (now : ℕ) (uuid_string : String) (claims : SessionClaims) (role_arn : String) (duration : ℕ)
      (s : StsState T) (e : Error)
      → K.private_key ≡ fail e
      → (make_credentials S now uuid_string claims role_arn duration s).0 ≡ crashed
  unfolding make_credentials new_aws_credentials
  make_credentials-no_key now uuid_string claims role_arn duration (ctx, m) e h = rw h refl
