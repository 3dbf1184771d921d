-- ===== src/Credentials/Valid.antt =====
-- What credentials are made of, and how long they are valid.
use fakes3pp.Prelude.{
  ℕ, ◌≤◌, String, ◌≡◌, refl, sym, ap, subst, ◌∙◌, false, none, ltb, eq_refl, arith,
}
use fakes3pp.Outcome.{ok, >>=-eq-ok, ok-eq-ok}
use fakes3pp.S3.Authorize.Claims.{SessionClaims}
use fakes3pp.Sts.Duration.{time_add}
use fakes3pp.Credentials.SecretKey.{calculate_secret_key, new_access_key}
use fakes3pp.Credentials.Issue.{IssuedCredentials, KeyMaterial, new_aws_credentials, is_valid}

-- The credentials are for a token with the access key in its claims.
pub new_aws_credentials_lem :
    (K : KeyMaterial) (now : ℕ) (uuid_string : String) (claims : SessionClaims) (expiry : ℕ)
    (cred : IssuedCredentials)
    → new_aws_credentials K now uuid_string claims expiry ≡ ok cred
    → (key : String) × (K.private_key ≡ ok key)
      × (K.signed_string key (record claims { access_key_id = cred.access_key })
          ≡ ok cred.session_token)
      × (calculate_secret_key K.sha1 K.private_key cred.access_key ≡ ok cred.secret_key)
      × (cred.expiration ≡ time_add now expiry)
unfolding new_aws_credentials
new_aws_credentials_lem K now uuid_string claims expiry cred e =
    let (key, e1, f1) = >>=-eq-ok K.private_key _ e in
    let (session_token, e2, f2) =
      >>=-eq-ok (K.signed_string key (record claims { access_key_id = new_access_key uuid_string }))
        _ f1 in
    let (secret_key, e3, f3) =
      >>=-eq-ok (calculate_secret_key K.sha1 K.private_key (new_access_key uuid_string)) _ f2 in
    let same = ok-eq-ok _ cred f3 in
    let key_same = ap (λ (c : IssuedCredentials). c.access_key) same in
    (
      key,
      e1,
      subst
          (λ (k : String).
            K.signed_string key (record claims { access_key_id = k }) ≡ ok cred.session_token)
          key_same (e2 ∙ ap (λ (c : IssuedCredentials). ok c.session_token) same),
      subst (λ (k : String). calculate_secret_key K.sha1 K.private_key k ≡ ok cred.secret_key)
          key_same (e3 ∙ ap (λ (c : IssuedCredentials). ok c.secret_key) same),
      sym (ap (λ (c : IssuedCredentials). c.expiration) same),
    )

not_before : (e later : ℕ) → later ≤ e → ltb e later ≡ false
not_before e later h = ground arith

-- Credentials that were made are valid until they expire, where the package jwt finds the session
-- token in order.
pub is_valid-new_aws_credentials :
    (K : KeyMaterial) (now later : ℕ) (uuid_string key : String) (claims : SessionClaims)
    (expiry : ℕ) (cred : IssuedCredentials)
    → new_aws_credentials K now uuid_string claims expiry ≡ ok cred
    → K.private_key ≡ ok key
    → K.check_token cred.session_token key ≡ none
    → later ≤ cred.expiration
    → is_valid K later cred ≡ ok tt
unfolding is_valid
is_valid-new_aws_credentials K now later uuid_string key claims expiry cred made has t live =
    let (_, _, _, s, _) = new_aws_credentials_lem K now uuid_string claims expiry cred made in
    rw (not_before cred.expiration later live, s, eq_refl cred.secret_key, has, t) refl
