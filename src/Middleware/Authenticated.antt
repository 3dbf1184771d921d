-- ===== src/Middleware/Authenticated.antt =====
-- Which requests the authentication lets through.
use fakes3pp.Prelude.{
  ℕ, ◌/◌, String, ◌≡◌, refl, sym, ap, ◌↔◌, eq_refl, true, Bool-cases, inl, inr, Option, some, List,
  str_eq, eq_iff, if◌then◌else◌,
}
use fakes3pp.Text.{remove_all}
use fakes3pp.UserError.{Error}
use fakes3pp.Outcome.{Result, ok, fail, panic, >>=-eq-ok}
use fakes3pp.Request.Http.{Request, header_get}
use fakes3pp.Request.Credential.{get_region_from_request}
use fakes3pp.Context.{
  RequestCtx, auth_type_none, auth_type_auth_header, set_auth_type, set_session_token,
  set_target_region, add_access_log_info, get_session_token, add_to,
}
use fakes3pp.S3.Authorize.Errors.{AwsErrorCode}
use fakes3pp.S3.Authorize.Claims.{SessionClaims, Jwt, extract_token_claims}
use fakes3pp.Presign.Headers.{Aside, temporary_remove_untrusted_headers, re_add_headers}
use fakes3pp.Presign.V4.{second, sign_with_creds}
use fakes3pp.Presign.Url.{url_credentials}
use fakes3pp.Middleware.Signature.{
  remember_signed_headers, remembered, Handled, Verdict, authenticated, or_reject, is_for_key,
  make_sure_session_token_is_for_access_key, get_credentials_from_request, AuthServices,
  add_region_to_session, note_credentials,
}
use fakes3pp.Middleware.Authentication.{
  secret_deriver, to_sign, check_signature, sign_again, check_credentials, handle_auth_n_normal,
}

-- What went on passed the call.
pub or_reject-eq-authenticated {ℓ} :
    {A : Type ℓ} (code : AwsErrorCode) (wrap : Error → Error) (ctx : Option RequestCtx)
    (m : Result A) (next : A → Verdict) (h : Handled)
    → or_reject code wrap ctx m next ≡ authenticated h
    → (a : A) × (m ≡ ok a) × (next a ≡ authenticated h)
or_reject-eq-authenticated code wrap ctx (ok a) next h e = (a, refl, e)
or_reject-eq-authenticated code wrap ctx (fail x) next h e = absurd (cc)
or_reject-eq-authenticated code wrap ctx panic next h e = absurd (cc)

-- The session token is accepted by the parser, and its claims name the access key, unless legacy
-- credentials are allowed.
abbrev pub IsTokenFor : (J : Jwt) → J.KeyFunc → String → String → String → Type 0
IsTokenFor J key_func legacy token key =
    (claims : SessionClaims) × (extract_token_claims J token (some key_func) ≡ ok claims)
    × (is_for_key legacy claims.access_key_id key ≡ true)

pub token_is_for :
    (J : Jwt) (key_func : J.KeyFunc) (legacy token key : String)
    → make_sure_session_token_is_for_access_key J key_func legacy token key ≡ ok tt
    → IsTokenFor J key_func legacy token key
unfolding make_sure_session_token_is_for_access_key
token_is_for J key_func legacy token key e =
    let (claims, f, g) = >>=-eq-ok (extract_token_claims J token (some key_func)) _ e in
    (
      claims,
      f,
      elim (Bool-cases (is_for_key legacy claims.access_key_id key)) [
        | inl y ↦ y
        | inr y ↦ absurd (cc (rw y at g))
      ],
    )

token_is_accepted :
    (J : Jwt) (key_func : J.KeyFunc) (legacy token key : String)
    → IsTokenFor J key_func legacy token key
    → make_sure_session_token_is_for_access_key J key_func legacy token key ≡ ok tt
unfolding make_sure_session_token_is_for_access_key
token_is_accepted J key_func legacy token key (claims, f, g) = rw f (rw g refl)

pub authenticated-eq-authenticated : (h k : Handled) → authenticated h ≡ authenticated k → h ≡ k
authenticated-eq-authenticated h k e = cc

module _ (S : AuthServices) where
  open S use {
    J, key_func, with_leeway, leeway_key_func, L, sha1, private_key, removable_query_params,
    allow_legacy_credentials, default_backend,
  }

  -- The request, signed again with these credentials, has the signature that it came with.
  abbrev pub IsSignedAgain : ℕ → Request → Option (List String) → String → String → Type 0
  IsSignedAgain now r signed_headers key token =
      (secret : String) × (aside : Aside) × (signed : Request) × (secret_deriver S key ≡ ok secret)
      × (temporary_remove_untrusted_headers signed_headers r ≡ ok aside)
      × (sign_with_creds L (now / second) (to_sign S r aside.0) (url_credentials key secret token)
            "ThisShouldNotBeUsedForSigv4Requests258"
          ≡ ok signed)
      × (remove_all b' ' (header_get signed.header "Authorization")
          ≡ remove_all b' ' (header_get r.header "Authorization"))

  check_signature_lem :
      (r : Request) (ctx : Option RequestCtx) (aside : Aside) (signed : Request) (h : Handled)
      → check_signature S r ctx aside signed ≡ authenticated h
      → (remove_all b' ' (header_get signed.header "Authorization")
          ≡ remove_all b' ' (header_get r.header "Authorization"))
        × (h.1 ≡ ctx)
  unfolding check_signature
  check_signature_lem r ctx (kept, headers) signed h e =
      let calculated = remove_all b' ' (header_get signed.header "Authorization") in
      let passed = remove_all b' ' (header_get r.header "Authorization") in
      elim (Bool-cases (str_eq calculated passed)) [
        | inl y ↦ (
          (eq_iff calculated passed).0 y,
          sym (ap (λ (x : Handled). x.1) (authenticated-eq-authenticated _ h (rw y at e))),
        )
        | inr y ↦ absurd (cc (rw y at e))
      ]

  check_signature-same :
      (r : Request) (ctx : Option RequestCtx) (aside : Aside) (signed : Request)
      → remove_all b' ' (header_get signed.header "Authorization")
        ≡ remove_all b' ' (header_get r.header "Authorization")
      → check_signature S r ctx aside signed
        ≡ authenticated (record r { header = re_add_headers aside.1 aside.0 }, ctx)
  unfolding check_signature
  check_signature-same r ctx (kept, headers) signed e =
      rw (e, eq_refl (remove_all b' ' (header_get r.header "Authorization"))) refl

  -- What makes an ordinary request genuine.
  abbrev pub IsGenuine : ℕ → Request → RequestCtx → Type 0
  IsGenuine now r ctx =
      (key token region : String) × (get_credentials_from_request r ≡ ok (key, token))
      × IsTokenFor J key_func allow_legacy_credentials token key
      × (get_region_from_request r default_backend ≡ ok region)
      × IsSignedAgain now r ctx.signed_headers key token

  pub handle_auth_n_normal-IsGenuine :
      (now : ℕ) (r : Request) (ctx : RequestCtx) (h : Handled)
      → handle_auth_n_normal S now (r, some ctx) ≡ authenticated h
      → (g : IsGenuine now r ctx) × (get_session_token h.1 ≡ ok g.1)
  unfolding handle_auth_n_normal check_credentials sign_again set_auth_type add_region_to_session
      set_session_token remember_signed_headers remembered set_target_region add_access_log_info
      get_session_token add_to
  handle_auth_n_normal-IsGenuine now r ctx h e =
      let (c, e1, e2) = or_reject-eq-authenticated _ _ _ (get_credentials_from_request r) _ h e in
      let (u, e3, e4) =
        or_reject-eq-authenticated _ _ _
          (make_sure_session_token_is_for_access_key J key_func allow_legacy_credentials c.1 c.0) _
          h e2 in
      let (region, e5, e6) =
        or_reject-eq-authenticated _ _ _ (get_region_from_request r default_backend) _ h e4 in
      let (secret, e7, e8) = or_reject-eq-authenticated _ _ _ (secret_deriver S c.0) _ h e6 in
      let (aside, e9, e10) =
        or_reject-eq-authenticated _ _ _ (temporary_remove_untrusted_headers ctx.signed_headers r) _
          h e8 in
      let (signed, e11, e12) =
        or_reject-eq-authenticated _ _ _
          (sign_with_creds L (now / second) (to_sign S r aside.0) (url_credentials c.0 secret c.1)
            "ThisShouldNotBeUsedForSigv4Requests258")
          _ h e10 in
      let (same, p) = check_signature_lem r _ aside signed h e12 in
      (
        (
          c.0,
          c.1,
          region,
          e1,
          token_is_for J key_func allow_legacy_credentials c.1 c.0 e3,
          e5,
          (secret, aside, signed, e7, e9, e11, same),
        ),
        ap get_session_token p,
      )

  IsGenuine-handle_auth_n_normal :
      (now : ℕ) (r : Request) (ctx : RequestCtx)
      → IsGenuine now r ctx
      → (h : Handled) × (handle_auth_n_normal S now (r, some ctx) ≡ authenticated h)
  unfolding handle_auth_n_normal check_credentials sign_again set_auth_type add_region_to_session
      set_session_token remember_signed_headers remembered set_target_region add_access_log_info
      add_to
  IsGenuine-handle_auth_n_normal now r ctx
        (key, token, region, e1, t, e5, (secret, aside, signed, e7, e9, e11, same)) =
      let typed =
        set_auth_type
          (if str_eq (header_get r.header "Authorization") ""
            then auth_type_none
            else auth_type_auth_header)
          (some ctx) in
      let placed =
        remember_signed_headers r
          (add_region_to_session region (note_credentials key token typed)) in
      (
        (record r { header = re_add_headers aside.1 aside.0 }, placed),
        rw (e1, token_is_accepted J key_func allow_legacy_credentials token key t, e5, e7, e9, e11)
            (check_signature-same r placed aside signed same),
      )

  -- An ordinary request goes on exactly when its credentials can be read, its session token is
  -- accepted and is for its access key, or legacy credentials are allowed (the environment variable
  -- DEPRECATED_ALLOW_LEGACY_CREDENTIALS), and signing it again with the secret key of that access key,
  -- without the headers that are not signed, gives the signature that it came with, blanks apart.
  pub handle_auth_n_normal_iff :
      (now : ℕ) (r : Request) (ctx : RequestCtx)
      → ((h : Handled) × (handle_auth_n_normal S now (r, some ctx) ≡ authenticated h))
        ↔ IsGenuine now r ctx
  handle_auth_n_normal_iff now r ctx = (
    λ (h, e). (handle_auth_n_normal-IsGenuine now r ctx h e).0,
    λ g. IsGenuine-handle_auth_n_normal now r ctx g,
  )
