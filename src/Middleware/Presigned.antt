-- ===== src/Middleware/Presigned.antt =====
-- Which presigned requests the authentication lets through, and what it leaves in the context.
use fakes3pp.Prelude.{
  List, ◌∙◌, ◌*◌, ℕ, ◌/◌, ◌≤◌, String, ◌≡◌, sym, ap, ◌⊎◌, true, Bool-cases, inl, inr, Option, some,
  ltb, arith,
}
use fakes3pp.Outcome.{ok, >>=-eq-ok, ok-eq-ok}
use fakes3pp.Request.Http.{Request, query_get}
use fakes3pp.Request.Credential.{get_region_from_request}
use fakes3pp.Context.{
  RequestCtx, set_auth_type, set_session_token, set_target_region, add_access_log_info,
  get_session_token, add_to,
}
use fakes3pp.Presign.V4.{second, seconds, add_duration}
use fakes3pp.Presign.HmacV1.{get_expires, get_hmac_v1_query_security_token, has_valid_signature}
use fakes3pp.Presign.Signing.{get_v4_details_genuine}
use fakes3pp.Presign.Url.{
  PresignedUrl, hmac_v1, s3_v4, url_credentials, epoch_str_to_time, get_access_key_id,
  get_amz_security_token, get_sign_time, expected_v4_signature, get_hmac_v1_details, Details,
  make_presigned_url, get_presigned_url_details,
}
use fakes3pp.Middleware.Signature.{
  remember_signed_headers, remembered, Handled, authenticated,
  make_sure_session_token_is_for_access_key, clean_removable_query_parameters, request_to_check,
  AuthServices, is_presigned_aws_request, add_region_to_session,
}
use fakes3pp.Middleware.Authentication.{
  secret_deriver, check_details, check_token, handle_auth_n_presigned, aws_auth_n,
}
use fakes3pp.Middleware.Authenticated.{
  or_reject-eq-authenticated, authenticated-eq-authenticated, IsTokenFor, token_is_for,
  handle_auth_n_normal-IsGenuine,
}

module _ (S : AuthServices) where
  open S use {
    J, key_func, with_leeway, leeway_key_func, L, sha1, private_key, removable_query_params,
    allow_legacy_credentials, default_backend,
  }

  -- The URL has the signature that the secret key of its access key gives for what it says of itself;
  -- of a URL by HMAC-SHA1, the URL that is made with that key, at this time in seconds, is the same.
  abbrev pub IsSigned : ℕ → Option (List String) → PresignedUrl → Details → Type 0
  IsSigned now of_context (hmac_v1 r) details =
      (secret : String) × (secret_deriver S (query_get r.query "AWSAccessKeyId") ≡ ok secret)
      × (details.creds
          ≡ url_credentials (query_get r.query "AWSAccessKeyId") secret
              (get_hmac_v1_query_security_token r))
      × (has_valid_signature L now r details.creds ≡ ok true)
      × (epoch_str_to_time L (get_expires r) ≡ ok details.expires)
  IsSigned now of_context (s3_v4 r) details =
      (key secret : String) × (sign_date expiry_seconds : ℕ) × (get_access_key_id r ≡ ok key)
      × (secret_deriver S key ≡ ok secret)
      × (details.creds ≡ url_credentials key secret (get_amz_security_token r))
      × (get_sign_time L r ≡ ok sign_date)
      × (L.atoi (query_get r.query "X-Amz-Expires") ≡ ok expiry_seconds)
      × (expected_v4_signature L of_context r
            (url_credentials key secret (get_amz_security_token r)) expiry_seconds sign_date
          ≡ ok (query_get r.query "X-Amz-Signature"))
      × (details.expires ≡ add_duration (sign_date * second) (seconds expiry_seconds))

  details-IsSigned :
      (now : ℕ) (of_context : Option (List String)) (u : PresignedUrl) (details : Details)
      → get_presigned_url_details L now of_context u (secret_deriver S) ≡ ok details
      → details.is_valid ≡ true
      → IsSigned now of_context u details
  unfolding get_presigned_url_details get_hmac_v1_details
  details-IsSigned now of_context (hmac_v1 r) details e v =
      let (secret, e1, f1) =
        >>=-eq-ok (secret_deriver S (query_get r.query "AWSAccessKeyId")) _ e in
      let creds =
        url_credentials (query_get r.query "AWSAccessKeyId") secret
          (get_hmac_v1_query_security_token r) in
      let (valid, e2, f2) = >>=-eq-ok (has_valid_signature L now r creds) _ f1 in
      let (expires, e3, f3) = >>=-eq-ok (epoch_str_to_time L (get_expires r)) _ f2 in
      let same = ok-eq-ok _ _ f3 in
      let creds_same : creds ≡ details.creds = ap (λ (d : Details). d.creds) same in
      (
        secret,
        e1,
        sym creds_same,
        ap (has_valid_signature L now r) (sym creds_same)
            ∙ e2
            ∙ ap ok (ap (λ (d : Details). d.is_valid) same ∙ v),
        e3 ∙ ap ok (ap (λ (d : Details). d.expires) same),
      )
  details-IsSigned now of_context (s3_v4 r) details e v =
      get_v4_details_genuine L of_context r (secret_deriver S) details e v

  -- What makes a presigned request genuine, after the parameters to remove are gone from it.
  abbrev pub IsPresignedGenuine : ℕ → Request → RequestCtx → Type 0
  IsPresignedGenuine now r ctx =
      (u : PresignedUrl) × (details : Details) × (make_presigned_url
          (request_to_check (clean_removable_query_parameters removable_query_params r))
        ≡ ok u)
      × (get_presigned_url_details L (now / second) ctx.signed_headers u (secret_deriver S)
          ≡ ok details)
      × IsSigned (now / second) ctx.signed_headers u details
      × (now ≤ details.expires)
      × IsTokenFor with_leeway leeway_key_func allow_legacy_credentials details.creds.session_token
          details.creds.access_key_id

  check_details_lem :
      (now : ℕ) (r : Request) (ctx : Option RequestCtx) (details : Details) (h : Handled)
      → check_details S now r ctx details ≡ authenticated h
      → (details.is_valid ≡ true) × (now ≤ details.expires) × (h.1 ≡ ctx)
  unfolding check_details
  check_details_lem now r ctx details h e = elim (Bool-cases (ltb details.expires now)) [
    | inl y ↦ absurd (cc (rw y at e))
    | inr y ↦ elim (Bool-cases details.is_valid) [
      | inl z ↦ (
        z,
        ground (arith, y),
        sym (ap (λ (x : Handled). x.1) (authenticated-eq-authenticated _ h (rw (y, z) at e))),
      )
      | inr z ↦ absurd (cc (rw (y, z) at e))
    ]
  ]

  handle_auth_n_presigned-IsPresignedGenuine :
      (now : ℕ) (r : Request) (ctx : RequestCtx) (h : Handled)
      → handle_auth_n_presigned S now (r, some ctx) ≡ authenticated h
      → (g : IsPresignedGenuine now r ctx) × (get_session_token h.1 ≡ ok g.1.creds.session_token)
  unfolding handle_auth_n_presigned check_token set_auth_type add_region_to_session
      set_session_token remember_signed_headers remembered set_target_region add_access_log_info
      get_session_token add_to
  handle_auth_n_presigned-IsPresignedGenuine now r ctx h e =
      let (u, e1, e2) = or_reject-eq-authenticated _ _ _ (make_presigned_url _) _ h e in
      let (details, e3, e4) =
        or_reject-eq-authenticated _ _ _
          (get_presigned_url_details L (now / second) ctx.signed_headers u (secret_deriver S)) _ h
          e2 in
      let (t, e5, e6) =
        or_reject-eq-authenticated _ _ _
          (make_sure_session_token_is_for_access_key with_leeway leeway_key_func
            allow_legacy_credentials details.creds.session_token details.creds.access_key_id)
          _ h e4 in
      let (region, e7, e8) =
        or_reject-eq-authenticated _ _ _ (get_region_from_request _ default_backend) _ h e6 in
      let (valid, live, p) = check_details_lem now _ _ details h e8 in
      (
        (
          u,
          details,
          e1,
          e3,
          details-IsSigned (now / second) ctx.signed_headers u details e3 valid,
          live,
          token_is_for with_leeway leeway_key_func allow_legacy_credentials
              details.creds.session_token details.creds.access_key_id e5,
        ),
        ap get_session_token p,
      )

  -- A presigned request that goes on has a URL that is signed: of version 4, its signature is the one
  -- that the secret key of its access key gives for the date and the lifetime that it names; by
  -- HMAC-SHA1, the URL that is made with that key is found the same. It is not past its expiry, and its
  -- session token is accepted and is for that access key, unless legacy credentials are allowed.
  pub handle_auth_n_presigned_genuine :
      (now : ℕ) (r : Request) (ctx : RequestCtx) (h : Handled)
      → handle_auth_n_presigned S now (r, some ctx) ≡ authenticated h
      → IsPresignedGenuine now r ctx
  handle_auth_n_presigned_genuine now r ctx h e =
      (handle_auth_n_presigned-IsPresignedGenuine now r ctx h e).0

  -- The token has been verified for some access key by one of the two parsers.
  abbrev pub IsVerified : String → Type 0
  IsVerified token =
      (key : String) × (IsTokenFor J key_func allow_legacy_credentials token key
        ⊎ IsTokenFor with_leeway leeway_key_func allow_legacy_credentials token key)

  -- Whatever request the authentication lets through, the session token that it leaves in the context
  -- was accepted by a parser, and is for the access key of the request unless legacy credentials are
  -- allowed.
  pub aws_auth_n_token :
      (now : ℕ) (r : Request) (ctx : RequestCtx) (h : Handled)
      → aws_auth_n S now (r, some ctx) ≡ authenticated h
      → (token : String) × (get_session_token h.1 ≡ ok token) × IsVerified token
  unfolding aws_auth_n
  aws_auth_n_token now r ctx h e = elim (Bool-cases (is_presigned_aws_request r)) [
    | inl y ↦
        (let ((u, details, _, _, _, _, t), p) =
            handle_auth_n_presigned-IsPresignedGenuine now r ctx h (rw y at e) in
          (details.creds.session_token, p, (details.creds.access_key_id, inr t)))
    | inr y ↦
        (let ((key, token, _, _, t, _, _), p) =
            handle_auth_n_normal-IsGenuine S now r ctx h (rw y at e) in
          (token, p, (key, inl t)))
  ]
