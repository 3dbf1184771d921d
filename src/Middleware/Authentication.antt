-- ===== src/Middleware/Authentication.antt =====
-- middleware/authentication.go: a request goes on only when its signature and its session token are
-- in order. Log lines are left out, and what the context of a request that is rejected keeps of its
-- signed headers.
use fakes3pp.Prelude.{ℕ, ◌/◌, String, not, Option, none, some, ltb, str_eq, if◌then◌else◌}
use fakes3pp.Text.{remove_all}
use fakes3pp.UserError.{text, user}
use fakes3pp.Request.Http.{Values, Request, header_get, header_add}
use fakes3pp.Request.Credential.{get_region_from_request}
use fakes3pp.Context.{
  RequestCtx, auth_type_none, auth_type_query_string, auth_type_auth_header, set_auth_type,
}
use fakes3pp.Credentials.SecretKey.{calculate_secret_key}
use fakes3pp.S3.Backend.Credentials.{AwsCredentials}
use fakes3pp.S3.Authorize.Errors.{
  err_aws_access_denied, err_aws_internal_error, err_aws_invalid_signature,
  err_authorization_header_malformed,
}
use fakes3pp.Presign.Library.{SecretDeriver}
use fakes3pp.Presign.Headers.{Aside, temporary_remove_untrusted_headers, re_add_headers}
use fakes3pp.Presign.V4.{second, sign_with_creds}
use fakes3pp.Presign.Url.{
  Details, make_presigned_url, get_presigned_url_details, url_credentials, invalid_header,
}
use fakes3pp.Middleware.Signature.{
  Handled, Verdict, authenticated, rejected, or_reject, because, is_presigned_aws_request,
  clean_removable_query_parameters, request_to_check, without_head_as_get, empty_string_sha256,
  get_credentials_from_request, AuthServices, make_sure_session_token_is_for_access_key,
  not_this_token, add_region_to_session, note_credentials, signed_headers_of,
  remember_signed_headers, remembered,
}

module _ (S : AuthServices) where
  open S use {
    J, key_func, with_leeway, leeway_key_func, L, sha1, private_key, removable_query_params,
    allow_legacy_credentials, default_backend,
  }

  abbrev pub secret_deriver : SecretDeriver
  secret_deriver key = calculate_secret_key sha1 private_key key

  -- The last checks of a presigned request.
  unfoldable pub check_details : ℕ → Request → Option RequestCtx → Details → Verdict
  check_details now r ctx details =
      if ltb details.expires now
      then rejected err_aws_invalid_signature (some (user "Expired URL" (text "expired URL"))) ctx
      else if not details.is_valid
      then rejected err_aws_access_denied (some (text "failed authentication S3 signature")) ctx
      else authenticated (
        record r { header = header_add r.header "X-Amz-Content-Sha256" empty_string_sha256 },
        ctx,
      )

  -- The steps after the details are known.
  unfoldable pub check_token : ℕ → Request → Option RequestCtx → Details → Verdict
  check_token now r ctx details =
      let noted = note_credentials details.creds.access_key_id details.creds.session_token ctx in
      or_reject err_authorization_header_malformed not_this_token noted
        (make_sure_session_token_is_for_access_key with_leeway leeway_key_func
          allow_legacy_credentials details.creds.session_token details.creds.access_key_id)
        (λ _.
          or_reject err_aws_internal_error (λ e. e) noted
            (get_region_from_request r default_backend)
            (λ region.
              check_details now (without_head_as_get r) (add_region_to_session region noted)
                details))

  -- `handleAuthNPresigned`, at the time `now` in nanoseconds.
  unfoldable pub handle_auth_n_presigned : ℕ → Handled → Verdict
  handle_auth_n_presigned now (r, ctx) =
      let cleaned = clean_removable_query_parameters removable_query_params r in
      let typed = set_auth_type auth_type_query_string ctx in
      or_reject err_aws_internal_error (because "could not get presigned url: ") typed
        (make_presigned_url (request_to_check cleaned))
        (λ presigned_url.
          or_reject err_aws_internal_error (because "error geting details of presigned url: ") typed
            (get_presigned_url_details L (now / second) (signed_headers_of typed) presigned_url
              secret_deriver)
            (λ details. check_token now cleaned (remembered presigned_url typed) details))

  -- The request without the headers that are not signed; a length that is not signed is unknown.
  abbrev pub to_sign : Request → Values → Request
  to_sign r kept = record r {
    header = kept;
    content_length =
        if str_eq (header_get kept "Content-Length") "" then none else r.content_length;
  }

  -- The comparison of the signatures, in the header of the request as it was signed again.
  unfoldable pub check_signature : Request → Option RequestCtx → Aside → Request → Verdict
  check_signature r ctx (kept, headers) signed =
      let calculated_signature = header_get signed.header "Authorization" in
      let passed_signature = header_get r.header "Authorization" in
      if not (str_eq (remove_all b' ' calculated_signature) (remove_all b' ' passed_signature))
      then rejected err_aws_invalid_signature none ctx
      else authenticated (record r { header = re_add_headers headers kept }, ctx)

  -- The steps after the secret key is known.
  unfoldable pub sign_again : ℕ → Request → Option RequestCtx → AwsCredentials → Verdict
  sign_again now r ctx creds =
      or_reject err_authorization_header_malformed invalid_header ctx
        (temporary_remove_untrusted_headers (signed_headers_of ctx) r)
        (λ aside.
          let known = remember_signed_headers r ctx in
          or_reject err_aws_internal_error (because "could not sign request: ") known
            (sign_with_creds L (now / second) (to_sign r aside.0) creds
              "ThisShouldNotBeUsedForSigv4Requests258")
            (check_signature r known aside))

  -- The steps after the credentials are read.
  unfoldable pub check_credentials : ℕ → Request → Option RequestCtx → String → String → Verdict
  check_credentials now r ctx key token =
      let noted = note_credentials key token ctx in
      or_reject err_authorization_header_malformed not_this_token noted
        (make_sure_session_token_is_for_access_key J key_func allow_legacy_credentials token key)
        (λ _.
          or_reject err_aws_internal_error (λ e. e) noted
            (get_region_from_request r default_backend)
            (λ region.
              let placed = add_region_to_session region noted in
              or_reject err_aws_internal_error (because "could not calculate secret key: ") placed
                (secret_deriver key)
                (λ secret. sign_again now r placed (url_credentials key secret token))))

  -- `handleAuthNNormal`, at the time `now` in nanoseconds.
  unfoldable pub handle_auth_n_normal : ℕ → Handled → Verdict
  handle_auth_n_normal now (r, ctx) =
      let typed =
        set_auth_type
          (if str_eq (header_get r.header "Authorization") ""
            then auth_type_none
            else auth_type_auth_header)
          ctx in
      or_reject err_authorization_header_malformed
        (because "could not get credentials from request: ") typed (get_credentials_from_request r)
        (λ c. check_credentials now r typed c.0 c.1)

  -- `AWSAuthN`, up to the next handler.
  unfoldable pub aws_auth_n : ℕ → Handled → Verdict
  aws_auth_n now (r, ctx) =
      if is_presigned_aws_request r
      then handle_auth_n_presigned now (r, ctx)
      else handle_auth_n_normal now (r, ctx)
