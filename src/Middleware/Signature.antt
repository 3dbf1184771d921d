-- ===== src/Middleware/Signature.antt =====
-- middleware/authentication.go: what becomes of a request, and the parts of its authentication.
use fakes3pp.Prelude.{
  ℕ, String, Bool, true, not, ◌&&◌, ◌||◌, Option, none, some, List, [], ◌∷◌, str_eq, if◌then◌else◌,
}
use fakes3pp.Text.{append, to_lower, to_upper}
use fakes3pp.UserError.{Error, text, wrapped, message}
use fakes3pp.Outcome.{Result, ok, fail, panic, ◌>>=◌}
use fakes3pp.Request.Http.{Values, Request, header_get, query_get, query_has, query_del}
use fakes3pp.Request.Credential.{access_key_id, get_signature_credential_part_from_request}
use fakes3pp.Context.{
  RequestCtx, modify, kind_string, set_session_token, set_target_region, add_access_log_info,
}
use fakes3pp.S3.Authorize.Errors.{AwsErrorCode}
use fakes3pp.S3.Authorize.Claims.{Jwt, extract_token_claims}
use fakes3pp.Presign.Library.{Library}
use fakes3pp.Presign.Headers.{get_signed_headers_from_request}
use fakes3pp.Presign.Url.{PresignedUrl, hmac_v1, s3_v4, with_host}

-- A request on its way, with the record that its context holds.
abbrev pub Handled : Type 0
Handled = Request × Option RequestCtx

-- What becomes of it: it goes on to the next handler, it is answered with an error, or the handler
-- panics.
pub data Verdict : Type 0 where
  authenticated : Handled → Verdict
  rejected : AwsErrorCode → Option Error → Option RequestCtx → Verdict
  crashed : Verdict

-- `if err != nil { …; e.WriteErrorResponse(…); return false }` after a call.
abbrev pub or_reject {ℓ} :
    {A : Type ℓ}
    → AwsErrorCode
    → (Error → Error)
    → Option RequestCtx
    → Result A
    → (A → Verdict)
    → Verdict
or_reject code wrap ctx (ok a) next = next a
or_reject code wrap ctx (fail e) next = rejected code (some (wrap e)) ctx
or_reject code wrap ctx panic next = crashed

abbrev pub because : String → Error → Error
because s e = wrapped (append s (message e)) e

-- `IsPresignedAWSRequest`.
unfoldable pub is_presigned_aws_request : Request → Bool
is_presigned_aws_request r =
    let q = r.query in
    if query_has q "Signature"
      && (query_has q "x-amz-security-token" && query_has q "AWSAccessKeyId")
    then true
    else query_has q "X-Amz-Algorithm" && query_has q "X-Amz-Signature"

-- The loop over the regular expressions for one key, each as whether it finds something in it.
abbrev remove_key : List (String → Bool) → String → Values → Values
remove_key [] key q = q
remove_key (finds ∷ removable) key q =
    remove_key removable key (if finds key then query_del q key else q)

abbrev clean_loop : List (String → Bool) → Values → Values → Values
clean_loop removable [] q = q
clean_loop removable ((key, vs) ∷ rest) q = clean_loop removable rest (remove_key removable key q)

-- `cleanRemovableQueryParameters`.
unfoldable pub clean_removable_query_parameters : List (String → Bool) → Request → Request
clean_removable_query_parameters removable r = record r {
  query = clean_loop removable r.query r.query;
}

abbrev pub head_as_get : String
head_as_get = "X-Proxy-Head-As-Get"

-- The request whose signature is checked.
unfoldable pub request_to_check : Request → Request
request_to_check r =
    if str_eq (to_lower (query_get r.query head_as_get)) "true" && str_eq r.method "HEAD"
    then record r { method = "GET" }
    else r

-- What the deferred function leaves of the request.
unfoldable pub without_head_as_get : Request → Request
without_head_as_get r =
    if not (str_eq (query_get r.query head_as_get) "")
    then record r { query = query_del r.query head_as_get }
    else r

abbrev pub empty_string_sha256 : String
empty_string_sha256 = "e3b0c44298fc1c149afbf4c8996fb92427ae41e4649b934ca495991b7852b855"

-- `getCredentialsFromRequest`: the access key ID and the session token.
unfoldable pub get_credentials_from_request : Request → Result (String × String)
get_credentials_from_request r = do
  key ← get_signature_credential_part_from_request r access_key_id
  ok (key, header_get r.header "X-Amz-Security-Token")

-- What the middleware works with: the packages, the pair of keys, the option of the presigned
-- requests, the environment variable DEPRECATED_ALLOW_LEGACY_CREDENTIALS, and the default backend.
-- The parser with the leeway of the options is a package of its own.
pub record AuthServices : Type 1 where
  pub J : Jwt
  pub key_func : J.KeyFunc
  pub with_leeway : Jwt
  pub leeway_key_func : with_leeway.KeyFunc
  pub L : Library
  pub sha1 : List ℕ → List ℕ
  pub private_key : Result String
  pub removable_query_params : List (String → Bool)
  pub allow_legacy_credentials : String
  pub default_backend : String

-- The check of `makeSureSessionTokenIsForAccessKey` on the access key of the claims.
abbrev pub is_for_key : String → String → String → Bool
is_for_key legacy of_claims key = str_eq of_claims key || str_eq (to_upper legacy) "YES"

-- `makeSureSessionTokenIsForAccessKey`, with the parser of the options.
unfoldable pub make_sure_session_token_is_for_access_key :
    (J : Jwt) → J.KeyFunc → String → String → String → Result (Unit {0})
make_sure_session_token_is_for_access_key J key_func legacy session_token key = do
  claims ← extract_token_claims J session_token (some key_func)
  (if is_for_key legacy claims.access_key_id key
      then ok tt
      else fail (
          text (
            append "mismatch between session token and access key i:d "
              (append claims.access_key_id (append " <> " key)))))

abbrev pub not_this_token : Error → Error
not_this_token =
    because "error when making sure session token corresponds to used credential pair: "

-- `addRegionToSession`, for the region that was found.
unfoldable pub add_region_to_session : String → Option RequestCtx → Option RequestCtx
add_region_to_session region ctx =
    add_access_log_info "s3" (("TargetRegion", kind_string region) ∷ [])
      (set_target_region region ctx)

-- The access key goes to the access log and the token to the context.
abbrev pub note_credentials : String → String → Option RequestCtx → Option RequestCtx
note_credentials key token ctx =
    set_session_token token (add_access_log_info "s3" (("AKID", kind_string key) ∷ []) ctx)

abbrev pub signed_headers_of : Option RequestCtx → Option (List String)
signed_headers_of none = none
signed_headers_of (some ctx) = ctx.signed_headers

abbrev kept_headers : Option (List String) → Result (List String) → Option (List String)
kept_headers (some (x ∷ xs)) found = some (x ∷ xs)
kept_headers old (ok found) = some found
kept_headers old _ = old

-- `addSignedHeadersToRequestCtx`, as `TemporaryRemoveUntrustedHeaders` calls it.
unfoldable pub remember_signed_headers : Request → Option RequestCtx → Option RequestCtx
remember_signed_headers r = modify (λ ctx. record ctx {
  signed_headers = kept_headers ctx.signed_headers (get_signed_headers_from_request r);
})

-- Of the two kinds of presigned URL, one puts headers aside.
abbrev headers_after : PresignedUrl → Option (List String) → Option (List String)
headers_after (hmac_v1 r) old = old
headers_after (s3_v4 r) old = kept_headers old (get_signed_headers_from_request (with_host r))

unfoldable pub remembered : PresignedUrl → Option RequestCtx → Option RequestCtx
remembered presigned_url =
    modify (λ ctx. record ctx { signed_headers = headers_after presigned_url ctx.signed_headers })
