-- ===== src/S3/Proxy.antt =====
-- `justProxy` of aws/service/s3/handler-builder.go and aws/service/s3/cors_static.go: a request is
-- signed for its backend, sent, and its response passed on. Log lines, the status that is kept for the
-- access log and the copy of the body are left out.
use fakes3pp.Prelude.{
  ℕ, ◌/◌, String, not, ◌&&◌, ◌==◌, Option, none, some, List, [], ◌∷◌, str_eq, if◌then◌else◌,
}
use fakes3pp.UserError.{Error, text, user, message}
use fakes3pp.Outcome.{Result, ok, fail, panic}
use fakes3pp.Request.Http.{Values, Request, header_get, header_add}
use fakes3pp.Presign.Library.{Library}
use fakes3pp.Presign.Headers.{Aside, temporary_remove_untrusted_headers, re_add_headers}
use fakes3pp.Presign.V4.{second, sign_with_creds}
use fakes3pp.S3.Backend.Credentials.{AwsCredentials}
use fakes3pp.S3.Backend.Config.{
  BackendsConfig, streaming_unsigned_payload_trailer, err_invalid_backend, get_backend_credentials,
  has_capability,
}
use fakes3pp.S3.Authorize.Errors.{
  S3ErrorCode, err_s3_internal_error, err_s3_upstream_error, err_s3_invalid_region,
}
use fakes3pp.S3.Retarget.{Urls, ProxyRequest, re_target_request}

-- A response of a backend, without its body.
pub record Response : Type 0 where
  pub status : ℕ
  pub header : Values

-- A request as it comes from the client: what `reTargetRequest` changes, and the rest.
pub record Incoming (U : Urls) : Type 0 where
  pub method : String
  pub content_length : Option ℕ
  pub changed : ProxyRequest U

-- What the handler works with: the package `net/url`, what the signer uses,
-- the configuration, the origin that CORS allows, and the function `requester`.
pub record Proxying : Type 1 where
  pub U : Urls
  pub L : Library
  pub cfg : Option BackendsConfig
  pub access_control_allow_origin : String
  pub requester : Request → Result Response

-- What is answered: the status and the headers of the response to the request that was sent, or an
-- error; or the handler panics.
pub data Forwarding : Type 0 where
  forwarded : Request → Response → Forwarding
  refused : S3ErrorCode → Option Error → Forwarding
  crashed : Forwarding

abbrev pub sent_of : Forwarding → Request → Request
sent_of (forwarded sent resp) other = sent
sent_of _ other = other

-- `if err != nil { writeS3ErrorResponse(…); return }` after a call.
abbrev pub or_error {ℓ} :
    {A : Type ℓ}
    → (Error → S3ErrorCode)
    → (Error → Option Error)
    → Result A
    → (A → Forwarding)
    → Forwarding
or_error code shown (ok a) next = next a
or_error code shown (fail e) next = refused (code e) (shown e)
or_error code shown panic next = crashed

abbrev pub internal : Error → S3ErrorCode
internal e = err_s3_internal_error

abbrev pub hidden : Error → Option Error
hidden e = none

-- The code for an error of `reTargetRequest`; the errors are told apart by their messages.
abbrev pub retarget_code : Error → S3ErrorCode
retarget_code e =
    if str_eq (message e) (message err_invalid_backend)
    then err_s3_invalid_region
    else err_s3_internal_error

-- The rest of the message, a link, is left out.
abbrev unsupported : Error
unsupported =
    user "We do not support STREAMING-UNSIGNED-PAYLOAD-TRAILER yet."
      (text "unsupported encryption to be implemented so giving internal error to user")

-- `SetHeaders` of `corsStatic`.
unfoldable pub set_headers : String → Values → Values
set_headers access_control_allow_origin h =
    if not (str_eq access_control_allow_origin "")
    then header_add h "Access-Control-Allow-Origin" access_control_allow_origin
    else h

-- The loops that copy the headers of the response.
abbrev add_values : String → List String → Values → Values
add_values hk [] h = h
add_values hk (hv ∷ hvs) h = add_values hk hvs (header_add h hk hv)

unfoldable pub copy_headers : Values → Values → Values
copy_headers [] h = h
copy_headers ((hk, hvs) ∷ rest) h = copy_headers rest (add_values hk hvs h)

module _ (P : Proxying) where
  open P use {U, L, cfg, access_control_allow_origin, requester}

  -- The request as the signer and `requester` see it.
  abbrev pub as_request : Incoming U → ProxyRequest U → Request
  as_request r to = record {
    method = r.method;
    scheme = (U.parts to.url).scheme;
    url_host = (U.parts to.url).host;
    content_length = r.content_length;
    host = to.host;
    path = (U.parts to.url).path;
    query = (U.parts to.url).query;
    header = to.header;
  }

  -- What the client gets of a response.
  unfoldable pub passed_on : Response → Response
  passed_on resp = record {
    status = resp.status;
    header =
        copy_headers resp.header
          (if resp.status == 403 then [] else set_headers access_control_allow_origin []);
  }

  -- The last steps: the headers are added again, and the request is sent.
  unfoldable pub send : Aside → Request → Forwarding
  send (kept, headers) signed =
      let ready = record signed { header = re_add_headers headers signed.header } in
      or_error (λ e. err_s3_upstream_error) some (requester ready)
        (λ resp. forwarded ready (passed_on resp))

  -- The steps after the credentials of the backend are known.
  unfoldable pub sign_and_send :
      ℕ → Option (List String) → String → Request → AwsCredentials → Forwarding
  sign_and_send now of_context target_backend_id r creds =
      if str_eq (header_get r.header "X-Amz-Content-Sha256") "STREAMING-UNSIGNED-PAYLOAD-TRAILER"
        && not (has_capability cfg target_backend_id streaming_unsigned_payload_trailer)
      then refused err_s3_internal_error (some unsupported)
      else or_error internal hidden (temporary_remove_untrusted_headers of_context r) (λ aside.
        or_error internal hidden
          (sign_with_creds L (now / second) (record r { header = aside.0 }) creds target_backend_id)
          (send aside))

  -- `justProxy`, at the time `now` in nanoseconds, for the signed headers of the context.
  unfoldable pub just_proxy : ℕ → Option (List String) → String → Incoming U → Forwarding
  just_proxy now of_context target_backend_id r =
      or_error retarget_code hidden (re_target_request U cfg r.changed target_backend_id) (λ to.
        or_error internal hidden (get_backend_credentials cfg target_backend_id)
          (sign_and_send now of_context target_backend_id (as_request r to)))
