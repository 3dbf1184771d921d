-- ===== src/S3/Pipeline.antt =====
-- The handler that aws/service/s3/server.go puts together: the operation is registered, the request is
-- authenticated and authorized, the payer is set, and the request is forwarded. Only what is answered
-- is kept.
use fakes3pp.Prelude.{ℕ, String, ◌≡◌, refl, sym, ap, subst, ◌∙◌, Option, some}
use fakes3pp.UserError.{text}
use fakes3pp.Outcome.{Result, ok, fail, panic, ok-eq-ok, Run, returned, panicked}
use fakes3pp.Request.Http.{Request}
use fakes3pp.Context.{
  RequestCtx, new_context_from_http_request, get_target_region, get_session_token,
}
use fakes3pp.Middleware.Signature.{
  AuthServices, Handled, Verdict, authenticated, rejected, signed_headers_of,
}
use fakes3pp.Middleware.Authentication.{aws_auth_n}
use fakes3pp.Middleware.Presigned.{IsVerified, aws_auth_n_token}
use fakes3pp.S3.Authorize.Errors.{to_s3_error_code, err_s3_internal_error}
use fakes3pp.S3.Authorize.Middleware.{Services, Reply, pass, aws_auth_z_s3, get_s3_action}
use fakes3pp.S3.Authorize.Granted.{IsAuthorized, or_refuse-pass, authorize_s3_action-pass_iff}
use fakes3pp.S3.RequesterPays.{RequesterPaysBuckets, force_requester_pays}
use fakes3pp.S3.Routing.{Mux, register_operation}
use fakes3pp.Presign.Library.{Url}
use fakes3pp.S3.Proxy.{Proxying, Incoming, Forwarding, forwarded, Response, just_proxy}
use fakes3pp.S3.Forwarded.{IsForwarded, just_proxy-IsForwarded}

-- The parts of the server. A `Request` stands for an `http.Request` with a URL of its parts; `url_of`
-- gives that URL as `net/url` holds it.
pub record S3Server : Type 1 where
  pub A : AuthServices
  pub Z : Services
  pub P : Proxying
  pub mux : Mux
  pub buckets : RequesterPaysBuckets
  pub url_of : Request → P.U.Url
  pub parts-url_of :
      (r : Request)
      → P.U.parts (url_of r)
        ≡ record { scheme = r.scheme; host = r.url_host; path = r.path; query = r.query }

-- A request as it is received, with the two fields that only `reTargetRequest` uses: no middleware
-- changes them.
pub record Received : Type 0 where
  pub request : Request
  pub request_uri : String
  pub remote_addr : String

module _ (S : S3Server) where
  open S use {A, Z, P, mux, buckets, url_of, parts-url_of}

  -- The request that the handler works on: the fields of what the middlewares made of it.
  abbrev pub incoming : Received → Request → Incoming P.U
  incoming c r = record {
    method = r.method;
    content_length = r.content_length;
    changed = record {
      header = r.header;
      host = r.host;
      request_uri = c.request_uri;
      remote_addr = c.remote_addr;
      url = url_of r;
    };
  }

  abbrev for_region : Received → ℕ → Option RequestCtx → Request → Result String → Forwarding
  for_region c now ctx r (ok target_region) =
      just_proxy P now (signed_headers_of ctx) target_region (incoming c r)
  for_region c now ctx r (fail e) =
      Forwarding.refused err_s3_internal_error
        (some (text "could not get target region from requestctx"))
  for_region c now ctx r panic = Forwarding.crashed

  -- The handler that `Build` of aws/service/s3/handler-builder.go makes.
  unfoldable pub build : Received → ℕ → Option RequestCtx → Request → Forwarding
  build c now ctx r = for_region c now ctx r (get_target_region ctx)

  -- What follows the authorization.
  abbrev pub after_pays : Received → ℕ → Option RequestCtx → Run Request → Forwarding
  after_pays c now ctx (returned r) = build c now ctx r
  after_pays c now ctx panicked = Forwarding.crashed

  abbrev pub after_auth_z : Received → ℕ → Option RequestCtx → Request → Reply → Forwarding
  after_auth_z c now ctx r pass = after_pays c now ctx (force_requester_pays buckets Z.fqdns r)
  after_auth_z c now ctx r (Reply.refused code err) = Forwarding.refused code err
  after_auth_z c now ctx r Reply.crashed = Forwarding.crashed

  -- What follows the authentication.
  abbrev pub after_auth_n : Received → ℕ → Verdict → Forwarding
  after_auth_n c now (authenticated (r, ctx)) = after_auth_z c now ctx r (aws_auth_z_s3 Z ctx r)
  after_auth_n c now (rejected code err ctx) = Forwarding.refused (to_s3_error_code code) err
  after_auth_n c now Verdict.crashed = Forwarding.crashed

  abbrev pub context_of : String → Request → RequestCtx
  context_of random r = record (new_context_from_http_request random r) {
    operation = register_operation mux r;
  }

  -- The middlewares of `newS3Server` around that handler, by `Chain`.
  unfoldable pub serve : ℕ → String → Received → Forwarding
  serve now random c =
      after_auth_n c now (aws_auth_n A now (c.request, some (context_of random c.request)))

  -- What has to be so before anything is sent to a backend.
  abbrev pub IsAdmitted : ℕ → String → Received → Request → Type 0
  IsAdmitted now random c sent =
      (h : Handled) × (paid : Request) × (token region : String) × (aws_auth_n A now
          (c.request, some (context_of random c.request))
        ≡ authenticated h)
      × (get_session_token h.1 ≡ ok token)
      × IsVerified A token
      × (get_target_region h.1 ≡ ok region)
      × IsAuthorized Z token region (get_s3_action h.1) h.0
      × (force_requester_pays buckets Z.fqdns h.0 ≡ returned paid)
      × IsForwarded P now (signed_headers_of h.1) region (incoming c paid) sent
      × ((P.U.parts (url_of paid)).query ≡ paid.query)

  after_auth_n-forwarded :
      (c : Received) (now : ℕ) (v : Verdict) (sent : Request) (resp : Response)
      → after_auth_n c now v ≡ forwarded sent resp
      → (h : Handled) × (v ≡ authenticated h)
        × (after_auth_z c now h.1 h.0 (aws_auth_z_s3 Z h.1 h.0) ≡ forwarded sent resp)
  after_auth_n-forwarded c now (authenticated h) sent resp e = (h, refl, e)
  after_auth_n-forwarded c now (rejected code err ctx) sent resp e = absurd (cc)
  after_auth_n-forwarded c now Verdict.crashed sent resp e = absurd (cc)

  after_auth_z-forwarded :
      (c : Received) (now : ℕ) (ctx : Option RequestCtx) (r : Request) (reply : Reply)
      (sent : Request) (resp : Response)
      → after_auth_z c now ctx r reply ≡ forwarded sent resp
      → (reply ≡ pass)
        × (after_pays c now ctx (force_requester_pays buckets Z.fqdns r) ≡ forwarded sent resp)
  after_auth_z-forwarded c now ctx r pass sent resp e = (refl, e)
  after_auth_z-forwarded c now ctx r (Reply.refused code err) sent resp e = absurd (cc)
  after_auth_z-forwarded c now ctx r Reply.crashed sent resp e = absurd (cc)

  after_pays-forwarded :
      (c : Received) (now : ℕ) (ctx : Option RequestCtx) (run : Run Request) (sent : Request)
      (resp : Response)
      → after_pays c now ctx run ≡ forwarded sent resp
      → (paid : Request) × (run ≡ returned paid) × (build c now ctx paid ≡ forwarded sent resp)
  after_pays-forwarded c now ctx (returned r) sent resp e = (r, refl, e)
  after_pays-forwarded c now ctx panicked sent resp e = absurd (cc)

  authorized :
      (ctx : Option RequestCtx) (r : Request)
      → aws_auth_z_s3 Z ctx r ≡ pass
      → (region token : String) × (get_target_region ctx ≡ ok region)
        × (get_session_token ctx ≡ ok token)
        × IsAuthorized Z token region (get_s3_action ctx) r
  unfolding aws_auth_z_s3
  authorized ctx r e =
      let (region, e1, f1) = or_refuse-pass (get_target_region ctx) _ _ _ e in
      let (token, e2, f2) = or_refuse-pass (get_session_token ctx) _ _ _ f1 in
      (
        region,
        token,
        e1,
        e2,
        (authorize_s3_action-pass_iff Z token region (get_s3_action ctx) r).0 f2,
      )

  build-region :
      (c : Received) (now : ℕ) (ctx : Option RequestCtx) (r : Request) (region : String)
      → get_target_region ctx ≡ ok region
      → build c now ctx r ≡ just_proxy P now (signed_headers_of ctx) region (incoming c r)
  unfolding build
  build-region c now ctx r region e = ap (for_region c now ctx r) e

  -- A request is sent to a backend only when it is authenticated with a session token that was
  -- accepted, and that token's role is granted the one action that the operation needs. What is sent
  -- is what reTargetRequest makes, for the backend of the request's region, of the method, the
  -- headers, the query and the request URI of the authorized request, with the payer set, signed with
  -- that backend's credentials.
  pub serve-IsAdmitted :
      (now : ℕ) (random : String) (c : Received) (sent : Request) (resp : Response)
      → serve now random c ≡ forwarded sent resp
      → IsAdmitted now random c sent
  unfolding serve
  serve-IsAdmitted now random c sent resp e =
      let r = c.request in
      let (h, e1, f1) =
        after_auth_n-forwarded c now (aws_auth_n A now (r, some (context_of random r))) sent resp
          e in
      let (z, f2) = after_auth_z-forwarded c now h.1 h.0 _ sent resp f1 in
      let (region, token, e2, e3, granted) = authorized h.1 h.0 z in
      let (seen, e4, verified) = aws_auth_n_token A now r (context_of random r) h e1 in
      let same = ok-eq-ok seen token (sym e4 ∙ e3) in
      let (paid, e5, f3) =
        after_pays-forwarded c now h.1 (force_requester_pays buckets Z.fqdns h.0) sent resp f2 in
      (
        h,
        paid,
        token,
        region,
        e1,
        e3,
        subst (IsVerified A) same verified,
        e2,
        granted,
        e5,
        just_proxy-IsForwarded P now (signed_headers_of h.1) region (incoming c paid) sent resp
            (sym (build-region c now h.1 paid region e2) ∙ f3),
        ap (λ (x : Url). x.query) (parts-url_of paid),
      )
