-- ===== src/S3/Forwarded.antt =====
-- What is sent when a request is forwarded.
use fakes3pp.Prelude.{
  ℕ, ◌/◌, String, not, ◌&&◌, Option, List, ◌≡◌, refl, sym, ap, subst, ◌∙◌, Bool-cases, inl, inr,
  str_eq,
}
use fakes3pp.UserError.{Error}
use fakes3pp.Outcome.{Result, ok, fail, panic, ok-eq-ok}
use fakes3pp.Request.Http.{Request, header_get}
use fakes3pp.Presign.Headers.{Aside, temporary_remove_untrusted_headers, re_add_headers}
use fakes3pp.Presign.V4.{second, sign_with_creds}
use fakes3pp.S3.Backend.Credentials.{AwsCredentials}
use fakes3pp.S3.Backend.Endpoint.{get_host}
use fakes3pp.S3.Backend.Config.{
  BackendConfigEntry, get_backend_config, streaming_unsigned_payload_trailer,
  get_backend_credentials, has_capability,
}
use fakes3pp.S3.Authorize.Errors.{S3ErrorCode}
use fakes3pp.S3.Proxy.{
  Response, Incoming, Proxying, Forwarding, forwarded, or_error, sent_of, send, sign_and_send,
  as_request, just_proxy,
}
use fakes3pp.S3.Retarget.{
  ProxyRequest, re_target_request, IsRetargeted, re_target_request-IsRetargeted,
}

module _ (P : Proxying) where
  open P use {U, L, cfg, access_control_allow_origin, requester}

  or_error-eq-forwarded {ℓ} :
      {A : Type ℓ} (code : Error → S3ErrorCode) (shown : Error → Option Error) (m : Result A)
      (next : A → Forwarding) (sent : Request) (resp : Response)
      → or_error code shown m next ≡ forwarded sent resp
      → (a : A) × (m ≡ ok a) × (next a ≡ forwarded sent resp)
  or_error-eq-forwarded code shown (ok a) next sent resp e = (a, refl, e)
  or_error-eq-forwarded code shown (fail x) next sent resp e = absurd (cc)
  or_error-eq-forwarded code shown panic next sent resp e = absurd (cc)

  -- The request that is sent is the client's turned towards the backend, without the headers that are not
  -- to be signed, signed with the backend's credentials, and with those headers again.
  abbrev pub IsForwarded : ℕ → Option (List String) → String → Incoming U → Request → Type 0
  IsForwarded now of_context target_backend_id r sent =
      (to : ProxyRequest U) × (entry : BackendConfigEntry) × (host : String) × (aside : Aside)
      × (signed : Request) × (get_backend_config cfg target_backend_id ≡ ok entry)
      × (get_host entry.endpoint ≡ ok host)
      × (re_target_request U cfg r.changed target_backend_id ≡ ok to)
      × IsRetargeted U r.changed to entry.endpoint host
      × (temporary_remove_untrusted_headers of_context (as_request P r to) ≡ ok aside)
      × (sign_with_creds L (now / second) (record (as_request P r to) { header = aside.0 })
            entry.credentials target_backend_id
          ≡ ok signed)
      × (sent ≡ record signed { header = re_add_headers aside.1 signed.header })

  send-forwarded :
      (aside : Aside) (signed sent : Request) (resp : Response)
      → send P aside signed ≡ forwarded sent resp
      → sent ≡ record signed { header = re_add_headers aside.1 signed.header }
  unfolding send
  send-forwarded (kept, headers) signed sent resp e =
      let ready = record signed { header = re_add_headers headers signed.header } in
      let (answer, _, f) = or_error-eq-forwarded _ _ (requester ready) _ sent resp e in
      sym (ap (λ (x : Forwarding). sent_of x ready) f)

  sign_and_send-IsSigned :
      (now : ℕ) (of_context : Option (List String)) (target_backend_id : String) (r : Request)
      (creds : AwsCredentials) (sent : Request) (resp : Response)
      → sign_and_send P now of_context target_backend_id r creds ≡ forwarded sent resp
      → (aside : Aside) × (signed : Request) × (temporary_remove_untrusted_headers of_context r
          ≡ ok aside)
        × (sign_with_creds L (now / second) (record r { header = aside.0 }) creds target_backend_id
            ≡ ok signed)
        × (sent ≡ record signed { header = re_add_headers aside.1 signed.header })
  unfolding sign_and_send
  sign_and_send-IsSigned now of_context target_backend_id r creds sent resp e =
      elim (Bool-cases (
        str_eq (header_get r.header "X-Amz-Content-Sha256") "STREAMING-UNSIGNED-PAYLOAD-TRAILER"
        && not (has_capability cfg target_backend_id streaming_unsigned_payload_trailer))) [
          | inl y ↦ absurd (cc (rw y at e))
          | inr y ↦
              (let (aside, e5, f5) =
                  or_error-eq-forwarded _ _ (temporary_remove_untrusted_headers of_context r) _ sent
                    resp (rw y at e) in
                let (signed, e6, f6) =
                  or_error-eq-forwarded _ _
                    (sign_with_creds L (now / second) (record r { header = aside.0 }) creds
                      target_backend_id)
                    _ sent resp f5 in
                (aside, signed, e5, e6, send-forwarded aside signed sent resp f6))
        ]

  -- A request that is forwarded is the client's request turned towards the backend that was asked for
  -- and signed with the credentials that are configured for it.
  pub just_proxy-IsForwarded :
      (now : ℕ) (of_context : Option (List String)) (target_backend_id : String) (r : Incoming U)
      (sent : Request) (resp : Response)
      → just_proxy P now of_context target_backend_id r ≡ forwarded sent resp
      → IsForwarded now of_context target_backend_id r sent
  unfolding just_proxy get_backend_credentials
  just_proxy-IsForwarded now of_context target_backend_id r sent resp e =
      let (to, e1, f1) =
        or_error-eq-forwarded _ _ (re_target_request U cfg r.changed target_backend_id) _ sent resp
          e in
      let (creds, e2, f2) =
        or_error-eq-forwarded _ _ (get_backend_credentials cfg target_backend_id) _ sent resp f1 in
      let (entry, host, e3, e4, turned) =
        re_target_request-IsRetargeted U cfg r.changed target_backend_id to e1 in
      let creds_same = ok-eq-ok entry.credentials creds (sym (rw e3 refl) ∙ e2) in
      let (aside, signed, e5, e6, x) =
        sign_and_send-IsSigned now of_context target_backend_id (as_request P r to) creds sent resp
          f2 in
      (
        to,
        entry,
        host,
        aside,
        signed,
        e3,
        e4,
        e1,
        turned,
        e5,
        subst
            (λ (c : AwsCredentials).
              sign_with_creds L (now / second) (record (as_request P r to) { header = aside.0 }) c
                target_backend_id
              ≡ ok signed)
            (sym creds_same) e6,
        x,
      )
