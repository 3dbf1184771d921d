-- ===== src/S3/Retarget.antt =====
-- `reTargetRequest` of aws/service/s3/handler-builder.go: a request is turned towards a backend.
use fakes3pp.Prelude.{
  Bool, true, false, Bool-cases, List, [], ◌∷◌, none, ◌||◌, str_eq, if◌then◌else◌, String, ◌≡◌, ◌≢◌,
  refl, sym, ap, subst, ◌∙◌, inl, inr, Option, some,
}
use fakes3pp.Text.{append}
use fakes3pp.Map.{lookup, delete, lookup-insert, lookup-delete}
use fakes3pp.Outcome.{Result, ok, fail, panic, ◌>>=◌, >>=-eq-ok, ok-eq-ok}
use fakes3pp.Request.Http.{Values, canonical, header_del, header_add}
use fakes3pp.Presign.Library.{Url as Url_parts}
use fakes3pp.S3.Backend.Endpoint.{build_endpoint, get_host, get_base_uri}
use fakes3pp.S3.Backend.Config.{
  BackendConfigEntry, BackendsConfig, get_backend_config, get_backend_endpoint,
}
use fakes3pp.S3.Backend.Valid.{IsValid}
use fakes3pp.S3.Backend.Resolve.{get_backend_config-IsValid}

-- Go's package `net/url`: a URL with its parts, and the text of a query, which the code only moves.
-- Setting the query leaves the other parts. Where a URL begins with a scheme and an authority, the
-- authority ends before the next slash, so that a path after it changes neither.
pub record Urls : Type 1 where
  pub Url : Type 0
  pub RawQuery : Type 0
  pub parse : String → Result Url
  pub raw_query : Url → RawQuery
  pub with_raw_query : Url → RawQuery → Url
  pub parts : Url → Url_parts
  pub parts-with_raw_query :
      (u v : Url)
      → parts (with_raw_query u (raw_query v)) ≡ record (parts u) { query = (parts v).query }
  pub parse-path :
      (base path : String) (u : Url)
      → build_endpoint base ≡ ok base
      → parse (append base (append "/" path)) ≡ ok u
      → (v : Url) × (parse base ≡ ok v)
        × ((parts u).scheme ≡ (parts v).scheme)
        × ((parts u).host ≡ (parts v).host)

module _ (U : Urls) where
  open U use {Url, parse, raw_query, with_raw_query, parts, parts-with_raw_query, parse-path}

  -- The fields of `http.Request` that are changed.
  pub record ProxyRequest : Type 0 where
    pub header : Values
    pub host : String
    pub request_uri : String
    pub remote_addr : String
    pub url : Url

  abbrev stripped : Values → Values
  stripped h = header_del (header_del (header_del h "Authorization") "X-Amz-Security-Token") "Host"

  abbrev towards : ProxyRequest → String → Url → ProxyRequest
  towards r host u = record {
    header = header_add (stripped r.header) "Host" host;
    host = host;
    request_uri = "";
    remote_addr = "";
    url = with_raw_query u (raw_query r.url);
  }

  -- `reTargetRequest`, as the request that goes on; after an error the request is dropped.
  unfoldable pub re_target_request :
      Option BackendsConfig → ProxyRequest → String → Result ProxyRequest
  re_target_request cfg r backend_id = do
    endpoint ← get_backend_endpoint cfg backend_id
    host ← get_host endpoint
    u ← parse (append (get_base_uri endpoint) r.request_uri)
    ok (towards r host u)

  -- What the headers of a request that is turned towards a host hold under a name.
  abbrev pub turned_header : String → Values → String → Option (List String)
  turned_header host h name =
      if str_eq "Host" name
      then some (host ∷ [])
      else if str_eq "Authorization" name || str_eq "X-Amz-Security-Token" name
      then none
      else lookup name h

  -- The request goes to the endpoint's URI with the client's request URI after it, and has the
  -- client's query; its headers are the client's without the two of the client's authorization, and
  -- with the backend's host.
  pub record IsRetargeted (from to : ProxyRequest) (endpoint host : String) : Type 0 where
    pub header : (name : String) → lookup name to.header ≡ turned_header host from.header name
    pub host_field : to.host ≡ host
    pub no_uri : to.request_uri ≡ ""
    pub no_addr : to.remote_addr ≡ ""
    pub url :
        (u : Url) × (parse (append (get_base_uri endpoint) from.request_uri) ≡ ok u)
        × (parts to.url ≡ record (parts u) { query = (parts from.url).query })

  stripped_lem :
      (a b : Bool) (x : Option (List String))
      → (if b then none else if a then none else x) ≡ (if a || b then none else x)
  stripped_lem true true x = refl
  stripped_lem true false x = refl
  stripped_lem false true x = refl
  stripped_lem false false x = refl

  lookup-towards :
      (h : Values) (host name : String)
      → lookup name (header_add (stripped h) "Host" host) ≡ turned_header host h name
  unfolding header_add header_del canonical
  lookup-towards h host name =
      let d1 = delete "Authorization" h in
      let d2 = delete "X-Amz-Security-Token" d1 in
      elim (Bool-cases (str_eq "Host" name)) [
        | inl y ↦ rw y (
            lookup-insert "Host" name _ (delete "Host" d2)
            ∙ rw (y, lookup-delete "Host" "Host" d2) refl)
        | inr y ↦ rw y (
            lookup-insert "Host" name _ (delete "Host" d2)
            ∙ rw
                (
                  y,
                  lookup-delete "Host" name d2,
                  y,
                  lookup-delete "X-Amz-Security-Token" name d1,
                  lookup-delete "Authorization" name h,
                )
                (stripped_lem (str_eq "Authorization" name) (str_eq "X-Amz-Security-Token" name)
                  (lookup name h)))
      ]

  towards-IsRetargeted :
      (r : ProxyRequest) (endpoint host : String) (u : Url)
      → parse (append (get_base_uri endpoint) r.request_uri) ≡ ok u
      → IsRetargeted r (towards r host u) endpoint host
  towards-IsRetargeted r endpoint host u e = record {
    header = lookup-towards r.header host;
    host_field = refl;
    no_uri = refl;
    no_addr = refl;
    url = (u, e, parts-with_raw_query u r.url);
  }

  -- A request that is turned towards a backend has the headers of the client's request but for
  -- Authorization and X-Amz-Security-Token, which it has not, and Host, which is that of the endpoint
  -- of the backend that the identifier stands for; its URL is that of the endpoint with the client's
  -- request URI after it and the client's query, signature parameters included.
  pub re_target_request-IsRetargeted :
      (cfg : Option BackendsConfig) (r : ProxyRequest) (backend_id : String) (r' : ProxyRequest)
      → re_target_request cfg r backend_id ≡ ok r'
      → (e : BackendConfigEntry) × (host : String) × (get_backend_config cfg backend_id ≡ ok e)
        × (get_host e.endpoint ≡ ok host)
        × IsRetargeted r r' e.endpoint host
  unfolding re_target_request get_backend_endpoint
  re_target_request-IsRetargeted cfg r backend_id r' h =
      let (endpoint, e1, h1) = >>=-eq-ok (get_backend_endpoint cfg backend_id) _ h in
      let (host, e2, h2) = >>=-eq-ok (get_host endpoint) _ h1 in
      let (u, e3, h3) = >>=-eq-ok (parse (append (get_base_uri endpoint) r.request_uri)) _ h2 in
      let (e, e4, h4) = >>=-eq-ok (get_backend_config cfg backend_id) (λ e. ok e.endpoint) e1 in
      let same = ok-eq-ok e.endpoint endpoint h4 in
      (
        e,
        host,
        e4,
        ap get_host same ∙ e2,
        subst (λ x. IsRetargeted r x e.endpoint host) (ok-eq-ok _ _ h3)
            (towards-IsRetargeted r e.endpoint host u
              (ap (λ (x : String). parse (append (get_base_uri x) r.request_uri)) same ∙ e3)),
      )

  -- A request whose request URI is a path goes to the scheme and the host of the URL that its
  -- backend's endpoint is by itself, where that is a URI of http or https.
  pub re_target_request-host :
      (cfg : Option BackendsConfig) (r : ProxyRequest) (backend_id path : String)
      (r' : ProxyRequest) (e : BackendConfigEntry)
      → get_backend_config cfg backend_id ≡ ok e
      → build_endpoint e.endpoint ≡ ok e.endpoint
      → r.request_uri ≡ append "/" path
      → re_target_request cfg r backend_id ≡ ok r'
      → (v : Url) × (parse e.endpoint ≡ ok v)
        × ((parts r'.url).scheme ≡ (parts v).scheme)
        × ((parts r'.url).host ≡ (parts v).host)
  unfolding get_base_uri
  re_target_request-host cfg r backend_id path r' e q http uri h =
      let (e', host, q', _, turned) = re_target_request-IsRetargeted cfg r backend_id r' h in
      let same = ok-eq-ok e' e (sym q' ∙ q) in
      let (u, parsed, p) = turned.url in
      let (v, f, s, t) = parse-path e.endpoint path u http (
        sym (
          ap (λ (x : BackendConfigEntry). parse (append x.endpoint r.request_uri)) same
          ∙ ap (λ (x : String). parse (append e.endpoint x)) uri)
        ∙ parsed) in
      (v, f, ap (λ (x : Url_parts). x.scheme) p ∙ s, ap (λ (x : Url_parts). x.host) p ∙ t)

  parse_no_panic :
      (x : Result Url) (next : Url → ProxyRequest) → x ≢ panic → (do u ← x; ok (next u)) ≢ panic
  parse_no_panic (ok u) next h e = cc
  parse_no_panic (fail m) next h e = cc
  parse_no_panic panic next h e = h refl

  -- Under a valid configuration no request makes the code panic, whatever backend it asks for, where
  -- the package `net/url` does not.
  pub re_target_request_total :
      (cfg : BackendsConfig) (r : ProxyRequest) (backend_id : String)
      → IsValid cfg
      → ((s : String) → parse s ≢ panic)
      → re_target_request (some cfg) r backend_id ≢ panic
  unfolding re_target_request get_backend_endpoint
  re_target_request_total cfg r backend_id valid parses p =
      elim (get_backend_config-IsValid cfg valid backend_id) [
        | inl (e, q, u) ↦
            (let (h, g) = u.host in
              parse_no_panic (parse (append (get_base_uri e.endpoint) r.request_uri)) (towards r h)
                (parses _) (sym (rw (q, g) refl) ∙ p))
        | inr (_, _, _, q) ↦ absurd (cc (rw q at p))
      ]
