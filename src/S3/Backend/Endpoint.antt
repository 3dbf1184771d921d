-- ===== src/S3/Backend/Endpoint.antt =====
-- `endpoint`: a URI that begins with http:// or https://.
use fakes3pp.Prelude.{
  zero, String, ◌≡◌, refl, sym, subst, ◌∙◌, true, false, not, ◌&&◌, inl, inr, List, [], ◌∷◌, arith,
  if◌then◌else◌, Bool-cases,
}
use fakes3pp.Text.{append, has_prefix, split, split_skip, lacks, split-cons, has_prefix-append}
use fakes3pp.UserError.{text}
use fakes3pp.Outcome.{Result, ok, fail, panic}

-- `buildEndpoint`.
unfoldable pub build_endpoint : String → Result String
build_endpoint uri =
    if not (has_prefix uri "https://") && not (has_prefix uri "http://")
    then fail (text "endpoint URIs must start with https:// or http://")
    else ok uri

abbrev second : List String → Result String
second (x ∷ y ∷ _) = ok y
second _ = panic

-- `GetHost`: the second part of the split, which panics where there is none.
unfoldable pub get_host : String → Result String
get_host e = second (split e "://")

-- `GetBaseURI`.
unfoldable pub get_base_uri : String → String
get_base_uri e = e

after_scheme : (rest : String) → split (append "https://" rest) "://" ≡ "https" ∷ split rest "://"
unfolding split
after_scheme rest = refl

after_http : (rest : String) → split (append "http://" rest) "://" ≡ "http" ∷ split rest "://"
unfolding split
after_http rest = refl

no_slashes : (t : String) → lacks b'/' t ≡ true → has_prefix t "//" ≡ false
unfolding has_prefix
no_slashes String.[] h = refl
no_slashes (String.◌∷◌ c t) h = ground arith

split_skip-slashless : (t : String) → lacks b'/' t ≡ true → split_skip "://" zero t ≡ t ∷ []
unfolding split_skip has_prefix
split_skip-slashless String.[] k = refl
split_skip-slashless (String.◌∷◌ c t) k = ground (arith, no_slashes t, split_skip-slashless t)

second-split : (x rest : String) → (h : String) × (second (x ∷ split rest "://") ≡ ok h)
second-split x rest = let (y, ys, e) = split-cons rest "://" in (y, rw e refl)

https_host : (rest : String) → (h : String) × (get_host (append "https://" rest) ≡ ok h)
unfolding get_host
https_host rest = rw (after_scheme rest) (second-split "https" rest)

http_host : (rest : String) → (h : String) × (get_host (append "http://" rest) ≡ ok h)
unfolding get_host
http_host rest = rw (after_http rest) (second-split "http" rest)

-- An endpoint that `buildEndpoint` accepts is the URI itself, and taking its host does not panic.
pub get_host-build_endpoint :
    (uri e : String)
    → build_endpoint uri ≡ ok e
    → (get_base_uri e ≡ uri) × ((host : String) × (get_host e ≡ ok host))
unfolding build_endpoint get_base_uri get_host
get_host-build_endpoint uri e h = elim (Bool-cases (has_prefix uri "https://")) [
  | inl k ↦
      (let (rest, q) = has_prefix-append uri "https://" k in
        let u : e ≡ uri = ground arith in
        (
          u,
          subst (λ (x : String). (host : String) × (get_host x ≡ ok host)) (sym (u ∙ q))
              (https_host rest),
        ))
  | inr k ↦ elim (Bool-cases (has_prefix uri "http://")) [
    | inl l ↦
        (let (rest, q) = has_prefix-append uri "http://" l in
          let u : e ≡ uri = ground arith in
          (
            u,
            subst (λ (x : String). (host : String) × (get_host x ≡ ok host)) (sym (u ∙ q))
                (http_host rest),
          ))
    | inr l ↦ absurd (ground arith)
  ]
]

-- The host of an endpoint without a path is what follows the scheme.
pub get_host_lem :
    (rest : String)
    → lacks b'/' rest ≡ true
    → (get_host (append "https://" rest) ≡ ok rest) × (get_host (append "http://" rest) ≡ ok rest)
unfolding get_host split
get_host_lem rest h = (rw (split_skip-slashless rest h) refl, rw (split_skip-slashless rest h) refl)
