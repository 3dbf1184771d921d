-- ===== src/Presign/Signing.antt =====
-- What is signed, for how long a URL is valid, and what a valid signature of version 4 says.
use fakes3pp.Prelude.{
  ◌&&◌, inl, inr, ltb, Bool-cases, ℕ, ◌+◌, ◌*◌, ◌^◌, ◌<◌, String, ◌≡◌, refl, sym, ap, ◌∙◌, true,
  Option, none, some, List, [], ◌∷◌, lt→ltb, str_eq, eq_iff, arith, if◌then◌else◌,
}
use fakes3pp.Map.{lookup, contains, lookup-delete, lookup-insert}
use fakes3pp.Outcome.{map_error-eq-ok, ok, >>=-eq-ok, ok-eq-ok, map_error}
use fakes3pp.Request.Http.{Values, Request, query_get, query_del}
use fakes3pp.Request.Credential.{region_name, get_signature_credential_part_from_request}
use fakes3pp.Presign.Library.{Library, SecretDeriver}
use fakes3pp.Presign.V4.{
  second, seconds, in_seconds, add_duration, signature_query_param_names_to_remove, remove_params,
  sign_query, region_or, SignParams, get_s3_sign_request_params,
}
use fakes3pp.Presign.Url.{
  Details, url_credentials, get_amz_security_token, get_access_key_id, get_sign_time,
  expected_v4_signature, get_v4_details, bad_expiry,
}

lookup-remove_params :
    (names : List String) (q : Values) (name : String)
    → lookup name (remove_params names q) ≡ (if contains names name then none else lookup name q)
unfolding remove_params query_del contains
lookup-remove_params [] q name = refl
lookup-remove_params (n ∷ names) q name =
    lookup-remove_params names (query_del q n) name ∙ rw (lookup-delete n name q) (ground arith)

pub seconds_exact : (n : ℕ) → n < 9223372037 → seconds n ≡ n * second
seconds_exact n h = omega arith

pub in_seconds_exact : (n : ℕ) → n < 9223372037 → in_seconds (seconds n) ≡ n
in_seconds_exact n h =
    rw (seconds_exact n h, lt→ltb (n * second) (2 ^ 63) (omega arith)) (omega arith)

-- A time that is moved by fewer than 9223372037 seconds, the most that an int64 of nanoseconds can
-- hold, is moved by exactly those.
pub add_duration_exact :
    (t n : ℕ) → n < 9223372037 → add_duration (t * second) (seconds n) ≡ (t + n) * second
add_duration_exact t n h =
    rw (seconds_exact n h, lt→ltb (n * second) (2 ^ 63) (omega arith)) (omega arith)

-- A lifetime, if any, that an int64 of nanoseconds can hold.
abbrev pub IsShort : Option ℕ → Type 0
IsShort none = Unit
IsShort (some n) = n < 9223372037

module _ (L : Library) where
  abbrev unsigned_value : Values → String → Option (List String)
  unsigned_value q name =
      if contains signature_query_param_names_to_remove name then none else lookup name q

  -- What a query holds under a name, once it is made ready to be signed.
  abbrev pub signed_value : Option ℕ → Values → String → Option (List String)
  signed_value none q name = unsigned_value q name
  signed_value (some n) q name =
      if ltb 0 n && str_eq "X-Amz-Expires" name
      then some (L.format_int n ∷ [])
      else unsigned_value q name

  lookup-sign_query :
      (expiry : Option ℕ) (q : Values) (name : String)
      → IsShort expiry
      → lookup name (sign_query L expiry q) ≡ signed_value expiry q name
  lookup-sign_query none q name h =
      lookup-remove_params signature_query_param_names_to_remove q name
  lookup-sign_query (some n) q name h = elim (Bool-cases (ltb 0 n)) [
    | inl y ↦ rw y (
        lookup-insert "X-Amz-Expires" name (L.format_int (in_seconds (seconds n)) ∷ [])
          (remove_params signature_query_param_names_to_remove q)
        ∙ rw
            (
              in_seconds_exact n h,
              lookup-remove_params signature_query_param_names_to_remove q name,
            )
            refl)
    | inr y ↦ rw y (lookup-remove_params signature_query_param_names_to_remove q name)
  ]

  -- A request that is made ready to be signed loses the parameters that belong to a signature, gets the
  -- lifetime if there is one (of less than 9223372037 seconds), and keeps every other parameter.
  pub lookup-get_s3_sign_request_params :
      (req : Request) (expiry : Option ℕ) (default_region : String) (p : SignParams) (name : String)
      → IsShort expiry
      → get_s3_sign_request_params L req expiry default_region ≡ ok p
      → lookup name p.req.query ≡ signed_value expiry req.query name
  unfolding get_s3_sign_request_params
  lookup-get_s3_sign_request_params req expiry default_region p name h e =
      let (region, f, g) =
        >>=-eq-ok
          (region_or (get_signature_credential_part_from_request req region_name) default_region) _
          e in
      sym (ap (λ (x : SignParams). lookup name x.req.query) (ok-eq-ok _ _ g))
      ∙ lookup-sign_query expiry req.query name h

  -- A URL of version 4 is found valid only when its signature is the one that the secret key of its
  -- access key gives for the date and the lifetime that the URL names, and it then expires when that
  -- lifetime is over after that date.
  pub get_v4_details_genuine :
      (of_context : Option (List String)) (r : Request) (deriver : SecretDeriver)
      (details : Details)
      → get_v4_details L of_context r deriver ≡ ok details
      → details.is_valid ≡ true
      → (key secret : String) × (sign_date expiry_seconds : ℕ) × (get_access_key_id r ≡ ok key)
        × (deriver key ≡ ok secret)
        × (details.creds ≡ url_credentials key secret (get_amz_security_token r))
        × (get_sign_time L r ≡ ok sign_date)
        × (L.atoi (query_get r.query "X-Amz-Expires") ≡ ok expiry_seconds)
        × (expected_v4_signature L of_context r
              (url_credentials key secret (get_amz_security_token r))
              expiry_seconds
              sign_date
            ≡ ok (query_get r.query "X-Amz-Signature"))
        × (details.expires ≡ add_duration (sign_date * second) (seconds expiry_seconds))
  unfolding get_v4_details
  get_v4_details_genuine of_context r deriver details e v =
      let (key, e1, f1) = >>=-eq-ok (get_access_key_id r) _ e in
      let (secret, e2, f2) = >>=-eq-ok (deriver key) _ f1 in
      let (sign_date, e3, f3) = >>=-eq-ok (get_sign_time L r) _ f2 in
      let (n, e4, f4) =
        >>=-eq-ok (map_error (bad_expiry L) (L.atoi (query_get r.query "X-Amz-Expires"))) _ f3 in
      let (calculated, e5, f5) =
        >>=-eq-ok
          (expected_v4_signature L of_context r
            (url_credentials key secret (get_amz_security_token r)) n sign_date)
          _ f4 in
      let same = ap (λ (d : Details). d.is_valid) (ok-eq-ok _ _ f5) ∙ v in
      (
        key,
        secret,
        sign_date,
        n,
        e1,
        e2,
        sym (ap (λ (d : Details). d.creds) (ok-eq-ok _ _ f5)),
        e3,
        map_error-eq-ok _ _ n e4,
        e5 ∙ ap ok (sym ((eq_iff _ _).0 same)),
        sym (ap (λ (d : Details). d.expires) (ok-eq-ok _ _ f5)),
      )
