-- ===== src/Presign/RoundTrip.antt =====
-- A URL that is presigned by HMAC-SHA1 is found valid when it is requested.
use fakes3pp.Prelude.{
  ℕ, ◌+◌, ◌<◌, String, ◌≡◌, refl, sym, subst, true, false, ◌&&◌, not, Bool-cases, inl, inr, lt→ltb,
  ◌==◌, str_eq, eq_refl, arith,
}
use fakes3pp.Text.{to_upper}
use fakes3pp.Map.{lookup, contains}
use fakes3pp.Outcome.{ok, >>=-eq-ok, ok-eq-ok}
use fakes3pp.Request.Http.{Values, Request, query_get}
use fakes3pp.Request.Query.{is_same_query}
use fakes3pp.S3.Backend.Credentials.{AwsCredentials}
use fakes3pp.Presign.Library.{Url, Library}
use fakes3pp.Presign.HmacV1.{
  get_expires, is_of_interest, get_canonical_resource, get_canonical_request_string,
  assure_sec_token_header, build_hmac_v1_query_url, hmac_v1_signature,
  get_expires_from_expiry_seconds, calculate_with_expiry_time,
  calculate_s3_presigned_hmac_v1_query_url, compare_request_with_url, has_valid_signature,
}
use fakes3pp.Presign.Genuine.{ReadsQueries, signed_query, IsPlain, parsed_query}

-- The text that is signed has nothing of a query that holds no parameter of interest.
canonical-query :
    (r : Request) (q : Values) (expires s : String)
    → is_of_interest q ≡ false
    → get_canonical_request_string r expires ≡ ok s
    → get_canonical_request_string (record r { query = q }) expires ≡ ok s
unfolding get_canonical_request_string get_canonical_resource
canonical-query r q expires s i e =
    elim (Bool-cases
      (not (str_eq (to_upper r.method) "GET") && not (str_eq (to_upper r.method) "HEAD"))) [
        | inl y ↦ absurd (cc (rw y at e))
        | inr y ↦ elim (Bool-cases (is_of_interest r.query)) [
          | inl z ↦ absurd (cc (rw (y, z) at e))
          | inr z ↦ rw (y, i) (rw (y, z) at e)
        ]
      ]

signed_not_of_interest :
    (creds : AwsCredentials) (expires signature : String)
    → is_of_interest (signed_query creds expires signature) ≡ false
unfolding contains
signed_not_of_interest creds expires signature = elim (Bool-cases (str_eq creds.session_token "")) [
  | inl y ↦ rw y refl
  | inr y ↦ rw y refl
]

not_zero : (n : ℕ) → 0 < n → (n == 0) ≡ false
not_zero n h = ground arith

signed_expires :
    (r : Request) (creds : AwsCredentials) (expires signature : String)
    → get_expires (record r { query = signed_query creds expires signature }) ≡ expires
unfolding get_expires query_get lookup
signed_expires r creds expires signature = elim (Bool-cases (str_eq creds.session_token "")) [
  | inl y ↦ rw y refl
  | inr y ↦ rw y refl
]

signed_is_same :
    (creds : AwsCredentials) (expires signature : String)
    → is_same_query (signed_query creds expires signature) (signed_query creds expires signature)
      ≡ true
unfolding is_same_query lookup
signed_is_same creds expires signature = elim (Bool-cases (str_eq creds.session_token "")) [
  | inl y ↦ rw (y, eq_refl creds.access_key_id, eq_refl signature, eq_refl expires) refl
  | inr y ↦
      rw
        (
          y,
          eq_refl creds.access_key_id,
          eq_refl signature,
          eq_refl creds.session_token,
          eq_refl expires,
        )
        refl
]

module _ (L : Library) (laws : ReadsQueries L) (r : Request) (creds : AwsCredentials) where
  signature-query :
      (q : Values) (expires signature : String)
      → is_of_interest q ≡ false
      → hmac_v1_signature L r creds expires ≡ ok signature
      → hmac_v1_signature L (record r { query = q }) creds expires ≡ ok signature
  unfolding hmac_v1_signature
  signature-query q expires signature i e =
      let (s, f, g) =
        >>=-eq-ok
          (get_canonical_request_string
            (record r { header = assure_sec_token_header r.header creds }) expires)
          _ e in
      rw
        (canonical-query (record r { header = assure_sec_token_header r.header creds }) q expires s
          i f)
        g

  -- The request of the URL that has this signature.
  abbrev requested : String → String → Request
  requested expires signature = record r { query = signed_query creds expires signature }

  calculated_again :
      (now : ℕ) (expires signature : String)
      → str_eq expires "" ≡ false
      → hmac_v1_signature L r creds expires ≡ ok signature
      → calculate_s3_presigned_hmac_v1_query_url L now (requested expires signature) creds 0
        ≡ ok (build_hmac_v1_query_url L r creds expires signature)
  unfolding calculate_s3_presigned_hmac_v1_query_url calculate_with_expiry_time
      build_hmac_v1_query_url
  calculated_again now expires signature n e =
      rw
        (
          signed_expires r creds expires signature,
          n,
          signature-query (signed_query creds expires signature) expires signature
              (signed_not_of_interest creds expires signature) e,
        )
        refl

  compared_same :
      (expires signature : String) (u : Url)
      → u.host ≡ r.url_host
      → u.path ≡ r.path
      → u.query ≡ signed_query creds expires signature
      → L.parse_url (build_hmac_v1_query_url L r creds expires signature) ≡ ok u
      → compare_request_with_url L
          (requested expires signature)
          (build_hmac_v1_query_url L r creds expires signature)
        ≡ ok (true, true, true)
  unfolding compare_request_with_url
  compared_same expires signature u h p q e =
      rw (e, h, p, q, eq_refl r.url_host, eq_refl r.path, signed_is_same creds expires signature)
        refl

  signed_url_is_valid :
      (now : ℕ) (expires signature : String) (u : Url)
      → IsPlain L laws r creds
      → L.query_escape expires ≡ expires
      → str_eq expires "" ≡ false
      → u.host ≡ r.url_host
      → u.path ≡ r.path
      → hmac_v1_signature L r creds expires ≡ ok signature
      → L.parse_url (build_hmac_v1_query_url L r creds expires signature) ≡ ok u
      → has_valid_signature L now (record r { query = u.query }) creds ≡ ok true
  unfolding has_valid_signature
  signed_url_is_valid now expires signature u plain x n h p s e =
      let q = parsed_query L laws r creds expires signature u plain x e in
      rw (q, calculated_again now expires signature n s, compared_same expires signature u h p q e)
        refl

  -- With a lifetime, the URL is made for the time at which it is over.
  made_parts :
      (now n : ℕ) (url : String)
      → 0 < n
      → calculate_s3_presigned_hmac_v1_query_url L now r creds n ≡ ok url
      → (signature : String) × (hmac_v1_signature L r creds (L.format_int (now + n)) ≡ ok signature)
        × (build_hmac_v1_query_url L r creds (L.format_int (now + n)) signature ≡ url)
  unfolding calculate_s3_presigned_hmac_v1_query_url calculate_with_expiry_time
      get_expires_from_expiry_seconds
  made_parts now n url positive c = elim (Bool-cases (str_eq (get_expires r) "")) [
    | inl z ↦
        (let (signature, s, g) =
            >>=-eq-ok (hmac_v1_signature L r creds (L.format_int (now + n))) _
              (rw (z, not_zero n positive, lt→ltb 0 n positive) at c) in
          (signature, s, ok-eq-ok _ _ g))
    | inr z ↦ absurd (cc (rw (z, lt→ltb 0 n positive) at c))
  ]

  -- A URL that is made with a lifetime is found valid, at any time, as the request that it is parsed
  -- to, where host and path are read back, hold no `?` and no `#`, and the time of expiry is written
  -- as a text that is not empty and holds nothing that is escaped.
  pub has_valid_signature-calculate :
      (now later n : ℕ) (url : String) (u : Url)
      → IsPlain L laws r creds
      → 0 < n
      → L.query_escape (L.format_int (now + n)) ≡ L.format_int (now + n)
      → str_eq (L.format_int (now + n)) "" ≡ false
      → calculate_s3_presigned_hmac_v1_query_url L now r creds n ≡ ok url
      → L.parse_url url ≡ ok u
      → u.host ≡ r.url_host
      → u.path ≡ r.path
      → has_valid_signature L later (record r { query = u.query }) creds ≡ ok true
  has_valid_signature-calculate now later n url u plain positive x nonempty c e h p =
      let (signature, s, b) = made_parts now n url positive c in
      signed_url_is_valid later (L.format_int (now + n)) signature u plain x nonempty h p s
        (subst (λ (t : String). L.parse_url t ≡ ok u) (sym b) e)
