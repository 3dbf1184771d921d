-- ===== src/Presign/Genuine.antt =====
-- What a valid signature of a presigned URL by HMAC-SHA1 says of the URL.
use fakes3pp.Prelude.{
  ℕ, String, ◌≡◌, sym, ap, subst, Bool, true, ◌&&◌, Bool-cases, inl, inr, Option, none, some, List,
  [], ◌∷◌, length, str_eq, eq_iff, if◌then◌else◌, arith,
}
use fakes3pp.Text.{append, lacks}
use fakes3pp.Map.{lookup}
use fakes3pp.Outcome.{ok, >>=-eq-ok, ok-eq-ok}
use fakes3pp.Request.Http.{Values, Request}
use fakes3pp.Request.Query.{is_same_query, is_same_query_iff, Matches, IsCovered, Holds}
use fakes3pp.S3.Backend.Credentials.{AwsCredentials}
use fakes3pp.Presign.Library.{Url, Library}
use fakes3pp.Presign.HmacV1.{
  get_expires, url_base, build_hmac_v1_query_url, hmac_v1_signature, calculate_with_expiry_time,
  calculate_s3_presigned_hmac_v1_query_url, compare_request_with_url, has_valid_signature,
}

-- The query that the URL of a signature has.
abbrev pub signed_query : AwsCredentials → String → String → Values
signed_query creds expires signature =
    ("AWSAccessKeyId", creds.access_key_id ∷ [])
    ∷ ("Signature", signature ∷ [])
    ∷ (if str_eq creds.session_token ""
        then ("Expires", expires ∷ []) ∷ []
        else ("x-amz-security-token", creds.session_token ∷ []) ∷ ("Expires", expires ∷ []) ∷ [])

-- What is used of `net/url`: a query of escaped values is read back, behind a base with no `?` and no
-- `#`; the time of expiry is not escaped, so that it has to be one that escaping would not change.
pub record ReadsQueries (L : Library) : Type 0 where
  pub with_token :
      (base key signature token expires : String) (u : Url)
      → lacks b'?' base ≡ true
      → lacks b'#' base ≡ true
      → L.query_escape expires ≡ expires
      → L.parse_url (
          append base (
            append "?AWSAccessKeyId=" (
              append (L.query_escape key) (
                append "&Signature=" (
                  append (L.query_escape signature) (
                    append
                      (append "&x-amz-security-token=" (L.query_escape token))
                      (append "&Expires=" expires)))))))
        ≡ ok u
      → u.query
        ≡ ("AWSAccessKeyId", key ∷ [])
          ∷ ("Signature", signature ∷ [])
          ∷ ("x-amz-security-token", token ∷ [])
          ∷ ("Expires", expires ∷ [])
          ∷ []
  pub without_token :
      (base key signature expires : String) (u : Url)
      → lacks b'?' base ≡ true
      → lacks b'#' base ≡ true
      → L.query_escape expires ≡ expires
      → L.parse_url (
          append base (
            append "?AWSAccessKeyId=" (
              append (L.query_escape key) (
                append "&Signature="
                  (append (L.query_escape signature) (append "&Expires=" expires))))))
        ≡ ok u
      → u.query
        ≡ ("AWSAccessKeyId", key ∷ [])
          ∷ ("Signature", signature ∷ [])
          ∷ ("Expires", expires ∷ [])
          ∷ []

-- Some one value that is held is the only value.
one_value : (v : String) (vs : List String) → length (v ∷ []) ≡ length vs → Holds vs v → vs ≡ v ∷ []
one_value v [] n h = absurd h
one_value v (w ∷ []) n (inl e) = ap (λ (x : String). x ∷ []) e
one_value v (w ∷ []) n (inr e) = absurd e
one_value v (w ∷ x ∷ vs) n h = absurd (omega arith)

Matches-one : (v : String) (o : Option (List String)) → Matches (v ∷ []) o → o ≡ some (v ∷ [])
Matches-one v none m = absurd m
Matches-one v (some vs) (n, h) = ap some (one_value v vs n h.0)

module _ (L : Library) (laws : ReadsQueries L) (r : Request) (creds : AwsCredentials) where
  -- The parts of the URL before its query hold neither of the two signs.
  abbrev pub IsPlain : Type 0
  IsPlain = (lacks b'?' (url_base L r) ≡ true) × (lacks b'#' (url_base L r) ≡ true)

  pub parsed_query :
      (expires signature : String) (u : Url)
      → IsPlain
      → L.query_escape expires ≡ expires
      → L.parse_url (build_hmac_v1_query_url L r creds expires signature) ≡ ok u
      → u.query ≡ signed_query creds expires signature
  unfolding build_hmac_v1_query_url
  parsed_query expires signature u (p, q) x e = elim (Bool-cases (str_eq creds.session_token "")) [
    | inl z ↦ rw z (
        laws.without_token (url_base L r) creds.access_key_id signature expires u p q x (rw z at e))
    | inr z ↦ rw z (
        laws.with_token (url_base L r) creds.access_key_id signature creds.session_token expires u p
          q x (rw z at e))
  ]

  signature_covered :
      (expires signature : String)
      → IsCovered (signed_query creds expires signature) r.query
      → (lookup "Signature" r.query ≡ some (signature ∷ []))
        × (lookup "AWSAccessKeyId" r.query ≡ some (creds.access_key_id ∷ []))
  signature_covered expires signature (a, (s, rest)) =
      (Matches-one signature _ s, Matches-one creds.access_key_id _ a)

  -- With no lifetime of its own, the URL is made for the time of expiry of the request.
  expected_parts :
      (now : ℕ) (url : String)
      → calculate_s3_presigned_hmac_v1_query_url L now r creds 0 ≡ ok url
      → (signature : String) × (hmac_v1_signature L r creds (get_expires r) ≡ ok signature)
        × (url ≡ build_hmac_v1_query_url L r creds (get_expires r) signature)
  unfolding calculate_s3_presigned_hmac_v1_query_url calculate_with_expiry_time
  expected_parts now url e = elim (Bool-cases (str_eq (get_expires r) "")) [
    | inl z ↦ absurd (cc (rw z at e))
    | inr z ↦
        (let (signature, f, g) =
            >>=-eq-ok (hmac_v1_signature L r creds (get_expires r)) _ (rw z at e) in
          (signature, f, sym (ok-eq-ok _ _ g)))
  ]

  compared :
      (url : String) (same : Bool × Bool × Bool)
      → compare_request_with_url L r url ≡ ok same
      → (same.0 && (same.1 && same.2)) ≡ true
      → (u : Url) × (L.parse_url url ≡ ok u)
        × (u.host ≡ r.url_host)
        × (u.path ≡ r.path)
        × (is_same_query u.query r.query ≡ true)
  unfolding compare_request_with_url
  compared url same e t =
      let (u, f, g) = >>=-eq-ok (L.parse_url url) _ e in
      (
        u,
        f,
        ground (arith, ok-eq-ok _ same g, eq_iff u.host r.url_host),
        ground (arith, ok-eq-ok _ same g, eq_iff u.path r.path),
        ground (arith, ok-eq-ok _ same g),
      )

  -- A presigned URL whose signature is found valid has one signature, the one that the secret key
  -- gives for the request and its time of expiry, and has the key of the credentials, where its host
  -- and path hold no `?` and no `#` and its time of expiry nothing that is escaped.
  pub has_valid_signature_genuine :
      (now : ℕ)
      → IsPlain
      → L.query_escape (get_expires r) ≡ get_expires r
      → has_valid_signature L now r creds ≡ ok true
      → (signature : String) × (hmac_v1_signature L r creds (get_expires r) ≡ ok signature)
        × (lookup "Signature" r.query ≡ some (signature ∷ []))
        × (lookup "AWSAccessKeyId" r.query ≡ some (creds.access_key_id ∷ []))
  unfolding has_valid_signature
  has_valid_signature_genuine now plain x e =
      let (url, f, g) = >>=-eq-ok (calculate_s3_presigned_hmac_v1_query_url L now r creds 0) _ e in
      let (same, h, k) = >>=-eq-ok (compare_request_with_url L r url) _ g in
      let (signature, s, v) = expected_parts now url f in
      let (u, w, _, _, q) = compared url same h (ok-eq-ok _ _ k) in
      let covered =
        subst (λ (t : Values). IsCovered t r.query)
          (parsed_query (get_expires r) signature u plain x
            (subst (λ (t : String). L.parse_url t ≡ ok u) v w))
          ((is_same_query_iff u.query r.query).0 q).1 in
      let (a, b) = signature_covered (get_expires r) signature covered in (signature, s, a, b)
