-- ===== src/Presign/Samples.antt =====
-- A concrete library, in which a query of escaped values can be read back, and requests.
use fakes3pp.Prelude.{
  Char, code, String, ◌≡◌, refl, sym, ap, ap₂, subst, ◌∙◌, true, false, Bool-cases, inl, inr, some,
  List, [], ◌∷◌, ◌==◌, ==_iff, if◌then◌else◌, arith,
}
use package.text.Mathlib.TextEquality.{Char-path}
use fakes3pp.Text.{append, drop, lacks, split, split-append, split-lacks}
use fakes3pp.Outcome.{Result, ok, ok-eq-ok}
use fakes3pp.Request.Http.{Values, Request, header_set}
use fakes3pp.S3.Backend.Credentials.{AwsCredentials}
use fakes3pp.Presign.Library.{Url, Library}
use fakes3pp.Presign.Genuine.{ReadsQueries}

-- `&` and `%` are escaped, every other character stands for itself.
unfoldable pub escape : String → String
escape String.[] = ""
escape (String.◌∷◌ c s) =
    if code c == b'&'
    then String.◌∷◌ "%" (String.◌∷◌ "a" (escape s))
    else if code c == b'%'
    then String.◌∷◌ "%" (String.◌∷◌ "p" (escape s))
    else String.◌∷◌ c (escape s)

unfoldable pub unescape : String → String
unescape String.[] = ""
unescape (String.◌∷◌ c String.[]) = String.◌∷◌ c ""
unescape (String.◌∷◌ c (String.◌∷◌ d s)) =
    let escaped = String.◌∷◌ (if code d == b'a' then "&" else "%") (unescape s) in
    let plain = String.◌∷◌ c (unescape (String.◌∷◌ d s)) in
    if code c == b'%' then escaped else plain

unescape-plain :
    (c : Char) (s : String)
    → (code c == b'%') ≡ false
    → unescape (String.◌∷◌ c s) ≡ String.◌∷◌ c (unescape s)
unfolding unescape
unescape-plain c String.[] h = refl
unescape-plain c (String.◌∷◌ d s) h = rw h refl

unescape-escape : (s : String) → unescape (escape s) ≡ s
unfolding escape unescape
unescape-escape String.[] = refl
unescape-escape (String.◌∷◌ c s) = elim (Bool-cases (code c == b'&')) [
  | inl e ↦ rw e (ap₂ String.◌∷◌ (sym (Char-path c "&" ((==_iff _ _).0 e))) (unescape-escape s))
  | inr e ↦ elim (Bool-cases (code c == b'%')) [
    | inl f ↦
        rw (e, f) (ap₂ String.◌∷◌ (sym (Char-path c "%" ((==_iff _ _).0 f))) (unescape-escape s))
    | inr f ↦ rw (e, f) (unescape-plain c (escape s) f ∙ ap (String.◌∷◌ c) (unescape-escape s))
  ]
]

lacks-escape : (s : String) → lacks b'&' (escape s) ≡ true
unfolding escape
lacks-escape String.[] = refl
lacks-escape (String.◌∷◌ c s) = ground (arith, lacks-escape s)

-- What follows the first `?`.
unfoldable pub after_mark : String → String
after_mark String.[] = ""
after_mark (String.◌∷◌ c s) = if code c == b'?' then s else after_mark s

after_mark_lem :
    (base rest : String)
    → lacks b'?' base ≡ true
    → after_mark (append base (append "?" rest)) ≡ rest
unfolding after_mark
after_mark_lem String.[] rest h = refl
after_mark_lem (String.◌∷◌ c s) rest h = ground (arith, after_mark_lem s rest)

unfoldable pub query_of : List String → Values
query_of (a ∷ s ∷ t ∷ e ∷ []) =
    ("AWSAccessKeyId", unescape (drop 15 a) ∷ [])
    ∷ ("Signature", unescape (drop 10 s) ∷ [])
    ∷ ("x-amz-security-token", unescape (drop 21 t) ∷ [])
    ∷ ("Expires", unescape (drop 8 e) ∷ [])
    ∷ []
query_of (a ∷ s ∷ e ∷ []) =
    ("AWSAccessKeyId", unescape (drop 15 a) ∷ [])
    ∷ ("Signature", unescape (drop 10 s) ∷ [])
    ∷ ("Expires", unescape (drop 8 e) ∷ [])
    ∷ []
query_of _ = []

-- Every URL has the same scheme, host and path.
unfoldable pub parse : String → Result Url
unfolding query_of
parse s = ok (record {
  scheme = "https";
  host = "";
  path = "/b/k";
  query = query_of (split (after_mark s) "&");
})

-- A signature shows the secret key.
abbrev pub authorization_of : String → String
authorization_of signature =
    append
      "AWS4-HMAC-SHA256 Credential=AK/20240101/eu/s3/aws4_request, SignedHeaders=host, Signature="
      signature

abbrev pub sample_library : Library
sample_library = record {
  hmac_sha1 = λ key t. append key "-signed";
  base64 = λ s. s;
  query_escape = escape;
  parse_url = parse;
  parse_query = λ s. ok (("X-Amz-Signature", s ∷ []) ∷ []);
  atoi = λ s. ok 2000;
  format_int = λ n. "2000";
  parse_time = λ s. ok 1000;
  sign_http = λ creds r hash service region now. ok (record r {
    header = header_set r.header "Authorization" (authorization_of creds.secret_access_key);
  });
  presign_http =
      λ creds r hash service region now. ok (append creds.secret_access_key "-presigned");
}

abbrev keyed : String → String
keyed key = append "AWSAccessKeyId=" (escape key)

lacks-keyed : (key : String) → lacks b'&' (keyed key) ≡ true
lacks-keyed key = lacks-escape key

abbrev signed : String → String
signed signature = append "Signature=" (escape signature)

with_three :
    (key signature expires : String)
    → escape expires ≡ expires
    → split
        (append "AWSAccessKeyId=" (
          append
            (escape key)
            (append "&Signature=" (append (escape signature) (append "&Expires=" expires)))))
        "&"
      ≡ keyed key ∷ signed signature ∷ append "Expires=" expires ∷ []
with_three key signature expires x =
    split-append "&" (keyed key)
      (append "Signature=" (append (escape signature) (append "&Expires=" expires)))
      (lacks-escape key)
    ∙ ap (λ (l : List String). keyed key ∷ l)
        (split-append "&" (signed signature) (append "Expires=" expires) (lacks-escape signature)
          ∙ ap (λ (l : List String). signed signature ∷ l)
              (split-lacks "&" (append "Expires=" expires)
                (subst (λ (t : String). lacks b'&' t ≡ true) x (lacks-escape expires))))

with_four :
    (key signature token expires : String)
    → escape expires ≡ expires
    → split
        (append "AWSAccessKeyId=" (
          append (escape key) (
            append "&Signature=" (
              append (escape signature) (
                append
                  (append "&x-amz-security-token=" (escape token))
                  (append "&Expires=" expires))))))
        "&"
      ≡ keyed key
        ∷ signed signature
        ∷ append "x-amz-security-token=" (escape token)
        ∷ append "Expires=" expires
        ∷ []
with_four key signature token expires x =
    split-append "&" (keyed key) _ (lacks-escape key)
    ∙ ap (λ (l : List String). keyed key ∷ l)
        (split-append "&" (signed signature) _ (lacks-escape signature)
          ∙ ap (λ (l : List String). signed signature ∷ l)
              (split-append "&" (append "x-amz-security-token=" (escape token))
                  (append "Expires=" expires) (lacks-escape token)
                ∙ ap (λ (l : List String). append "x-amz-security-token=" (escape token) ∷ l)
                    (split-lacks "&" (append "Expires=" expires)
                      (subst (λ (t : String). lacks b'&' t ≡ true) x (lacks-escape expires)))))

abbrev field : String → String → String × List String
field name value = (name, value ∷ [])

unescape_plain : (s : String) → escape s ≡ s → unescape s ≡ s
unescape_plain s x = sym (ap unescape x) ∙ unescape-escape s

with_four_query :
    (base key signature token expires : String)
    → lacks b'?' base ≡ true
    → escape expires ≡ expires
    → query_of (
        split
          (after_mark (
            append base (
              append "?AWSAccessKeyId=" (
                append (escape key) (
                  append "&Signature=" (
                    append (escape signature) (
                      append
                        (append "&x-amz-security-token=" (escape token))
                        (append "&Expires=" expires))))))))
          "&")
      ≡ field "AWSAccessKeyId" key
        ∷ field "Signature" signature
        ∷ field "x-amz-security-token" token
        ∷ field "Expires" expires
        ∷ []
unfolding query_of
with_four_query base key signature token expires p x =
    ap (λ (s : String). query_of (split s "&"))
      (after_mark_lem base
        (append "AWSAccessKeyId=" (
          append (escape key) (
            append "&Signature=" (
              append (escape signature) (
                append (append "&x-amz-security-token=" (escape token))
                  (append "&Expires=" expires))))))
        p)
    ∙ ap query_of (with_four key signature token expires x)
    ∙ rw
        (
          unescape-escape key,
          unescape-escape signature,
          unescape-escape token,
          unescape_plain expires x,
        )
        refl

with_three_query :
    (base key signature expires : String)
    → lacks b'?' base ≡ true
    → escape expires ≡ expires
    → query_of (
        split
          (after_mark (
            append base (
              append "?AWSAccessKeyId=" (
                append (escape key) (
                  append "&Signature=" (append (escape signature) (append "&Expires=" expires)))))))
          "&")
      ≡ field "AWSAccessKeyId" key ∷ field "Signature" signature ∷ field "Expires" expires ∷ []
unfolding query_of
with_three_query base key signature expires p x =
    ap (λ (s : String). query_of (split s "&"))
      (after_mark_lem base
        (append "AWSAccessKeyId=" (
          append (escape key)
            (append "&Signature=" (append (escape signature) (append "&Expires=" expires)))))
        p)
    ∙ ap query_of (with_three key signature expires x)
    ∙ rw (unescape-escape key, unescape-escape signature, unescape_plain expires x) refl

pub sample_library-ReadsQueries : ReadsQueries sample_library
unfolding parse query_of
sample_library-ReadsQueries = record {
  with_token = λ base key signature token expires u p q x e.
      ap (λ (v : Url). v.query) (sym (ok-eq-ok _ _ e))
      ∙ with_four_query base key signature token expires p x;
  without_token = λ base key signature expires u p q x e.
      ap (λ (v : Url). v.query) (sym (ok-eq-ok _ _ e))
      ∙ with_three_query base key signature expires p x;
}

-- Requests by HMAC-SHA1 and by version 4, for these credentials.
abbrev pub sample_credentials : AwsCredentials
sample_credentials = record {
  access_key_id = "AK";
  secret_access_key = "SK";
  session_token = "good";
  can_expire = false;
}

abbrev pub hmac_request : Request
hmac_request = record {
  method = "GET";
  scheme = "";
  url_host = "";
  content_length = some 0;
  host = "s3.local";
  path = "/b/k";
  query =
      ("AWSAccessKeyId", "AK" ∷ [])
      ∷ ("Signature", "SK-signed" ∷ [])
      ∷ ("x-amz-security-token", "good" ∷ [])
      ∷ ("Expires", "2000" ∷ [])
      ∷ [];
  header = [];
}

abbrev pub v4_query : String → Values
v4_query signature =
    ("X-Amz-Algorithm", "AWS4-HMAC-SHA256" ∷ [])
    ∷ ("X-Amz-Credential", "AK/20240101/eu/s3/aws4_request" ∷ [])
    ∷ ("X-Amz-Date", "20240101T000000Z" ∷ [])
    ∷ ("X-Amz-Expires", "2000" ∷ [])
    ∷ ("X-Amz-SignedHeaders", "host" ∷ [])
    ∷ ("X-Amz-Security-Token", "good" ∷ [])
    ∷ ("X-Amz-Signature", signature ∷ [])
    ∷ []

abbrev pub v4_request : Request
v4_request = record hmac_request { query = v4_query "SK-presigned" }
