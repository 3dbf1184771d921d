-- ===== src/Sts/Samples.antt =====
-- A concrete server, whose tokens are those of one user with one role.
use fakes3pp.Prelude.{
  ℕ, String, ◌≡◌, refl, Bool, true, false, ◌&&◌, Bool-cases, inl, inr, Option, none, some, List, [],
  ◌∷◌, str_eq, eq_iff, ◌==◌, ==_iff, ap, sym, ◌∙◌, if◌then◌else◌,
}
use fakes3pp.UserError.{text}
use fakes3pp.Outcome.{Result, ok, fail, ok-eq-ok}
use fakes3pp.Iam.Policy.Action.{AwsSessionTags}
use fakes3pp.Iam.Manager.Cache.{Templates, Retriever}
use fakes3pp.S3.Authorize.Claims.{SessionClaims, Jwt}
use fakes3pp.Credentials.Issue.{KeyMaterial}
use fakes3pp.Sts.Server.{StsServer}
use fakes3pp.Sts.Accepted.{ReadsSigned}

-- Templates that stand for themselves.
abbrev plain : Templates
plain = record { Template = String; Input = String; parse = λ arn t. ok t; execute = λ t i. ok t }

abbrev one_role : Retriever
one_role = record {
  retrieve_policy_str =
      λ arn. if str_eq arn "role" then ok "policy" else fail (text "no such file or directory");
  retrieve_all_identifiers = ok ("role" ∷ []);
}

abbrev no_tags : AwsSessionTags
no_tags = record { principal_tags = []; transitive_tag_keys = [] }

abbrev made :
    String
    → String
    → String
    → String
    → String
    → AwsSessionTags
    → Option ℕ
    → Option ℕ
    → Option ℕ
    → SessionClaims
made role_arn i_issuer issuer subject access_key_id tags exp nbf iat = record {
  role_arn = role_arn;
  i_issuer = i_issuer;
  tags = tags;
  issuer = issuer;
  subject = subject;
  exp = exp;
  nbf = nbf;
  iat = iat;
  access_key_id = access_key_id;
}

-- What the proxy signs for the user.
abbrev pub alice : SessionClaims
alice =
    made "role" "idp" "sts.local" "alice" "0123456789abcdef0123456789abcdef" no_tags (some 4600)
      (some 1000) (some 1000)

abbrev is_empty {ℓ} : {A : Type ℓ} → List A → Bool
is_empty [] = true
is_empty _ = false

abbrev is_time : ℕ → Option ℕ → Bool
is_time n none = false
is_time n (some e) = e == n

abbrev has_no_tags : AwsSessionTags → Bool
has_no_tags tags = is_empty tags.principal_tags && is_empty tags.transitive_tag_keys

abbrev is_alice : SessionClaims → Bool
is_alice c =
    str_eq c.role_arn "role"
    && (str_eq c.i_issuer "idp"
        && (str_eq c.issuer "sts.local"
            && (str_eq c.subject "alice"
                && (str_eq c.access_key_id "0123456789abcdef0123456789abcdef"
                    && (has_no_tags c.tags
                        && (is_time 4600 c.exp && (is_time 1000 c.nbf && is_time 1000 c.iat)))))))

both : (a b : Bool) → (a && b) ≡ true → (a ≡ true) × (b ≡ true)
both true true h = (refl, refl)
both true false h = absurd (cc)
both false b h = absurd (cc)

is_empty_lem {ℓ} : {A : Type ℓ} (l : List A) → is_empty l ≡ true → l ≡ []
is_empty_lem [] h = refl
is_empty_lem (x ∷ l) h = absurd (cc)

is_time_lem : (n : ℕ) (o : Option ℕ) → is_time n o ≡ true → o ≡ some n
is_time_lem n none h = absurd (cc)
is_time_lem n (some e) h = ap some ((==_iff e n).0 h)

tags_lem : (tags : AwsSessionTags) → has_no_tags tags ≡ true → tags ≡ no_tags
tags_lem tags h =
    let (p, q) = both (is_empty tags.principal_tags) _ h in
    ap (λ (l : List (String × List String)). record tags { principal_tags = l })
      (is_empty_lem tags.principal_tags p)
    ∙ ap (λ (l : List String). record { principal_tags = []; transitive_tag_keys = l })
        (is_empty_lem tags.transitive_tag_keys q)

is_alice_lem : (c : SessionClaims) → is_alice c ≡ true → c ≡ alice
is_alice_lem c h =
    let (a, h1) = both (str_eq c.role_arn "role") _ h in
    let (b, h2) = both (str_eq c.i_issuer "idp") _ h1 in
    let (d, h3) = both (str_eq c.issuer "sts.local") _ h2 in
    let (e, h4) = both (str_eq c.subject "alice") _ h3 in
    let (f, h5) = both (str_eq c.access_key_id "0123456789abcdef0123456789abcdef") _ h4 in
    let (g, h6) = both (has_no_tags c.tags) _ h5 in
    let (i, h7) = both (is_time 4600 c.exp) _ h6 in
    let (j, k) = both (is_time 1000 c.nbf) _ h7 in
    ap
      (λ (x : String).
        made x c.i_issuer c.issuer c.subject c.access_key_id c.tags c.exp c.nbf c.iat)
      ((eq_iff c.role_arn "role").0 a)
    ∙ ap (λ (x : String). made "role" x c.issuer c.subject c.access_key_id c.tags c.exp c.nbf c.iat)
        ((eq_iff c.i_issuer "idp").0 b)
    ∙ ap (λ (x : String). made "role" "idp" x c.subject c.access_key_id c.tags c.exp c.nbf c.iat)
        ((eq_iff c.issuer "sts.local").0 d)
    ∙ ap (λ (x : String). made "role" "idp" "sts.local" x c.access_key_id c.tags c.exp c.nbf c.iat)
        ((eq_iff c.subject "alice").0 e)
    ∙ ap (λ (x : String). made "role" "idp" "sts.local" "alice" x c.tags c.exp c.nbf c.iat)
        ((eq_iff c.access_key_id "0123456789abcdef0123456789abcdef").0 f)
    ∙ ap
        (λ (x : AwsSessionTags).
          made "role" "idp" "sts.local" "alice" "0123456789abcdef0123456789abcdef" x c.exp c.nbf
            c.iat)
        (tags_lem c.tags g)
    ∙ ap
        (λ (x : Option ℕ).
          made "role" "idp" "sts.local" "alice" "0123456789abcdef0123456789abcdef" no_tags x c.nbf
            c.iat)
        (is_time_lem 4600 c.exp i)
    ∙ ap
        (λ (x : Option ℕ).
          made "role" "idp" "sts.local" "alice" "0123456789abcdef0123456789abcdef" no_tags
            (some 4600) x c.iat)
        (is_time_lem 1000 c.nbf j)
    ∙ ap
        (made "role" "idp" "sts.local" "alice" "0123456789abcdef0123456789abcdef" no_tags
          (some 4600) (some 1000))
        (is_time_lem 1000 c.iat k)

abbrev sign : String → SessionClaims → Result String
sign key claims = if is_alice claims then ok "signed" else fail (text "not signed")

abbrev pub keys : KeyMaterial
keys = record {
  private_key = ok "1111111111";
  sha1 = λ b. b;
  signed_string = sign;
  check_token = λ token key. none;
}

-- The tokens of the identity provider, and those of the proxy.
abbrev idp_jwt : Jwt
idp_jwt = record {
  KeyFunc = String;
  parse_unverified = λ token. fail (text "not used");
  parse_with_claims = λ token key.
      if str_eq token "oidc"
      then ok (made "" "" "idp" "alice" "" no_tags (some 2000) none none)
      else fail (text "token is malformed");
}

abbrev pub proxy_jwt : Jwt
proxy_jwt = record {
  KeyFunc = String;
  parse_unverified = λ token. fail (text "not used");
  parse_with_claims =
      λ token key. if str_eq token "signed" then ok alice else fail (text "token is malformed");
}

abbrev pub server : StsServer
server = record {
  J = idp_jwt;
  oidc_key_func = "idp";
  K = keys;
  fqdn = "sts.local";
  limits = record { min_allowed_duration = 900000000000; max_allowed_duration = 43200000000000 };
  T = plain;
  retriever = one_role;
  atoi = λ s. ok 3600;
}

signed_only :
    (key t : String) (claims : SessionClaims)
    → sign key claims ≡ ok t
    → (claims ≡ alice) × ("signed" ≡ t)
signed_only key t claims h = elim (Bool-cases (is_alice claims)) [
  | inl y ↦ (is_alice_lem claims y, ok-eq-ok "signed" t (rw y at h))
  | inr y ↦ absurd (cc (rw y at h))
]

pub proxy_jwt-ReadsSigned : (moment : ℕ) → ReadsSigned server proxy_jwt "key" moment
proxy_jwt-ReadsSigned moment = record {
  reads = λ key t claims nbf exp k h n e m l.
      let (a, b) = signed_only key t claims h in (rw (sym b) refl, rw (sym b, a) refl);
}
