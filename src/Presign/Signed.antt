-- ===== src/Presign/Signed.antt =====
-- Which headers stay while a request is signed, and which are signed.
use fakes3pp.Prelude.{
  Char, ℕ, zero, suc, String, ◌≡◌, refl, ap, ◌∙◌, Bool-cases, true, false, inl, inr, none, List, [],
  ◌∷◌, map, str_eq, eq_iff, if◌then◌else◌, arith, All,
}
use fakes3pp.Text.{
  append, size, has_prefix, split, join, trim_left, lacks, split-lacks, split-append, split-join,
}
use fakes3pp.Map.{lookup, has_key, contains, lookup-delete}
use fakes3pp.Outcome.{ok}
use fakes3pp.Request.Http.{Values, Request, canonical, header_get, header_del}
use fakes3pp.Presign.Headers.{
  Aside, remove_one, remove_loop, temporary_remove_headers, of_parts,
  get_signed_headers_from_request,
}

-- Every name of a header is in its canonical form, as the package `net/http` makes it.
abbrev pub IsCanonical : Values → Type 0
IsCanonical h = All (λ (e : String × List String). canonical e.0 ≡ e.0) h

remove_one_lem :
    (keep : List String) (n : String) (s : Aside) (name : String)
    → canonical n ≡ n
    → lookup name (remove_one keep n s).0 ≡ (
        if contains keep n
        then lookup name s.0
        else if str_eq n name
        then none
        else lookup name s.0)
unfolding header_del
remove_one_lem keep n (h, headers) name c = elim (Bool-cases (contains keep n)) [
  | inl e ↦ rw e refl
  | inr e ↦ rw e (rw c (lookup-delete n name h))
]

same_contains :
    (keep : List String) (n name : String)
    → str_eq n name ≡ true
    → contains keep n ≡ contains keep name
same_contains keep n name e = ap (contains keep) ((eq_iff n name).0 e)

remove_loop_lem :
    (l : Values) (keep : List String) (s : Aside) (name : String)
    → IsCanonical l
    → lookup name (remove_loop l keep s).0 ≡ (
        if contains keep name
        then lookup name s.0
        else if has_key name l
        then none
        else lookup name s.0)
unfolding remove_loop lookup
remove_loop_lem [] keep s name c = ground arith
remove_loop_lem ((n, vs) ∷ l) keep s name (c, cs) =
    remove_loop_lem l keep (remove_one keep n s) name cs ∙ elim (Bool-cases (str_eq n name)) [
      | inl e ↦ rw (remove_one_lem keep n s name c, same_contains keep n name e, e) (ground arith)
      | inr e ↦ rw (remove_one_lem keep n s name c, e) (ground arith)
    ]

no_key : (name : String) (h : Values) → has_key name h ≡ false → lookup name h ≡ none
no_key name h e = ground arith

-- While a request is signed, exactly the headers to keep are left, with their values.
pub lookup-temporary_remove_headers :
    (h : Values) (keep : List String) (name : String)
    → IsCanonical h
    → lookup name (temporary_remove_headers h keep).0
      ≡ (if contains keep name then lookup name h else none)
unfolding temporary_remove_headers
lookup-temporary_remove_headers h keep name c =
    ground (arith, remove_loop_lem h keep (h, []) name c, no_key name h)

-- So many blanks before a text.
abbrev pub after_blanks : ℕ → String → String
after_blanks zero s = s
after_blanks (suc n) s = String.◌∷◌ " " (after_blanks n s)

abbrev pub signed_headers : List String → String
signed_headers names = append "SignedHeaders=" (join names ";")

-- The Authorization header that names these signed headers, after so many blanks.
abbrev pub authorization : String → ℕ → List String → String → String
authorization credential blanks names signature =
    append credential
      (append "," (append (after_blanks blanks (signed_headers names)) (append "," signature)))

lacks-after_blanks :
    (n : ℕ) (s : String) → lacks b',' s ≡ true → lacks b',' (after_blanks n s) ≡ true
lacks-after_blanks zero s h = h
lacks-after_blanks (suc n) s h = lacks-after_blanks n s h

trim_left-after_blanks :
    (n : ℕ) (names : List String)
    → trim_left (after_blanks n (signed_headers names)) ≡ signed_headers names
unfolding trim_left
trim_left-after_blanks zero names = refl
trim_left-after_blanks (suc n) names = trim_left-after_blanks n names

split-authorization :
    (credential signature : String) (blanks : ℕ) (names : List String)
    → lacks b',' credential ≡ true
    → lacks b',' (signed_headers names) ≡ true
    → lacks b',' signature ≡ true
    → split (authorization credential blanks names signature) ","
      ≡ credential ∷ after_blanks blanks (signed_headers names) ∷ signature ∷ []
split-authorization credential signature blanks names c n g =
    let part = after_blanks blanks (signed_headers names) in
    split-append "," credential _ c
    ∙ ap (λ (l : List String). credential ∷ l)
        (split-append "," part signature (lacks-after_blanks blanks (signed_headers names) n)
          ∙ ap (λ (l : List String). part ∷ l) (split-lacks "," signature g))

cons_not_empty : (c : Char) (s : String) → str_eq (String.◌∷◌ c s) "" ≡ false
cons_not_empty c s = elim (Bool-cases (str_eq (String.◌∷◌ c s) "")) [
  | inl e ↦ absurd (omega (arith, ap size ((eq_iff (String.◌∷◌ c s) "").0 e)))
  | inr e ↦ e
]

not_empty : (s t : String) → str_eq (append s (append "," t)) "" ≡ false
not_empty String.[] t = cons_not_empty "," t
not_empty (String.◌∷◌ c s) t = cons_not_empty c (append s (append "," t))

of_parts_lem :
    (ah credential signature name : String) (blanks : ℕ) (names : List String)
    → All (λ s. lacks b';' s ≡ true) (name ∷ names)
    → of_parts ah
        (credential ∷ after_blanks blanks (signed_headers (name ∷ names)) ∷ signature ∷ [])
      ≡ ok (map canonical (name ∷ names))
unfolding has_prefix
of_parts_lem ah credential signature name blanks names l =
    rw (trim_left-after_blanks blanks (name ∷ names))
      (ap (λ (x : List String). ok (map canonical x)) (split-join ";" name names l))

-- The names that an Authorization header lists after `SignedHeaders=`, joined by semicolons, are read
-- back, each in its canonical form, however many blanks stand before that word, where no part holds a
-- comma and no name holds a semicolon.
pub get_signed_headers_from_request-authorization :
    (req : Request) (credential signature name : String) (blanks : ℕ) (names : List String)
    → header_get req.header "Authorization"
      ≡ authorization credential blanks (name ∷ names) signature
    → lacks b',' credential ≡ true
    → lacks b',' (join (name ∷ names) ";") ≡ true
    → lacks b',' signature ≡ true
    → All (λ s. lacks b';' s ≡ true) (name ∷ names)
    → get_signed_headers_from_request req ≡ ok (map canonical (name ∷ names))
unfolding get_signed_headers_from_request
get_signed_headers_from_request-authorization req credential signature name blanks names e c n g l =
    rw
      (
        e,
        not_empty credential
            (append (after_blanks blanks (signed_headers (name ∷ names))) (append "," signature)),
        split-authorization credential signature blanks (name ∷ names) c n g,
      )
      (of_parts_lem _ credential signature name blanks names l)
