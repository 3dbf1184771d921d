-- ===== src/Request/Parts.antt =====
-- requestutils/amz-credential-value.go: what the parts of a credential value are.
use fakes3pp.Prelude.{
  ℕ, zero, suc, ◌<◌, ◌≤◌, String, ◌≡◌, true, refl, none, List, [], ◌∷◌, length, get_elem?, arith,
}
use fakes3pp.Text.{split, join, lacks, split-join}
use fakes3pp.Outcome.{ok, panic}
use fakes3pp.Request.Credential.{
  CredentialPart, access_key_id, date, region_name, service_name, type, part_at,
  get_credential_part,
}

-- The parts that a well-formed credential value is made of.
abbrev credential_parts : String → String → String → List String
credential_parts key day region = key ∷ day ∷ region ∷ "s3" ∷ "aws4_request" ∷ []

abbrev part_of : String → String → String → CredentialPart → String
part_of key day region access_key_id = key
part_of key day region date = day
part_of key day region region_name = region
part_of key day region service_name = "s3"
part_of key day region type = "aws4_request"

split-credential :
    (key day region : String)
    → (lacks b'/' key ≡ true)
    → (lacks b'/' day ≡ true)
    → (lacks b'/' region ≡ true)
    → split (join (credential_parts key day region) "/") "/" ≡ credential_parts key day region
split-credential key day region k d r =
    split-join "/" key (day ∷ region ∷ "s3" ∷ "aws4_request" ∷ []) (k, (d, (r, (refl, (refl, tt)))))

-- Each part of a credential value `key/day/region/s3/aws4_request` is read back as it was written,
-- when the key, the day and the region hold no slash.
pub get_credential_part-join :
    (key day region : String)
    → (lacks b'/' key ≡ true)
    → (lacks b'/' day ≡ true)
    → (lacks b'/' region ≡ true)
    → (p : CredentialPart)
    → get_credential_part (join (key ∷ day ∷ region ∷ "s3" ∷ "aws4_request" ∷ []) "/") p
      ≡ ok (part_of key day region p)
unfolding get_credential_part
get_credential_part-join key day region k d r access_key_id =
    rw (split-credential key day region k d r) refl
get_credential_part-join key day region k d r date = rw (split-credential key day region k d r) refl
get_credential_part-join key day region k d r region_name =
    rw (split-credential key day region k d r) refl
get_credential_part-join key day region k d r service_name =
    rw (split-credential key day region k d r) refl
get_credential_part-join key day region k d r type = rw (split-credential key day region k d r) refl

pub get_elem?-none {ℓ} : {A : Type ℓ} (xs : List A) (i : ℕ) → length xs ≤ i → get_elem? xs i ≡ none
get_elem?-none [] i h = refl
get_elem?-none (x ∷ xs) (suc i) h = get_elem?-none xs i (omega arith)
get_elem?-none (x ∷ xs) zero h = absurd (omega arith)

part_at-panic : (parts : List String) → length parts < 4 → part_at parts service_name ≡ panic
part_at-panic parts h = rw (get_elem?-none parts 3 (omega arith), part_at) refl

-- A credential value of fewer than four parts makes the code panic, whatever part is asked for.
pub get_credential_part-panic :
    (s : String) (p : CredentialPart) → length (split s "/") < 4 → get_credential_part s p ≡ panic
unfolding get_credential_part
get_credential_part-panic s p h = rw (part_at-panic (split s "/") h) refl
