-- ===== src/Credentials/Derived.antt =====
-- What a secret key is derived from.
use fakes3pp.Prelude.{
  ℕ, zero, suc, ◌≤◌, code, String, ◌≡◌, refl, sym, ap, ◌∙◌, List, [], ◌∷◌, ◌++◌, append_assoc,
  append-nil, subst, length, arith,
}
use fakes3pp.Text.{append, size}
use fakes3pp.Outcome.{ok}
use fakes3pp.Credentials.SecretKey.{
  bytes, group, sum, encode_to_string, take, slice_to, secret_key_length, calculate_secret_key,
}

-- The numbers of digits and of bytes in this many whole groups and two bytes more.
abbrev digits : ℕ → ℕ
digits zero = 2
digits (suc k) = suc (suc (suc (suc (digits k))))

abbrev needed : ℕ → ℕ
needed zero = 2
needed (suc k) = suc (suc (suc (needed k)))

first_two :
    (a b : ℕ) (r1 r2 : List ℕ)
    → take 2 (encode_to_string (a ∷ b ∷ r1)) ≡ take 2 (encode_to_string (a ∷ b ∷ r2))
unfolding encode_to_string
first_two a b [] [] = refl
first_two a b [] (c ∷ r2) = refl
first_two a b (c ∷ r1) [] = refl
first_two a b (c ∷ r1) (d ∷ r2) = refl

-- The first digits depend on the first bytes alone.
take-encode_to_string :
    (k : ℕ) (xs r1 r2 : List ℕ)
    → needed k ≤ length xs
    → take (digits k) (encode_to_string (xs ++ r1)) ≡ take (digits k) (encode_to_string (xs ++ r2))
unfolding encode_to_string
take-encode_to_string zero [] r1 r2 h = absurd (omega arith)
take-encode_to_string zero (a ∷ []) r1 r2 h = absurd (omega arith)
take-encode_to_string zero (a ∷ b ∷ xs) r1 r2 h = first_two a b (xs ++ r1) (xs ++ r2)
take-encode_to_string (suc k) [] r1 r2 h = absurd (omega arith)
take-encode_to_string (suc k) (a ∷ []) r1 r2 h = absurd (omega arith)
take-encode_to_string (suc k) (a ∷ b ∷ []) r1 r2 h = absurd (omega arith)
take-encode_to_string (suc k) (a ∷ b ∷ c ∷ xs) r1 r2 h =
    ap (group a b c) (take-encode_to_string k xs r1 r2 (omega arith))

size-encode_to_string :
    (k : ℕ) (xs : List ℕ) → needed k ≤ length xs → digits k ≤ size (encode_to_string xs)
unfolding encode_to_string
size-encode_to_string zero [] h = absurd (omega arith)
size-encode_to_string zero (a ∷ []) h = absurd (omega arith)
size-encode_to_string zero (a ∷ b ∷ []) h = omega arith
size-encode_to_string zero (a ∷ b ∷ c ∷ xs) h = omega arith
size-encode_to_string (suc k) [] h = absurd (omega arith)
size-encode_to_string (suc k) (a ∷ []) h = absurd (omega arith)
size-encode_to_string (suc k) (a ∷ b ∷ []) h = absurd (omega arith)
size-encode_to_string (suc k) (a ∷ b ∷ c ∷ xs) h =
    omega (arith, size-encode_to_string k xs (omega arith))

bytes-append : (s t : String) → bytes (append s t) ≡ bytes s ++ bytes t
bytes-append String.[] t = refl
bytes-append (String.◌∷◌ c s) t = ap (λ (l : List ℕ). code c ∷ l) (bytes-append s t)

length-bytes : (s : String) → length (bytes s) ≡ size s
length-bytes String.[] = refl
length-bytes (String.◌∷◌ c s) = ap suc (length-bytes s)

length-++ : (xs ys : List ℕ) → length xs ≤ length (xs ++ ys)
length-++ [] ys = omega arith
length-++ (x ∷ xs) ys = omega (arith, length-++ xs ys)

slice_to-ok : (n : ℕ) (s : String) → n ≤ size s → slice_to n s ≡ ok (take n s)
slice_to-ok n s h = ground arith

after_key :
    (sha1 : List ℕ → List ℕ) (access_key d : String)
    → sum sha1 [] (bytes (append access_key d)) ≡ bytes access_key ++ (bytes d ++ sha1 [])
after_key sha1 access_key d =
    rw (bytes-append access_key d) (append_assoc (bytes access_key) (bytes d) (sha1 []))

-- What anybody can work out from an access key.
abbrev pub guess : String → String
guess access_key = take secret_key_length (encode_to_string (bytes access_key))

-- The secret key of an access key of 32 characters or more, as those that are issued, does not depend
-- on the private key: it is the start of the base64 encoding of the access key itself.
pub calculate_secret_key-guess :
    (sha1 : List ℕ → List ℕ) (d access_key : String)
    → 32 ≤ size access_key
    → calculate_secret_key sha1 (ok d) access_key ≡ ok (guess access_key)
unfolding calculate_secret_key
calculate_secret_key-guess sha1 d access_key h =
    let start = bytes access_key in
    let rest = bytes d ++ sha1 [] in
    let enough = subst (λ (n : ℕ). 32 ≤ n) (sym (length-bytes access_key)) h in
    rw (after_key sha1 access_key d) (
      slice_to-ok secret_key_length (encode_to_string (start ++ rest))
        (size-encode_to_string 10 (start ++ rest) (omega (arith, enough, length-++ start rest)))
      ∙ ap ok (
          take-encode_to_string 10 start rest [] enough
          ∙ ap (λ (l : List ℕ). take secret_key_length (encode_to_string l)) (append-nil start)))
