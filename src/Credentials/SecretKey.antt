-- ===== src/Credentials/SecretKey.antt =====
-- `CalculateSecretKey` and `NewAccessKey` of aws/credentials/credentials.go, with what they use of the
-- packages `encoding/base64` and `hash`. Texts are of one byte a character.
use fakes3pp.Prelude.{
  ℕ, zero, suc, ◌+◌, ◌*◌, ◌/◌, ◌%◌, Char, code, String, List, [], ◌∷◌, ◌++◌, ltb, if◌then◌else◌,
}
use fakes3pp.Text.{append, size, remove_all}
use fakes3pp.Outcome.{Result, ok, panic, ◌>>=◌}

-- `[]byte(s)`.
abbrev pub bytes : String → List ℕ
bytes String.[] = []
bytes (String.◌∷◌ c s) = code c ∷ bytes s

abbrev alphabet : String
alphabet = "ABCDEFGHIJKLMNOPQRSTUVWXYZabcdefghijklmnopqrstuvwxyz0123456789-_"

abbrev nth : ℕ → String → Char
nth n String.[] = "="
nth zero (String.◌∷◌ c s) = c
nth (suc n) (String.◌∷◌ c s) = nth n s

-- The digit of six bits.
unfoldable pub digit : ℕ → Char
digit n = nth n alphabet

-- The four digits of three bytes, before the rest.
abbrev pub group : ℕ → ℕ → ℕ → String → String
group a b c rest = String.◌∷◌ (digit (a / 4)) (
    String.◌∷◌ (digit (a % 4 * 16 + b / 16))
      (String.◌∷◌ (digit (b % 16 * 4 + c / 64)) (String.◌∷◌ (digit (c % 64)) rest)))

-- `base64.URLEncoding.EncodeToString`.
unfoldable pub encode_to_string : List ℕ → String
encode_to_string [] = ""
encode_to_string (a ∷ []) = String.◌∷◌ (digit (a / 4)) (String.◌∷◌ (digit (a % 4 * 16)) "==")
encode_to_string (a ∷ b ∷ []) =
    String.◌∷◌ (digit (a / 4))
      (String.◌∷◌ (digit (a % 4 * 16 + b / 16)) (String.◌∷◌ (digit (b % 16 * 4)) "="))
encode_to_string (a ∷ b ∷ c ∷ rest) = group a b c (encode_to_string rest)

-- `s[0:n]` within the text.
abbrev pub take : ℕ → String → String
take zero s = ""
take (suc n) String.[] = ""
take (suc n) (String.◌∷◌ c s) = String.◌∷◌ c (take n s)

-- `s[0:n]`, which panics out of range.
abbrev pub slice_to : ℕ → String → Result String
slice_to n s = if ltb (size s) n then panic else ok (take n s)

abbrev pub secret_key_length : ℕ
secret_key_length = 42

-- `hash.Hash` of what was written to it: `Sum(b)` appends the sum of that to `b`.
abbrev pub sum : (List ℕ → List ℕ) → List ℕ → List ℕ → List ℕ
sum sha1 written b = b ++ sha1 written

-- `CalculateSecretKey`: `sha1` is the function of the package `crypto/sha1`, and `private_key` is what
-- `keyStorage.GetPrivateKey()` gives, as the decimal digits of `D`.
unfoldable pub calculate_secret_key : (List ℕ → List ℕ) → Result String → String → Result String
calculate_secret_key sha1 private_key access_key = do
  d ← private_key
  slice_to secret_key_length (encode_to_string (sum sha1 [] (bytes (append access_key d))))

-- `NewAccessKey`, of what `uuid.New().String()` gives.
unfoldable pub new_access_key : String → String
new_access_key uuid_string = remove_all b'-' uuid_string
