-- ===== src/Iam/Manager/Retriever.antt =====
-- `LocalPolicyRetriever`: policies in files, one for each ARN, with callbacks for changed files.
-- Lengths and slices count characters where Go counts bytes: they agree on the names that base32
-- makes under the directory, and on ASCII paths.
use fakes3pp.Prelude.{
  ℕ, zero, suc, ◌+◌, ◌-◌, ◌≤◌, String, false, ◌≡◌, refl, ap, ◌∙◌, List, [], ◌∷◌, arith, ltb,
  if◌then◌else◌,
}
use fakes3pp.Text.{append, size, drop}
use fakes3pp.Outcome.{Result, ok, panic, ◌>>=◌}

-- Go's `encoding/base32` as utils/base32.go sets it up.
pub record Base32 : Type 0 where
  -- `B32` and `B32Decode`.
  pub b32 : String → String
  pub b32_decode : String → Result String
  pub b32_decode-b32 : (s : String) → b32_decode (b32 s) ≡ ok s

abbrev pub take : ℕ → String → String
take zero s = ""
take (suc n) String.[] = ""
take (suc n) (String.◌∷◌ c s) = String.◌∷◌ c (take n s)

-- `s[from:to]`; it panics unless `from <= to <= len(s)`.
unfoldable pub slice : String → ℕ → ℕ → Result String
slice s from to =
    if ltb to from
    then panic
    else if ltb (size s) to
    then panic
    else ok (take (to - from) (drop from s))

-- `s[from:len(s)-cut]`; it panics where the end would lie before the beginning.
unfoldable pub slice_between : String → ℕ → ℕ → Result String
unfolding slice
slice_between s from cut = if ltb (size s) cut then panic else slice s from (size s - cut)

lt-false : (a b : ℕ) → b ≤ a → ltb a b ≡ false
lt-false a b h = ground arith

abbrev pub policy_suffix : String
policy_suffix = ".json.tmpl"

module _ (B : Base32) (role_policy_path : String) where
  open B use {b32, b32_decode, b32_decode-b32}

  -- `getPolicyPathPrefix`.
  abbrev pub get_policy_path_prefix : String
  get_policy_path_prefix = append role_policy_path "/"

  -- `getPolicyPath`.
  unfoldable pub get_policy_path : String → String
  get_policy_path arn = append get_policy_path_prefix (append (b32 arn) policy_suffix)

  -- `getPolicyArn`: it only warns of a path that is too short, and then panics at the slice.
  unfoldable pub get_policy_arn : String → Result String
  get_policy_arn file_path = do
    safe_policy_name ← slice_between file_path (size get_policy_path_prefix) (size policy_suffix)
    b32_decode safe_policy_name

  -- The loop of `retrieveAllIdentifiers`.
  unfoldable pub decode_matches : List String → Result (List String)
  decode_matches [] = ok []
  decode_matches (m ∷ matches) = do
    safe_policy_name ← slice_between m (size get_policy_path_prefix) (size policy_suffix)
    arn ← b32_decode safe_policy_name
    rest ← decode_matches matches
    ok (arn ∷ rest)

  -- `retrieveAllIdentifiers`, from the result of `filepath.Glob`.
  unfoldable pub retrieve_all_identifiers : Result (List String) → Result (List String)
  unfolding decode_matches
  retrieve_all_identifiers glob = do matches ← glob; decode_matches matches

  size-append : (s t : String) → size (append s t) ≡ size s + size t
  size-append String.[] t = omega arith
  size-append (String.◌∷◌ c s) t = omega (arith, size-append s t)

  drop-append : (s t : String) → drop (size s) (append s t) ≡ t
  drop-append String.[] t = refl
  drop-append (String.◌∷◌ c s) t = drop-append s t

  take-append : (s t : String) → take (size s) (append s t) ≡ s
  take-append String.[] t = refl
  take-append (String.◌∷◌ c s) t = ap (String.◌∷◌ c) (take-append s t)

  slice_between_lem :
      (t : String) (from middle cut : ℕ)
      → size t ≡ from + (middle + cut)
      → slice_between t from cut ≡ ok (take middle (drop from t))
  unfolding slice_between
  slice_between_lem t from middle cut h =
      let e : size t - cut - from ≡ middle = omega arith in
      simp (
        e,
        lt-false (size t) cut (omega arith),
        lt-false (size t - cut) from (omega arith),
        lt-false (size t) (size t - cut) (omega arith),
      )

  slice_between-append :
      (p s q : String) → slice_between (append p (append s q)) (size p) (size q) ≡ ok s
  slice_between-append p s q =
      slice_between_lem (append p (append s q)) (size p) (size s) (size q)
        (omega (arith, size-append p (append s q), size-append s q))
      ∙ ap ok (ap (take (size s)) (drop-append p (append s q)) ∙ take-append s q)

  -- The ARN of the path of an ARN is the ARN, and taking it does not panic.
  pub get_policy_arn-get_policy_path :
      (arn : String) → get_policy_arn (get_policy_path arn) ≡ ok arn
  unfolding get_policy_arn get_policy_path
  get_policy_arn-get_policy_path arn =
      rw (slice_between-append get_policy_path_prefix (b32 arn) policy_suffix) (b32_decode-b32 arn)
