-- ===== src/S3/RequesterPays.antt =====
-- aws/service/s3/requesterpays.go: the buckets for which the requester pays.
use fakes3pp.Prelude.{
  String, ◌≡◌, refl, ◌↔◌, ◌⊎◌, inl, inr, Bool, Bool-cases, true, false, ◌||◌, List, [], ◌∷◌, str_eq,
  eq_iff, if◌then◌else◌, arith, Any,
}
use fakes3pp.Text.{trim_space}
use fakes3pp.Outcome.{Result, ok, fail, panic, ◌>>=◌, ok-eq-ok, Run, returned, panicked}
use fakes3pp.Request.Http.{Request, header_set}
use fakes3pp.S3.Action.Path.{get_s3_bucket_from_request}

-- `requesterPaysBuckets`: the keys of the map.
abbrev pub RequesterPaysBuckets : Type 0
RequesterPaysBuckets = List String

abbrev pub has_bucket : String → RequesterPaysBuckets → Bool
has_bucket b [] = false
has_bucket b (x ∷ xs) = str_eq x b || has_bucket b xs

-- `result[bucket] = struct{}{}`.
abbrev set_bucket : String → RequesterPaysBuckets → RequesterPaysBuckets
set_bucket b rpb = if has_bucket b rpb then rpb else b ∷ rpb

-- The loop of `getRequesterPaysBucketsFromBytes`.
unfoldable pub add_buckets : List String → RequesterPaysBuckets → RequesterPaysBuckets
add_buckets [] result = result
add_buckets (bucket ∷ buckets) result =
    let trimmed_bucket = trim_space bucket in
    if str_eq trimmed_bucket ""
    then add_buckets buckets result
    else add_buckets buckets (set_bucket trimmed_bucket result)

-- `getRequesterPaysBucketsFromBytes`, from the result of `yaml.Unmarshal`.
unfoldable pub get_requester_pays_buckets_from_bytes :
    Result (List String) → Result RequesterPaysBuckets
unfolding add_buckets
get_requester_pays_buckets_from_bytes unmarshalled = do
  buckets ← unmarshalled
  ok (add_buckets buckets [])

abbrev is_empty : RequesterPaysBuckets → Bool
is_empty [] = true
is_empty (x ∷ xs) = false

-- `shouldForce`.
unfoldable pub should_force : RequesterPaysBuckets → String → Bool
should_force rpb bucket = if is_empty rpb || str_eq bucket "" then false else has_bucket bucket rpb

abbrev forced : RequesterPaysBuckets → Request → Result String → Run Request
forced rpb r panic = panicked
forced rpb r (fail e) = returned r
forced rpb r (ok bucket) =
    if should_force rpb bucket
    then returned (record r { header = header_set r.header "X-Amz-Request-Payer" "requester" })
    else returned r

-- `ForceRequesterPays`: the request that the next handler gets.
unfoldable pub force_requester_pays : RequesterPaysBuckets → List String → Request → Run Request
unfolding should_force
force_requester_pays rpb fqdns r = forced rpb r (get_s3_bucket_from_request fqdns r)

-- Some listed name is the bucket, once blanks around it are trimmed.
abbrev pub IsListed : List String → String → Type 0
IsListed buckets b = Any (λ x. trim_space x ≡ b) buckets

set_bucket_iff :
    (b c : String) (rpb : RequesterPaysBuckets)
    → has_bucket c (set_bucket b rpb) ≡ (str_eq b c || has_bucket c rpb)
set_bucket_iff b c rpb = elim (Bool-cases (has_bucket b rpb)) [
  | inl e ↦ ground (arith, eq_iff b c)
  | inr e ↦ rw e refl
]

add_buckets_iff :
    (buckets : List String) (rpb : RequesterPaysBuckets) (b : String)
    → str_eq b "" ≡ false
    → (has_bucket b (add_buckets buckets rpb) ≡ true)
      ↔ (IsListed buckets b ⊎ (has_bucket b rpb ≡ true))
unfolding add_buckets
add_buckets_iff [] rpb b h = grind arith
add_buckets_iff (x ∷ xs) rpb b h = elim (Bool-cases (str_eq (trim_space x) "")) [
  | inl e ↦ grind (
    arith,
    add_buckets_iff xs rpb b h,
    eq_iff (trim_space x) "",
    eq_iff (trim_space x) b,
    eq_iff b "",
  )
  | inr e ↦ grind (
    arith,
    add_buckets_iff xs (set_bucket (trim_space x) rpb) b h,
    set_bucket_iff (trim_space x) b rpb,
    eq_iff (trim_space x) b,
  )
]

should_force_lem :
    (rpb : RequesterPaysBuckets) (b : String)
    → str_eq b "" ≡ false
    → should_force rpb b ≡ has_bucket b rpb
unfolding should_force
should_force_lem [] b h = ground arith
should_force_lem (x ∷ xs) b h = ground arith

-- A bucket with a name is forced exactly if the configuration lists its name, with or without blanks
-- around it.
pub should_force_iff :
    (buckets : List String) (rpb : RequesterPaysBuckets) (b : String)
    → get_requester_pays_buckets_from_bytes (ok buckets) ≡ ok rpb
    → str_eq b "" ≡ false
    → (should_force rpb b ≡ true) ↔ IsListed buckets b
unfolding get_requester_pays_buckets_from_bytes
should_force_iff buckets rpb b e h = grind (
  arith,
  ok-eq-ok (add_buckets buckets []) rpb e,
  should_force_lem rpb b h,
  add_buckets_iff buckets [] b h,
)
