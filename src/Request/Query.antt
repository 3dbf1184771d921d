-- ===== src/Request/Query.antt =====
-- `IsSameQuery` of requestutils/http-request.go, and what it does compare.
use fakes3pp.Prelude.{
  String, ◌≡◌, ◌↔◌, Bool, true, false, not, Option, none, some, List, [], ◌∷◌, length, any, str_eq,
  eq_iff, ◌==◌, if◌then◌else◌, All, Any, arith,
}
use fakes3pp.Map.{lookup}
use fakes3pp.Request.Http.{Values}

-- The loop over the values under one key: `slices.Contains` of each.
abbrev contains_each : List String → List String → Bool
contains_each [] vals2 = true
contains_each (v ∷ vals1) vals2 =
    if not (any (λ w. str_eq w v) vals2) then false else contains_each vals1 vals2

-- One round of the loop over the keys of the first query.
abbrev same_values : List String → Option (List String) → Bool
same_values vals1 none = false
same_values vals1 (some vals2) =
    if not (length vals1 == length vals2) then false else contains_each vals1 vals2

abbrev same_entries : Values → Values → Bool
same_entries [] q2 = true
same_entries ((key, vals1) ∷ q1) q2 =
    if not (same_values vals1 (lookup key q2)) then false else same_entries q1 q2

-- `IsSameQuery`.
unfoldable pub is_same_query : Values → Values → Bool
is_same_query q1 q2 = if not (length q1 == length q2) then false else same_entries q1 q2

-- Membership of a value.
abbrev pub Holds : List String → String → Type 0
Holds vs v = Any (λ w. w ≡ v) vs

-- What the first query asks of the values that the second has under a key.
abbrev pub Matches : List String → Option (List String) → Type 0
Matches vals1 none = ⊥
Matches vals1 (some vals2) = (length vals1 ≡ length vals2) × All (Holds vals2) vals1

-- What it asks of all of them.
abbrev pub IsCovered : Values → Values → Type 0
IsCovered q1 q2 = All (λ (e : String × List String). Matches e.1 (lookup e.0 q2)) q1

any-Holds : (vs : List String) (v : String) → (any (λ w. str_eq w v) vs ≡ true) ↔ Holds vs v
any-Holds [] v = ground arith
any-Holds (w ∷ vs) v = grind (arith, any-Holds vs v, eq_iff w v)

contains_each-All :
    (vals1 vals2 : List String) → (contains_each vals1 vals2 ≡ true) ↔ All (Holds vals2) vals1
contains_each-All [] vals2 = grind arith
contains_each-All (v ∷ vals1) vals2 =
    grind (arith, any-Holds vals2 v, contains_each-All vals1 vals2)

same_values-Matches :
    (vals1 : List String) (o : Option (List String))
    → (same_values vals1 o ≡ true) ↔ Matches vals1 o
same_values-Matches vals1 none = grind arith
same_values-Matches vals1 (some vals2) = grind (arith, contains_each-All vals1 vals2)

same_entries-IsCovered : (q1 q2 : Values) → (same_entries q1 q2 ≡ true) ↔ IsCovered q1 q2
same_entries-IsCovered [] q2 = grind arith
same_entries-IsCovered ((key, vals1) ∷ q1) q2 =
    grind (arith, same_values-Matches vals1 (lookup key q2), same_entries-IsCovered q1 q2)

-- Two queries are found the same exactly when they have as many keys, and each key of the first
-- stands in the second with as many values, among them each value that the first has.
pub is_same_query_iff :
    (q1 q2 : Values) → (is_same_query q1 q2 ≡ true) ↔ ((length q1 ≡ length q2) × IsCovered q1 q2)
unfolding is_same_query
is_same_query_iff q1 q2 = grind (arith, same_entries-IsCovered q1 q2)
