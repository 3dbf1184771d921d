-- ===== src/Map.antt =====
-- Go's `map[string]V` as a list of entries. Go leaves the order of an iteration open: the order of
-- the list is the order in which a loop over the map meets the entries.
use fakes3pp.Prelude.{
  String, ◌≡◌, refl, ◌∙◌, eq_refl, Bool, true, false, ◌||◌, List, [], ◌∷◌, Option, none, some,
  arith, str_eq, eq_iff, if◌then◌else◌,
}

abbrev pub Map {ℓ} : Type ℓ → Type ℓ
Map V = List (String × V)

module _ {ℓ} {V : Type ℓ} where
  -- `v, ok := m[k]`.
  unfoldable pub lookup : String → Map V → Option V
  lookup k [] = none
  lookup k ((j, v) ∷ m) = if str_eq j k then some v else lookup k m

  -- `m[k] = v`.
  unfoldable pub insert : String → V → Map V → Map V
  insert k v [] = (k, v) ∷ []
  insert k v ((j, w) ∷ m) = if str_eq j k then (k, v) ∷ m else (j, w) ∷ insert k v m

  -- `delete(m, k)`.
  unfoldable pub delete : String → Map V → Map V
  delete k [] = []
  delete k ((j, w) ∷ m) = let rest = delete k m in if str_eq j k then rest else (j, w) ∷ rest

  pub lookup-insert :
      (key at : String) (value : V) (entries : Map V)
      → lookup at (insert key value entries)
        ≡ (if str_eq key at then some value else lookup at entries)
  unfolding lookup insert
  lookup-insert key at value [] = refl
  lookup-insert key at value ((here, old) ∷ rest) =
      ground
        (arith, lookup-insert key at value rest, eq_iff here key, eq_iff here at, eq_iff key at)

  pub lookup-delete :
      (k j : String) (m : Map V) → lookup j (delete k m) ≡ (if str_eq k j then none else lookup j m)
  unfolding lookup delete
  lookup-delete k j [] = ground arith
  lookup-delete k j ((i, w) ∷ m) =
      ground (arith, lookup-delete k j m, eq_iff i k, eq_iff i j, eq_iff k j)

  -- Whether the key is present.
  abbrev pub has_key : String → Map V → Bool
  has_key k m = elim (lookup k m) [ none ↦ false | some v ↦ true ]

-- `slices.Contains`.
unfoldable pub contains : List String → String → Bool
contains [] k = false
contains (j ∷ l) k = str_eq j k || contains l k

pub str_eq_symm : (s t : String) → str_eq s t ≡ str_eq t s
str_eq_symm s t = ground (arith, eq_iff s t, eq_iff t s)

pub some-eq-some {ℓ} : {A : Type ℓ} (a b : A) → some a ≡ some b → a ≡ b
some-eq-some a b h = cc

module _ {ℓ} {V : Type ℓ} where
  pub lookup-insert_self : (k : String) (v : V) (m : Map V) → lookup k (insert k v m) ≡ some v
  lookup-insert_self k v m = lookup-insert k k v m ∙ rw (eq_refl k) refl

  pub lookup-insert_ne :
      (k j : String) (v : V) (m : Map V) → str_eq k j ≡ false → lookup j (insert k v m) ≡ lookup j m
  lookup-insert_ne k j v m h = lookup-insert k j v m ∙ rw h refl
