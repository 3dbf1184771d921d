-- ===== src/Text/Splitting.antt =====
-- Splitting at a one-character separator undoes joining, and never drops a character.
use text.Mathlib.TextEquality.{Char-path}
use fakes3pp.Text.Pieces.{append, size, has_prefix, cons_head, split_skip, split, join}
use fakes3pp.Prelude.{
  ℕ, zero, suc, ◌-◌, suc, Char, code, String, ◌≡◌, refl, sym, ap, ap₂, ◌∙◌, Bool, true, ◌&&◌, not,
  List, [], ◌∷◌, arith, ◌==◌, All, Bool-cases, inl, inr, ==_iff,
}

-- No character of the text has this code.
abbrev pub lacks : ℕ → String → Bool
lacks n String.[] = true
lacks n (String.◌∷◌ c s) = not (code c == n) && lacks n s

-- The text with the one character `d`.
abbrev pub one : Char → String
one d = String.◌∷◌ d ""

module _ (d : Char) where
  split_skip-lacks : (s : String) → lacks (code d) s ≡ true → split_skip (one d) zero s ≡ s ∷ []
  unfolding split_skip has_prefix
  split_skip-lacks String.[] h = refl
  split_skip-lacks (String.◌∷◌ c s) h = ground (arith, split_skip-lacks s)

  split_skip-append :
      (s t : String)
      → lacks (code d) s ≡ true
      → split_skip (one d) zero (append s (String.◌∷◌ d t)) ≡ s ∷ split_skip (one d) zero t
  unfolding split_skip has_prefix
  split_skip-append String.[] t h = ground arith
  split_skip-append (String.◌∷◌ c s) t h = ground (arith, split_skip-append s t)

  -- A text without the separator is its only part.
  pub split-lacks : (s : String) → lacks (code d) s ≡ true → split s (one d) ≡ s ∷ []
  unfolding split
  split-lacks s h = split_skip-lacks s h

  -- The part before the first separator is the first part.
  pub split-append :
      (s t : String)
      → lacks (code d) s ≡ true
      → split (append s (String.◌∷◌ d t)) (one d) ≡ s ∷ split t (one d)
  unfolding split
  split-append s t h = split_skip-append s t h

  -- Splitting a joined list of parts without separators gives the parts back.
  pub split-join :
      (x : String) (xs : List String)
      → All (λ s. lacks (code d) s ≡ true) (x ∷ xs)
      → split (join (x ∷ xs) (one d)) (one d) ≡ x ∷ xs
  unfolding join
  split-join x [] h = split-lacks x h.0
  split-join x (y ∷ ys) h =
      split-append x (join (y ∷ ys) (one d)) h.0
      ∙ ap (λ (r : List String). x ∷ r) (split-join y ys h.1)

  join-cons_head :
      (c : Char) (x : String) (xs : List String)
      → join (cons_head c (x ∷ xs)) (one d) ≡ String.◌∷◌ c (join (x ∷ xs) (one d))
  unfolding join
  join-cons_head c x [] = refl
  join-cons_head c x (y ∷ ys) = refl

  split_skip_shape :
      (s : String) → (x : String) × (xs : List String) × (split_skip (one d) zero s ≡ x ∷ xs)
  unfolding split_skip has_prefix
  split_skip_shape String.[] = ("", [], refl)
  split_skip_shape (String.◌∷◌ c s) = elim (Bool-cases (has_prefix (String.◌∷◌ c s) (one d))) [
    | inl e ↦ ("", split_skip (one d) zero s, rw e)
    | inr e ↦ (let (x, xs, p) = split_skip_shape s in (String.◌∷◌ c x, xs, rw (e, p)))
  ]

  -- Joining the parts of a text with the separator gives the text back.
  join-split_skip : (s : String) → join (split_skip (one d) zero s) (one d) ≡ s
  unfolding split_skip has_prefix join
  join-split_skip String.[] = refl
  join-split_skip (String.◌∷◌ c s) = elim (Bool-cases (code c == code d)) [
    | inl e ↦
        (let (x, xs, p) = split_skip_shape s in
          rw (e, p)
            (ap₂ String.◌∷◌ (Char-path d c (sym ((==_iff _ _).0 e)))
              (ap (λ (l : List String). join l (one d)) (sym p) ∙ join-split_skip s)))
    | inr e ↦
        (let (x, xs, p) = split_skip_shape s in
          rw (e, p)
            (join-cons_head c x xs
              ∙ ap (λ (r : String). String.◌∷◌ c r)
                  (ap (λ (l : List String). join l (one d)) (sym p) ∙ join-split_skip s)))
  ]

  pub join-split : (s : String) → join (split s (one d)) (one d) ≡ s
  unfolding split
  join-split s = join-split_skip s

pub append_nil : (s : String) → append s "" ≡ s
append_nil String.[] = refl
append_nil (String.◌∷◌ c s) = ap (String.◌∷◌ c) (append_nil s)

pub append_assoc : (s t u : String) → append (append s t) u ≡ append s (append t u)
append_assoc String.[] t u = refl
append_assoc (String.◌∷◌ c s) t u = ap (String.◌∷◌ c) (append_assoc s t u)

-- There is always a first part, whatever the separator.
split_skip-cons :
    (sep : String) (k : ℕ) (s : String)
    → (x : String) × (xs : List String) × (split_skip sep k s ≡ x ∷ xs)
unfolding split_skip
split_skip-cons sep k String.[] = ("", [], refl)
split_skip-cons sep (suc k) (String.◌∷◌ c s) = split_skip-cons sep k s
split_skip-cons sep zero (String.◌∷◌ c s) = elim (Bool-cases (has_prefix (String.◌∷◌ c s) sep)) [
  | inl e ↦ ("", split_skip sep (size sep - 1) s, rw e)
  | inr e ↦ (let (x, xs, p) = split_skip-cons sep zero s in (String.◌∷◌ c x, xs, rw (e, p)))
]

pub split-cons : (s sep : String) → (x : String) × (xs : List String) × (split s sep ≡ x ∷ xs)
unfolding split
split-cons s sep = split_skip-cons sep zero s

-- A text with a prefix is the prefix and a rest.
pub has_prefix-append :
    (s p : String) → has_prefix s p ≡ true → (rest : String) × (s ≡ append p rest)
unfolding has_prefix
has_prefix-append s String.[] h = (s, refl)
has_prefix-append String.[] (String.◌∷◌ d p) h = absurd (cc)
has_prefix-append (String.◌∷◌ c s) (String.◌∷◌ d p) h =
    let (rest, e) = has_prefix-append s p (ground arith) in
    (rest, ap₂ String.◌∷◌ (Char-path c d (ground arith)) e)
