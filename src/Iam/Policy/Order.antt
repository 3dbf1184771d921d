-- ===== src/Iam/Policy/Order.antt =====
-- What the order of statements, and Go's free order of iteration over a map of conditions, can and
-- cannot change.
use mathlib.Core.List.{Permᴰ, Perm}
use mathlib.Core.List.Permᴰ
use mathlib.Core.Bool.{Bool-set}
use mathlib.Core.Logic.{∥∥₁_elim}
use fakes3pp.Prelude.{
  String, Bool, true, false, ◌≡◌, refl, ap, subst, Bool-eq_of_iff, ◌∙◌, ◌↔◌, inl, inr, List, [],
  ◌∷◌, All, Any, Bool-cases,
}
use fakes3pp.Map.{Map}
use fakes3pp.Outcome.{ok, Run, returned, panicked, >>=-eq-ok}
use fakes3pp.Iam.Policy.Types.{ConditionValues, Statement, IamAction}
use fakes3pp.Iam.Policy.Evaluation.{
  Evaluation, evaluate, is_condition_met_for_operator, conditions_met,
}
use fakes3pp.Iam.Policy.Decision.{granted, evaluate-granted_iff, evaluate_cases}

module _ {ℓ} {A : Type ℓ} (P : A → Type 0) where
  All-perm : {xs ys : List A} → Permᴰ xs ys → All P xs → All P ys
  All-perm Permᴰ.nil h = tt
  All-perm (Permᴰ.cons e p) (h, hs) = (subst P e h, All-perm p hs)
  All-perm (Permᴰ.swap e f) (h, (k, hs)) = (subst P f k, (subst P e h, hs))
  All-perm (Permᴰ.trans p q) h = All-perm q (All-perm p h)

  Any-perm : {xs ys : List A} → Permᴰ xs ys → Any P xs → Any P ys
  Any-perm Permᴰ.nil h = elim h [ ]
  Any-perm (Permᴰ.cons e p) (inl h) = inl (subst P e h)
  Any-perm (Permᴰ.cons e p) (inr h) = inr (Any-perm p h)
  Any-perm (Permᴰ.swap e f) (inl h) = inr (inl (subst P e h))
  Any-perm (Permᴰ.swap e f) (inr (inl h)) = inl (subst P f h)
  Any-perm (Permᴰ.swap e f) (inr (inr h)) = inr (inr h)
  Any-perm (Permᴰ.trans p q) h = Any-perm q (Any-perm p h)

-- Whether the call returned, and allowed the action.
unfoldable pub allows : Run Evaluation → Bool
allows panicked = false
allows (returned e) = e.is_allowed

module _ (C : ConditionValues) where
  granted-perm :
      (a : IamAction C) {xs ys : List (Statement C)}
      → Permᴰ xs ys
      → evaluate C xs a ≡ granted
      → evaluate C ys a ≡ granted
  granted-perm a {xs} {ys} p h =
      let (n, g) = (evaluate-granted_iff C xs a).0 h in
      (evaluate-granted_iff C ys a).1 (All-perm _ p n, Any-perm _ p g)

  allows_iff :
      (xs : List (Statement C)) (a : IamAction C)
      → (allows (evaluate C xs a) ≡ true) ↔ (evaluate C xs a ≡ granted)
  unfolding allows
  allows_iff xs a = (
    λ h. elim (evaluate_cases C xs a) [
      | inl e ↦ e
      | inr (inl e) ↦ absurd (cc (rw e at h))
      | inr (inr (r, m, e)) ↦ absurd (cc (rw e at h))
    ],
    λ e. rw e refl,
  )

  allows-permᴰ :
      (a : IamAction C) {xs ys : List (Statement C)}
      → Permᴰ xs ys
      → allows (evaluate C xs a) ≡ allows (evaluate C ys a)
  allows-permᴰ a {xs} {ys} p =
      Bool-eq_of_iff _ _ (λ h. (allows_iff ys a).1 (granted-perm a p ((allows_iff xs a).0 h)))
        (λ h. (allows_iff xs a).1 (granted-perm a (Permᴰ.symm p) ((allows_iff ys a).0 h)))

  -- Whether an action is allowed does not depend on the order of the statements of the policy.
  pub allows-perm :
      (a : IamAction C) (xs ys : List (Statement C))
      → Perm xs ys
      → allows (evaluate C xs a) ≡ allows (evaluate C ys a)
  allows-perm a xs ys p = ∥∥₁_elim p (Bool-set _ _) (allows-permᴰ a)

  -- The condition is met.
  abbrev IsMet : Map C.Value → String × Map C.Value → Type 0
  IsMet context (operator, details) =
      is_condition_met_for_operator C operator details context ≡ ok true

  conditions_met_sound :
      (conditions : Map (Map C.Value)) (context : Map C.Value)
      → conditions_met C conditions context ≡ ok true
      → All (IsMet context) conditions
  unfolding conditions_met
  conditions_met_sound [] context h = tt
  conditions_met_sound ((operator, details) ∷ conditions) context h =
      let (met, e, k) = >>=-eq-ok (is_condition_met_for_operator C operator details context) _ h in
      elim (Bool-cases met) [
        | inl q ↦ (e ∙ ap ok q, conditions_met_sound conditions context (rw q at k))
        | inr q ↦ absurd (cc (rw q at k))
      ]

  conditions_met_complete :
      (conditions : Map (Map C.Value)) (context : Map C.Value)
      → All (IsMet context) conditions
      → conditions_met C conditions context ≡ ok true
  unfolding conditions_met
  conditions_met_complete [] context h = refl
  conditions_met_complete ((operator, details) ∷ conditions) context (h, hs) =
      rw h (conditions_met_complete conditions context hs)

  -- Conditions that are met in one order of iteration are met in every order.
  pub conditions_met-perm :
      (context : Map C.Value) (xs ys : Map (Map C.Value))
      → Permᴰ xs ys
      → conditions_met C xs context ≡ ok true
      → conditions_met C ys context ≡ ok true
  conditions_met-perm context xs ys p h =
      conditions_met_complete ys context (All-perm _ p (conditions_met_sound xs context h))
