-- ===== src/Iam/Policy/Decision.antt =====
-- Which statements of a policy decide what `Evaluate` and `EvaluateAll` return.
use fakes3pp.Prelude.{
  Bool, true, false, ◌≡◌, refl, ◌≢◌, ◌↔◌, ◌⊎◌, inl, inr, Option, none, some, List, [], ◌∷◌, All,
  Any,
}
use fakes3pp.UserError.{Error}
use fakes3pp.Outcome.{Result, ok, fail, panic, Run, panicked}
use fakes3pp.Iam.Policy.Types.{ConditionValues, Effect, allow, deny, other, Statement, IamAction}
use fakes3pp.Iam.Policy.Evaluation.{
  Evaluation, Reason, action_is_allowed, no_statement_allowing_action, explicit_deny,
  error_encountered, verdict, dispatch, is_relevant_for, evaluate_from, evaluate, evaluate_each,
  evaluate_all, next_action,
}

-- The results of a grant.
abbrev pub granted : Run Evaluation
granted = verdict true action_is_allowed none

-- The statement allows the action.
abbrev pub Grants : Effect → Result Bool → Type 0
Grants allow r = r ≡ ok true
Grants deny r = ⊥
Grants (other e) r = ⊥

-- The statement does not stand in the way of a grant: no error, no panic, and no relevant denial.
abbrev pub NoObjection : Effect → Result Bool → Type 0
NoObjection allow r = (b : Bool) × (r ≡ ok b)
NoObjection deny r = r ≡ ok false
NoObjection (other e) r = Unit

module _ (C : ConditionValues) where
  abbrev step : Effect → Result Bool → Run Evaluation → Run Evaluation → Run Evaluation
  step e r allowed same = dispatch C e r allowed same

  step_sound :
      (e : Effect) (r : Result Bool) (allowed same : Run Evaluation)
      → step e r allowed same ≡ granted
      → NoObjection e r × ((Grants e r × (allowed ≡ granted)) ⊎ (same ≡ granted))
  step_sound allow (ok true) allowed same h = ((true, refl), inl (refl, h))
  step_sound allow (ok false) allowed same h = ((false, refl), inr h)
  step_sound allow (fail e) allowed same h = absurd (cc)
  step_sound allow panic allowed same h = absurd (cc)
  step_sound deny (ok true) allowed same h = absurd (cc)
  step_sound deny (ok false) allowed same h = (refl, inr h)
  step_sound deny (fail e) allowed same h = absurd (cc)
  step_sound deny panic allowed same h = absurd (cc)
  step_sound (other e) r allowed same h = (tt, inr h)

  step-granted :
      (e : Effect) (r : Result Bool) (allowed same : Run Evaluation)
      → NoObjection e r
      → allowed ≡ granted
      → (Grants e r ⊎ (same ≡ granted))
      → step e r allowed same ≡ granted
  step-granted allow r allowed same (true, e) g h = rw e g
  step-granted allow r allowed same (false, e) g (inl k) = absurd (cc)
  step-granted allow r allowed same (false, e) g (inr k) = rw e k
  step-granted deny r allowed same e g (inl k) = absurd k
  step-granted deny r allowed same e g (inr k) = rw e k
  step-granted (other e) r allowed same n g (inl k) = absurd k
  step-granted (other e) r allowed same n g (inr k) = k

  abbrev pub NoneObject : List (Statement C) → IamAction C → Type 0
  NoneObject statements a = All (λ s. NoObjection s.effect (is_relevant_for C s a)) statements

  abbrev pub SomeGrants : List (Statement C) → IamAction C → Type 0
  SomeGrants statements a = Any (λ s. Grants s.effect (is_relevant_for C s a)) statements

  from_granted_sound :
      (statements : List (Statement C)) (a : IamAction C)
      → evaluate_from C true action_is_allowed statements a ≡ granted
      → NoneObject statements a
  unfolding evaluate_from
  from_granted_sound [] a h = tt
  from_granted_sound (s ∷ statements) a h =
      let (n, k) = step_sound s.effect (is_relevant_for C s a) _ _ h in
      (n, from_granted_sound statements a (elim k [ inl p ↦ p.1 | inr p ↦ p ]))

  from_granted_complete :
      (statements : List (Statement C)) (a : IamAction C)
      → NoneObject statements a
      → evaluate_from C true action_is_allowed statements a ≡ granted
  unfolding evaluate_from
  from_granted_complete [] a h = refl
  from_granted_complete (s ∷ statements) a (n, h) =
      let ih = from_granted_complete statements a h in
      step-granted s.effect (is_relevant_for C s a) _ _ n ih (inr ih)

  evaluate_sound :
      (statements : List (Statement C)) (a : IamAction C)
      → evaluate_from C false no_statement_allowing_action statements a ≡ granted
      → NoneObject statements a × SomeGrants statements a
  unfolding evaluate_from
  evaluate_sound [] a h = absurd (cc)
  evaluate_sound (s ∷ statements) a h =
      let (n, k) = step_sound s.effect (is_relevant_for C s a) _ _ h in
      elim k [
        | inl p ↦ ((n, from_granted_sound statements a p.1), inl p.0)
        | inr p ↦ let (ns, g) = evaluate_sound statements a p in ((n, ns), inr g)
      ]

  evaluate_complete :
      (statements : List (Statement C)) (a : IamAction C)
      → NoneObject statements a
      → SomeGrants statements a
      → evaluate_from C false no_statement_allowing_action statements a ≡ granted
  unfolding evaluate_from
  evaluate_complete [] a n g = absurd g
  evaluate_complete (s ∷ statements) a (n, ns) (inl g) =
      step-granted s.effect (is_relevant_for C s a) _ _ n (from_granted_complete statements a ns)
        (inl g)
  evaluate_complete (s ∷ statements) a (n, ns) (inr g) =
      step-granted s.effect (is_relevant_for C s a) _ _ n (from_granted_complete statements a ns)
        (inr (evaluate_complete statements a ns g))

  -- `Evaluate` grants an action exactly if some Allow statement is relevant for it and no statement
  -- objects: no Deny statement is relevant, and no Allow or Deny statement gives an error or panics
  -- while it is looked at. A statement with another effect counts for nothing.
  pub evaluate-granted_iff :
      (statements : List (Statement C)) (a : IamAction C)
      → (evaluate C statements a ≡ granted) ↔ (NoneObject statements a × SomeGrants statements a)
  unfolding evaluate
  evaluate-granted_iff statements a =
      (evaluate_sound statements a, λ h. evaluate_complete statements a h.0 h.1)

  -- Whatever is evaluated, the result is a grant, a panic, or a refusal.
  abbrev pub Shape : Run Evaluation → Type 0
  Shape x =
      (x ≡ granted) ⊎ (x ≡ panicked) ⊎ ((r : Reason) × (e : Option Error) × (x ≡ verdict false r e))

  step-Shape :
      (e : Effect) (r : Result Bool) (allowed same : Run Evaluation)
      → Shape allowed
      → Shape same
      → Shape (step e r allowed same)
  step-Shape allow (ok true) allowed same h k = h
  step-Shape allow (ok false) allowed same h k = k
  step-Shape allow (fail e) allowed same h k =
      inr (inr (no_statement_allowing_action, some e, refl))
  step-Shape allow panic allowed same h k = inr (inl refl)
  step-Shape deny (ok true) allowed same h k = inr (inr (explicit_deny, none, refl))
  step-Shape deny (ok false) allowed same h k = k
  step-Shape deny (fail e) allowed same h k = inr (inr (error_encountered, some e, refl))
  step-Shape deny panic allowed same h k = inr (inl refl)
  step-Shape (other e) r allowed same h k = k

  from_granted-Shape :
      (statements : List (Statement C)) (a : IamAction C)
      → Shape (evaluate_from C true action_is_allowed statements a)
  unfolding evaluate_from
  from_granted-Shape [] a = inl refl
  from_granted-Shape (s ∷ statements) a =
      let ih = from_granted-Shape statements a in
      step-Shape s.effect (is_relevant_for C s a) _ _ ih ih

  evaluate-Shape :
      (statements : List (Statement C)) (a : IamAction C)
      → Shape (evaluate_from C false no_statement_allowing_action statements a)
  unfolding evaluate_from
  evaluate-Shape [] a = inr (inr (no_statement_allowing_action, none, refl))
  evaluate-Shape (s ∷ statements) a =
      step-Shape s.effect (is_relevant_for C s a) _ _ (from_granted-Shape statements a)
        (evaluate-Shape statements a)

  pub evaluate_cases :
      (statements : List (Statement C)) (a : IamAction C) → Shape (evaluate C statements a)
  unfolding evaluate
  evaluate_cases statements a = evaluate-Shape statements a

  next_action_sound :
      (x rest : Run Evaluation)
      → Shape x
      → next_action C x rest ≡ granted
      → (x ≡ granted) × (rest ≡ granted)
  next_action_sound x rest (inl e) h = (e, rw e at h)
  next_action_sound x rest (inr (inl e)) h = absurd (cc (rw e at h))
  next_action_sound x rest (inr (inr (r, none, e))) h = absurd (cc (rw e at h))
  next_action_sound x rest (inr (inr (r, some m, e))) h = absurd (cc (rw e at h))

  each_sound :
      (statements : List (Statement C)) (a : IamAction C) (actions : List (IamAction C))
      → evaluate_each C statements a actions ≡ granted
      → All (λ b. evaluate C statements b ≡ granted) (a ∷ actions)
  unfolding evaluate_each
  each_sound statements a [] h = (h, tt)
  each_sound statements a (b ∷ actions) h =
      let k : (evaluate C statements a ≡ granted)
          × (evaluate_each C statements b actions ≡ granted) =
        next_action_sound (evaluate C statements a) _ (evaluate_cases statements a) h in
      (k.0, each_sound statements b actions k.1)

  each_complete :
      (statements : List (Statement C)) (a : IamAction C) (actions : List (IamAction C))
      → All (λ b. evaluate C statements b ≡ granted) (a ∷ actions)
      → evaluate_each C statements a actions ≡ granted
  unfolding evaluate_each
  each_complete statements a [] h = h.0
  each_complete statements a (b ∷ actions) h = rw h.0 (each_complete statements b actions h.1)

  -- `EvaluateAll` grants a list of actions exactly if the list is not empty and `Evaluate` grants
  -- each of them.
  pub evaluate_all-granted_iff :
      (statements : List (Statement C)) (actions : List (IamAction C))
      → (evaluate_all C statements actions ≡ granted)
        ↔ ((actions ≢ []) × All (λ a. evaluate C statements a ≡ granted) actions)
  unfolding evaluate_all
  evaluate_all-granted_iff statements [] = (λ h. absurd (cc), λ h. absurd (h.0 refl))
  evaluate_all-granted_iff statements (a ∷ actions) = (
    λ h. (λ e. cc, each_sound statements a actions h),
    λ h. each_complete statements a actions h.1,
  )
