-- ===== src/Iam/Policy/Evaluation.antt =====
-- `PolicyEvaluator` of aws/service/iam/policy-evaluation.go.
use fakes3pp.Prelude.{
  String, Bool, true, false, not, ◌||◌, Option, none, some, List, [], ◌∷◌, str_eq, if◌then◌else◌,
  any,
}
use fakes3pp.Text.{append}
use fakes3pp.Map.{Map, lookup}
use fakes3pp.UserError.{Error, text, message}
use fakes3pp.Outcome.{Result, ok, fail, panic, map_error, ◌>>=◌, Run, returned, panicked}
use fakes3pp.Iam.StringLike.{iam_string_like}
use fakes3pp.Iam.Policy.Types.{ConditionValues, Effect, allow, deny, other, Statement, IamAction}

-- `evalReason`.
pub data Reason : Type 0 where
  action_is_allowed no_statement_allowing_action explicit_deny error_encountered : Reason

-- The three results of `Evaluate`.
pub record Evaluation : Type 0 where
  pub is_allowed : Bool
  pub reason : Reason
  pub err : Option Error

abbrev pub verdict : Bool → Reason → Option Error → Run Evaluation
verdict b r e = returned (record { is_allowed = b; reason = r; err = e })

module _ (C : ConditionValues) where
  open C use {Value, is_singular, strings, show}

  -- `areAllConditionValuesSingular`.
  unfoldable pub are_all_condition_values_singular : Map Value → Bool
  are_all_condition_values_singular [] = true
  are_all_condition_values_singular ((key, value) ∷ context) =
      if not (is_singular value) then false else are_all_condition_values_singular context

  -- `isConditionMetForStringLike`: it panics where the context has no text under the key.
  unfoldable pub is_condition_met_for_string_like : Value → Value → Result Bool
  is_condition_met_for_string_like statement_values context = elim (strings context) [
    | [] ↦ panic
    | ctx_str_value ∷ _ ↦ ok (any (λ s. iam_string_like s ctx_str_value) (strings statement_values))
  ]

  -- The loop of `evalStringLike`.
  unfoldable pub string_like_loop : Map Value → Map Value → Result Bool
  string_like_loop [] context = ok true
  string_like_loop ((key, value) ∷ details) context =
      let rest = string_like_loop details context in
      elim (lookup key context) [
        | none ↦ ok false
        | some context_value ↦ do
          met ← is_condition_met_for_string_like value context_value
          if met then rest else ok false
      ]

  -- `evalStringLike`.
  unfoldable pub eval_string_like : Map Value → Map Value → Result Bool
  eval_string_like details context =
      if not (are_all_condition_values_singular context)
      then fail (text (append "non-singular value got " (show context)))
      else string_like_loop details context

  abbrev pub encountered : Error → Error
  encountered e = text (append "operator StringLike encountered " (message e))

  -- `isConditionMetForOperator`.
  unfoldable pub is_condition_met_for_operator : String → Map Value → Map Value → Result Bool
  is_condition_met_for_operator operator details context =
      if str_eq operator "StringLike"
      then map_error encountered (eval_string_like details context)
      else if str_eq operator "StringNotLike"
      then (do met ← map_error encountered (eval_string_like details context); ok (not met))
      else fail (text (append "unsupported condition: '" (append operator "'")))

  -- The loop over `statement.Condition` in `isRelevantFor`.
  unfoldable pub conditions_met : Map (Map Value) → Map Value → Result Bool
  conditions_met [] context = ok true
  conditions_met ((operator, details) ∷ conditions) context =
      let rest = conditions_met conditions context in
      do
        met ← is_condition_met_for_operator operator details context
        if not met then ok false else rest

  -- The loops over the actions and over the resources of a statement.
  unfoldable pub action_in_scope : List String → String → Bool
  action_in_scope actions a = any (λ s. str_eq s a || iam_string_like s a) actions

  unfoldable pub resource_in_scope : List String → String → Bool
  resource_in_scope resources r = any (λ s. iam_string_like s r) resources

  -- `isRelevantFor`.
  unfoldable pub is_relevant_for : Statement C → IamAction C → Result Bool
  is_relevant_for s a =
      if not (action_in_scope s.action a.action)
      then ok false
      else if not (resource_in_scope s.resource a.resource)
      then ok false
      else conditions_met s.condition a.context

  -- One round of the loop in `Evaluate` for a statement that was found relevant or not, or gave an
  -- error; `rest` goes on with given values of `isAllowed` and `reason`.
  abbrev pub on_allow : Result Bool → Run Evaluation → Run Evaluation → Run Evaluation
  on_allow (ok true) allowed same = allowed
  on_allow (ok false) allowed same = same
  on_allow (fail e) allowed same = verdict false no_statement_allowing_action (some e)
  on_allow panic allowed same = panicked

  abbrev pub on_deny : Result Bool → Run Evaluation → Run Evaluation
  on_deny (ok true) same = verdict false explicit_deny none
  on_deny (ok false) same = same
  on_deny (fail e) same = verdict false error_encountered (some e)
  on_deny panic same = panicked

  abbrev pub dispatch : Effect → Result Bool → Run Evaluation → Run Evaluation → Run Evaluation
  dispatch allow r allowed same = on_allow r allowed same
  dispatch deny r allowed same = on_deny r same
  dispatch (other e) r allowed same = same

  -- The loop of `Evaluate`, from the values of `isAllowed` and `reason` on.
  unfoldable pub evaluate_from : Bool → Reason → List (Statement C) → IamAction C → Run Evaluation
  evaluate_from is_allowed reason [] a = verdict is_allowed reason none
  evaluate_from is_allowed reason (s ∷ statements) a =
      let allowed = evaluate_from true action_is_allowed statements a in
      let same = evaluate_from is_allowed reason statements a in
      dispatch s.effect (is_relevant_for s a) allowed same

  -- `Evaluate`.
  unfoldable pub evaluate : List (Statement C) → IamAction C → Run Evaluation
  unfolding evaluate_from
  evaluate statements a = evaluate_from false no_statement_allowing_action statements a

  -- The loop of `EvaluateAll`, once it holds the results of one action: it stops at an error or a
  -- refusal, and the results of the last action stand at its end.
  abbrev pub next_action : Run Evaluation → Run Evaluation → Run Evaluation
  next_action panicked rest = panicked
  next_action (returned e) rest = elim e.err [
    | none ↦ if e.is_allowed then rest else returned e
    | some _ ↦ returned e
  ]

  unfoldable pub evaluate_each :
      List (Statement C) → IamAction C → List (IamAction C) → Run Evaluation
  evaluate_each statements a [] = evaluate statements a
  evaluate_each statements a (b ∷ actions) =
      let rest = evaluate_each statements b actions in next_action (evaluate statements a) rest

  -- `EvaluateAll`.
  unfoldable pub evaluate_all : List (Statement C) → List (IamAction C) → Run Evaluation
  unfolding evaluate_each
  evaluate_all statements [] =
      verdict false no_statement_allowing_action
        (some (text "EvaluateAll must have at least 1 iamAction"))
  evaluate_all statements (a ∷ actions) = evaluate_each statements a actions
