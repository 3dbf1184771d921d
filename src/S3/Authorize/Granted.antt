-- ===== src/S3/Authorize/Granted.antt =====
-- What it takes for the authorization middleware to let a request pass.
use fakes3pp.Prelude.{
  String, ◌≡◌, refl, sym, ap, ◌∙◌, ◌↔◌, inl, inr, Option, none, some, List, [], ◌∷◌,
}
use fakes3pp.UserError.{Error}
use fakes3pp.Outcome.{Result, ok, fail, panic}
use fakes3pp.Iam.Policy.Types.{Statement, IamAction}
use fakes3pp.Iam.Policy.Evaluation.{evaluate_each, evaluate_all}
use fakes3pp.Iam.Policy.Decision.{NoneObject, SomeGrants, evaluate-granted_iff, evaluate_cases}
use fakes3pp.Request.Http.{Request}
use fakes3pp.S3.Action.Required.{
  S3Operation, Needs, new_iam_actions_from_s3_request, new_iam_actions_from_s3_request-Needs,
}
use fakes3pp.S3.Authorize.Claims.{SessionClaims, extract_token_claims}
use fakes3pp.S3.Authorize.Errors.{S3ErrorCode, err_s3_access_denied, err_s3_internal_error}
use fakes3pp.S3.Authorize.Middleware.{
  Services, Reply, pass, refused, or_refuse, decided, session_data, jwt_key_func,
  authorize_s3_action,
}

pub or_refuse-pass {ℓ} :
    {A : Type ℓ} (x : Result A) (code : Error → S3ErrorCode) (err : Error → Option Error)
    (next : A → Reply)
    → or_refuse x (λ e. refused (code e) (err e)) next ≡ pass
    → (a : A) × (x ≡ ok a) × (next a ≡ pass)
or_refuse-pass (ok a) code err next h = (a, refl, h)
or_refuse-pass (fail e) code err next h = absurd (cc)
or_refuse-pass panic code err next h = absurd (cc)

refused_pass : (c : S3ErrorCode) → refused c none ≡ pass → ⊥
refused_pass c h = cc

module _ (S : Services) where
  open S use {C, J, key_func, get_policy, new_policy_evaluator_from_str, fqdns}

  -- A policy grants the action.
  abbrev pub IsGranted : List (Statement C) → IamAction C → Type 0
  IsGranted pe a = NoneObject C pe a × SomeGrants C pe a

  -- The claims of the token lead to a policy that grants the one action that the request needs.
  abbrev pub IsAuthorized : String → String → S3Operation → Request → Type 0
  IsAuthorized session_token target_region action r =
      (claims : SessionClaims) × (policy_str : String) × (pe : List (Statement C)) × (a : IamAction
        C)
      × (extract_token_claims J session_token (jwt_key_func S action) ≡ ok claims)
      × (get_policy claims.role_arn (session_data S claims target_region) ≡ ok policy_str)
      × (new_policy_evaluator_from_str policy_str ≡ ok pe)
      × (new_iam_actions_from_s3_request C action fqdns r
            (some (session_data S claims target_region))
          ≡ ok (a ∷ []))
      × Needs C action r a
      × IsGranted pe a

  decided-pass :
      (pe : List (Statement C)) (a : IamAction C)
      → decided (evaluate_all C pe (a ∷ [])) ≡ pass
      → IsGranted pe a
  unfolding evaluate_all evaluate_each
  decided-pass pe a h = elim (evaluate_cases C pe a) [
    | inl e ↦ (evaluate-granted_iff C pe a).0 e
    | inr (inl e) ↦ absurd (cc)
    | inr (inr (why, none, e)) ↦ absurd (refused_pass err_s3_access_denied (sym (ap decided e) ∙ h))
    | inr (inr (why, some m, e)) ↦
        absurd (refused_pass err_s3_internal_error (sym (ap decided e) ∙ h))
  ]

  decided-granted :
      (pe : List (Statement C)) (a : IamAction C)
      → IsGranted pe a
      → decided (evaluate_all C pe (a ∷ [])) ≡ pass
  unfolding evaluate_all evaluate_each
  decided-granted pe a g = ap decided ((evaluate-granted_iff C pe a).1 g)

  authorize_s3_action_sound :
      (session_token target_region : String) (action : S3Operation) (r : Request)
      → authorize_s3_action S session_token target_region action r ≡ pass
      → IsAuthorized session_token target_region action r
  unfolding authorize_s3_action
  authorize_s3_action_sound session_token target_region action r h =
      let (claims, e1, h1) =
        or_refuse-pass (extract_token_claims J session_token (jwt_key_func S action)) _ _ _ h in
      let (policy_str, e2, h2) =
        or_refuse-pass (get_policy claims.role_arn (session_data S claims target_region)) _ _ _
          h1 in
      let (pe, e3, h3) = or_refuse-pass (new_policy_evaluator_from_str policy_str) _ _ _ h2 in
      let (actions, e4, h4) =
        or_refuse-pass
          (new_iam_actions_from_s3_request C action fqdns r
            (some (session_data S claims target_region)))
          _ _ _ h3 in
      let (a, e5, n) =
        new_iam_actions_from_s3_request-Needs C action fqdns r
          (some (session_data S claims target_region)) actions e4 in
      (
        claims,
        policy_str,
        pe,
        a,
        e1,
        e2,
        e3,
        e4 ∙ ap ok e5,
        n,
        decided-pass pe a (ap (λ l. decided (evaluate_all C pe l)) (sym e5) ∙ h4),
      )

  authorize_s3_action_complete :
      (session_token target_region : String) (action : S3Operation) (r : Request)
      → IsAuthorized session_token target_region action r
      → authorize_s3_action S session_token target_region action r ≡ pass
  unfolding authorize_s3_action
  authorize_s3_action_complete session_token target_region action r
        (claims, policy_str, pe, a, e1, e2, e3, e4, n, g) =
      rw (e1, e2, e3, e4) (decided-granted pe a g)

  -- A request passes the authorization exactly if its token gives claims, the policy of their role is
  -- found and parsed, the operation needs one action on what the path names, and the policy grants
  -- that action: some Allow statement is relevant for it, and no statement objects.
  pub authorize_s3_action-pass_iff :
      (session_token target_region : String) (action : S3Operation) (r : Request)
      → (authorize_s3_action S session_token target_region action r ≡ pass)
        ↔ IsAuthorized session_token target_region action r
  authorize_s3_action-pass_iff session_token target_region action r = (
    authorize_s3_action_sound session_token target_region action r,
    authorize_s3_action_complete session_token target_region action r,
  )
