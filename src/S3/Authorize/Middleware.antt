-- ===== src/S3/Authorize/Middleware.antt =====
-- aws/service/s3/mwauthorizes3.go: a request goes on to the proxy only when its policy grants it.
-- Log lines and the body that is drained before an answer are left out.
use fakes3pp.Prelude.{String, Bool, true, false, Option, none, some, List, if◌then◌else◌}
use fakes3pp.Text.{append}
use fakes3pp.UserError.{Error, text, wrapped, message}
use fakes3pp.Outcome.{Result, ok, fail, panic, Run, returned, panicked}
use fakes3pp.Iam.Policy.Types.{ConditionValues, Statement}
use fakes3pp.Iam.Policy.Evaluation.{Evaluation, evaluate_all}
use fakes3pp.Iam.Policy.Action.{PolicySessionData}
use fakes3pp.Request.Http.{Request}
use fakes3pp.S3.Action.Required.{
  S3Operation, get_object, head_object, unknown_operation, new_iam_actions_from_s3_request,
}
use fakes3pp.Context.{RequestCtx, get_target_region, get_session_token}
use fakes3pp.S3.Authorize.Errors.{
  S3ErrorCode, err_s3_access_denied, err_s3_internal_error, err_s3_invalid_security,
}
use fakes3pp.S3.Authorize.Claims.{
  SessionClaims, Jwt, extract_token_claims, get_policy_session_data_from_claims,
}

-- `getS3Action` of aws/service/s3/handler-builder.go.
unfoldable pub get_s3_action : Option RequestCtx → S3Operation
get_s3_action none = unknown_operation
get_s3_action (some ctx) = elim ctx.operation [ none ↦ unknown_operation | some op ↦ op ]

-- What becomes of the request: it goes on, it is answered with an error, or the handler panics.
pub data Reply : Type 0 where
  pass : Reply
  refused : S3ErrorCode → Option Error → Reply
  crashed : Reply

-- `if err != nil { writeS3ErrorResponse(…); return }` after a call.
abbrev pub or_refuse {ℓ} : {A : Type ℓ} → Result A → (Error → Reply) → (A → Reply) → Reply
or_refuse (ok a) refuse next = next a
or_refuse (fail e) refuse next = refuse e
or_refuse panic refuse next = crashed

abbrev pub internal : Error → Reply
internal e = refused err_s3_internal_error none

-- Only reading an object skips the check of the token.
abbrev pub skips_verification : S3Operation → Bool
skips_verification get_object = true
skips_verification head_object = true
skips_verification _ = false

abbrev pub decided : Run Evaluation → Reply
decided panicked = crashed
decided (returned e) = elim e.err [
  | some _ ↦ refused err_s3_internal_error none
  | none ↦ if e.is_allowed then pass else refused err_s3_access_denied none
]

-- What the middleware works with: the packages, the interface `PolicyRetriever`, and the names of
-- the server.
pub record Services : Type 1 where
  pub C : ConditionValues
  pub J : Jwt
  pub key_func : J.KeyFunc
  pub get_policy : String → PolicySessionData → Result String
  -- `NewPolicyEvaluatorFromStr`: the decoder of `encoding/json`.
  pub new_policy_evaluator_from_str : String → Result (List (Statement C))
  pub fqdns : List String

module _ (S : Services) where
  open S use {C, J, key_func, get_policy, new_policy_evaluator_from_str, fqdns}

  abbrev pub session_data : SessionClaims → String → PolicySessionData
  session_data claims target_region = record (get_policy_session_data_from_claims claims) {
    requested_region = target_region;
  }

  -- The key function that is used for an operation.
  abbrev pub jwt_key_func : S3Operation → Option J.KeyFunc
  jwt_key_func action = if skips_verification action then none else some key_func

  abbrev invalid_security : Error → Reply
  invalid_security e =
      refused err_s3_invalid_security
        (some (wrapped (append "could not get claims from session token: " (message e)) e))

  -- `authorizeS3Action`, as the answer that it writes.
  unfoldable pub authorize_s3_action : String → String → S3Operation → Request → Reply
  authorize_s3_action session_token target_region action r =
      or_refuse (extract_token_claims J session_token (jwt_key_func action)) invalid_security
        (λ claims.
          or_refuse (get_policy claims.role_arn (session_data claims target_region)) internal
            (λ policy_str. or_refuse (new_policy_evaluator_from_str policy_str) internal (λ pe.
              or_refuse
                (new_iam_actions_from_s3_request C action fqdns r
                  (some (session_data claims target_region)))
                internal (λ iam_actions. decided (evaluate_all C pe iam_actions)))))

  -- `AWSAuthZS3`, up to the next handler.
  unfoldable pub aws_auth_z_s3 : Option RequestCtx → Request → Reply
  aws_auth_z_s3 ctx r =
      or_refuse (get_target_region ctx)
        (λ e.
          refused err_s3_internal_error (some (text "could not get target region from requestctx")))
        (λ target_region.
          or_refuse (get_session_token ctx)
            (λ e.
              refused err_s3_internal_error
                (some (text "could not get session token from requestctx")))
            (λ session_token.
              authorize_s3_action session_token target_region (get_s3_action ctx) r))
