-- ===== src/Iam/Policy/Action.antt =====
-- aws/service/iam/policy-iam-action.go, with the session data of policy-retrieval.go.
use fakes3pp.Prelude.{String, true, Option, none, some, List, [], ◌∷◌, str_eq, if◌then◌else◌}
use fakes3pp.Text.{append}
use fakes3pp.Map.{Map, insert}
use fakes3pp.Iam.Policy.Types.{ConditionValues, IamAction}

-- `PolicySessionClaims`.
pub record PolicySessionClaims : Type 0 where
  pub subject : String
  pub issuer : String

-- `session.AWSSessionTags`.
pub record AwsSessionTags : Type 0 where
  pub principal_tags : Map (List String)
  pub transitive_tag_keys : List String

-- `PolicySessionData`.
pub record PolicySessionData : Type 0 where
  pub claims : PolicySessionClaims
  pub tags : AwsSessionTags
  pub requested_region : String

abbrev pub principal_tag_key : String → String
principal_tag_key tag_key = append "aws:PrincipalTag/" tag_key

module _ (C : ConditionValues) where
  open C use {Value, new_string}

  -- The loop of `addAwsPrincipalTagConditionKeys`.
  unfoldable pub add_principal_tags : Map (List String) → Map Value → Map Value
  add_principal_tags [] context = context
  add_principal_tags ((tag_key, tag_values) ∷ tags) context =
      add_principal_tags tags
        (insert (principal_tag_key tag_key) (new_string true tag_values) context)

  -- `context[key] = NewConditionValueString(true, text)`, where the text is not empty.
  unfoldable pub add_text : String → String → Map Value → Map Value
  add_text key t context =
      if str_eq t "" then context else insert key (new_string true (t ∷ [])) context

  -- `addAwsPrincipalTagConditionKeys`; `none` is a nil session.
  unfoldable pub add_aws_principal_tag_condition_keys :
      Map Value → Option PolicySessionData → Map Value
  add_aws_principal_tag_condition_keys context none = context
  add_aws_principal_tag_condition_keys context (some session) =
      add_principal_tags session.tags.principal_tags context

  -- `addAwsRequestedRegionConditionKey`.
  unfoldable pub add_aws_requested_region_condition_key :
      Map Value → Option PolicySessionData → Map Value
  add_aws_requested_region_condition_key context none = context
  add_aws_requested_region_condition_key context (some session) =
      add_text "aws:RequestedRegion" session.requested_region context

  -- `addGenericTokenClaims`.
  unfoldable pub add_generic_token_claims : Map Value → Option PolicySessionData → Map Value
  add_generic_token_claims context none = context
  add_generic_token_claims context (some session) =
      add_text "claims:iss" session.claims.issuer
        (add_text "claims:sub" session.claims.subject context)

  -- `addGenericSessionContextKeys`.
  unfoldable pub add_generic_session_context_keys : Map Value → Option PolicySessionData → Map Value
  add_generic_session_context_keys context session =
      add_generic_token_claims
        (add_aws_requested_region_condition_key
          (add_aws_principal_tag_condition_keys context session) session)
        session

  -- `NewIamAction`.
  unfoldable pub new_iam_action : String → String → Option PolicySessionData → IamAction C
  new_iam_action action resource session = record {
    action = action;
    resource = resource;
    context = add_generic_session_context_keys [] session;
  }

  -- The loop of `AddContext`.
  unfoldable pub add_entries : Map Value → Map Value → Map Value
  add_entries [] context = context
  add_entries ((key, value) ∷ entries) context = add_entries entries (insert key value context)

  -- `AddContext`.
  unfoldable pub add_context : IamAction C → Map Value → IamAction C
  add_context a entries = record a { context = add_entries entries a.context }
