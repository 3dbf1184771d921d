-- ===== src/Iam/Policy/Types.antt =====
-- The data of the package github.com/micahhausler/aws-iam-policy/policy that the evaluation reads,
-- and the actions that it decides.
use fakes3pp.Prelude.{String, Bool, List}
use fakes3pp.Map.{Map}

-- `policy.ConditionValue` and its operations are the package's: a parameter of the model.
pub record ConditionValues : Type 1 where
  pub Value : Type 0
  -- `IsSingular()`.
  pub is_singular : Value → Bool
  -- The first result of `Values()`.
  pub strings : Value → List String
  -- `NewConditionValueString(singular, values...)`.
  pub new_string : Bool → List String → Value
  -- `%v` of `fmt` for a context.
  pub show : Map Value → String

-- `policy.EffectAllow`, `policy.EffectDeny`, and any other text in that field.
pub data Effect : Type 0 where
  allow deny : Effect
  other : String → Effect

module _ (C : ConditionValues) where
  open C use {Value}

  -- The fields of `policy.Statement` that are read, as the lists that their `Values()` give.
  pub record Statement : Type 0 where
    pub effect : Effect
    pub action : List String
    pub resource : List String
    pub condition : Map (Map Value)

  -- `IAMAction`.
  pub record IamAction : Type 0 where
    pub action : String
    pub resource : String
    pub context : Map Value
