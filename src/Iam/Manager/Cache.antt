-- ===== src/Iam/Manager/Cache.antt =====
-- `PolicyManager`: a cache of policy templates in front of a retriever.
use fakes3pp.Prelude.{String, Bool, true, false, Option, none, some, List, [], ◌∷◌}
use fakes3pp.Map.{Map, lookup, insert, delete}
use fakes3pp.Outcome.{Result, ok, fail, panic}

-- Go's `text/template`, for one set of functions: a template is parsed under a name, and executed
-- on the session data. Its language is not modelled.
pub record Templates : Type 1 where
  pub Template : Type 0
  pub Input : Type 0
  pub parse : String → String → Result Template
  pub execute : Template → Input → Result String

-- The interface `PolicyRetriever`, as it answers at one moment.
pub record Retriever : Type 0 where
  pub retrieve_policy_str : String → Result String
  pub retrieve_all_identifiers : Result (List String)

module _ (T : Templates) where
  open T use {Template, Input, parse, execute}

  -- `PolicyManager`. The retriever may answer anew at each call: the operations take it.
  pub record Manager : Type 0 where
    pub templates : Map Template

  -- `NewPolicyManager`.
  abbrev pub new_policy_manager : Manager
  new_policy_manager = record { templates = [] }

  -- `getPolicyTemplateFromCache`.
  unfoldable pub get_policy_template_from_cache : Manager → String → Option Template
  get_policy_template_from_cache m arn = lookup arn m.templates

  -- What a retriever's answer becomes.
  abbrev pub parsed : String → Result String → Result Template
  parsed arn (ok policy) = parse arn policy
  parsed arn (fail e) = fail e
  parsed arn panic = panic

  -- The last part of `getPolicyTemplate`: a template is kept, an error is not.
  abbrev pub keep : Manager → String → Result Template → Result Template × Manager
  keep m arn (ok t) = (ok t, record m { templates = insert arn t m.templates })
  keep m arn (fail e) = (fail e, m)
  keep m arn panic = (panic, m)

  -- `getPolicyTemplate`.
  unfoldable pub get_policy_template : Retriever → Manager → String → Result Template × Manager
  unfolding get_policy_template_from_cache
  get_policy_template r m arn = elim (get_policy_template_from_cache m arn) [
    | none ↦ keep m arn (parsed arn (r.retrieve_policy_str arn))
    | some t ↦ (ok t, m)
  ]

  abbrev is_ok {ℓ} : {A : Type ℓ} → Result A → Bool
  is_ok (ok a) = true
  is_ok _ = false

  -- `DoesPolicyExist`.
  unfoldable pub does_policy_exist : Retriever → Manager → String → Bool × Manager
  does_policy_exist r m arn = let (t, m') = get_policy_template r m arn in (is_ok t, m')

  -- What `GetPolicy` makes of a template.
  abbrev pub executed : Input → Result Template → Result String
  executed input (ok t) = execute t input
  executed input (fail e) = fail e
  executed input panic = panic

  -- `GetPolicy`.
  unfoldable pub get_policy : Retriever → Manager → String → Input → Result String × Manager
  get_policy r m arn input = let (t, m') = get_policy_template r m arn in (executed input t, m')

  -- `deletePolicyCacheEntry`.
  unfoldable pub delete_policy_cache_entry : Manager → String → Manager
  delete_policy_cache_entry m arn = elim (lookup arn m.templates) [
    | none ↦ m
    | some t ↦ record m { templates = delete arn m.templates }
  ]

  -- The loop of `PreWarm`: it stops at the first error.
  abbrev then_warm :
      Result Template × Manager
      → (Manager → Result (Unit {0}) × Manager)
      → Result (Unit {0}) × Manager
  then_warm (ok t, m) next = next m
  then_warm (fail e, m) next = (fail e, m)
  then_warm (panic, m) next = (panic, m)

  unfoldable pub warm : Retriever → List String → Manager → Result (Unit {0}) × Manager
  warm r [] m = (ok tt, m)
  warm r (policy_id ∷ ids) m = then_warm (get_policy_template r m policy_id) (warm r ids)

  abbrev warm_all : Retriever → Result (List String) → Manager → Result (Unit {0}) × Manager
  warm_all r (ok ids) m = warm r ids m
  warm_all r (fail e) m = (fail e, m)
  warm_all r panic m = (panic, m)

  -- `PreWarm`.
  unfoldable pub pre_warm : Retriever → Manager → Result (Unit {0}) × Manager
  unfolding warm
  pre_warm r m = warm_all r r.retrieve_all_identifiers m
