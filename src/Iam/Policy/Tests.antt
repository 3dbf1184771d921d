-- ===== src/Iam/Policy/Tests.antt =====
-- Runs of the policy evaluation, and its theorems at concrete policies.
use mathlib.Core.List.{Permᴰ}
use fakes3pp.Prelude.{◌≡◌, refl, true, false, ◌↔◌, [], ◌∷◌, none, some}
use fakes3pp.Map.{Map, lookup}
use fakes3pp.UserError.{text}
use fakes3pp.Outcome.{ok, fail}
use fakes3pp.Iam.StringLike.{iam_string_like}
use fakes3pp.Iam.StringLike.Regex.{
  quote_meta, replace_wildcards, parse, match_here, match_string, is_special,
}
use fakes3pp.Iam.Policy.Evaluation.{
  evaluate, evaluate_from, is_relevant_for, action_in_scope, resource_in_scope, conditions_met,
  is_condition_met_for_operator, eval_string_like, string_like_loop,
  are_all_condition_values_singular, verdict, explicit_deny, is_condition_met_for_string_like,
}
use fakes3pp.Iam.Policy.Decision.{granted, NoneObject, SomeGrants, evaluate-granted_iff}
use fakes3pp.Iam.Policy.Order.{allows, allows-perm}
use fakes3pp.Iam.Policy.Action.{new_iam_action}
use fakes3pp.Iam.Policy.Context.{new_iam_action-context, text_value}
use fakes3pp.Iam.Policy.Samples.{
  sample_values, allow_reads, deny_secret, read_key, read_secret, sample_session,
}

read_key_is_granted : evaluate sample_values (allow_reads ∷ deny_secret ∷ []) read_key ≡ granted
unfolding evaluate evaluate_from is_relevant_for action_in_scope resource_in_scope conditions_met
    iam_string_like quote_meta replace_wildcards parse match_here match_string is_special
read_key_is_granted = refl

read_secret_is_denied :
    evaluate sample_values (allow_reads ∷ deny_secret ∷ []) read_secret
    ≡ verdict false explicit_deny none
unfolding evaluate evaluate_from is_relevant_for action_in_scope resource_in_scope conditions_met
    iam_string_like quote_meta replace_wildcards parse match_here match_string is_special
read_secret_is_denied = refl

evaluate-granted_iff_example :
    (evaluate sample_values (allow_reads ∷ deny_secret ∷ []) read_key ≡ granted) ↔ (
      NoneObject sample_values (allow_reads ∷ deny_secret ∷ []) read_key
      × SomeGrants sample_values (allow_reads ∷ deny_secret ∷ []) read_key)
evaluate-granted_iff_example =
    evaluate-granted_iff sample_values (allow_reads ∷ deny_secret ∷ []) read_key

allows-perm_example :
    allows (evaluate sample_values (allow_reads ∷ deny_secret ∷ []) read_secret)
    ≡ allows (evaluate sample_values (deny_secret ∷ allow_reads ∷ []) read_secret)
allows-perm_example =
    allows-perm sample_values read_secret (allow_reads ∷ deny_secret ∷ [])
      (deny_secret ∷ allow_reads ∷ []) ∣ Permᴰ.swap refl refl ∣₁

-- A condition on the region, for requests that come from it or from another.
abbrev in_region : Map sample_values.Value
in_region = ("aws:RequestedRegion", (true, "eu*" ∷ [])) ∷ []

abbrev from_eu : Map sample_values.Value
from_eu = ("aws:RequestedRegion", (true, "eu-1" ∷ [])) ∷ []

abbrev from_us : Map sample_values.Value
from_us = ("aws:RequestedRegion", (true, "us-1" ∷ [])) ∷ []

eu_is_met :
    conditions_met sample_values (("StringLike", in_region) ∷ ("StringLike", []) ∷ []) from_eu
    ≡ ok true
unfolding conditions_met is_condition_met_for_operator eval_string_like string_like_loop
    are_all_condition_values_singular is_condition_met_for_string_like lookup iam_string_like
    quote_meta replace_wildcards parse match_here match_string is_special
eu_is_met = refl

us_is_not_met :
    is_condition_met_for_operator sample_values "StringLike" in_region from_us ≡ ok false
unfolding is_condition_met_for_operator eval_string_like string_like_loop
    are_all_condition_values_singular is_condition_met_for_string_like lookup iam_string_like
    quote_meta replace_wildcards parse match_here match_string is_special
us_is_not_met = refl

unknown_operator :
    is_condition_met_for_operator sample_values "IpAddress" in_region from_us
    ≡ fail (text "unsupported condition: 'IpAddress'")
unfolding is_condition_met_for_operator
unknown_operator = refl

-- The order of iteration decides between a statement that is not relevant and an error.
order_decides :
    (conditions_met sample_values
        (("StringLike", in_region) ∷ ("IpAddress", in_region) ∷ [])
        from_us
      ≡ ok false)
    × (conditions_met sample_values
          (("IpAddress", in_region) ∷ ("StringLike", in_region) ∷ [])
          from_us
        ≡ fail (text "unsupported condition: 'IpAddress'"))
unfolding conditions_met
order_decides = (rw us_is_not_met refl, rw unknown_operator refl)

new_iam_action-context_example :
    let context =
      (new_iam_action sample_values "s3:ListAllMyBuckets" "*" (some sample_session)).context in
    (lookup "aws:RequestedRegion" context ≡ text_value sample_values "eu")
    × (lookup "claims:iss" context ≡ text_value sample_values "https://idp")
    × (lookup "claims:sub" context ≡ text_value sample_values "alice")
new_iam_action-context_example =
    new_iam_action-context sample_values "s3:ListAllMyBuckets" "*" sample_session
