-- ===== src/Iam/Policy/Samples.antt =====
-- Concrete policies and actions.
use fakes3pp.Prelude.{String, Bool, List, [], ◌∷◌}
use fakes3pp.Iam.Policy.Types.{ConditionValues, Effect, allow, deny, Statement, IamAction}
use fakes3pp.Iam.Policy.Action.{PolicySessionData}

-- Values that are lists of texts, singular or not.
abbrev pub sample_values : ConditionValues
sample_values = record {
  Value = Bool × List String;
  is_singular = λ v. v.0;
  strings = λ v. v.1;
  new_string = λ b vs. (b, vs);
  show = λ m. "map";
}

abbrev pub statement : Effect → String → String → Statement sample_values
statement e a r = record { effect = e; action = a ∷ []; resource = r ∷ []; condition = [] }

abbrev pub allow_reads : Statement sample_values
allow_reads = statement allow "s3:Get*" "arn:aws:s3:::b/*"

abbrev pub deny_secret : Statement sample_values
deny_secret = statement deny "s3:*" "arn:aws:s3:::b/secret"

abbrev pub read_key : IamAction sample_values
read_key = record { action = "s3:GetObject"; resource = "arn:aws:s3:::b/k"; context = [] }

abbrev pub read_secret : IamAction sample_values
read_secret = record { action = "s3:GetObject"; resource = "arn:aws:s3:::b/secret"; context = [] }

abbrev pub sample_session : PolicySessionData
sample_session = record {
  claims = record { subject = "alice"; issuer = "https://idp" };
  tags = record { principal_tags = ("team", "blue" ∷ []) ∷ []; transitive_tag_keys = [] };
  requested_region = "eu";
}
