-- ===== src/Iam/Policy/Context.antt =====
-- Which keys the context of a request holds, and with which values.
use fakes3pp.Prelude.{
  ℕ, zero, suc, code, ◌≢◌, ◌∙◌, ap, inl, inr, Bool-cases, String, true, false, ◌≡◌, refl, Option,
  none, some, List, [], ◌∷◌, str_eq, eq_iff, if◌then◌else◌, arith,
}
use fakes3pp.Map.{Map, lookup, insert, lookup-insert}
use fakes3pp.Iam.Policy.Types.{ConditionValues}
use fakes3pp.Iam.Policy.Action.{
  PolicySessionData, principal_tag_key, add_principal_tags, new_iam_action,
  add_generic_session_context_keys, add_aws_principal_tag_condition_keys,
  add_aws_requested_region_condition_key, add_generic_token_claims, add_text,
}

abbrev code_at : ℕ → String → ℕ
code_at i String.[] = 0
code_at zero (String.◌∷◌ c s) = code c
code_at (suc i) (String.◌∷◌ c s) = code_at i s

-- Texts that differ at some place are not equal.
not_eq : (i : ℕ) (s t : String) → code_at i s ≢ code_at i t → str_eq s t ≡ false
not_eq i s t h = elim (Bool-cases (str_eq s t)) [
  | inl e ↦ absurd (h (ap (code_at i) ((eq_iff s t).0 e)))
  | inr e ↦ e
]

region_is_no_tag : (tag : String) → str_eq (principal_tag_key tag) "aws:RequestedRegion" ≡ false
region_is_no_tag tag = not_eq 4 (principal_tag_key tag) "aws:RequestedRegion" (omega arith)

issuer_is_no_tag : (tag : String) → str_eq (principal_tag_key tag) "claims:iss" ≡ false
issuer_is_no_tag tag = not_eq 0 (principal_tag_key tag) "claims:iss" (omega arith)

subject_is_no_tag : (tag : String) → str_eq (principal_tag_key tag) "claims:sub" ≡ false
subject_is_no_tag tag = not_eq 0 (principal_tag_key tag) "claims:sub" (omega arith)

module _ (C : ConditionValues) where
  open C use {Value, new_string}

  -- The entry for a text of the session, none for an empty one.
  abbrev pub text_value : String → Option Value
  text_value t = if str_eq t "" then none else some (new_string true (t ∷ []))

  principal_tags-lookup :
      (key : String) (tags : Map (List String)) (context : Map Value)
      → ((tag : String) → str_eq (principal_tag_key tag) key ≡ false)
      → lookup key (add_principal_tags C tags context) ≡ lookup key context
  unfolding add_principal_tags
  principal_tags-lookup key [] context h = refl
  principal_tags-lookup key ((tag, values) ∷ tags) context h = ground (
    arith,
    principal_tags-lookup key tags (insert (principal_tag_key tag) (new_string true values) context)
        h,
    lookup-insert (principal_tag_key tag) key (new_string true values) context,
    h tag,
  )

  lookup-add_text :
      (key j t : String) (context : Map Value)
      → lookup j (add_text C key t context) ≡ (
          if str_eq key j
          then (if str_eq t "" then lookup j context else some (new_string true (t ∷ [])))
          else lookup j context)
  unfolding add_text
  lookup-add_text key j t context =
      ground (arith, lookup-insert key j (new_string true (t ∷ [])) context)

  tags-empty :
      (key : String) (tags : Map (List String))
      → ((tag : String) → str_eq (principal_tag_key tag) key ≡ false)
      → lookup key (add_principal_tags C tags []) ≡ none
  tags-empty key tags h = principal_tags-lookup key tags [] h ∙ unfold lookup in refl

  -- The context of an action holds the session's region, issuer and subject under their keys,
  -- whatever tags the session has, and holds no entry for the ones that are empty.
  pub new_iam_action-context :
      (action resource : String) (session : PolicySessionData)
      → let context = (new_iam_action C action resource (some session)).context in
        (lookup "aws:RequestedRegion" context ≡ text_value session.requested_region)
        × (lookup "claims:iss" context ≡ text_value session.claims.issuer)
        × (lookup "claims:sub" context ≡ text_value session.claims.subject)
  unfolding new_iam_action add_generic_session_context_keys add_aws_principal_tag_condition_keys
      add_aws_requested_region_condition_key add_generic_token_claims
  new_iam_action-context action resource session = (
    simp (lookup-add_text, tags-empty "aws:RequestedRegion" _ region_is_no_tag),
    simp (lookup-add_text, tags-empty "claims:iss" _ issuer_is_no_tag),
    simp (lookup-add_text, tags-empty "claims:sub" _ subject_is_no_tag),
  )
