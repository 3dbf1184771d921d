-- ===== src/Iam/Manager/Lookup.antt =====
-- What the operations of `PolicyManager` return, and what they leave in the cache.
use fakes3pp.Prelude.{
  String, false, ◌≡◌, refl, ◌∙◌, Option, none, some, str_eq, eq_iff, eq_refl, if◌then◌else◌, arith,
  Bool-cases, Option-cases, ap, sym, inl, inr,
}
use fakes3pp.Map.{lookup, lookup-insert, lookup-delete}
use fakes3pp.Outcome.{Result, ok, fail, panic}
use fakes3pp.Iam.Manager.Cache.{
  Templates, Retriever, Manager, get_policy_template, parsed, keep, delete_policy_cache_entry,
}

module _ (T : Templates) where
  open T use {Template}

  -- The cached template under an ARN.
  abbrev pub cached : Manager T → String → Option Template
  cached m arn = lookup arn m.templates

  -- What a call of `getPolicyTemplate` has to return: the cached template, or else what the
  -- retriever's answer parses to.
  abbrev pub answer : Retriever → Option Template → String → Result Template
  answer r none arn = parsed T arn (r.retrieve_policy_str arn)
  answer r (some t) arn = ok t

  abbrev pub kept : Result Template → Option Template
  kept (ok t) = some t
  kept _ = none

  same_entry :
      (m : Manager T) (arn other : String)
      → cached m other ≡ (if str_eq arn other then cached m arn else cached m other)
  same_entry m arn other = elim (Bool-cases (str_eq arn other)) [
    | inl e ↦ rw e (ap (cached m) (sym ((eq_iff arn other).0 e)))
    | inr e ↦ rw e refl
  ]

  keep-cached :
      (m : Manager T) (arn other : String) (x : Result Template)
      → cached m arn ≡ none
      → cached (keep T m arn x).1 other ≡ (if str_eq arn other then kept x else cached m other)
  keep-cached m arn other (ok t) h = lookup-insert arn other t m.templates
  keep-cached m arn other (fail e) h = same_entry m arn other ∙ rw h
  keep-cached m arn other panic h = same_entry m arn other ∙ rw h

  keep-result : (m : Manager T) (arn : String) (x : Result Template) → (keep T m arn x).0 ≡ x
  keep-result m arn (ok t) = refl
  keep-result m arn (fail e) = refl
  keep-result m arn panic = refl

  -- `getPolicyTemplate` returns the cached template, or else what the retriever's answer parses to;
  -- it caches a template that it returns, no error, and leaves every other entry alone.
  pub get_policy_template_lem :
      (r : Retriever) (m : Manager T) (arn other : String)
      → ((get_policy_template T r m arn).0 ≡ answer r (cached m arn) arn)
        × (cached (get_policy_template T r m arn).1 other
            ≡ (if str_eq arn other then kept (answer r (cached m arn) arn) else cached m other))
  unfolding get_policy_template
  get_policy_template_lem r m arn other = elim (Option-cases (cached m arn)) [
    | inl e ↦ rw (e, get_policy_template) (keep-result m arn _, keep-cached m arn other _ e)
    | inr (t, e) ↦ rw (e, get_policy_template) (refl, same_entry m arn other ∙ rw e)
  ]

  pub cached-delete :
      (m : Manager T) (arn other : String)
      → cached (delete_policy_cache_entry T m arn) other
        ≡ (if str_eq arn other then none else cached m other)
  unfolding delete_policy_cache_entry
  cached-delete m arn other = ground (arith, lookup-delete arn other m.templates, eq_iff arn other)

  pub cached-delete_self :
      (m : Manager T) (arn : String) → cached (delete_policy_cache_entry T m arn) arn ≡ none
  cached-delete_self m arn = cached-delete m arn arn ∙ rw (eq_refl arn) refl

  pub cached-delete_ne :
      (m : Manager T) (arn other : String)
      → str_eq arn other ≡ false
      → cached (delete_policy_cache_entry T m arn) other ≡ cached m other
  cached-delete_ne m arn other h = cached-delete m arn other ∙ rw h refl

  pub cached-get_ne :
      (r : Retriever) (m : Manager T) (arn other : String)
      → str_eq arn other ≡ false
      → cached (get_policy_template T r m arn).1 other ≡ cached m other
  cached-get_ne r m arn other h = (get_policy_template_lem r m arn other).1 ∙ rw h refl

  pub cached-get_self :
      (r : Retriever) (m : Manager T) (arn : String)
      → cached (get_policy_template T r m arn).1 arn ≡ kept (answer r (cached m arn) arn)
  cached-get_self r m arn = (get_policy_template_lem r m arn arn).1 ∙ rw (eq_refl arn) refl
