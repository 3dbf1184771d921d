-- ===== src/Iam/Manager/Coherence.antt =====
-- The cache of templates against the files, while these change.
use fakes3pp.Prelude.{
  String, Bool, true, false, ◌||◌, ◌≡◌, refl, ap, sym, subst, ◌∙◌, ◌⊎◌, inl, inr, Option, none,
  some, List, [], ◌∷◌, ◌++◌, arith, str_eq, eq_iff, eq_refl, Bool-cases, Option-cases,
}
use fakes3pp.Map.{Map, lookup, contains}
use fakes3pp.UserError.{text}
use fakes3pp.Outcome.{Result, ok, fail, panic}
use fakes3pp.Iam.Manager.Cache.{Templates, parsed}
use fakes3pp.Iam.Manager.Lookup.{
  cached, answer, kept, cached-delete_self, cached-delete_ne, cached-get_self, cached-get_ne,
}
use fakes3pp.Iam.Manager.Retriever.{Base32}
use fakes3pp.Iam.Manager.Watch.{
  Event, written, removed, renamed, System, path, read, start_watching, watch_for, retriever, ask,
  forget, without,
}

abbrev pub event_name : Event → String
event_name (written n) = n
event_name (removed n) = n
event_name (renamed n) = n

-- The event makes the loop forget what it knows of the file.
abbrev pub is_change : String → Event → Bool
is_change name (written n) = str_eq n name
is_change name (removed n) = str_eq n name
is_change name (renamed n) = false

-- An event that the loop acts on is under way for the file.
abbrev pub has_event : String → List Event → Bool
has_event name [] = false
has_event name (e ∷ es) = is_change name e || has_event name es

pub has_event-append :
    (name : String) (es : List Event) (e : Event)
    → has_event name (es ++ e ∷ []) ≡ has_event name es || has_event name (e ∷ [])
has_event-append name [] e = refl
has_event-append name (x ∷ es) e = ground (arith, has_event-append name es e)

pub contains-without :
    (n m : String) (l : List String) → str_eq n m ≡ false → contains (without n l) m ≡ contains l m
unfolding contains
contains-without n m [] h = refl
contains-without n m (x ∷ l) h =
    ground (arith, contains-without n m l h, eq_iff x n, eq_iff x m, eq_iff n m)

module _ (T : Templates) (B : Base32) (role_policy_path : String) where
  abbrev S : Type 0
  S = System T B role_policy_path

  abbrev p : String → String
  p arn = path T B role_policy_path arn

  -- The cached template of an ARN, if there is one, is what its file parses to now and the file is
  -- watched, or else an event for the file is under way.
  abbrev pub IsFreshAt : S → String → Type 0
  IsFreshAt s arn =
      (t : T.Template)
      → cached T s.manager arn ≡ some t
      → (has_event (p arn) s.pending ≡ true)
        ⊎ ((contains s.watched (p arn) ≡ true) × (parsed T arn (read s.files (p arn)) ≡ ok t))

  pub forget-IsFreshAt_self : (s : S) (a : String) → IsFreshAt (forget T B role_policy_path s a) a
  forget-IsFreshAt_self s a t e = absurd (cc (cached-delete_self T s.manager a))

  pub forget-IsFreshAt :
      (s : S) (a b : String) → IsFreshAt s b → IsFreshAt (forget T B role_policy_path s a) b
  forget-IsFreshAt s a b h t e = elim (Bool-cases (str_eq a b)) [
    | inl q ↦
        subst (IsFreshAt (forget T B role_policy_path s a)) ((eq_iff a b).0 q)
          (forget-IsFreshAt_self s a) t e
    | inr q ↦ h t (sym (cached-delete_ne T s.manager a b q) ∙ e)
  ]

  pub start_watching-watched :
      (s : S) (n m : String)
      → contains s.watched m ≡ true
      → contains (start_watching T B role_policy_path s n).watched m ≡ true
  unfolding start_watching contains
  start_watching-watched s n m h = ground arith

  pub start_watching-new :
      (s : S) (n c : String)
      → lookup n s.files ≡ some c
      → contains (start_watching T B role_policy_path s n).watched n ≡ true
  unfolding start_watching contains
  start_watching-new s n c h = ground (arith, eq_refl n)

  pub start_watching-same :
      (s : S) (n : String)
      → ((start_watching T B role_policy_path s n).files ≡ s.files)
        × ((start_watching T B role_policy_path s n).pending ≡ s.pending)
        × ((start_watching T B role_policy_path s n).manager ≡ s.manager)
  unfolding start_watching
  start_watching-same s n = ground arith

  pub watch_for-watched :
      (s : S) (a m : String)
      → contains s.watched m ≡ true
      → contains (watch_for T B role_policy_path s a).watched m ≡ true
  unfolding watch_for start_watching contains
  watch_for-watched s a m h = ground arith

  pub watch_for-new :
      (s : S) (a c : String)
      → cached T s.manager a ≡ none
      → lookup (p a) s.files ≡ some c
      → contains (watch_for T B role_policy_path s a).watched (p a) ≡ true
  unfolding watch_for start_watching contains
  watch_for-new s a c h k = ground (arith, eq_refl (p a))

  pub watch_for-same :
      (s : S) (a : String)
      → ((watch_for T B role_policy_path s a).files ≡ s.files)
        × ((watch_for T B role_policy_path s a).pending ≡ s.pending)
  unfolding watch_for start_watching
  watch_for-same s a = ground arith

  kept-eq-some : (x : Result T.Template) (t : T.Template) → kept T x ≡ some t → x ≡ ok t
  kept-eq-some (ok u) t h = ground arith
  kept-eq-some (fail e) t h = absurd (cc)
  kept-eq-some panic t h = absurd (cc)

  read_missing :
      (a n : String) (files : Map String)
      → lookup n files ≡ none
      → parsed T a (read files n) ≡ fail (text "no such file or directory")
  read_missing a n files h = rw (h, read) refl

  pub parsed-read :
      (a n : String) (files : Map String) (t : T.Template)
      → parsed T a (read files n) ≡ ok t
      → (c : String) × (lookup n files ≡ some c)
  parsed-read a n files t h = elim (Option-cases (lookup n files)) [
    | inl e ↦ absurd (cc (read_missing a n files e, h))
    | inr q ↦ q
  ]

  ask-IsFreshAt_self :
      (s : S) (a : String)
      → cached T s.manager a ≡ none
      → IsFreshAt (ask T B role_policy_path s a) a
  unfolding ask
  ask-IsFreshAt_self s a u t e =
      let r = retriever T B role_policy_path s in
      let k : parsed T a (read s.files (p a)) ≡ ok t = kept-eq-some _ t (
        sym (ap (λ (o : Option T.Template). kept T (answer T r o a)) u)
        ∙ sym (cached-get_self T r s.manager a)
        ∙ e) in
      let (c, f) = parsed-read a (p a) s.files t k in
      inr (watch_for-new s a c u f, rw ((watch_for-same s a).0) k)

  -- A call for another ARN takes nothing away from what is known of this one.
  keep_fresh :
      (s : S) (a b : String) (t : T.Template)
      → (has_event (p b) s.pending ≡ true)
        ⊎ ((contains s.watched (p b) ≡ true) × (parsed T b (read s.files (p b)) ≡ ok t))
      → (has_event (p b) (ask T B role_policy_path s a).pending ≡ true)
        ⊎ ((contains (ask T B role_policy_path s a).watched (p b) ≡ true)
            × (parsed T b (read (ask T B role_policy_path s a).files (p b)) ≡ ok t))
  unfolding ask
  keep_fresh s a b t (inl k) = inl (rw (watch_for-same s a).1 k)
  keep_fresh s a b t (inr (w, k)) = inr (watch_for-watched s a (p b) w, rw (watch_for-same s a).0 k)

  ask_same : (s : S) (a : String) → IsFreshAt s a → IsFreshAt (ask T B role_policy_path s a) a
  unfolding ask
  ask_same s a h t e = elim (Option-cases (cached T s.manager a)) [
    | inl u ↦ ask-IsFreshAt_self s a u t e
    | inr (v, u) ↦ keep_fresh s a a t (
        h t (
          u
          ∙ sym (
              ap
                (λ (o : Option T.Template).
                  kept T (answer T (retriever T B role_policy_path s) o a))
                u)
          ∙ sym (cached-get_self T (retriever T B role_policy_path s) s.manager a)
          ∙ e))
  ]

  pub ask-IsFreshAt :
      (s : S) (a b : String) → IsFreshAt s b → IsFreshAt (ask T B role_policy_path s a) b
  unfolding ask
  ask-IsFreshAt s a b h t e = elim (Bool-cases (str_eq a b)) [
    | inl q ↦
        subst (IsFreshAt (ask T B role_policy_path s a)) ((eq_iff a b).0 q)
          (ask_same s a (subst (IsFreshAt s) (sym ((eq_iff a b).0 q)) h)) t e
    | inr q ↦ keep_fresh s a b t (h t (sym (cached-get_ne T _ s.manager a b q) ∙ e))
  ]
