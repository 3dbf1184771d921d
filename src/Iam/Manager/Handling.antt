-- ===== src/Iam/Manager/Handling.antt =====
-- How the next event is handled, and what that leaves of the cache.
use fakes3pp.Prelude.{
  String, true, false, ◌≡◌, refl, ap, sym, subst, ◌∙◌, inl, inr, List, ◌∷◌, arith, str_eq, eq_iff,
  Bool-cases, All,
}
use fakes3pp.Outcome.{ok}
use fakes3pp.Iam.Manager.Cache.{Templates}
use fakes3pp.Iam.Manager.Lookup.{cached}
use fakes3pp.Iam.Manager.Retriever.{Base32, get_policy_arn-get_policy_path}
use fakes3pp.Iam.Manager.Watch.{
  Event, written, removed, renamed, System, path, start_watching, watch_for, ask, forget, handle,
  deliver,
}
use fakes3pp.Iam.Manager.Coherence.{
  event_name, is_change, has_event, IsFreshAt, forget-IsFreshAt, forget-IsFreshAt_self,
  start_watching-watched, start_watching-same, ask-IsFreshAt,
}
use fakes3pp.Iam.Manager.Changes.{path-injective, IsPath, IsNamed, start_watching-All, ask-watched}

module _ (T : Templates) (B : Base32) (role_policy_path : String) where
  abbrev S : Type 0
  S = System T B role_policy_path

  abbrev p : String → String
  p arn = path T B role_policy_path arn

  -- What the handling of an event for the file of an ARN does.
  pub handled : Event → S → String → S
  handled (written name) s arn = ask T B role_policy_path (forget T B role_policy_path s arn) arn
  handled (removed name) s arn =
      start_watching T B role_policy_path (forget T B role_policy_path s arn) name
  handled (renamed name) s arn = s

  handle_lem :
      (e : Event) (s : S) (arn : String)
      → event_name e ≡ p arn
      → handle T B role_policy_path e s ≡ ok (handled e s arn)
  unfolding handle handled
  handle_lem (written name) s arn q =
      rw (q, get_policy_arn-get_policy_path B role_policy_path arn) refl
  handle_lem (removed name) s arn q =
      rw (q, get_policy_arn-get_policy_path B role_policy_path arn) refl
  handle_lem (renamed name) s arn q = refl

  start_watching-IsFreshAt :
      (s : S) (name b : String)
      → IsFreshAt T B role_policy_path s b
      → IsFreshAt T B role_policy_path (start_watching T B role_policy_path s name) b
  start_watching-IsFreshAt s name b h t e =
      let (f, g, m) = start_watching-same T B role_policy_path s name in
      elim (h t (ap (λ (x : _). cached T x b) (sym m) ∙ e)) [
        | inl k ↦ inl (rw g k)
        | inr k ↦ inr (start_watching-watched T B role_policy_path s name (p b) k.0, rw f k.1)
      ]

  pub handled-pending : (e : Event) (s : S) (a : String) → (handled e s a).pending ≡ s.pending
  unfolding handled ask watch_for start_watching
  handled-pending (written name) s a = ground arith
  handled-pending (removed name) s a = ground arith
  handled-pending (renamed name) s a = refl

  pub handled-files : (e : Event) (s : S) (a : String) → (handled e s a).files ≡ s.files
  unfolding handled ask watch_for start_watching
  handled-files (written name) s a = ground arith
  handled-files (removed name) s a = ground arith
  handled-files (renamed name) s a = refl

  handled-watched :
      (e : Event) (s : S) (a : String)
      → event_name e ≡ p a
      → All (IsPath T B role_policy_path) s.watched
      → All (IsPath T B role_policy_path) (handled e s a).watched
  unfolding handled
  handled-watched (written name) s a k h =
      ask-watched T B role_policy_path (forget T B role_policy_path s a) a h
  handled-watched (removed name) s a k h =
      start_watching-All T B role_policy_path (forget T B role_policy_path s a) name (a, k) h
  handled-watched (renamed name) s a k h = h

  paths_differ :
      (e : Event) (a b : String)
      → event_name e ≡ p a
      → str_eq a b ≡ false
      → str_eq (event_name e) (p b) ≡ false
  paths_differ e a b k ne = elim (Bool-cases (str_eq (event_name e) (p b))) [
    | inl w ↦ absurd (
        cc
          (ne, (eq_iff a b).1 (path-injective T B role_policy_path a b (sym k ∙ (eq_iff _ _).0 w))))
    | inr w ↦ w
  ]

  not_changed :
      (e : Event) (a b : String)
      → event_name e ≡ p a
      → str_eq a b ≡ false
      → is_change (p b) e ≡ false
  not_changed (written name) a b k ne = paths_differ (written name) a b k ne
  not_changed (removed name) a b k ne = paths_differ (removed name) a b k ne
  not_changed (renamed name) a b k ne = refl

  -- Once the first event is taken, only its own ARN may be stale.
  taken-IsFreshAt :
      (s : S) (e : Event) (es : List Event) (a b : String)
      → s.pending ≡ e ∷ es
      → event_name e ≡ p a
      → str_eq a b ≡ false
      → IsFreshAt T B role_policy_path s b
      → IsFreshAt T B role_policy_path (record s { pending = es }) b
  taken-IsFreshAt s e es a b q k ne h t c = elim (h t c) [
    | inl w ↦ inl (rw (not_changed e a b k ne) at (rw q at w))
    | inr w ↦ inr w
  ]

  -- When the event's ARN is forgotten too, nothing is stale.
  forgotten-IsFreshAt :
      (s : S) (e : Event) (es : List Event) (a b : String)
      → s.pending ≡ e ∷ es
      → event_name e ≡ p a
      → IsFreshAt T B role_policy_path s b
      → IsFreshAt T B role_policy_path (forget T B role_policy_path (record s { pending = es }) a) b
  forgotten-IsFreshAt s e es a b q k h = elim (Bool-cases (str_eq a b)) [
    | inl w ↦
        subst
          (IsFreshAt T B role_policy_path
            (forget T B role_policy_path (record s { pending = es }) a))
          ((eq_iff a b).0 w)
          (forget-IsFreshAt_self T B role_policy_path (record s { pending = es }) a)
    | inr w ↦
        forget-IsFreshAt T B role_policy_path (record s { pending = es }) a b
          (taken-IsFreshAt s e es a b q k w h)
  ]

  pub handled-IsFreshAt :
      (e : Event) (s : S) (es : List Event) (a b : String)
      → s.pending ≡ e ∷ es
      → event_name e ≡ p a
      → IsFreshAt T B role_policy_path s b
      → IsFreshAt T B role_policy_path (handled e (record s { pending = es }) a) b
  unfolding handled
  handled-IsFreshAt (written name) s es a b q k h =
      ask-IsFreshAt T B role_policy_path _ a b (forgotten-IsFreshAt s (written name) es a b q k h)
  handled-IsFreshAt (removed name) s es a b q k h =
      start_watching-IsFreshAt _ name b (forgotten-IsFreshAt s (removed name) es a b q k h)
  handled-IsFreshAt (renamed name) s es a b q k h = λ t c. elim (h t c) [
    | inl w ↦ inl (subst (λ (x : List Event). has_event (p b) x ≡ true) q w)
    | inr w ↦ inr w
  ]

  pub handled-IsNamed :
      (s : S) (e : Event) (es : List Event) (a : String)
      → s.pending ≡ e ∷ es
      → event_name e ≡ p a
      → IsNamed T B role_policy_path s
      → IsNamed T B role_policy_path (handled e (record s { pending = es }) a)
  handled-IsNamed s e es a q k h = record {
    watched_paths = handled-watched e (record s { pending = es }) a k h.watched_paths;
    pending_paths =
        rw (handled-pending e (record s { pending = es }) a)
          (subst (All (λ (x : Event). IsPath T B role_policy_path (event_name x))) q
            h.pending_paths).1;
  }

  -- The delivery of the first event, which is about the file of an ARN.
  pub deliver_one :
      (s : S) (e : Event) (es : List Event) (a : String)
      → s.pending ≡ e ∷ es
      → event_name e ≡ p a
      → deliver T B role_policy_path s ≡ ok (handled e (record s { pending = es }) a)
  unfolding deliver
  deliver_one s e es a q k = rw (q, deliver) (handle_lem e _ a k)
