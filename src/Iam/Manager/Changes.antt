-- ===== src/Iam/Manager/Changes.antt =====
-- The cache stays coherent when templates are asked for and when files are written or removed; the
-- watcher knows the paths of ARNs only.
use fakes3pp.Prelude.{
  String, true, ◌≡◌, refl, sym, subst, ◌∙◌, ◌⊎◌, inl, inr, List, [], ◌∷◌, ◌++◌, arith, str_eq,
  if◌then◌else◌, eq_iff, Bool-cases, Option-cases, All,
}
use fakes3pp.Map.{lookup, insert, delete, contains, lookup-insert, lookup-delete}
use fakes3pp.Outcome.{ok}
use fakes3pp.Iam.Manager.Cache.{Templates, parsed}
use fakes3pp.Iam.Manager.Retriever.{Base32, get_policy_arn-get_policy_path}
use fakes3pp.Iam.Manager.Watch.{
  Event, written, removed, System, path, read, start_watching, watch_for, ask, write, remove,
  without,
}
use fakes3pp.Iam.Manager.Coherence.{
  event_name, has_event, has_event-append, contains-without, IsFreshAt, ask-IsFreshAt,
}

module _ (T : Templates) (B : Base32) (role_policy_path : String) where
  abbrev S : Type 0
  S = System T B role_policy_path

  abbrev p : String → String
  p arn = path T B role_policy_path arn

  pub path-injective : (a b : String) → p a ≡ p b → a ≡ b
  path-injective a b e = cc (
    get_policy_arn-get_policy_path B role_policy_path a,
    get_policy_arn-get_policy_path B role_policy_path b,
  )

  write-IsFreshAt :
      (s : S) (name content b : String)
      → IsFreshAt T B role_policy_path s b
      → IsFreshAt T B role_policy_path (write T B role_policy_path s name content) b
  unfolding write
  write-IsFreshAt s name content b h t e = go (h t e)
    where
      go :
          (has_event (p b) s.pending ≡ true)
            ⊎ ((contains s.watched (p b) ≡ true) × (parsed T b (read s.files (p b)) ≡ ok t))
          → (has_event (p b) (write T B role_policy_path s name content).pending ≡ true)
            ⊎ ((contains s.watched (p b) ≡ true)
                × (parsed T b (read (insert name content s.files) (p b)) ≡ ok t))
      go (inl k) = inl (ground (arith, has_event-append (p b) s.pending (written name)))
      go (inr (w, k)) = elim (Bool-cases (str_eq name (p b))) [
        | inl q ↦
            inl (ground (arith, has_event-append (p b) s.pending (written name), eq_iff name (p b)))
        | inr q ↦ inr (w, rw (lookup-insert, q, read) k)
      ]

  pub remove-IsFreshAt :
      (s : S) (name b : String)
      → IsFreshAt T B role_policy_path s b
      → IsFreshAt T B role_policy_path (remove T B role_policy_path s name) b
  unfolding remove
  remove-IsFreshAt s name b h t e = go (h t e)
    where
      go :
          (has_event (p b) s.pending ≡ true)
            ⊎ ((contains s.watched (p b) ≡ true) × (parsed T b (read s.files (p b)) ≡ ok t))
          → (has_event (p b) (remove T B role_policy_path s name).pending ≡ true)
            ⊎ ((contains (without name s.watched) (p b) ≡ true)
                × (parsed T b (read (delete name s.files) (p b)) ≡ ok t))
      go (inl k) = inl (ground (arith, has_event-append (p b) s.pending (removed name)))
      go (inr (w, k)) = elim (Bool-cases (str_eq name (p b))) [
        | inl q ↦
            inl (ground (arith, has_event-append (p b) s.pending (removed name), eq_iff name (p b)))
        | inr q ↦ inr (contains-without name (p b) s.watched q ∙ w, rw (lookup-delete, q, read) k)
      ]

  -- Every name that the watcher knows is the path of an ARN.
  abbrev pub IsPath : String → Type 0
  IsPath name = (arn : String) × (name ≡ p arn)

  -- What holds of the system at all times.
  pub record IsNamed (s : S) : Type 0 where
    pub watched_paths : All IsPath s.watched
    pub pending_paths : All (λ e. IsPath (event_name e)) s.pending

  -- What holds of it while no file is moved away that is watched.
  pub record IsCoherent (s : S) : Type 0 where
    pub fresh : (arn : String) → IsFreshAt T B role_policy_path s arn
    pub named : IsNamed s

  All-snoc :
      (es : List Event) (e : Event)
      → All (λ x. IsPath (event_name x)) es
      → IsPath (event_name e)
      → All (λ x. IsPath (event_name x)) (es ++ e ∷ [])
  All-snoc [] e h k = (k, tt)
  All-snoc (x ∷ es) e h k = (h.0, All-snoc es e h.1 k)

  IsPath-contains :
      (l : List String) (name : String) → All IsPath l → contains l name ≡ true → IsPath name
  unfolding contains
  IsPath-contains [] name h k = absurd (cc)
  IsPath-contains (x ∷ l) name h k = elim (Bool-cases (str_eq x name)) [
    | inl q ↦ subst IsPath ((eq_iff x name).0 q) h.0
    | inr q ↦ IsPath-contains l name h.1 (ground arith)
  ]

  pub All-without : (name : String) (l : List String) → All IsPath l → All IsPath (without name l)
  All-without name [] h = tt
  All-without name (x ∷ l) h = elim (Bool-cases (str_eq x name)) [
    | inl q ↦ rw q (All-without name l h.1)
    | inr q ↦ rw q (h.0, All-without name l h.1)
  ]

  pub snoc_if :
      (s : S) (name : String) (e : Event)
      → event_name e ≡ name
      → IsNamed s
      → All
          (λ x. IsPath (event_name x))
          (if contains s.watched name then s.pending ++ e ∷ [] else s.pending)
  snoc_if s name e q h = elim (Bool-cases (contains s.watched name)) [
    | inl w ↦ rw w (
        All-snoc s.pending e h.pending_paths
          (subst IsPath (sym q) (IsPath-contains s.watched name h.watched_paths w)))
    | inr w ↦ rw w h.pending_paths
  ]

  pub write-IsNamed :
      (s : S) (name content : String)
      → IsNamed s
      → IsNamed (write T B role_policy_path s name content)
  unfolding write
  write-IsNamed s name content h = record {
    watched_paths = h.watched_paths;
    pending_paths = snoc_if s name (written name) refl h;
  }

  pub write-IsCoherent :
      (s : S) (name content : String)
      → IsCoherent s
      → IsCoherent (write T B role_policy_path s name content)
  unfolding write
  write-IsCoherent s name content h = record {
    fresh = λ b. write-IsFreshAt s name content b (h.fresh b);
    named = write-IsNamed s name content h.named;
  }

  pub remove-IsNamed :
      (s : S) (name : String) → IsNamed s → IsNamed (remove T B role_policy_path s name)
  unfolding remove
  remove-IsNamed s name h = record {
    watched_paths = All-without name s.watched h.watched_paths;
    pending_paths = snoc_if s name (removed name) refl h;
  }

  pub remove-IsCoherent :
      (s : S) (name : String) → IsCoherent s → IsCoherent (remove T B role_policy_path s name)
  unfolding remove
  remove-IsCoherent s name h = record {
    fresh = λ b. remove-IsFreshAt s name b (h.fresh b);
    named = remove-IsNamed s name h.named;
  }

  pub start_watching-All :
      (s : S) (name : String)
      → IsPath name
      → All IsPath s.watched
      → All IsPath (start_watching T B role_policy_path s name).watched
  unfolding start_watching
  start_watching-All s name k h = elim (Option-cases (lookup name s.files)) [
    | inl e ↦ rw (e, start_watching) h
    | inr (c, e) ↦ elim (Bool-cases (contains s.watched name)) [
      | inl w ↦ rw (e, w, start_watching) h
      | inr w ↦ rw (e, w, start_watching) (k, h)
    ]
  ]

  watch_for-All :
      (s : S) (arn : String)
      → All IsPath s.watched
      → All IsPath (watch_for T B role_policy_path s arn).watched
  unfolding watch_for
  watch_for-All s arn h = elim (Option-cases (lookup arn s.manager.templates)) [
    | inl e ↦ rw (e, watch_for) (start_watching-All s (p arn) (arn, refl) h)
    | inr (t, e) ↦ rw (e, watch_for) h
  ]

  watch_for-pending :
      (s : S) (arn : String) → (watch_for T B role_policy_path s arn).pending ≡ s.pending
  unfolding watch_for start_watching
  watch_for-pending s arn = ground arith

  pub ask-IsNamed : (s : S) (arn : String) → IsNamed s → IsNamed (ask T B role_policy_path s arn)
  unfolding ask
  ask-IsNamed s arn h = record {
    watched_paths = watch_for-All s arn h.watched_paths;
    pending_paths = rw (watch_for-pending s arn) h.pending_paths;
  }

  pub ask-IsCoherent :
      (s : S) (arn : String) → IsCoherent s → IsCoherent (ask T B role_policy_path s arn)
  unfolding ask
  ask-IsCoherent s arn h = record {
    fresh = λ b. ask-IsFreshAt T B role_policy_path s arn b (h.fresh b);
    named = ask-IsNamed s arn h.named;
  }

  pub ask-watched :
      (s : S) (arn : String)
      → All IsPath s.watched
      → All IsPath (ask T B role_policy_path s arn).watched
  unfolding ask
  ask-watched s arn h = watch_for-All s arn h
