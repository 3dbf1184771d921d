-- ===== src/Iam/Manager/Race.antt =====
-- `getPolicyTemplate` holds no lock between the read of a file and the write to the cache.
use fakes3pp.Prelude.{String, true, ◌≡◌, refl, ap, ◌∙◌, none, some, [], ◌∷◌, eq_refl}
use fakes3pp.Map.{lookup, contains, lookup-insert}
use fakes3pp.Outcome.{Result, ok, ◌>>=◌}
use fakes3pp.Iam.Manager.Cache.{Templates, parsed, keep}
use fakes3pp.Iam.Manager.Lookup.{cached}
use fakes3pp.Iam.Manager.Retriever.{Base32}
use fakes3pp.Iam.Manager.Watch.{written, System, path, read, watch_for, write, deliver}
use fakes3pp.Iam.Manager.Handling.{handled, handled-pending, handled-files, deliver_one}
use fakes3pp.Iam.Manager.Coherence.{watch_for-new, watch_for-same}

module _ (T : Templates) (B : Base32) (role_policy_path : String) where
  abbrev S : Type 0
  S = System T B role_policy_path

  -- The first half of `getPolicyTemplate` on a miss, up to the parsed template, in a state.
  unfoldable pub fetch : S → String → Result T.Template × S
  fetch s arn = (
    parsed T arn (read s.files (path T B role_policy_path arn)),
    watch_for T B role_policy_path s arn,
  )

  -- The second half, in the state at that later moment: take the lock and keep the template.
  unfoldable pub store : Result T.Template → String → S → S
  store x arn s = record s { manager = (keep T s.manager arn x).1 }

  -- A request reads a file; before it takes the lock, the file is written and the event is handled.
  unfoldable pub overtaken : S → String → String → Result S
  overtaken s arn content =
      let (x, s') = fetch s arn in
      do
        s'' ←
            deliver T B role_policy_path
              (write T B role_policy_path s' (path T B role_policy_path arn) content)
        ok (store x arn s'')

  write-pending :
      (s : S) (name content : String)
      → contains s.watched name ≡ true
      → s.pending ≡ []
      → (write T B role_policy_path s name content).pending ≡ written name ∷ []
  unfolding write
  write-pending s name content w q = rw (w, q) refl

  write-files :
      (s : S) (name content : String)
      → lookup name (write T B role_policy_path s name content).files ≡ some content
  unfolding write
  write-files s name content = lookup-insert name name content s.files ∙ rw (eq_refl name) refl

  store-cached :
      (s : S) (arn : String) (t : T.Template) → cached T (store (ok t) arn s).manager arn ≡ some t
  unfolding store
  store-cached s arn t = lookup-insert arn arn t s.manager.templates ∙ rw (eq_refl arn) refl

  store-same :
      (s : S) (arn : String) (x : Result T.Template)
      → ((store x arn s).files ≡ s.files) × ((store x arn s).pending ≡ s.pending)
  unfolding store
  store-same s arn x = (refl, refl)

  fetch_lem :
      (s : S) (arn old : String) (t : T.Template)
      → lookup (path T B role_policy_path arn) s.files ≡ some old
      → T.parse arn old ≡ ok t
      → fetch s arn ≡ (ok t, watch_for T B role_policy_path s arn)
  unfolding fetch
  fetch_lem s arn old t f k = rw (f, read) (rw k refl)

  -- A request for an ARN whose file has been read, and which is overtaken by a write to the file and
  -- by the handling of its event, leaves the template of the old content in the cache, with no event
  -- under way that would replace it.
  pub overtaken_stale :
      (s : S) (arn old new : String) (t : T.Template)
      → cached T s.manager arn ≡ none
      → s.pending ≡ []
      → lookup (path T B role_policy_path arn) s.files ≡ some old
      → T.parse arn old ≡ ok t
      → (s' : S) × (overtaken s arn new ≡ ok s')
        × (s'.pending ≡ [])
        × (lookup (path T B role_policy_path arn) s'.files ≡ some new)
        × (cached T s'.manager arn ≡ some t)
  unfolding overtaken
  overtaken_stale s arn old new t u q f k =
      let name = path T B role_policy_path arn in
      let w : S = watch_for T B role_policy_path s arn in
      let s1 : S = write T B role_policy_path w name new in
      let d =
        deliver_one T B role_policy_path s1 (written name) [] arn
          (write-pending w name new (watch_for-new T B role_policy_path s arn old u f)
            ((watch_for-same T B role_policy_path s arn).1 ∙ q))
          refl in
      let s2 : S = handled T B role_policy_path (written name) (record s1 { pending = [] }) arn in
      (
        store (ok t) arn s2,
        rw (fetch_lem s arn old t f k, d) refl,
        (store-same s2 arn (ok t)).1
            ∙ handled-pending T B role_policy_path (written name) (record s1 { pending = [] }) arn,
        ap (lookup name) (
              (store-same s2 arn (ok t)).0
              ∙ handled-files T B role_policy_path (written name) (record s1 { pending = [] }) arn)
            ∙ write-files w name new,
        store-cached s2 arn t,
      )
