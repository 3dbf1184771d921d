-- ===== src/Iam/Manager/Delivery.antt =====
-- The delivery of events, and every state that the system can reach.
use fakes3pp.Prelude.{
  String, ◌≡◌, refl, ap, sym, subst, ◌∙◌, inl, inr, none, some, List, [], ◌∷◌, All,
}
use fakes3pp.Map.{Map, lookup}
use fakes3pp.Outcome.{ok}
use fakes3pp.Iam.Manager.Cache.{Templates, new_policy_manager, parsed}
use fakes3pp.Iam.Manager.Lookup.{cached}
use fakes3pp.Iam.Manager.Retriever.{Base32}
use fakes3pp.Iam.Manager.Watch.{
  Event, moved, LeavesWatched, NoneMovedAway, System, path, read, deliver, Step, asked, wrote,
  deleted, delivered, Reach, here, next,
}
use fakes3pp.Iam.Manager.Coherence.{event_name, has_event}
use fakes3pp.Iam.Manager.Changes.{
  IsPath, IsNamed, IsCoherent, write-IsNamed, remove-IsNamed, ask-IsNamed, write-IsCoherent,
  remove-IsCoherent, ask-IsCoherent,
}
use fakes3pp.Iam.Manager.Moves.{move-IsNamed, move-IsCoherent}
use fakes3pp.Iam.Manager.Handling.{handled, handled-IsFreshAt, handled-IsNamed, deliver_one}

ok-injective {ℓ} : {A : Type ℓ} (x y : A) → ok x ≡ ok y → x ≡ y
ok-injective x y h = cc

module _ (T : Templates) (B : Base32) (role_policy_path : String) where
  abbrev S : Type 0
  S = System T B role_policy_path

  abbrev p : String → String
  p arn = path T B role_policy_path arn

  -- What the next delivery gives: the state itself, or the first event handled T B role_policy_path for the file of an ARN.
  deliver_from :
      (s : S) (es : List Event)
      → s.pending ≡ es
      → IsNamed T B role_policy_path s
      → (s' : S) × (deliver T B role_policy_path s ≡ ok s')
        × IsNamed T B role_policy_path s'
        × (IsCoherent T B role_policy_path s → IsCoherent T B role_policy_path s')
  unfolding deliver
  deliver_from s [] q h = (s, rw (q, deliver) refl, h, λ k. k)
  deliver_from s (e ∷ es) q h =
      let (a, k) =
        (subst (All (λ (x : Event). IsPath T B role_policy_path (event_name x))) q
          h.pending_paths).0 in
      let named = handled-IsNamed T B role_policy_path s e es a q k h in
      (
        handled T B role_policy_path e (record s { pending = es }) a,
        deliver_one T B role_policy_path s e es a q k,
        named,
        λ c. record {
          fresh = λ b. handled-IsFreshAt T B role_policy_path e s es a b q k (c.fresh b);
          named = named;
        },
      )

  delivered-eq :
      (s s' : S)
      → deliver T B role_policy_path s ≡ ok s'
      → IsNamed T B role_policy_path s
      → IsNamed T B role_policy_path s'
        × (IsCoherent T B role_policy_path s → IsCoherent T B role_policy_path s')
  delivered-eq s s' e h =
      let (u, f, n, c) = deliver_from s s.pending refl h in
      let same = ok-injective u s' (sym f ∙ e) in
      (
        subst (IsNamed T B role_policy_path) same n,
        λ k. subst (IsCoherent T B role_policy_path) same (c k),
      )

  Step-IsNamed :
      {s s' : S}
      → Step T B role_policy_path s s'
      → IsNamed T B role_policy_path s
      → IsNamed T B role_policy_path s'
  Step-IsNamed (asked s arn) h = ask-IsNamed T B role_policy_path s arn h
  Step-IsNamed (wrote s name content) h = write-IsNamed T B role_policy_path s name content h
  Step-IsNamed (deleted s name) h = remove-IsNamed T B role_policy_path s name h
  Step-IsNamed (moved s from to) h = move-IsNamed T B role_policy_path s from to h
  Step-IsNamed (delivered s s' e) h = (delivered-eq s s' e h).0

  Step-IsCoherent :
      {s s' : S} (st : Step T B role_policy_path s s')
      → LeavesWatched T B role_policy_path st
      → IsCoherent T B role_policy_path s
      → IsCoherent T B role_policy_path s'
  Step-IsCoherent (asked s arn) w h = ask-IsCoherent T B role_policy_path s arn h
  Step-IsCoherent (wrote s name content) w h =
      write-IsCoherent T B role_policy_path s name content h
  Step-IsCoherent (deleted s name) w h = remove-IsCoherent T B role_policy_path s name h
  Step-IsCoherent (moved s from to) w h = move-IsCoherent T B role_policy_path s from to w h
  Step-IsCoherent (delivered s s' e) w h = (delivered-eq s s' e h.named).1 h

  empty_cache : (arn : String) → cached T (new_policy_manager T) arn ≡ none
  unfolding lookup
  empty_cache arn = refl

  Reach-IsNamed :
      {files : Map String} {s : S}
      → Reach T B role_policy_path files s
      → IsNamed T B role_policy_path s
  Reach-IsNamed here = record { watched_paths = tt; pending_paths = tt }
  Reach-IsNamed (next r st) = Step-IsNamed st (Reach-IsNamed r)

  Reach-IsCoherent :
      {files : Map String} {s : S} (r : Reach T B role_policy_path files s)
      → NoneMovedAway T B role_policy_path r
      → IsCoherent T B role_policy_path s
  Reach-IsCoherent here n = record {
    fresh = λ arn t e. absurd (cc (e, empty_cache arn));
    named = Reach-IsNamed here;
  }
  Reach-IsCoherent (next r st) (n, w) = Step-IsCoherent st w (Reach-IsCoherent r n)

  -- In every state that can be reached from an empty cache, by requests, by files that are written,
  -- removed or moved, and by the delivery of events, each request and each event being handled T B role_policy_path at one
  -- go, the handling of the next event does not panic.
  pub reached_deliver :
      (files : Map String) (s : S)
      → Reach T B role_policy_path files s
      → (s' : S) × (deliver T B role_policy_path s ≡ ok s')
  reached_deliver files s r =
      let (s', e, _, _) = deliver_from s s.pending refl (Reach-IsNamed r) in (s', e)

  -- In every such state in which no event is under way, a cached template is what its file parses to
  -- now, unless a file was moved away while it was watched.
  pub reached_cache :
      (files : Map String) (s : S) (r : Reach T B role_policy_path files s)
      → NoneMovedAway T B role_policy_path r
      → s.pending ≡ []
      → (arn : String) (t : T.Template) → cached T s.manager arn ≡ some t
      → parsed T arn (read s.files (p arn)) ≡ ok t
  reached_cache files s r n q arn t c = elim ((Reach-IsCoherent r n).fresh arn t c) [
    | inl w ↦ absurd (cc (ap (has_event (p arn)) q, w))
    | inr w ↦ w.1
  ]
