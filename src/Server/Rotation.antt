-- ===== src/Server/Rotation.antt =====
-- How fresh the certificate of a server is: the proofs on server/tls_reloader.go.
use fakes3pp.Prelude.{
  ◌≡◌, refl, ap, sym, ◌∙◌, subst, true, false, List, [], ◌∷◌, ◌++◌, Option, none, some, All,
}
use fakes3pp.UserError.{Error}
use fakes3pp.Outcome.{Result, ok, fail, panic, >>=-eq-ok, ok-eq-ok}
use fakes3pp.Server.TlsReloader.{
  Tls, Watched, cert_file, key_file, Event, World, Action, written, removed, moved_away, taken,
  Reloader, set_watched, load, stored, load_locked, with_watch, constructed,
  new_tls_certificate_reloader, watch_loop_turn, take_event, act, run, get_certificate,
}

module _ (T : Tls) where
  open T use {Content, Certificate}

  -- The files are written in place, and no file is removed or moved away.
  abbrev pub IsInPlace : Action Content → Type 0
  IsInPlace (written f c) = Unit
  IsInPlace (removed f) = ⊥
  IsInPlace (moved_away f) = ⊥
  IsInPlace taken = Unit

  -- When the files hold a pair that loads, it is the one that is served.
  abbrev pub IsFresh : Reloader T → Type 0
  IsFresh r = (c : Certificate) → load T r.world ≡ ok c → r.cert ≡ some c

  abbrev pub IsWrite : Event → Type 0
  IsWrite e = (e.has_write_or_create ≡ true) × (e.has_remove ≡ false)

  -- Both files are watched, only writes are waiting, and the certificate is fresh unless one is.
  abbrev pub IsTracked : Reloader T → Type 0
  IsTracked r =
      (r.world.cert_watched ≡ true)
      × (r.world.key_watched ≡ true)
      × All IsWrite r.world.events
      × ((r.world.events ≡ []) → IsFresh r)

  All-snoc :
      (es : List Event) (e : Event) → All IsWrite es → IsWrite e → All IsWrite (es ++ (e ∷ []))
  All-snoc [] e a i = (i, tt)
  All-snoc (x ∷ es) e (i, a) j = (i, All-snoc es e a j)

  not_empty : (es : List Event) (e : Event) → (es ++ (e ∷ [])) ≡ [] → ⊥
  not_empty [] e h = absurd (cc)
  not_empty (x ∷ es) e h = absurd (cc)

  -- A load leaves a fresh certificate, whether it fails or not.
  stored-IsTracked :
      (r : Reloader T) (l : Result Certificate)
      → load T r.world ≡ l
      → r.world.cert_watched ≡ true
      → r.world.key_watched ≡ true
      → All IsWrite r.world.events
      → IsTracked (stored T r l)
  stored-IsTracked r (ok d) i a b ws = (a, b, ws, λ h c e. ap some (ok-eq-ok d c (sym i ∙ e)))
  stored-IsTracked r (fail x) i a b ws = (a, b, ws, λ h c e. absurd (cc))
  stored-IsTracked r panic i a b ws = (a, b, ws, λ h c e. absurd (cc))

  take-IsTracked :
      (es : List Event) (r : Reloader T)
      → r.world.events ≡ es
      → IsTracked r
      → IsTracked (take_event T es r)
  unfolding watch_loop_turn load_locked
  take-IsTracked [] r i t = t
  take-IsTracked (e ∷ es) r i (a, b, ws, f) =
      let ((w, v), rest) = subst (All IsWrite) i ws in
      rw (w, v)
        (stored-IsTracked (record r { world = record r.world { events = es } }) _ refl a b rest)

  write-IsTracked :
      (f : Watched) (c : Content) (r : Reloader T) → IsTracked r → IsTracked (act T (written f c) r)
  unfolding act
  write-IsTracked cert_file c r (a, b, ws, fresh) = rw a (
    refl,
    b,
    All-snoc r.world.events _ ws (refl, refl),
    λ h. absurd (not_empty r.world.events _ h),
  )
  write-IsTracked key_file c r (a, b, ws, fresh) = rw b (
    a,
    refl,
    All-snoc r.world.events _ ws (refl, refl),
    λ h. absurd (not_empty r.world.events _ h),
  )

  act-IsTracked :
      (x : Action Content) (r : Reloader T) → IsInPlace x → IsTracked r → IsTracked (act T x r)
  unfolding act
  act-IsTracked (written f c) r p t = write-IsTracked f c r t
  act-IsTracked (removed f) r p t = absurd p
  act-IsTracked (moved_away f) r p t = absurd p
  act-IsTracked taken r p t = take-IsTracked r.world.events r refl t

  run-IsTracked :
      (actions : List (Action Content)) (r : Reloader T)
      → All IsInPlace actions
      → IsTracked r
      → IsTracked (run T actions r)
  unfolding run
  run-IsTracked [] r ps t = t
  run-IsTracked (x ∷ actions) r (p, ps) t =
      run-IsTracked actions (act T x r) ps (act-IsTracked x r p t)

  -- A reloader that was made is tracked, when no event waits.
  constructed-IsTracked :
      (w : World Content) (l : Result Certificate) (r : Reloader T)
      → load T w ≡ l
      → w.cert_watched ≡ true
      → w.key_watched ≡ true
      → w.events ≡ []
      → constructed T w l ≡ ok r
      → IsTracked r
  constructed-IsTracked w (ok d) r i a b n e =
      subst IsTracked (ok-eq-ok _ r e) (a, b, rw n tt, λ h c x. ap some (ok-eq-ok d c (sym i ∙ x)))
  constructed-IsTracked w (fail x) r i a b n e = absurd (cc)
  constructed-IsTracked w panic r i a b n e = absurd (cc)

  with_watch-eq-ok :
      (f : Watched) (o : Option Error) (w v : World Content)
      → with_watch T f o w ≡ ok v
      → set_watched f true w ≡ v
  with_watch-eq-ok f none w v e = ok-eq-ok _ v e
  with_watch-eq-ok f (some x) w v e = absurd (cc)

  new_tls_certificate_reloader-IsTracked :
      (w : World Content) (r : Reloader T)
      → w.events ≡ []
      → new_tls_certificate_reloader T w ≡ ok r
      → IsTracked r
  unfolding new_tls_certificate_reloader
  new_tls_certificate_reloader-IsTracked w r n e =
      let (v, e1, f1) = >>=-eq-ok (with_watch T cert_file (T.add_error w.cert_content) w) _ e in
      let (u, e2, f2) = >>=-eq-ok (with_watch T key_file (T.add_error v.key_content) v) _ f1 in
      let p = with_watch-eq-ok cert_file (T.add_error w.cert_content) w v e1 in
      let q = with_watch-eq-ok key_file (T.add_error v.key_content) v u e2 in
      constructed-IsTracked u _ r refl
        (sym (ap (λ (x : World Content). x.cert_watched) q)
          ∙ sym (ap (λ (x : World Content). x.cert_watched) p))
        (sym (ap (λ (x : World Content). x.key_watched) q))
        (sym (ap (λ (x : World Content). x.events) q)
          ∙ sym (ap (λ (x : World Content). x.events) p)
          ∙ n)
        f2

  -- Once all events of the writes to a server's two files have been handled, the certificate that is
  -- served is the pair that the files hold, whenever they hold one, provided that no file was removed
  -- or moved away.
  pub run-IsFresh :
      (w : World Content) (r : Reloader T) (actions : List (Action Content)) (c : Certificate)
      → w.events ≡ []
      → new_tls_certificate_reloader T w ≡ ok r
      → All IsInPlace actions
      → (run T actions r).world.events ≡ []
      → load T (run T actions r).world ≡ ok c
      → get_certificate T (run T actions r) ≡ some c
  run-IsFresh w r actions c n e ps done l =
      (run-IsTracked actions r ps (new_tls_certificate_reloader-IsTracked w r n e)).3 done c l
