-- ===== src/Iam/Manager/Moves.antt =====
-- A file that is moved: what the watcher knows stays named, and the cache stays coherent when the file
-- that is moved away is not watched.
use fakes3pp.Prelude.{
  String, true, false, eq_refl, Option, none, some, ◌≡◌, refl, ◌∙◌, ◌⊎◌, inl, inr, arith, str_eq,
  eq_iff, Bool-cases,
}
use fakes3pp.Map.{lookup, has_key, insert, delete, contains, lookup-insert, lookup-delete}
use fakes3pp.Outcome.{ok}
use fakes3pp.Iam.Manager.Cache.{Templates, parsed}
use fakes3pp.Iam.Manager.Retriever.{Base32}
use fakes3pp.Iam.Manager.Watch.{
  renamed, cleared, moved_with, move, System, path, read, remove, without,
}
use fakes3pp.Iam.Manager.Coherence.{has_event, contains-without, IsFreshAt, parsed-read}
use fakes3pp.Iam.Manager.Changes.{
  All-without, snoc_if, remove-IsFreshAt, remove-IsNamed, IsNamed, IsCoherent,
}

module _ (T : Templates) (B : Base32) (role_policy_path : String) where
  abbrev S : Type 0
  S = System T B role_policy_path

  abbrev p : String → String
  p arn = path T B role_policy_path arn

  cleared-IsNamed :
      (s : S) (to : String)
      → IsNamed T B role_policy_path s
      → IsNamed T B role_policy_path (cleared T B role_policy_path s to)
  cleared-IsNamed s to h = elim (Bool-cases (has_key to s.files)) [
    | inl y ↦ rw y (remove-IsNamed T B role_policy_path s to h)
    | inr y ↦ rw y h
  ]

  pub move-IsNamed :
      (s : S) (from to : String)
      → IsNamed T B role_policy_path s
      → IsNamed T B role_policy_path (move T B role_policy_path s from to)
  unfolding move
  move-IsNamed s from to h = elim (Bool-cases (str_eq from to)) [
    | inl y ↦ rw y h
    | inr y ↦ rw y (moved (lookup from s.files))
  ]
    where
      moved :
          (c : Option String)
          → IsNamed T B role_policy_path (moved_with T B role_policy_path s from to c)
      moved none = h
      moved (some c) =
          let k = cleared-IsNamed s to h in
          record {
            watched_paths =
                All-without T B role_policy_path from (cleared T B role_policy_path s to).watched
                  k.watched_paths;
            pending_paths =
                snoc_if T B role_policy_path (cleared T B role_policy_path s to) from (renamed from)
                  refl k;
          }

  cleared-IsFreshAt :
      (s : S) (to b : String)
      → IsFreshAt T B role_policy_path s b
      → IsFreshAt T B role_policy_path (cleared T B role_policy_path s to) b
  cleared-IsFreshAt s to b h = elim (Bool-cases (has_key to s.files)) [
    | inl y ↦ rw y (remove-IsFreshAt T B role_policy_path s to b h)
    | inr y ↦ rw y h
  ]

  cleared_missing :
      (s : S) (to : String) → lookup to (cleared T B role_policy_path s to).files ≡ none
  unfolding remove
  cleared_missing s to = elim (Bool-cases (has_key to s.files)) [
    | inl y ↦ rw y (lookup-delete to to s.files ∙ rw (eq_refl to) refl)
    | inr y ↦ rw y (ground arith)
  ]

  cleared_unwatched :
      (s : S) (from to : String)
      → str_eq from to ≡ false
      → contains s.watched from ≡ false
      → contains (cleared T B role_policy_path s to).watched from ≡ false
  unfolding remove
  cleared_unwatched s from to n w = elim (Bool-cases (has_key to s.files)) [
    | inl y ↦
        rw y
          (contains-without to from s.watched (ground (arith, eq_iff from to, eq_iff to from)) ∙ w)
    | inr y ↦ rw y w
  ]

  -- A file that is there anew, or that the watcher does not know, leaves what is fresh as it is.
  replaced-IsFreshAt :
      (r : S) (from to content b : String)
      → contains r.watched from ≡ false
      → lookup to r.files ≡ none
      → IsFreshAt T B role_policy_path r b
      → IsFreshAt T B role_policy_path
          (record r {
            files = insert to content (delete from r.files);
            watched = without from r.watched;
          })
          b
  replaced-IsFreshAt r from to content b w m h t e = go (h t e)
    where
      go :
          (has_event (p b) r.pending ≡ true)
            ⊎ ((contains r.watched (p b) ≡ true) × (parsed T b (read r.files (p b)) ≡ ok t))
          → (has_event (p b) r.pending ≡ true)
            ⊎ ((contains (without from r.watched) (p b) ≡ true)
                × (parsed T b (read (insert to content (delete from r.files)) (p b)) ≡ ok t))
      go (inl k) = inl k
      go (inr (u, k)) =
          let (c, f) = parsed-read T B role_policy_path b (p b) r.files t k in
          let away : str_eq from (p b) ≡ false = ground (arith, eq_iff from (p b)) in
          let anew : str_eq to (p b) ≡ false = ground (arith, eq_iff to (p b)) in
          inr (
            contains-without from (p b) r.watched away ∙ u,
            rw (lookup-insert, anew, lookup-delete, away, read) k,
          )

  move-IsFreshAt :
      (s : S) (from to b : String)
      → contains s.watched from ≡ false
      → IsFreshAt T B role_policy_path s b
      → IsFreshAt T B role_policy_path (move T B role_policy_path s from to) b
  unfolding move
  move-IsFreshAt s from to b w h = elim (Bool-cases (str_eq from to)) [
    | inl y ↦ rw y h
    | inr y ↦ rw y (moved y (lookup from s.files))
  ]
    where
      moved :
          str_eq from to ≡ false
          → (c : Option String)
          → IsFreshAt T B role_policy_path (moved_with T B role_policy_path s from to c) b
      moved y none = h
      moved y (some c) =
          let u = cleared_unwatched s from to y w in
          rw u (
            replaced-IsFreshAt (cleared T B role_policy_path s to) from to c b u
              (cleared_missing s to) (cleared-IsFreshAt s to b h))

  pub move-IsCoherent :
      (s : S) (from to : String)
      → contains s.watched from ≡ false
      → IsCoherent T B role_policy_path s
      → IsCoherent T B role_policy_path (move T B role_policy_path s from to)
  move-IsCoherent s from to w h = record {
    fresh = λ b. move-IsFreshAt s from to b w (h.fresh b);
    named = move-IsNamed s from to h.named;
  }
