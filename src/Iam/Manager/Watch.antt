-- ===== src/Iam/Manager/Watch.antt =====
-- The policy manager over files that change: the callbacks `fileUpdated` and `fileDeleted` of
-- `NewLocalPolicyRetriever`, the loop of `createFileWatcherAndStartWatching`, `startWatching` and
-- `restartWatching` of aws/service/iam/policy-retrieval.go.
use fakes3pp.Prelude.{
  String, ◌≡◌, false, Option, none, some, List, [], ◌∷◌, ◌++◌, str_eq, if◌then◌else◌,
}
use fakes3pp.Map.{Map, lookup, insert, delete, contains, has_key}
use fakes3pp.UserError.{text}
use fakes3pp.Outcome.{Result, ok, fail, panic, ◌>>=◌}
use fakes3pp.Iam.Manager.Cache.{
  Templates, Retriever, Manager, new_policy_manager, get_policy_template, delete_policy_cache_entry,
}
use fakes3pp.Iam.Manager.Retriever.{Base32, get_policy_path, get_policy_arn}

-- An event of the package fsnotify: `Write`, `Remove` and `Rename`, with the file's name. `Create` and
-- `Chmod`, which the loop ignores too, change no file that is watched.
pub data Event : Type 0 where
  written removed renamed : String → Event

-- `ReadFileFull`.
abbrev pub read : Map String → String → Result String
read files name = elim (lookup name files) [
  | none ↦ fail (text "no such file or directory")
  | some c ↦ ok c
]

abbrev pub without : String → List String → List String
without name [] = []
without name (x ∷ xs) = let rest = without name xs in if str_eq x name then rest else x ∷ rest

module _ (T : Templates) (B : Base32) (role_policy_path : String) where
  -- The files, the watches and the events that are under way belong to the operating system.
  pub record System : Type 0 where
    pub files : Map String
    pub watched : List String
    pub pending : List Event
    pub manager : Manager T

  abbrev pub path : String → String
  path arn = get_policy_path B role_policy_path arn

  -- `startWatching`: only a file that is there can be watched.
  unfoldable pub start_watching : System → String → System
  start_watching s name = elim (lookup name s.files) [
    | none ↦ s
    | some c ↦ if contains s.watched name then s else record s { watched = name ∷ s.watched }
  ]

  -- The retriever, as it answers in this state.
  abbrev pub retriever : System → Retriever
  retriever s = record {
    retrieve_policy_str = λ arn. read s.files (path arn);
    retrieve_all_identifiers = fail (text "not called");
  }

  -- `retrievePolicyStr` is called where no template is cached: the file is watched before it is read.
  unfoldable pub watch_for : System → String → System
  unfolding start_watching
  watch_for s arn = elim (lookup arn s.manager.templates) [
    | none ↦ start_watching s (path arn)
    | some t ↦ s
  ]

  -- A call of `getPolicyTemplate` for an ARN.
  unfoldable pub ask : System → String → System
  ask s arn = record (watch_for s arn) {
    manager = (get_policy_template T (retriever s) s.manager arn).1;
  }

  abbrev pub or_empty : Result String → Result String
  or_empty (ok arn) = ok arn
  or_empty (fail e) = ok ""
  or_empty panic = panic

  abbrev pub forget : System → String → System
  forget s arn = record s { manager = delete_policy_cache_entry T s.manager arn }

  -- `fileUpdated`. After an error the callback goes on with the empty ARN.
  unfoldable pub file_updated : System → String → Result System
  unfolding ask watch_for
  file_updated s file_name = do
    arn ← or_empty (get_policy_arn B role_policy_path file_name)
    ok (ask (forget s arn) arn)

  -- `fileDeleted`.
  unfoldable pub file_deleted : System → String → Result System
  file_deleted s file_name = do
    arn ← or_empty (get_policy_arn B role_policy_path file_name)
    ok (forget s arn)

  -- `restartWatching`, after the operating system dropped the watch with the file.
  unfoldable pub restart_watching : System → String → System
  unfolding start_watching
  restart_watching s name = start_watching s name

  -- One round of the loop over the watcher's events.
  unfoldable pub handle : Event → System → Result System
  unfolding file_updated file_deleted restart_watching
  handle (written name) s = file_updated s name
  handle (removed name) s = do s' ← file_deleted s name; ok (restart_watching s' name)
  handle (renamed name) s = ok s

  abbrev handle_next : List Event → System → Result System
  handle_next [] s = ok s
  handle_next (e ∷ es) s = handle e (record s { pending = es })

  unfoldable pub deliver : System → Result System
  unfolding handle
  deliver s = handle_next s.pending s

  -- Somebody writes a file: the watcher hears of it if the file is watched.
  unfoldable pub write : System → String → String → System
  write s name content = record s {
    files = insert name content s.files;
    pending = if contains s.watched name then s.pending ++ written name ∷ [] else s.pending;
  }

  -- Somebody removes a file: its watch goes with it.
  unfoldable pub remove : System → String → System
  remove s name = record s {
    files = delete name s.files;
    watched = without name s.watched;
    pending = if contains s.watched name then s.pending ++ removed name ∷ [] else s.pending;
  }

  abbrev pub cleared : System → String → System
  cleared s to = if has_key to s.files then remove s to else s

  abbrev pub moved_with : System → String → String → Option String → System
  moved_with s from to none = s
  moved_with s from to (some content) =
      let r = cleared s to in
      record r {
        files = insert to content (delete from r.files);
        watched = without from r.watched;
        pending = if contains r.watched from then r.pending ++ renamed from ∷ [] else r.pending;
      }

  -- Somebody moves a file, not onto itself. A file that it replaces is removed; a watch does not go with the file.
  unfoldable pub move : System → String → String → System
  unfolding remove
  move s from to = if str_eq from to then s else moved_with s from to (lookup from s.files)

  -- What can happen, one thing at a time.
  pub data Step : System → System → Type 0 where
    asked : (s : System) (arn : String) → Step s (ask s arn)
    wrote : (s : System) (name content : String) → Step s (write s name content)
    deleted : (s : System) (name : String) → Step s (remove s name)
    moved : (s : System) (from to : String) → Step s (move s from to)
    delivered : (s s' : System) → deliver s ≡ ok s' → Step s s'

  abbrev pub start : Map String → System
  start files = record { files = files; watched = []; pending = []; manager = new_policy_manager T }

  pub data Reach (files : Map String) : System → Type 0 where
    here : Reach files (start files)
    next : {s t : System} → Reach files s → Step s t → Reach files t

  -- A step that moves no file away that is watched.
  abbrev pub LeavesWatched : {s t : System} → Step s t → Type 0
  LeavesWatched (moved s from to) = contains s.watched from ≡ false
  LeavesWatched _ = Unit

  abbrev pub NoneMovedAway : {files : Map String} {s : System} → Reach files s → Type 0
  NoneMovedAway here = Unit
  NoneMovedAway (next r st) = NoneMovedAway r × LeavesWatched st
