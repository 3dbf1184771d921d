-- ===== src/Server/TlsReloader.antt =====
-- server/tls_reloader.go: the certificate of a server and the watches that keep it fresh. What the file
-- system and fsnotify do beside the watch loop is a list of actions. The two files are different ones;
-- the construction and each turn of the loop are one step.
use fakes3pp.Prelude.{Bool, true, false, List, [], ◌∷◌, ◌++◌, Option, none, some, if◌then◌else◌}
use fakes3pp.UserError.{Error}
use fakes3pp.Outcome.{Result, ok, fail, panic, ◌>>=◌}

-- The two files that a reloader watches.
pub data Watched : Type 0 where
  cert_file : Watched
  key_file : Watched

-- An event of fsnotify, by the bits that are tested.
pub record Event : Type 0 where
  pub name : Watched
  pub has_write_or_create : Bool
  pub has_remove : Bool

-- What the files hold, which of them are watched, and the events that wait.
pub record World (Content : Type 0) : Type 0 where
  pub cert_content : Option Content
  pub key_content : Option Content
  pub cert_watched : Bool
  pub key_watched : Bool
  pub events : List Event

-- `tlsCertificateReloader` beside the world that it watches.
pub record TlsCertificateReloader (Content Certificate : Type 0) : Type 0 where
  pub world : World Content
  pub cert : Option Certificate

-- What happens: a file is written in place or made, a file is removed, a file is moved away, which
-- gives an event with neither bit, or the loop takes an event.
pub data Action (Content : Type 0) : Type 0 where
  written : Watched → Content → Action Content
  removed : Watched → Action Content
  moved_away : Watched → Action Content
  taken : Action Content

-- `tls.LoadX509KeyPair` on what the two files hold, and the error of `watcher.Add` for a file, if any.
pub record Tls : Type 1 where
  pub Content : Type 0
  pub Certificate : Type 0
  pub load_x509_key_pair : Option Content → Option Content → Result Certificate
  pub add_error : Option Content → Option Error

module _ {Content : Type 0} where
  abbrev pub content : Watched → World Content → Option Content
  content cert_file w = w.cert_content
  content key_file w = w.key_content

  abbrev pub set_content : Watched → Option Content → World Content → World Content
  set_content cert_file c w = record w { cert_content = c }
  set_content key_file c w = record w { key_content = c }

  abbrev pub is_watched : Watched → World Content → Bool
  is_watched cert_file w = w.cert_watched
  is_watched key_file w = w.key_watched

  abbrev pub set_watched : Watched → Bool → World Content → World Content
  set_watched cert_file b w = record w { cert_watched = b }
  set_watched key_file b w = record w { key_watched = b }

  -- An event is sent for a file that is watched only.
  abbrev pub send : Event → World Content → World Content
  send e w = if is_watched e.name w then record w { events = w.events ++ (e ∷ []) } else w

module _ (T : Tls) where
  open T use {Content, Certificate, load_x509_key_pair, add_error}

  abbrev pub Reloader : Type 0
  Reloader = TlsCertificateReloader Content Certificate

  abbrev pub load : World Content → Result Certificate
  load w = load_x509_key_pair w.cert_content w.key_content

  abbrev pub stored : Reloader → Result Certificate → Reloader
  stored r (ok cert) = record r { cert = some cert }
  stored r _ = r

  -- `loadLocked`; its error is returned beside the reloader by the constructor only.
  unfoldable pub load_locked : Reloader → Reloader
  load_locked r = stored r (load r.world)

  abbrev pub with_watch : Watched → Option Error → World Content → Result (World Content)
  with_watch f (some e) w = fail e
  with_watch f none w = ok (set_watched f true w)

  abbrev pub constructed : World Content → Result Certificate → Result Reloader
  constructed w (ok cert) = ok (record { world = w; cert = some cert })
  constructed w (fail e) = fail e
  constructed w panic = panic

  -- `newTLSCertificateReloader`, once a watcher could be made.
  unfoldable pub new_tls_certificate_reloader : World Content → Result Reloader
  new_tls_certificate_reloader w = do
    v ← with_watch cert_file (add_error w.cert_content) w
    u ← with_watch key_file (add_error v.key_content) v
    constructed u (load u)

  abbrev pub armed_again : Watched → Option Content → World Content → World Content
  armed_again f none w = w
  armed_again f (some c) w = elim (add_error (some c)) [ none ↦ set_watched f true w | some e ↦ w ]

  -- `rearmWatch`.
  unfoldable pub rearm_watch : Watched → World Content → World Content
  rearm_watch f w = armed_again f (content f w) (set_watched f false w)

  -- `GetCertificate`.
  abbrev pub get_certificate : Reloader → Option Certificate
  get_certificate r = r.cert

  -- One turn of `watchLoop` on an event.
  unfoldable pub watch_loop_turn : Event → Reloader → Reloader
  watch_loop_turn e r =
      let s = if e.has_write_or_create then load_locked r else r in
      if e.has_remove then record s { world = rearm_watch e.name s.world } else s

  abbrev pub take_event : List Event → Reloader → Reloader
  take_event [] r = r
  take_event (e ∷ es) r = watch_loop_turn e (record r { world = record r.world { events = es } })

  -- A file that is removed or moved away loses its watch.
  unfoldable pub act : Action Content → Reloader → Reloader
  act (written f c) r = record r {
    world =
        send (record { name = f; has_write_or_create = true; has_remove = false })
          (set_content f (some c) r.world);
  }
  act (removed f) r = record r {
    world = set_watched f false (
        send (record { name = f; has_write_or_create = false; has_remove = true })
          (set_content f none r.world));
  }
  act (moved_away f) r = record r {
    world = set_watched f false (
        send (record { name = f; has_write_or_create = false; has_remove = false })
          (set_content f none r.world));
  }
  act taken r = take_event r.world.events r

  unfoldable pub run : List (Action Content) → Reloader → Reloader
  run [] r = r
  run (a ∷ actions) r = run actions (act a r)
