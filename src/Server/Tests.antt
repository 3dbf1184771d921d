-- ===== src/Server/Tests.antt =====
-- A pair of files that is written anew, and one that is removed and made again.
use fakes3pp.Prelude.{
  ℕ, List, ◌≡◌, refl, true, false, ◌==◌, [], ◌∷◌, Option, none, some, if◌then◌else◌,
}
use fakes3pp.UserError.{text}
use fakes3pp.Outcome.{Result, ok, fail}
use fakes3pp.Server.TlsReloader.{
  Tls, cert_file, key_file, World, Action, written, removed, taken, Reloader, load_locked,
  new_tls_certificate_reloader, rearm_watch, watch_loop_turn, act, run, get_certificate,
}
use fakes3pp.Server.Rotation.{run-IsFresh}

-- A certificate and a key are a pair when they bear the same number.
abbrev pair : Option ℕ → Option ℕ → Result ℕ
pair none key = fail (text "no such file")
pair (some c) none = fail (text "no such file")
pair (some c) (some k) =
    if c == k then ok c else fail (text "private key does not match public key")

abbrev tls : Tls
tls = record { Content = ℕ; Certificate = ℕ; load_x509_key_pair = pair; add_error = λ c. none }

abbrev files : World ℕ
files = record {
  cert_content = some 1;
  key_content = some 1;
  cert_watched = false;
  key_watched = false;
  events = [];
}

abbrev started : Reloader tls
started = record { world = record files { cert_watched = true; key_watched = true }; cert = some 1 }

starts : new_tls_certificate_reloader tls files ≡ ok started
unfolding new_tls_certificate_reloader
starts = refl

-- While only one of the files is new, the pair before is served.
half_written : get_certificate tls (run tls (written cert_file 2 ∷ taken ∷ []) started) ≡ some 1
unfolding run act watch_loop_turn load_locked rearm_watch
half_written = refl

abbrev both_written : List (Action ℕ)
both_written = written cert_file 2 ∷ taken ∷ written key_file 2 ∷ taken ∷ []

all_taken : (run tls both_written started).world.events ≡ []
unfolding run act watch_loop_turn load_locked rearm_watch
all_taken = refl

loads :
    pair
      (run tls both_written started).world.cert_content
      (run tls both_written started).world.key_content
    ≡ ok 2
unfolding run act watch_loop_turn load_locked rearm_watch
loads = refl

run-IsFresh_example : get_certificate tls (run tls both_written started) ≡ some 2
run-IsFresh_example =
    run-IsFresh tls files started both_written 2 refl starts (tt, (tt, (tt, (tt, tt)))) all_taken
      loads

-- Files that are removed and made again before the events are handled: the watches are there again,
-- nothing waits, and the pair before is served.
abbrev rotated : List (Action ℕ)
rotated =
    removed cert_file
    ∷ removed key_file
    ∷ written cert_file 2
    ∷ written key_file 2
    ∷ taken
    ∷ taken
    ∷ []

stale : run tls rotated started ≡ record {
  world = record {
    cert_content = some 2;
    key_content = some 2;
    cert_watched = true;
    key_watched = true;
    events = [];
  };
  cert = some 1;
}
unfolding run act watch_loop_turn load_locked rearm_watch
stale = refl

-- A file that comes back after its event was handled is not watched again.
unwatched :
    (run tls
      (removed cert_file
        ∷ taken
        ∷ written cert_file 2
        ∷ written key_file 2
        ∷ taken
        ∷ written cert_file 3
        ∷ [])
      started).world.cert_watched
    ≡ false
unfolding run act watch_loop_turn load_locked rearm_watch
unwatched = refl
