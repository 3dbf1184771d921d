-- ===== src/Iam/Manager/Tests.antt =====
-- The theorems on the policy manager at concrete files and templates.
use fakes3pp.Prelude.{String, ◌≡◌, refl, [], ◌∷◌, none, some, if◌then◌else◌, str_eq}
use fakes3pp.Map.{Map, lookup, insert, delete, contains}
use fakes3pp.UserError.{text}
use fakes3pp.Outcome.{ok, fail, panic}
use fakes3pp.Iam.Manager.Cache.{Templates, Retriever, get_policy_template, parsed}
use fakes3pp.Iam.Manager.Lookup.{cached}
use fakes3pp.Iam.Manager.Retriever.{
  Base32, get_policy_path, get_policy_arn, get_policy_arn-get_policy_path, slice_between,
}
use fakes3pp.Iam.Manager.Watch.{
  System, move, remove, handle, path, read, ask, watch_for, start_watching, deliver, start, asked,
  Reach, here, next,
}
use fakes3pp.Iam.Manager.Delivery.{reached_deliver, reached_cache}
use fakes3pp.Iam.Manager.Race.{overtaken, overtaken_stale}

-- Templates that stand for themselves, and names that are not encoded.
abbrev plain : Templates
plain = record { Template = String; Input = String; parse = λ arn t. ok t; execute = λ t i. ok t }

abbrev unencoded : Base32
unencoded = record { b32 = λ s. s; b32_decode = λ s. ok s; b32_decode-b32 = λ s. refl }

abbrev one_file : Map String
one_file = ("/p/role.json.tmpl", "v1") ∷ []

abbrev PlainSystem : Type 0
PlainSystem = System plain unencoded "/p"

abbrev before : PlainSystem
before = start plain unencoded "/p" one_file

abbrev after : PlainSystem
after = ask plain unencoded "/p" before "role"

abbrev role_was_asked : Reach plain unencoded "/p" one_file after
role_was_asked = next here (asked before "role")

role_is_cached : cached plain after.manager "role" ≡ some "v1"
unfolding ask watch_for start_watching get_policy_template lookup get_policy_path insert contains
role_is_cached = refl

nothing_pending : after.pending ≡ []
unfolding ask watch_for start_watching lookup get_policy_path contains
nothing_pending = refl

reached_cache_example :
    parsed plain "role" (read after.files (path plain unencoded "/p" "role")) ≡ ok "v1"
reached_cache_example =
    reached_cache plain unencoded "/p" one_file after role_was_asked (tt, tt) nothing_pending "role"
      "v1" role_is_cached

reached_deliver_example : (s' : PlainSystem) × (deliver plain unencoded "/p" after ≡ ok s')
reached_deliver_example = reached_deliver plain unencoded "/p" one_file after role_was_asked

role_file : lookup (path plain unencoded "/p" "role") before.files ≡ some "v1"
unfolding lookup get_policy_path
role_file = refl

not_cached : cached plain before.manager "role" ≡ none
unfolding lookup
not_cached = refl

overtaken_stale_example :
    (s' : PlainSystem) × (overtaken plain unencoded "/p" before "role" "v2" ≡ ok s')
    × (s'.pending ≡ [])
    × (lookup (path plain unencoded "/p" "role") s'.files ≡ some "v2")
    × (cached plain s'.manager "role" ≡ some "v1")
overtaken_stale_example =
    overtaken_stale plain unencoded "/p" before "role" "v1" "v2" "v1" not_cached refl role_file refl

abbrev answering : Retriever
answering = record {
  retrieve_policy_str =
      λ arn. if str_eq arn "role" then ok "v1" else fail (text "no such file or directory");
  retrieve_all_identifiers = ok ("role" ∷ []);
}

get_policy_arn-get_policy_path_example :
    get_policy_arn unencoded "/p" (get_policy_path unencoded "/p" "role") ≡ ok "role"
get_policy_arn-get_policy_path_example = get_policy_arn-get_policy_path unencoded "/p" "role"

-- A file that is moved away while it is watched: the template stays, and nothing is under way.
abbrev moved_away : PlainSystem
moved_away = move plain unencoded "/p" after "/p/role.json.tmpl" "/p/old"

stale_after_move :
    (s' : PlainSystem) × (deliver plain unencoded "/p" moved_away ≡ ok s')
    × (s'.pending ≡ [])
    × (read s'.files "/p/role.json.tmpl" ≡ fail (text "no such file or directory"))
    × (cached plain s'.manager "role" ≡ some "v1")
unfolding move remove deliver handle ask watch_for start_watching get_policy_template lookup
    get_policy_path insert delete contains
stale_after_move = (_, refl, refl, refl, refl)

-- A path that is shorter than the prefix and the suffix together.
short_path : get_policy_arn unencoded "/p" "/p/x" ≡ panic
unfolding get_policy_arn slice_between
short_path = refl
