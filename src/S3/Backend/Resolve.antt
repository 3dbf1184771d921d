-- ===== src/S3/Backend/Resolve.antt =====
-- Which backend a request ends at.
use fakes3pp.Prelude.{
  ℕ, suc, String, ◌≡◌, refl, ap, ◌∙◌, true, false, none, some, arith, str_eq, eq_iff, eq_refl,
  if◌then◌else◌, Bool-cases, Option-cases, inl, inr, ◌⊎◌,
}
use fakes3pp.Map.{lookup, has_key}
use fakes3pp.Outcome.{Result, ok, fail}
use fakes3pp.S3.Backend.Config.{
  BackendConfigEntry, BackendsConfig, err_invalid_backend, get_backend_config_in,
  get_backend_config,
}
use fakes3pp.S3.Backend.Valid.{IsValid, IsUsable}

-- The backend that an identifier stands for: the empty one for the default, and under the legacy
-- behaviour an unknown one too.
abbrev pub resolved : BackendsConfig → String → String
resolved cfg id =
    if str_eq id ""
    then cfg.default_backend
    else if has_key id cfg.backends
    then id
    else if cfg.invalid_region_to_default_region
    then cfg.default_backend
    else id

abbrev pub found : BackendsConfig → String → Result BackendConfigEntry
found cfg id = elim (lookup id cfg.backends) [ none ↦ fail err_invalid_backend | some e ↦ ok e ]

-- Two rounds and any further fuel give one and the same answer: the entry of the backend that the
-- identifier stands for, or the error for an unknown backend.
pub get_backend_config_in_lem :
    (fuel : ℕ) (cfg : BackendsConfig) (id : String)
    → get_backend_config_in (suc (suc fuel)) cfg id ≡ some (found cfg (resolved cfg id))
unfolding get_backend_config_in
get_backend_config_in_lem fuel cfg id = ground (
  arith,
  eq_iff id "",
  eq_iff id cfg.default_backend,
  eq_refl cfg.default_backend,
  eq_iff cfg.default_backend "",
)

get_backend_config_lem :
    (cfg : BackendsConfig) (id : String)
    → get_backend_config (some cfg) id ≡ found cfg (resolved cfg id)
unfolding get_backend_config
get_backend_config_lem cfg id = rw (get_backend_config_in_lem 0 cfg id) refl

module _ (cfg : BackendsConfig) (valid : IsValid cfg) where
  default_found : (e : BackendConfigEntry) × (lookup cfg.default_backend cfg.backends ≡ some e)
  default_found = elim (Option-cases (lookup cfg.default_backend cfg.backends)) [
    | inl q ↦ absurd (ground (arith, valid.default))
    | inr q ↦ q
  ]

  key_found :
      (id : String)
      → has_key id cfg.backends ≡ true
      → (e : BackendConfigEntry) × (lookup id cfg.backends ≡ some e)
  key_found id h = elim (Option-cases (lookup id cfg.backends)) [
    | inl q ↦ absurd (ground arith)
    | inr q ↦ q
  ]

  found-IsUsable :
      (id name : String)
      → resolved cfg id ≡ name
      → (e : BackendConfigEntry) × (lookup name cfg.backends ≡ some e)
      → (e : BackendConfigEntry) × (get_backend_config (some cfg) id ≡ ok e) × IsUsable e
  found-IsUsable id name h (e, q) = (
    e,
    get_backend_config_lem cfg id ∙ ap (found cfg) h ∙ rw (q, found) refl,
    valid.usable name e q,
  )

  -- Under a valid configuration every identifier has a usable backend if the legacy behaviour is
  -- on; if it is off, the empty identifier and those of the backends have one, and every other is
  -- answered by the error for an invalid backend.
  pub get_backend_config-IsValid :
      (id : String)
      → ((e : BackendConfigEntry) × (get_backend_config (some cfg) id ≡ ok e) × IsUsable e)
        ⊎ ((cfg.invalid_region_to_default_region ≡ false)
            × (str_eq id "" ≡ false)
            × (has_key id cfg.backends ≡ false)
            × (get_backend_config (some cfg) id ≡ fail err_invalid_backend))
  get_backend_config-IsValid id = elim (Bool-cases (str_eq id "")) [
    | inl q ↦ inl (found-IsUsable id cfg.default_backend (rw q refl) default_found)
    | inr q ↦ elim (Bool-cases (has_key id cfg.backends)) [
      | inl k ↦ inl (found-IsUsable id id (ground arith) (key_found id k))
      | inr k ↦ elim (Bool-cases cfg.invalid_region_to_default_region) [
        | inl l ↦ inl (found-IsUsable id cfg.default_backend (ground arith) default_found)
        | inr l ↦ inr (l, q, k, get_backend_config_lem cfg id ∙ ground arith)
      ]
    ]
  ]
