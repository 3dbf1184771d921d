-- ===== src/S3/Backend/Valid.antt =====
-- What holds of a configuration that was read without an error.
use fakes3pp.Prelude.{
  String, ◌≡◌, refl, sym, subst, ◌∙◌, Bool, true, some, List, [], ◌∷◌, arith, str_eq, eq_iff,
  Bool-cases, inl, inr,
}
use fakes3pp.Map.{Map, lookup, insert, has_key, lookup-insert_self, lookup-insert_ne, some-eq-some}
use fakes3pp.Outcome.{map_error-eq-ok, ok, >>=-eq-ok, ok-eq-ok, map_error}
use fakes3pp.S3.Backend.Endpoint.{build_endpoint, get_host, get_host-build_endpoint}
use fakes3pp.S3.Backend.Credentials.{Platform, HasKeys, get_credentials, get_credentials-HasKeys}
use fakes3pp.S3.Backend.Config.{
  BackendConfigFileEntry, BackendsConfigFile, BackendConfigEntry, BackendsConfig,
  from_backend_config_file_entry, add_backends, with_default, get_backends_config_from_bytes,
  invalid_config,
}

-- An entry that requests can be sent to: its host can be taken, and its credentials have keys.
pub record IsUsable (e : BackendConfigEntry) : Type 0 where
  pub host : (h : String) × (get_host e.endpoint ≡ ok h)
  pub keys : HasKeys e.credentials

-- Every backend is usable, and there is the default one.
pub record IsValid (cfg : BackendsConfig) : Type 0 where
  pub usable : (id : String) (e : BackendConfigEntry) → lookup id cfg.backends ≡ some e → IsUsable e
  pub default : has_key cfg.default_backend cfg.backends ≡ true

module _ (P : Platform) (show : BackendConfigFileEntry → String) where
  from_entry_parts :
      (input : BackendConfigFileEntry) (r : String) (e : BackendConfigEntry)
      → from_backend_config_file_entry P show input r ≡ ok e
      → (build_endpoint input.endpoint ≡ ok e.endpoint)
        × (get_credentials P input.credentials r ≡ ok e.credentials)
  unfolding from_backend_config_file_entry
  from_entry_parts input r e h = ground arith

  from_entry-IsUsable :
      (input : BackendConfigFileEntry) (r : String) (e : BackendConfigEntry)
      → from_backend_config_file_entry P show input r ≡ ok e
      → IsUsable e
  from_entry-IsUsable input r e h =
      let (q, k) = from_entry_parts input r e h in
      record {
        host = (get_host-build_endpoint input.endpoint e.endpoint q).1;
        keys = get_credentials-HasKeys P input.credentials r e.credentials k;
      }

  abbrev AllUsable : Map BackendConfigEntry → Type 0
  AllUsable m = (id : String) (e : BackendConfigEntry) → lookup id m ≡ some e → IsUsable e

  insert-AllUsable :
      (k : String) (x : BackendConfigEntry) (m : Map BackendConfigEntry)
      → IsUsable x
      → AllUsable m
      → AllUsable (insert k x m)
  insert-AllUsable k x m hx hm id e h = elim (Bool-cases (str_eq k id)) [
    | inl q ↦
        subst IsUsable
          (some-eq-some x e (
            sym (lookup-insert_self k x m)
            ∙ subst (λ (i : String). lookup i (insert k x m) ≡ some e) (sym ((eq_iff k id).0 q)) h))
          hx
    | inr q ↦ hm id e (sym (lookup-insert_ne k id x m q) ∙ h)
  ]

  add_backends-AllUsable :
      (raws : List BackendConfigFileEntry) (r : String) (m : Map BackendConfigEntry)
      {m' : Map BackendConfigEntry}
      → AllUsable m
      → add_backends P show raws r m ≡ ok m'
      → AllUsable m'
  unfolding add_backends
  add_backends-AllUsable [] r m hm h = subst AllUsable (ok-eq-ok _ _ h) hm
  add_backends-AllUsable (raw ∷ raws) r m hm h =
      let (x, q, k) =
        >>=-eq-ok
          (map_error (invalid_config P show raw) (from_backend_config_file_entry P show raw r))
          (λ entry. add_backends P show raws r (insert raw.region_name entry m)) h in
      add_backends-AllUsable raws r _
        (insert-AllUsable raw.region_name x m
          (from_entry-IsUsable raw r x (map_error-eq-ok _ _ _ q)) hm)
        k

  empty-AllUsable : AllUsable []
  unfolding lookup
  empty-AllUsable id e h = absurd (cc)

  abbrev built : String → Bool → Map BackendConfigEntry → BackendsConfig
  built d legacy m = record {
    backends = m;
    default_backend = d;
    invalid_region_to_default_region = legacy;
  }

  with_default-built :
      (d : String) (legacy : Bool) (m : Map BackendConfigEntry)
      → has_key d m ≡ true
      → with_default d legacy m ≡ ok (built d legacy m)
  unfolding with_default
  with_default-built d legacy m q = ground arith

  with_default-IsValid :
      (d : String) (legacy : Bool) (m : Map BackendConfigEntry) (cfg : BackendsConfig)
      → AllUsable m
      → with_default d legacy m ≡ ok cfg
      → IsValid cfg × (cfg.default_backend ≡ d) × (cfg.invalid_region_to_default_region ≡ legacy)
  unfolding with_default
  with_default-IsValid d legacy m cfg hm h = elim (Bool-cases (has_key d m)) [
    | inl q ↦
        subst
          (λ (x : BackendsConfig).
            IsValid x × (x.default_backend ≡ d) × (x.invalid_region_to_default_region ≡ legacy))
          (ok-eq-ok (built d legacy m) cfg (sym (with_default-built d legacy m q) ∙ h))
          (record { usable = hm; default = q }, refl, refl)
    | inr q ↦ absurd (ground arith)
  ]

  -- A configuration that `getBackendsConfigFromBytes` returns has its default backend among its
  -- backends, and every backend has an endpoint whose host can be taken without a panic and
  -- credentials with both keys; the default and the legacy behaviour are those that were asked for.
  pub get_backends_config_from_bytes-IsValid :
      (c : BackendsConfigFile) (legacy : Bool) (r : String) (cfg : BackendsConfig)
      → get_backends_config_from_bytes P show (ok c) legacy r ≡ ok cfg
      → IsValid cfg
        × (cfg.default_backend ≡ c.default)
        × (cfg.invalid_region_to_default_region ≡ legacy)
  unfolding get_backends_config_from_bytes
  get_backends_config_from_bytes-IsValid c legacy r cfg h =
      let (m, q, k) =
        >>=-eq-ok (add_backends P show c.backends r []) (with_default c.default legacy) h in
      with_default-IsValid c.default legacy m cfg
        (add_backends-AllUsable c.backends r [] empty-AllUsable q) k
