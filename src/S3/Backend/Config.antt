-- ===== src/S3/Backend/Config.antt =====
-- `backendsConfig` of aws/service/s3/backendconfig.go: how it is read, and how it answers.
use fakes3pp.Prelude.{
  ℕ, zero, suc, String, Bool, true, false, not, ◌&&◌, Option, none, some, List, [], ◌∷◌, str_eq,
  if◌then◌else◌,
}
use fakes3pp.Text.{append}
use fakes3pp.Map.{Map, lookup, insert, has_key}
use fakes3pp.UserError.{Error, text, message}
use fakes3pp.Outcome.{Result, ok, fail, panic, ◌>>=◌, map_error}
use fakes3pp.S3.Backend.Endpoint.{build_endpoint}
use fakes3pp.S3.Backend.Credentials.{AwsCredentials, Any, Platform, get_credentials}

-- `interfaces.S3Capability`, with one constructor as long as there is one capability.
pub data S3Capability : Type 0 where
  streaming_unsigned_payload_trailer : S3Capability

-- `interfaces.S3CapabilityLookup`.
unfoldable pub s3_capability_lookup : String → Option S3Capability
s3_capability_lookup name =
    if str_eq name "StreamingUnsignedPayloadTrailer"
    then some streaming_unsigned_payload_trailer
    else none

-- `backendConfigFileEntry`, `backendsConfigFile`.
pub record BackendConfigFileEntry : Type 0 where
  pub region_name : String
  pub credentials : Map Any
  pub endpoint : String
  pub capabilities : List String

pub record BackendsConfigFile : Type 0 where
  pub backends : List BackendConfigFileEntry
  pub default : String

-- `backendConfigEntry`, `backendsConfig`.
pub record BackendConfigEntry : Type 0 where
  pub credentials : AwsCredentials
  pub endpoint : String
  pub capabilities : List S3Capability

pub record BackendsConfig : Type 0 where
  pub backends : Map BackendConfigEntry
  pub default_backend : String
  pub invalid_region_to_default_region : Bool

-- `%v` of an entry of the file, for messages.
abbrev pub Show : Type 0
Show = BackendConfigFileEntry → String

abbrev capability : Show → BackendConfigFileEntry → String → Result S3Capability
capability show input name = elim (s3_capability_lookup name) [
  | none ↦
      fail (text (append "unknown capability: " (append name (append " in config " (show input)))))
  | some c ↦ ok c
]

-- The loop over the capabilities of an entry.
unfoldable pub capabilities_of :
    Show → BackendConfigFileEntry → List String → Result (List S3Capability)
capabilities_of show input [] = ok []
capabilities_of show input (name ∷ names) = do
  c ← capability show input name
  cs ← capabilities_of show input names
  ok (c ∷ cs)

module _ (P : Platform) (show : Show) where
  -- `fromBackendConfigFileEntry`. An error of the credentials waits until the capabilities are read.
  unfoldable pub from_backend_config_file_entry :
      BackendConfigFileEntry → String → Result BackendConfigEntry
  from_backend_config_file_entry input relativepath = do
    endpoint ← build_endpoint input.endpoint
    capabilities ← capabilities_of show input input.capabilities
    credentials ← get_credentials P input.credentials relativepath
    ok (record { credentials = credentials; endpoint = endpoint; capabilities = capabilities })

  abbrev pub invalid_config : BackendConfigFileEntry → Error → Error
  invalid_config raw e =
      text (append "invalid config " (append (show raw) (append " resulted in " (message e))))

  -- The loop over the entries of the file: of two with one region the later one stays.
  unfoldable pub add_backends :
      List BackendConfigFileEntry
      → String
      → Map BackendConfigEntry
      → Result (Map BackendConfigEntry)
  add_backends [] relativepath backends = ok backends
  add_backends (raw ∷ raws) relativepath backends = do
    entry ← map_error (invalid_config raw) (from_backend_config_file_entry raw relativepath)
    add_backends raws relativepath (insert raw.region_name entry backends)

-- The end of `getBackendsConfigFromBytes`: the default has to be one of the backends.
unfoldable pub with_default : String → Bool → Map BackendConfigEntry → Result BackendsConfig
with_default default legacy_behavior backends =
    if not (has_key default backends)
    then fail (text (append "default backend " (append default " does not exist")))
    else ok (record {
      backends = backends;
      default_backend = default;
      invalid_region_to_default_region = legacy_behavior;
    })

-- `getBackendsConfigFromBytes`, from the result of `yaml.Unmarshal`.
unfoldable pub get_backends_config_from_bytes :
    Platform → Show → Result BackendsConfigFile → Bool → String → Result BackendsConfig
unfolding with_default
get_backends_config_from_bytes P show unmarshalled legacy_behavior relativepath = do
  c ← unmarshalled
  backends ← add_backends P show c.backends relativepath []
  with_default c.default legacy_behavior backends

-- `errInvalidBackendErr`.
abbrev pub err_invalid_backend : Error
err_invalid_backend = text "invalid BackendId"

-- `getBackendConfig`, with fuel for its call of itself; `none` means that the fuel ran out.
unfoldable pub get_backend_config_in :
    ℕ → BackendsConfig → String → Option (Result BackendConfigEntry)
get_backend_config_in zero cfg backend_id = none
get_backend_config_in (suc fuel) cfg backend_id =
    let id = if str_eq backend_id "" then cfg.default_backend else backend_id in
    let again = get_backend_config_in fuel cfg cfg.default_backend in
    elim (lookup id cfg.backends) [
      | some entry ↦ some (ok entry)
      | none ↦
          if cfg.invalid_region_to_default_region && not (str_eq id cfg.default_backend)
          then again
          else some (fail err_invalid_backend)
    ]

abbrev or_panic : Option (Result BackendConfigEntry) → Result BackendConfigEntry
or_panic none = panic
or_panic (some r) = r

-- `getBackendConfig`, where `none` is a nil configuration: two rounds are enough.
unfoldable pub get_backend_config : Option BackendsConfig → String → Result BackendConfigEntry
unfolding get_backend_config_in
get_backend_config none backend_id = fail (text "backendsConfig not initialised")
get_backend_config (some cfg) backend_id = or_panic (get_backend_config_in 2 cfg backend_id)

-- `slices.Contains` for capabilities: there is one.
abbrev has : List S3Capability → S3Capability → Bool
has [] c = false
has (streaming_unsigned_payload_trailer ∷ cs) streaming_unsigned_payload_trailer = true

-- `HasCapability`.
unfoldable pub has_capability : Option BackendsConfig → String → S3Capability → Bool
has_capability cfg backend_id c = elim (get_backend_config cfg backend_id) [
  | ok entry ↦ has entry.capabilities c
  | _ ↦ false
]

-- `(cfg *backendsConfig) GetBackendCredentials`.
unfoldable pub get_backend_credentials : Option BackendsConfig → String → Result AwsCredentials
get_backend_credentials cfg backend_id = do
  entry ← get_backend_config cfg backend_id
  ok entry.credentials

-- `GetBackendEndpoint`.
unfoldable pub get_backend_endpoint : Option BackendsConfig → String → Result String
get_backend_endpoint cfg backend_id = do
  entry ← get_backend_config cfg backend_id
  ok entry.endpoint

-- `GetDefaultBackend`.
unfoldable pub get_default_backend : BackendsConfig → String
get_default_backend cfg = cfg.default_backend
