-- ===== src/Cli/Tests.antt =====
-- The settings of the S3 proxy in a small environment, and which settings a command reads.
use fakes3pp.Prelude.{
  All, Bool-cases, inl, inr, subst, arith, String, ◌≡◌, refl, Bool, true, false, any, List, [], ◌∷◌,
  Option, none, some, str_eq, if◌then◌else◌,
}
use fakes3pp.Map.{Map, lookup}
use fakes3pp.UserError.{text}
use fakes3pp.Text.{to_lower}
use fakes3pp.Outcome.{ok-eq-ok, ok, fail}
use fakes3pp.Cli.EnvVars.{EnvVarDef, should_be_set_for, env_var_defs, proxys3, proxysts}
use fakes3pp.Cli.Started.{KeepsValues, IsProvided, bind_env_variables-IsProvided}
use fakes3pp.Cli.Config.{
  Viper, bound, exited, bind_env_variables, bind_loop, check_viper_var_not_empty,
  get_min_sts_duration_seconds, get_s3_cors_handler,
}

abbrev has : Option String → Bool
has none = false
has (some v) = true

-- A setting has a value once its variable was looked up in the environment, when that has it.
abbrev viper : Map String → Viper
viper environment = record {
  Bound = List String;
  bind_env = λ key name v. ok (if has (lookup name environment) then key ∷ v else v);
  is_set = λ v key. any (λ k. str_eq k key) v;
  get_int = λ v key. 0;
  get_string = λ v key. "Deny-All";
  unmarshal_key = λ v key. fail (text "not a list");
}

abbrev environment : Map String
environment =
    ("FAKES3PP_STS_PROXY_FQDN", "localhost")
    ∷ ("FAKES3PP_STS_PROXY_TLS_PORT", "8444")
    ∷ ("FAKES3PP_PROXY_JWT_PRIVATE_RSA_KEY", "key.pem")
    ∷ ("FAKES3PP_PROXY_JWT_PUBLIC_RSA_KEY", "pub.pem")
    ∷ ("FAKES3PP_STS_OIDC_CONFIG", "oidc.yaml")
    ∷ ("FAKES3PP_ROLE_POLICY_PATH", "policies")
    ∷ []

sts_starts :
    bind_env_variables (viper environment) proxysts []
    ≡ bound (
        "rolePolicyPath" ∷ "stsOIDCConfigFile" ∷ "stsProxyPort" ∷ "stsProxyFQDN"
        ∷ "proxyJwtPublicRSAKey" ∷ "proxyJwtPrivateRSAKey" ∷ [])
unfolding bind_env_variables bind_loop check_viper_var_not_empty env_var_defs should_be_set_for
    lookup
sts_starts = refl

-- The S3 proxy stops at the first setting that it cannot do without.
abbrev s3_proxy_fqdn : EnvVarDef
s3_proxy_fqdn = record {
  viper_key = "s3ProxyFQDN";
  env_var_name = "FAKES3PP_S3_PROXY_FQDN";
  is_critical = true;
  cmds = proxys3 ∷ [];
}

s3_exits : bind_env_variables (viper environment) proxys3 [] ≡ exited s3_proxy_fqdn
unfolding bind_env_variables bind_loop check_viper_var_not_empty env_var_defs should_be_set_for
    lookup
s3_exits = refl

quarter_of_an_hour : get_min_sts_duration_seconds (viper []) [] ≡ 900
unfolding get_min_sts_duration_seconds
quarter_of_an_hour = refl

deny_all : get_s3_cors_handler (viper []) "https://example.org" [] ≡ some ""
unfolding get_s3_cors_handler to_lower
deny_all = refl

viper_keeps : (env : Map String) → KeepsValues (viper env)
viper_keeps env key name other v w e h = elim (Bool-cases (has (lookup name env))) [
  | inl y ↦
      subst (λ (x : List String). any (λ k. str_eq k other) x ≡ true) (ok-eq-ok _ _ (rw y at e))
        (ground arith)
  | inr y ↦
      subst (λ (x : List String). any (λ k. str_eq k other) x ≡ true) (ok-eq-ok _ _ (rw y at e)) h
]

abbrev sts_settings : List String
sts_settings =
    "rolePolicyPath" ∷ "stsOIDCConfigFile" ∷ "stsProxyPort" ∷ "stsProxyFQDN"
    ∷ "proxyJwtPublicRSAKey" ∷ "proxyJwtPrivateRSAKey" ∷ []

bind_env_variables-IsProvided_example :
    All (IsProvided (viper environment) proxysts sts_settings) env_var_defs
bind_env_variables-IsProvided_example =
    bind_env_variables-IsProvided (viper environment) (viper_keeps environment) proxysts []
      sts_settings sts_starts
