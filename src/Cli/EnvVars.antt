-- ===== src/Cli/EnvVars.antt =====
-- cmd/config.go: the table of the settings that the commands read from the environment. The texts that
-- describe a setting are left out.
use fakes3pp.Prelude.{String, Bool, true, false, List, [], ◌∷◌, str_eq, if◌then◌else◌}

-- The names of the commands.
abbrev pub proxys3 : String
proxys3 = "proxys3"

abbrev pub proxysts : String
proxysts = "proxysts"

-- `envVarDef`: the key of the setting, its variable in the environment, whether a command can do
-- without it, and the commands that read it.
pub record EnvVarDef : Type 0 where
  pub viper_key : String
  pub env_var_name : String
  pub is_critical : Bool
  pub cmds : List String

abbrev pub any_is : String → List String → Bool
any_is cmd [] = false
any_is cmd (applicable_cmd ∷ cmds) = if str_eq applicable_cmd cmd then true else any_is cmd cmds

-- `shouldBeSetFor`.
unfoldable pub should_be_set_for : EnvVarDef → String → Bool
should_be_set_for e cmd = any_is cmd e.cmds

-- `envVarDefs`.
unfoldable pub env_var_defs : List EnvVarDef
env_var_defs =
    record {
      viper_key = "s3ProxyFQDN";
      env_var_name = "FAKES3PP_S3_PROXY_FQDN";
      is_critical = true;
      cmds = proxys3 ∷ [];
    }
    ∷ record {
      viper_key = "s3ProxyPort";
      env_var_name = "FAKES3PP_S3_PROXY_TLS_PORT";
      is_critical = true;
      cmds = proxys3 ∷ [];
    }
    ∷ record {
      viper_key = "s3ProxyCertFile";
      env_var_name = "FAKES3PP_S3_PROXY_TLS_CERT_FILE";
      is_critical = false;
      cmds = proxys3 ∷ [];
    }
    ∷ record {
      viper_key = "s3ProxyKeyFile";
      env_var_name = "FAKES3PP_S3_PROXY_TLS_KEY_FILE";
      is_critical = false;
      cmds = proxys3 ∷ [];
    }
    ∷ record {
      viper_key = "s3ProxyHTTPPort";
      env_var_name = "FAKES3PP_S3_PROXY_HTTP_PORT";
      is_critical = false;
      cmds = proxys3 ∷ [];
    }
    ∷ record {
      viper_key = "proxyJwtPrivateRSAKey";
      env_var_name = "FAKES3PP_PROXY_JWT_PRIVATE_RSA_KEY";
      is_critical = true;
      cmds = proxys3 ∷ proxysts ∷ [];
    }
    ∷ record {
      viper_key = "proxyJwtPublicRSAKey";
      env_var_name = "FAKES3PP_PROXY_JWT_PUBLIC_RSA_KEY";
      is_critical = true;
      cmds = proxys3 ∷ proxysts ∷ [];
    }
    ∷ record {
      viper_key = "s3ProxyRemovableQueryParams";
      env_var_name = "FAKES3PP_S3_PROXY_REMOVABLE_QUERY_PARAMS";
      is_critical = false;
      cmds = proxys3 ∷ [];
    }
    ∷ record {
      viper_key = "stsProxyFQDN";
      env_var_name = "FAKES3PP_STS_PROXY_FQDN";
      is_critical = true;
      cmds = proxysts ∷ proxys3 ∷ [];
    }
    ∷ record {
      viper_key = "stsProxyPort";
      env_var_name = "FAKES3PP_STS_PROXY_TLS_PORT";
      is_critical = true;
      cmds = proxysts ∷ [];
    }
    ∷ record {
      viper_key = "stsProxyHTTPPort";
      env_var_name = "FAKES3PP_STS_PROXY_HTTP_PORT";
      is_critical = false;
      cmds = proxysts ∷ [];
    }
    ∷ record {
      viper_key = "stsProxyCertFile";
      env_var_name = "FAKES3PP_STS_PROXY_TLS_CERT_FILE";
      is_critical = false;
      cmds = proxysts ∷ [];
    }
    ∷ record {
      viper_key = "stsProxyKeyFile";
      env_var_name = "FAKES3PP_STS_PROXY_TLS_KEY_FILE";
      is_critical = false;
      cmds = proxysts ∷ [];
    }
    ∷ record {
      viper_key = "stsOIDCConfigFile";
      env_var_name = "FAKES3PP_STS_OIDC_CONFIG";
      is_critical = true;
      cmds = proxysts ∷ [];
    }
    ∷ record {
      viper_key = "s3BackendConfigFile";
      env_var_name = "FAKES3PP_S3_BACKEND_CONFIG";
      is_critical = true;
      cmds = proxys3 ∷ [];
    }
    ∷ record {
      viper_key = "corsStrategy";
      env_var_name = "FAKES3PP_S3_CORS_STRATEGY";
      is_critical = false;
      cmds = proxys3 ∷ [];
    }
    ∷ record {
      viper_key = "forceRequesterPaysFor";
      env_var_name = "FAKES3PP_S3_FORCE_REQUESTER_PAYS_FOR";
      is_critical = false;
      cmds = proxys3 ∷ [];
    }
    ∷ record {
      viper_key = "s3LoggedResponseHeaders";
      env_var_name = "FAKES3PP_S3_LOGGED_RESPONSE_HEADERS";
      is_critical = false;
      cmds = proxys3 ∷ [];
    }
    ∷ record {
      viper_key = "rolePolicyPath";
      env_var_name = "FAKES3PP_ROLE_POLICY_PATH";
      is_critical = true;
      cmds = proxysts ∷ proxys3 ∷ [];
    }
    ∷ record {
      viper_key = "stsMaxDurationSeconds";
      env_var_name = "FAKES3PP_STS_MAX_DURATION_SECONDS";
      is_critical = false;
      cmds = proxysts ∷ [];
    }
    ∷ record {
      viper_key = "signedUrlGraceTimeSeconds";
      env_var_name = "FAKES3PP_SIGNEDURL_GRACE_TIME_SECONDS";
      is_critical = false;
      cmds = proxys3 ∷ [];
    }
    ∷ record {
      viper_key = "enableLegacyBehaviorInvalidRegionToDefaultRegion";
      env_var_name = "ENABLE_LEGACY_BEHAVIOR_INVALID_REGION_TO_DEFAULT_REGION";
      is_critical = false;
      cmds = proxys3 ∷ [];
    }
    ∷ record {
      viper_key = "logLevel";
      env_var_name = "LOG_LEVEL";
      is_critical = false;
      cmds = proxys3 ∷ proxysts ∷ [];
    }
    ∷ record {
      viper_key = "metricsPort";
      env_var_name = "FAKES3PP_METRICS_PORT";
      is_critical = false;
      cmds = proxys3 ∷ proxysts ∷ [];
    }
    ∷ record {
      viper_key = "stsMinimalDurationSeconds";
      env_var_name = "FAKES3PP_STS_MINIMAL_DURATION_SECONDS";
      is_critical = false;
      cmds = proxysts ∷ [];
    }
    ∷ []
