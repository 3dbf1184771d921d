-- ===== src/Cli/Config.antt =====
-- cmd/config.go, and the readers of settings of cmd/proxys3.go: what the commands read from the
-- environment, through the package viper.
use fakes3pp.Prelude.{
  ℕ, String, Bool, List, [], ◌∷◌, map, Option, none, some, ◌==◌, ◌*◌, ◌%◌, ◌^◌, ◌||◌, str_eq,
  if◌then◌else◌,
}
use fakes3pp.Text.{append, to_lower}
use fakes3pp.UserError.{text, wrapped, message}
use fakes3pp.Outcome.{Result, ok, fail, panic, ◌>>=◌, map_error}
use fakes3pp.Cli.EnvVars.{EnvVarDef, should_be_set_for, env_var_defs}

-- What the package viper holds, and what the code asks it: to read a setting from a variable of the
-- environment, whether a setting has a value, a setting as a whole number (an int is its residue modulo
-- 2^64), as a text and as a list of texts.
pub record Viper : Type 1 where
  pub Bound : Type 0
  pub bind_env : String → String → Bound → Result Bound
  pub is_set : Bound → String → Bool
  pub get_int : Bound → String → ℕ
  pub get_string : Bound → String → String
  pub unmarshal_key : Bound → String → Result (List String)

-- How the reading of the environment ends: it returns, the process exits, or it panics.
pub data Start {ℓ} (B : Type ℓ) : Type ℓ where
  bound : B → Start B
  exited : EnvVarDef → Start B
  panicked : Start B

abbrev pub and_then {ℓ} : {B : Type ℓ} → Start B → (B → Start B) → Start B
and_then (bound v) next = next v
and_then (exited evd) next = exited evd
and_then panicked next = panicked

-- The names of the S3 proxy, once they were read; none stands for the nil slice.
abbrev pub S3ProxyFqdns : Type 0
S3ProxyFqdns = Option (List String)

-- The names that were read, in lower case, and what is kept of them.
abbrev pub lower_and_keep : Result (List String) → Result (List String) × S3ProxyFqdns
lower_and_keep (ok fqdns) = (ok (map to_lower fqdns), some (map to_lower fqdns))
lower_and_keep (fail e) = (fail e, none)
lower_and_keep panic = (panic, none)

module _ (V : Viper) where
  open V use {Bound, bind_env, is_set, get_int, get_string, unmarshal_key}

  -- `checkViperVarNotEmpty`.
  unfoldable pub check_viper_var_not_empty : EnvVarDef → Bound → Start Bound
  check_viper_var_not_empty evd v =
      if is_set v evd.viper_key then bound v else if evd.is_critical then exited evd else bound v

  abbrev pub bind_checked : EnvVarDef → Result Bound → Start Bound
  bind_checked evd (ok v) = check_viper_var_not_empty evd v
  bind_checked evd (fail e) = panicked
  bind_checked evd panic = panicked

  -- The loop of `BindEnvVariables`.
  unfoldable pub bind_loop : String → List EnvVarDef → Bound → Start Bound
  bind_loop cmd [] v = bound v
  bind_loop cmd (evd ∷ evds) v =
      let next = bind_loop cmd evds in
      if should_be_set_for evd cmd
      then and_then (bind_checked evd (bind_env evd.viper_key evd.env_var_name v)) next
      else next v

  -- `BindEnvVariables`.
  unfoldable pub bind_env_variables : String → Bound → Start Bound
  bind_env_variables cmd v = bind_loop cmd env_var_defs v

  -- `getMinStsDurationSeconds`.
  unfoldable pub get_min_sts_duration_seconds : Bound → ℕ
  get_min_sts_duration_seconds v =
      let min_duration_seconds = get_int v "stsMinimalDurationSeconds" in
      if min_duration_seconds == 0 then 15 * 60 else min_duration_seconds

  -- `getMaxStsDurationSeconds`.
  unfoldable pub get_max_sts_duration_seconds : Bound → ℕ
  get_max_sts_duration_seconds v =
      let max_duration_seconds = get_int v "stsMaxDurationSeconds" in
      if max_duration_seconds == 0 then 12 * 3600 else max_duration_seconds

  -- `getMaxStsDuration`, in nanoseconds.
  unfoldable pub get_max_sts_duration : Bound → ℕ
  get_max_sts_duration v = 1000000000 * get_max_sts_duration_seconds v % 2 ^ 64

  -- `getStsProxyFQDNs`.
  unfoldable pub get_sts_proxy_fqdns : Bound → Result (List String)
  get_sts_proxy_fqdns v = unmarshal_key v "stsProxyFQDN"

  -- `getS3ProxyFQDNs`.
  unfoldable pub get_s3_proxy_fqdns : Bound → Result (List String)
  get_s3_proxy_fqdns v = unmarshal_key v "s3ProxyFQDN"

  -- `getS3ProxyLCFQDNs`: the names in lower case, and what is kept for the next call.
  unfoldable pub get_s3_proxy_lc_fqdns : Bound → S3ProxyFqdns → Result (List String) × S3ProxyFqdns
  get_s3_proxy_lc_fqdns v (some fqdns) = (ok fqdns, some fqdns)
  get_s3_proxy_lc_fqdns v none = lower_and_keep (get_s3_proxy_fqdns v)

  abbrev pub main_fqdn : List String → Result String
  main_fqdn [] = fail (text "no S3ProxyFQDN available")
  main_fqdn (fqdn ∷ fqdns) = ok fqdn

  -- `getMainS3ProxyFQDN`.
  unfoldable pub get_main_s3_proxy_fqdn : Bound → S3ProxyFqdns → Result String × S3ProxyFqdns
  get_main_s3_proxy_fqdn v kept =
      let read = get_s3_proxy_lc_fqdns v kept in (read.0 >>= main_fqdn, read.1)

  -- `getS3CORSHandler`, as the origin that it allows, or nil; `origin` is the text of the variable
  -- FAKES3PP_S3_CORS_STATIC_ALLOWED_ORIGIN.
  unfoldable pub get_s3_cors_handler : String → Bound → Option String
  get_s3_cors_handler origin v =
      let strategy = to_lower (get_string v "corsStrategy") in
      if str_eq strategy "static"
      then some origin
      else if str_eq strategy "deny-all" || str_eq strategy ""
      then some ""
      else none

  module _ {Regexp : Type 0} (compile : String → Result Regexp) where
    -- The loop of `getS3RemovableQueryParamRegexes`.
    unfoldable pub compile_loop : List String → Result (List Regexp)
    compile_loop [] = ok []
    compile_loop (query_param_name ∷ names) = do
      candidate ←
          map_error
            (λ e.
              wrapped
                (append "got " (
                  append (message e)
                    (append " when processing removable query param " query_param_name)))
                e)
            (compile query_param_name)
      regexes ← compile_loop names
      ok (candidate ∷ regexes)

    -- `getS3RemovableQueryParamRegexes`.
    unfoldable pub get_s3_removable_query_param_regexes : Bound → Result (List Regexp)
    get_s3_removable_query_param_regexes v = do
      query_param_names ← unmarshal_key v "s3ProxyRemovableQueryParams"
      compile_loop query_param_names

-- The CORS handler of a server that is given none, in `newS3Server`.
abbrev pub cors_handler_or_default : Option String → String
cors_handler_or_default none = ""
cors_handler_or_default (some origin) = origin
