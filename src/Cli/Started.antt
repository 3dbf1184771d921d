-- ===== src/Cli/Started.antt =====
-- What holds of a command that has started: the proofs on cmd/config.go.
use fakes3pp.Prelude.{
  String, ◌≡◌, refl, ◌||◌, ap, ap₂, ◌∙◌, subst, Bool-cases, inl, inr, true, false, List, [], ◌∷◌,
  map, none, some, All, arith, str_eq,
}
use fakes3pp.Text.{to_lower}
use fakes3pp.Outcome.{Result, ok, fail, panic, >>=-eq-ok, map_error-eq-ok, ok-eq-ok, map_error}
use fakes3pp.Request.Http.{Values}
use fakes3pp.S3.Proxy.{set_headers}
use fakes3pp.Cli.EnvVars.{EnvVarDef, should_be_set_for, env_var_defs}
use fakes3pp.Cli.Config.{
  Viper, Start, bound, exited, panicked, and_then, check_viper_var_not_empty, bind_checked,
  bind_loop, bind_env_variables, S3ProxyFqdns, lower_and_keep, get_s3_proxy_lc_fqdns,
  get_s3_cors_handler, cors_handler_or_default, compile_loop, get_s3_removable_query_param_regexes,
}

and_then-eq-bound :
    {B : Type 0} (s : Start B) (next : B → Start B) (w : B)
    → and_then s next ≡ bound w
    → (v : B) × (s ≡ bound v) × (next v ≡ bound w)
and_then-eq-bound (bound v) next w e = (v, refl, e)
and_then-eq-bound (exited evd) next w e = absurd (cc)
and_then-eq-bound panicked next w e = absurd (cc)

module _ (V : Viper) where
  open V use {Bound, bind_env, is_set, get_int, get_string, unmarshal_key}

  -- Reading a variable of the environment takes no value away.
  abbrev pub KeepsValues : Type 0
  KeepsValues =
      (key name other : String) (v w : Bound)
      → bind_env key name v ≡ ok w
      → is_set v other ≡ true
      → is_set w other ≡ true

  -- A setting that the command cannot do without has a value.
  abbrev pub IsProvided : String → Bound → EnvVarDef → Type 0
  IsProvided cmd v evd =
      should_be_set_for evd cmd ≡ true → evd.is_critical ≡ true → is_set v evd.viper_key ≡ true

  check_lem :
      (evd : EnvVarDef) (v w : Bound)
      → check_viper_var_not_empty V evd v ≡ bound w
      → (v ≡ w) × (evd.is_critical ≡ true → is_set v evd.viper_key ≡ true)
  unfolding check_viper_var_not_empty
  check_lem evd v w e = ground arith

  bind_checked-eq-bound :
      (evd : EnvVarDef) (r : Result Bound) (w : Bound)
      → bind_checked V evd r ≡ bound w
      → (r ≡ ok w) × (evd.is_critical ≡ true → is_set w evd.viper_key ≡ true)
  bind_checked-eq-bound evd (ok v) w e =
      let (d, c) = check_lem evd v w e in
      (ap ok d, subst (λ x. evd.is_critical ≡ true → is_set x evd.viper_key ≡ true) d c)
  bind_checked-eq-bound evd (fail x) w e = absurd (cc)
  bind_checked-eq-bound evd panic w e = absurd (cc)

  module _ (keeps : KeepsValues) (cmd : String) where
    bind_loop_keeps :
        (evds : List EnvVarDef) (v w : Bound) (other : String)
        → bind_loop V cmd evds v ≡ bound w
        → is_set v other ≡ true
        → is_set w other ≡ true
    unfolding bind_loop
    bind_loop_keeps [] v w other e s = ground arith
    bind_loop_keeps (evd ∷ evds) v w other e s = elim (Bool-cases (should_be_set_for evd cmd)) [
      | inl y ↦
          let (u, e1, f1) = and_then-eq-bound _ _ w (rw y at e) in
          let (b, c) = bind_checked-eq-bound evd _ u e1 in
          bind_loop_keeps evds u w other f1 (keeps _ _ other v u b s)
      | inr n ↦ bind_loop_keeps evds v w other (rw n at e) s
    ]

    bind_loop-IsProvided :
        (evds : List EnvVarDef) (v w : Bound)
        → bind_loop V cmd evds v ≡ bound w
        → All (IsProvided cmd w) evds
    unfolding bind_loop
    bind_loop-IsProvided [] v w e = tt
    bind_loop-IsProvided (evd ∷ evds) v w e = elim (Bool-cases (should_be_set_for evd cmd)) [
      | inl y ↦
          let (u, e1, f1) = and_then-eq-bound _ _ w (rw y at e) in
          let (b, c) = bind_checked-eq-bound evd _ u e1 in
          (λ y' crit. bind_loop_keeps evds u w _ f1 (c crit), bind_loop-IsProvided evds u w f1)
      | inr n ↦ (λ y crit. absurd (cc), bind_loop-IsProvided evds v w (rw n at e))
    ]

    -- When a command has read its environment, every setting that it cannot do without has a value.
    pub bind_env_variables-IsProvided :
        (v w : Bound) → bind_env_variables V cmd v ≡ bound w → All (IsProvided cmd w) env_var_defs
    unfolding bind_env_variables
    bind_env_variables-IsProvided v w e = bind_loop-IsProvided env_var_defs v w e

  kept-lower_and_keep :
      (w : Bound) (r : Result (List String)) (fqdns : List String)
      → (lower_and_keep r).0 ≡ ok fqdns
      → get_s3_proxy_lc_fqdns V w (lower_and_keep r).1 ≡ (ok fqdns, some fqdns)
  unfolding get_s3_proxy_lc_fqdns
  kept-lower_and_keep w (ok names) fqdns e =
      ap (λ x. (ok x, some x)) (ok-eq-ok (map to_lower names) fqdns e)
  kept-lower_and_keep w (fail x) fqdns e = absurd (cc)
  kept-lower_and_keep w panic fqdns e = absurd (cc)

  -- The names of the proxy are read once: a later call gives the same names, whatever was set since.
  pub get_s3_proxy_lc_fqdns-again :
      (v w : Bound) (kept : S3ProxyFqdns) (fqdns : List String)
      → (get_s3_proxy_lc_fqdns V v kept).0 ≡ ok fqdns
      → get_s3_proxy_lc_fqdns V w (get_s3_proxy_lc_fqdns V v kept).1 ≡ (ok fqdns, some fqdns)
  unfolding get_s3_proxy_lc_fqdns
  get_s3_proxy_lc_fqdns-again v w none fqdns e = kept-lower_and_keep w _ fqdns e
  get_s3_proxy_lc_fqdns-again v w (some names) fqdns e =
      ap (λ x. (ok x, some x)) (ok-eq-ok names fqdns e)

  -- Responses get a header of CORS only under the strategy `static`.
  pub get_s3_cors_handler-set_headers :
      (origin : String) (v : Bound) (h : Values)
      → str_eq (to_lower (get_string v "corsStrategy")) "static" ≡ false
      → set_headers (cors_handler_or_default (get_s3_cors_handler V origin v)) h ≡ h
  unfolding get_s3_cors_handler set_headers
  get_s3_cors_handler-set_headers origin v h n =
      let strategy = to_lower (get_string v "corsStrategy") in
      elim (Bool-cases (str_eq strategy "deny-all" || str_eq strategy "")) [
        | inl y ↦ rw (n, y) refl
        | inr y ↦ rw (n, y) refl
      ]

  module _ {Regexp : Type 0} (compile : String → Result Regexp) where
    compile_loop-map :
        (names : List String) (regexes : List Regexp)
        → compile_loop V compile names ≡ ok regexes
        → map compile names ≡ map ok regexes
    unfolding compile_loop
    compile_loop-map [] regexes e = ap (map ok) (ok-eq-ok [] regexes e)
    compile_loop-map (name ∷ names) regexes e =
        let (candidate, e1, f1) = >>=-eq-ok (map_error _ (compile name)) _ e in
        let (rest, e2, f2) = >>=-eq-ok (compile_loop V compile names) _ f1 in
        ap₂ (λ x xs. x ∷ xs) (map_error-eq-ok _ (compile name) candidate e1)
          (compile_loop-map names rest e2)
        ∙ ap (map ok) (ok-eq-ok (candidate ∷ rest) regexes f2)

    -- The regular expressions that are used are those of the names that were given, in their order; with
    -- one that does not compile there are none.
    pub get_s3_removable_query_param_regexes-map :
        (v : Bound) (regexes : List Regexp)
        → get_s3_removable_query_param_regexes V compile v ≡ ok regexes
        → (names : List String) × (unmarshal_key v "s3ProxyRemovableQueryParams" ≡ ok names)
          × (map compile names ≡ map ok regexes)
    unfolding get_s3_removable_query_param_regexes
    get_s3_removable_query_param_regexes-map v regexes e =
        let (names, e1, f1) = >>=-eq-ok (unmarshal_key v "s3ProxyRemovableQueryParams") _ e in
        (names, e1, compile_loop-map names regexes f1)
