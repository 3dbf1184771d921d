-- ===== src/Sts/Oidc.antt =====
-- aws/service/sts/oidc/oidc-config.go: the identity providers whose tokens are exchanged. The fields
-- of a provider that nothing reads are left out.
use fakes3pp.Prelude.{
  ℕ, String, ◌≡◌, refl, sym, ap, subst, ◌==◌, ◌∙◌, Bool-cases, inl, inr, Option, none, some, List,
  [], ◌∷◌, map, str_eq, if◌then◌else◌,
}
use fakes3pp.Text.{append}
use fakes3pp.Map.{Map, lookup, insert, lookup-insert, lookup-insert_self, some-eq-some}
use fakes3pp.UserError.{text}
use fakes3pp.Outcome.{Result, ok, fail, panic, ◌>>=◌, >>=-eq-ok, ok-eq-ok}

-- `oidcProviderConfig`.
pub record OidcProviderConfig : Type 0 where
  pub public_key : String
  pub iss : String

-- `oidcConfig`: the providers by name, and the names by issuer.
pub record OidcConfig : Type 0 where
  pub providers : Map OidcProviderConfig
  pub issuers : Map String

-- What lies outside: the key of a PEM text, and the configuration that an issuer's URL answers with
-- the status 200, decoded.
pub record Web : Type 1 where
  pub Key : Type 0
  pub public_key_from_pem : String → Result Key
  pub get : String → Result (ℕ × Result OidcProviderConfig)

abbrev none_is_panic {ℓ} : {A : Type ℓ} → Option A → Result A
none_is_panic none = panic
none_is_panic (some a) = ok a

-- An error that the code answers with `panic`.
abbrev or_panic {ℓ} : {A : Type ℓ} → Result A → Result A
or_panic (ok a) = ok a
or_panic _ = panic

module _ (H : Web) where
  open H use {Key, public_key_from_pem, get}

  -- `getPublicKey`.
  unfoldable pub get_public_key : OidcProviderConfig → Result Key
  get_public_key c =
      public_key_from_pem
        (append "-----BEGIN PUBLIC KEY-----\n" (append c.public_key "\n-----END PUBLIC KEY-----"))

  -- `getOidcProviderConfigFromIss`.
  unfoldable pub get_oidc_provider_config_from_iss : String → Result OidcProviderConfig
  get_oidc_provider_config_from_iss iss = do
    resp ← get iss
    (if resp.0 == 200 then resp.1 else fail (text "unsupported statuscode"))

  -- A provider without a key gets the configuration of its issuer.
  unfoldable pub completed : String → OidcProviderConfig → Result OidcProviderConfig
  completed provider_name provider_cfg =
      if str_eq provider_cfg.public_key ""
      then (if str_eq provider_cfg.iss ""
          then fail (
              text (
                append "not all required info available and no iss url invalid OIDC config for "
                  provider_name))
          else do
            iss_cfg ← get_oidc_provider_config_from_iss provider_cfg.iss
            ok (record iss_cfg { iss = provider_cfg.iss }))
      else ok provider_cfg

  -- The loop of `loadOidcConfig` over the names. A provider that is nil makes it panic.
  unfoldable pub load_loop : List String → OidcConfig → Result OidcConfig
  load_loop [] cfg = ok cfg
  load_loop (provider_name ∷ names) cfg = do
    provider_cfg ← none_is_panic (lookup provider_name cfg.providers)
    c ← completed provider_name provider_cfg
    key ← or_panic (get_public_key c)
    load_loop names (record {
      providers = insert provider_name c cfg.providers;
      issuers = insert c.iss provider_name cfg.issuers;
    })

  -- `loadOidcConfig`, of what `yaml.Unmarshal` gives.
  unfoldable pub load_oidc_config : Result (Map OidcProviderConfig) → Result OidcConfig
  load_oidc_config unmarshalled = do
    providers ← unmarshalled
    load_loop (map (λ (e : String × OidcProviderConfig). e.0) providers)
        (record { providers = providers; issuers = [] })

  abbrev by_name : OidcConfig → String → Result Key
  by_name cfg issuer = elim (lookup issuer cfg.providers) [
    | none ↦ fail (text (append "could not find issuer: " issuer))
    | some c ↦ elim (get_public_key c) [
      | ok key ↦ ok key
      | fail e ↦ fail (text (append "could not find public key config for issuer: " issuer))
      | panic ↦ panic
    ]
  ]

  abbrev by_provider : OidcConfig → String → Option OidcProviderConfig → Result Key
  by_provider cfg issuer none = by_name cfg issuer
  by_provider cfg issuer (some c) = get_public_key c

  abbrev by_issuer : OidcConfig → String → Option String → Result Key
  by_issuer cfg issuer none = by_name cfg issuer
  by_issuer cfg issuer (some provider_name) =
      by_provider cfg issuer (lookup provider_name cfg.providers)

  -- `GetKeyFunc`, by the issuer of the token's claims.
  unfoldable pub get_key_func : OidcConfig → String → Result Key
  get_key_func cfg issuer = by_issuer cfg issuer (lookup issuer cfg.issuers)

  -- A provider of this name has a key.
  abbrev HasKey : OidcConfig → String → Type 0
  HasKey cfg name =
      (c : OidcProviderConfig) × (key : Key) × (lookup name cfg.providers ≡ some c)
      × (get_public_key c ≡ ok key)

  -- Every issuer stands for a provider with a key.
  abbrev IsUsable : OidcConfig → Type 0
  IsUsable cfg = (issuer name : String) → lookup issuer cfg.issuers ≡ some name → HasKey cfg name

  HasKey-insert :
      (cfg : OidcConfig) (name at : String) (c : OidcProviderConfig) (issuers : Map String)
      (key : Key)
      → get_public_key c ≡ ok key
      → HasKey cfg at
      → HasKey (record { providers = insert name c cfg.providers; issuers = issuers }) at
  HasKey-insert cfg name at c issuers key k (d, l, e, f) = elim (Bool-cases (str_eq name at)) [
    | inl y ↦ (c, key, lookup-insert name at c cfg.providers ∙ rw y refl, k)
    | inr y ↦ (d, l, lookup-insert name at c cfg.providers ∙ rw y e, f)
  ]

  step-IsUsable :
      (cfg : OidcConfig) (name : String) (c : OidcProviderConfig) (key : Key)
      → get_public_key c ≡ ok key
      → IsUsable cfg
      → IsUsable (record {
        providers = insert name c cfg.providers;
        issuers = insert c.iss name cfg.issuers;
      })
  step-IsUsable cfg name c key k u issuer at e =
      let old = sym (lookup-insert c.iss issuer name cfg.issuers) ∙ e in
      elim (Bool-cases (str_eq c.iss issuer)) [
        | inl y ↦ (
          c,
          key,
          ap (λ (x : String). lookup x (insert name c cfg.providers))
                (sym (some-eq-some name at (rw y at old)))
              ∙ lookup-insert_self name c cfg.providers,
          k,
        )
        | inr y ↦
            HasKey-insert cfg name at c (insert c.iss name cfg.issuers) key k
              (u issuer at (rw y at old))
      ]

  or_panic-ok {ℓ} : {A : Type ℓ} (r : Result A) (a : A) → or_panic r ≡ ok a → r ≡ ok a
  or_panic-ok (ok b) a e = e
  or_panic-ok (fail x) a e = absurd (cc)
  or_panic-ok panic a e = absurd (cc)

  no_issuer :
      (providers : Map OidcProviderConfig)
      → IsUsable (record { providers = providers; issuers = [] })
  unfolding lookup
  no_issuer providers issuer name e = absurd (cc)

  load_loop-IsUsable :
      (names : List String) (cfg cfg' : OidcConfig)
      → IsUsable cfg
      → load_loop names cfg ≡ ok cfg'
      → IsUsable cfg'
  unfolding load_loop
  load_loop-IsUsable [] cfg cfg' u e = subst IsUsable (ok-eq-ok cfg cfg' e) u
  load_loop-IsUsable (name ∷ names) cfg cfg' u e =
      let (p, e1, f1) = >>=-eq-ok (none_is_panic (lookup name cfg.providers)) _ e in
      let (c, e2, f2) = >>=-eq-ok (completed name p) _ f1 in
      let (key, e3, f3) = >>=-eq-ok (or_panic (get_public_key c)) _ f2 in
      load_loop-IsUsable names _ cfg' (step-IsUsable cfg name c key (or_panic-ok _ key e3) u) f3

  -- In a configuration that was loaded, every issuer that is registered has a key: the verification of
  -- its tokens never fails for want of one.
  pub load_oidc_config-get_key_func :
      (unmarshalled : Result (Map OidcProviderConfig)) (cfg : OidcConfig) (issuer name : String)
      → load_oidc_config unmarshalled ≡ ok cfg
      → lookup issuer cfg.issuers ≡ some name
      → (c : OidcProviderConfig) × (key : Key) × (lookup name cfg.providers ≡ some c)
        × (get_public_key c ≡ ok key)
        × (get_key_func cfg issuer ≡ ok key)
  unfolding load_oidc_config get_key_func
  load_oidc_config-get_key_func unmarshalled cfg issuer name e i =
      let (providers, e1, f1) = >>=-eq-ok unmarshalled _ e in
      let (c, key, p, k) = load_loop-IsUsable _ _ cfg (no_issuer providers) f1 issuer name i in
      (c, key, p, k, ap (by_issuer cfg issuer) i ∙ ap (by_provider cfg issuer) p ∙ k)
