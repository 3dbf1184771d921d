-- ===== src/Sts/OidcTests.antt =====
-- Two identity providers: one whose key is in the file, one whose key comes from its issuer.
use fakes3pp.Prelude.{String, ◌≡◌, refl, some, [], ◌∷◌, str_eq, if◌then◌else◌}
use fakes3pp.Map.{Map, lookup, insert}
use fakes3pp.UserError.{text}
use fakes3pp.Outcome.{ok, fail}
use fakes3pp.Sts.Oidc.{
  Web, OidcProviderConfig, OidcConfig, get_public_key, get_oidc_provider_config_from_iss, completed,
  load_loop, load_oidc_config, get_key_func, load_oidc_config-get_key_func,
}

-- A key is the text it stands in; the issuers answer with the key `remote`.
abbrev web : Web
web = record {
  Key = String;
  public_key_from_pem = λ pem. ok pem;
  get = λ iss.
      if str_eq iss "https://down"
      then ok (503, fail (text "no body"))
      else ok (200, ok (record { public_key = "remote"; iss = "" }));
}

abbrev local : OidcProviderConfig
local = record { public_key = "local"; iss = "https://one" }

abbrev without_key : String → OidcProviderConfig
without_key iss = record { public_key = ""; iss = iss }

abbrev file : String → Map OidcProviderConfig
file iss = ("one", local) ∷ ("two", without_key iss) ∷ []

abbrev loaded : OidcConfig
loaded = record {
  providers =
      insert "two" (record { public_key = "remote"; iss = "https://two" })
        (insert "one" local (file "https://two"));
  issuers = insert "https://two" "two" (insert "https://one" "one" []);
}

load_oidc_config_two : load_oidc_config web (ok (file "https://two")) ≡ ok loaded
unfolding load_oidc_config load_loop completed get_public_key get_oidc_provider_config_from_iss
    lookup insert
load_oidc_config_two = refl

load_oidc_config_down :
    load_oidc_config web (ok (file "https://down")) ≡ fail (text "unsupported statuscode")
unfolding load_oidc_config load_loop completed get_public_key get_oidc_provider_config_from_iss
    lookup insert
load_oidc_config_down = refl

load_oidc_config_no_iss :
    load_oidc_config web (ok (file ""))
    ≡ fail (text "not all required info available and no iss url invalid OIDC config for two")
unfolding load_oidc_config load_loop completed get_public_key get_oidc_provider_config_from_iss
    lookup insert
load_oidc_config_no_iss = refl

two_registered : lookup "https://two" loaded.issuers ≡ some "two"
unfolding lookup insert
two_registered = refl

load_oidc_config-get_key_func_example :
    (c : OidcProviderConfig) × (key : String) × (lookup "two" loaded.providers ≡ some c)
    × (get_public_key web c ≡ ok key)
    × (get_key_func web loaded "https://two" ≡ ok key)
load_oidc_config-get_key_func_example =
    load_oidc_config-get_key_func web (ok (file "https://two")) loaded "https://two" "two"
      load_oidc_config_two two_registered
