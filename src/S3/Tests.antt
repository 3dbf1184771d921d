-- ===== src/S3/Tests.antt =====
-- The theorems on backends, requests and authorization at concrete values.
use fakes3pp.Prelude.{inr, String, ◌≡◌, refl, ◌⊎◌, inl, true, false, ◌↔◌, [], ◌∷◌, some, str_eq}
use fakes3pp.Text.{has_prefix, lower, to_lower}
use fakes3pp.Map.{lookup, insert, has_key}
use fakes3pp.UserError.{Error, text, wrapped, user}
use fakes3pp.UserError.Flat.{redact}
use fakes3pp.Outcome.{ok, fail}
use fakes3pp.Iam.Policy.Samples.{sample_values, sample_session}
use fakes3pp.Iam.Policy.Types.{IamAction}
use fakes3pp.Iam.Policy.Action.{new_iam_action}
use fakes3pp.Request.Http.{Request}
use fakes3pp.S3.Backend.Endpoint.{build_endpoint}
use fakes3pp.S3.Backend.Credentials.{
  get_credentials, choose, from_inline, checked_inline, lookup_string,
}
use fakes3pp.S3.Backend.Config.{
  BackendConfigEntry, get_backends_config_from_bytes, get_backend_config, get_backend_config_in,
  err_invalid_backend, from_backend_config_file_entry, add_backends, with_default, capabilities_of,
  s3_capability_lookup,
}
use fakes3pp.S3.Backend.Valid.{IsValid, IsUsable, get_backends_config_from_bytes-IsValid}
use fakes3pp.S3.Backend.Resolve.{
  found, resolved, get_backend_config_in_lem, get_backend_config-IsValid,
}
use fakes3pp.S3.Action.Path.{
  get_s3_object_from_request, get_s3_object_from_request-path, make_s3_object_arn,
}
use fakes3pp.S3.Action.Required.{
  get_object, Needs, IsOneOf, new_iam_actions_from_s3_request,
  new_iam_actions_from_s3_request-Needs, new_iam_actions_from_s3_request-header,
  new_iam_actions_from_s3_request, put_object,
}
use fakes3pp.S3.Authorize.Errors.{
  write_s3_error_response, write_s3_error_response-redact, err_s3_invalid_security,
}
use fakes3pp.S3.Authorize.Middleware.{authorize_s3_action, pass}
use fakes3pp.S3.Authorize.Granted.{IsAuthorized, authorize_s3_action-pass_iff}
use fakes3pp.S3.Samples.{
  sample_config, no_files, sample_entry, sample_file, get_k, server_names, sample_services, ascii,
}

file_is_read :
    get_backends_config_from_bytes no_files (λ e. "entry") (ok sample_file) true "/etc"
    ≡ ok sample_config
unfolding get_backends_config_from_bytes add_backends from_backend_config_file_entry build_endpoint
    has_prefix capabilities_of s3_capability_lookup get_credentials choose from_inline
    checked_inline lookup_string lookup insert with_default
file_is_read = refl

get_backends_config_from_bytes-IsValid_example :
    IsValid sample_config
    × (sample_config.default_backend ≡ sample_file.default)
    × (sample_config.invalid_region_to_default_region ≡ true)
get_backends_config_from_bytes-IsValid_example =
    get_backends_config_from_bytes-IsValid no_files (λ e. "entry") sample_file true "/etc"
      sample_config file_is_read

pub sample_config-IsValid : IsValid sample_config
sample_config-IsValid =
    (get_backends_config_from_bytes-IsValid no_files (λ e. "entry") sample_file true "/etc"
      sample_config file_is_read).0

get_backend_config-IsValid_example :
    ((e : BackendConfigEntry) × (get_backend_config (some sample_config) "nowhere" ≡ ok e)
      × IsUsable e)
    ⊎ ((true ≡ false)
        × (str_eq "nowhere" "" ≡ false)
        × (has_key "nowhere" sample_config.backends ≡ false)
        × (get_backend_config (some sample_config) "nowhere" ≡ fail err_invalid_backend))
get_backend_config-IsValid_example =
    get_backend_config-IsValid sample_config sample_config-IsValid "nowhere"

get_backend_config_in_lem_example :
    get_backend_config_in 5 sample_config "nowhere"
    ≡ some (found sample_config (resolved sample_config "nowhere"))
get_backend_config_in_lem_example = get_backend_config_in_lem 3 sample_config "nowhere"

inline_is_read :
    get_credentials no_files sample_entry.credentials "/etc"
    ≡ ok (record {
      access_key_id = "AK";
      secret_access_key = "SK";
      session_token = "";
      can_expire = false;
    })
unfolding get_credentials choose from_inline checked_inline lookup_string lookup
inline_is_read = refl

endpoint_is_built : build_endpoint "https://s3.example" ≡ ok "https://s3.example"
unfolding build_endpoint has_prefix
endpoint_is_built = refl

abbrev get_dir_k : String × String
get_dir_k = ("b", "dir/k")

lower_case_host : to_lower "s3.local" ≡ to_lower "S3.local"
unfolding to_lower lower
lower_case_host = refl

get_s3_object_from_request-path_example :
    get_s3_object_from_request server_names get_k ≡ ok get_dir_k
get_s3_object_from_request-path_example =
    get_s3_object_from_request-path server_names get_k "S3.local" "b" "dir/k" (inr ("8443", refl))
      refl (inl lower_case_host) refl refl

abbrev read_dir_k : IamAction sample_values
read_dir_k =
    new_iam_action sample_values "s3:GetObject" (make_s3_object_arn "b" "dir/k")
      (some sample_session)

read_is_needed :
    new_iam_actions_from_s3_request sample_values get_object server_names get_k
      (some sample_session)
    ≡ ok (read_dir_k ∷ [])
unfolding new_iam_actions_from_s3_request
read_is_needed =
    rw
      (get_s3_object_from_request-path server_names get_k "S3.local" "b" "dir/k"
        (inr ("8443", refl)) refl (inl lower_case_host) refl refl)
      refl

new_iam_actions_from_s3_request-Needs_example :
    IsOneOf sample_values (Needs sample_values get_object get_k) (read_dir_k ∷ [])
new_iam_actions_from_s3_request-Needs_example =
    new_iam_actions_from_s3_request-Needs sample_values get_object server_names get_k
      (some sample_session) (read_dir_k ∷ []) read_is_needed

abbrev copying : Request
copying = record get_k { method = "PUT"; header = ("X-Amz-Copy-Source", "other/secret" ∷ []) ∷ [] }

new_iam_actions_from_s3_request-header_example :
    new_iam_actions_from_s3_request sample_values put_object server_names copying
      (some sample_session)
    ≡ new_iam_actions_from_s3_request sample_values put_object server_names
        (record copying { header = [] })
        (some sample_session)
new_iam_actions_from_s3_request-header_example =
    new_iam_actions_from_s3_request-header sample_values put_object server_names
      (record copying { header = [] }) (some sample_session) copying.header

authorize_s3_action-pass_iff_example :
    (authorize_s3_action sample_services "good" "eu" get_object get_k ≡ pass)
    ↔ IsAuthorized sample_services "good" "eu" get_object get_k
authorize_s3_action-pass_iff_example =
    authorize_s3_action-pass_iff sample_services "good" "eu" get_object get_k

abbrev expired : Error
expired = wrapped "could not get claims" (user "Session credentials are expired" (text "key 42"))

write_s3_error_response-redact_example :
    write_s3_error_response ascii "id" err_s3_invalid_security (some (redact (λ m. "") expired))
    ≡ write_s3_error_response ascii "id" err_s3_invalid_security (some expired)
write_s3_error_response-redact_example =
    write_s3_error_response-redact ascii "id" err_s3_invalid_security (λ m. "") expired
