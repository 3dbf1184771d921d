-- ===== src/S3/ProxyTests.antt =====
-- The theorems on the payer and on the target of a request at concrete values.
use fakes3pp.Prelude.{String, ◌++◌, false, ◌≡◌, ◌≢◌, refl, List, [], ◌∷◌, some}
use fakes3pp.Text.{split, split_skip, has_prefix, trim_space}
use fakes3pp.Map.{lookup, insert, delete}
use fakes3pp.Outcome.{ok, panic}
use fakes3pp.Request.Http.{Values, header_get, canonical, header_add, header_del}
use fakes3pp.S3.Backend.Endpoint.{build_endpoint, get_host, get_base_uri}
use fakes3pp.S3.Backend.Config.{
  BackendConfigEntry, streaming_unsigned_payload_trailer, get_backend_config, get_backend_config_in,
  get_backend_endpoint,
}
use fakes3pp.S3.RequesterPays.{get_requester_pays_buckets_from_bytes, add_buckets}
use fakes3pp.S3.Retarget.{
  ProxyRequest, re_target_request, IsRetargeted, re_target_request-IsRetargeted,
  re_target_request_total, re_target_request-host,
}
use fakes3pp.S3.Tests.{sample_config-IsValid}
use fakes3pp.S3.Samples.{sample_config, get_k}
use fakes3pp.Context.{RequestCtx, kind_string, new_context_from_http_request}
use fakes3pp.Context.AccessLog.{group}
use fakes3pp.S3.ResponseHeaders.{present, log_response_headers, log_response_headers-group}
use fakes3pp.Presign.Library.{Url}
use fakes3pp.S3.Urls.{plain_urls}

abbrev paying : List String
paying = " pays " ∷ "" ∷ []

paying_is_read : get_requester_pays_buckets_from_bytes (ok paying) ≡ ok ("pays" ∷ [])
unfolding get_requester_pays_buckets_from_bytes add_buckets trim_space
paying_is_read = refl

abbrev from_client : ProxyRequest plain_urls
from_client = record {
  header = ("Authorization", "AWS4" ∷ []) ∷ ("Host", "s3.local" ∷ []) ∷ [];
  host = "s3.local";
  request_uri = "/b/k";
  remote_addr = "10.0.0.1";
  url = record { scheme = ""; host = ""; path = "/b/k"; query = ("versions", "1" ∷ []) ∷ [] };
}

abbrev to_backend : ProxyRequest plain_urls
to_backend = record {
  header = ("Host", "s3.example" ∷ []) ∷ [];
  host = "s3.example";
  request_uri = "";
  remote_addr = "";
  url = record {
    scheme = "https";
    host = "s3.example";
    path = "https://s3.example/b/k";
    query = ("versions", "1" ∷ []) ∷ [];
  };
}

request_is_turned :
    re_target_request plain_urls (some sample_config) from_client "nowhere" ≡ ok to_backend
unfolding re_target_request get_backend_endpoint get_backend_config get_backend_config_in lookup
    get_host split split_skip has_prefix get_base_uri header_add header_del canonical insert delete
request_is_turned = refl

re_target_request-IsRetargeted_example :
    (e : BackendConfigEntry) × (host : String) × (get_backend_config (some sample_config) "nowhere"
      ≡ ok e)
    × (get_host e.endpoint ≡ ok host)
    × IsRetargeted plain_urls from_client to_backend e.endpoint host
re_target_request-IsRetargeted_example =
    re_target_request-IsRetargeted plain_urls (some sample_config) from_client "nowhere" to_backend
      request_is_turned

abbrev default_entry : BackendConfigEntry
default_entry = record {
  credentials = record {
    access_key_id = "AK";
    secret_access_key = "SK";
    session_token = "";
    can_expire = false;
  };
  endpoint = "https://s3.example";
  capabilities = streaming_unsigned_payload_trailer ∷ [];
}

nowhere_has_backend : get_backend_config (some sample_config) "nowhere" ≡ ok default_entry
unfolding get_backend_config get_backend_config_in lookup
nowhere_has_backend = refl

is_https : build_endpoint default_entry.endpoint ≡ ok default_entry.endpoint
unfolding build_endpoint has_prefix
is_https = refl

re_target_request-host_example :
    (v : Url) × (plain_urls.parse default_entry.endpoint ≡ ok v)
    × ("https" ≡ v.scheme)
    × ("s3.example" ≡ v.host)
re_target_request-host_example =
    re_target_request-host plain_urls (some sample_config) from_client "nowhere" "b/k" to_backend
      default_entry nowhere_has_backend is_https refl request_is_turned

plain_urls_parse : (s : String) → plain_urls.parse s ≢ panic
plain_urls_parse s e = cc

re_target_request_total_example :
    re_target_request plain_urls (some sample_config) from_client "nowhere" ≢ panic
re_target_request_total_example =
    re_target_request_total plain_urls sample_config from_client "nowhere" sample_config-IsValid
      plain_urls_parse

abbrev ctx : RequestCtx
ctx = new_context_from_http_request "id" get_k

abbrev names : List String
names = "etag" ∷ "x-amz-id-2" ∷ []

abbrev answered : Values
answered = ("Etag", "e" ∷ []) ∷ []

one_is_present : present names answered ≡ ("etag", kind_string "e") ∷ []
unfolding present header_get canonical lookup
one_is_present = refl

log_response_headers-group_example :
    (after : RequestCtx) × (log_response_headers names (answered, some ctx) ≡ some after)
    × (group "s3" after ≡ group "s3" ctx ++ present names answered)
log_response_headers-group_example = log_response_headers-group names answered ctx "s3"
