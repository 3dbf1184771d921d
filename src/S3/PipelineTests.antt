-- ===== src/S3/PipelineTests.antt =====
-- A concrete request on its whole way.
use fakes3pp.Prelude.{◌≡◌, refl, ◌⊎◌, false, str_eq, some, [], ◌∷◌}
use fakes3pp.Outcome.{ok}
use fakes3pp.Request.Http.{Request}
use fakes3pp.Presign.Samples.{sample_library}
use fakes3pp.Middleware.Samples.{services, signed_request}
use fakes3pp.S3.Action.Required.{get_object}
use fakes3pp.S3.Samples.{sample_services, sample_config}
use fakes3pp.S3.Urls.{plain_urls}
use fakes3pp.S3.Authorize.Middleware.{skips_verification}
use fakes3pp.S3.Routing.{register_operation-method}
use fakes3pp.S3.Proxy.{Proxying, Response, forwarded}
use fakes3pp.S3.Pipeline.{S3Server, Received, serve, IsAdmitted, serve-IsAdmitted}

abbrev proxying : Proxying
proxying = record {
  U = plain_urls;
  L = sample_library;
  cfg = some sample_config;
  access_control_allow_origin = "*";
  requester = λ r. ok (record { status = 200; header = ("Etag", "e" ∷ []) ∷ [] });
}

abbrev received : Received
received = record {
  request = signed_request;
  request_uri = signed_request.path;
  remote_addr = "10.0.0.1";
}

abbrev server : S3Server
server = record {
  A = services;
  Z = sample_services;
  P = proxying;
  mux = record {
    matches_path = λ path r. str_eq r.path path;
    matches_queries = λ queries r. false;
  };
  buckets = [];
  url_of = λ r. record { scheme = r.scheme; host = r.url_host; path = r.path; query = r.query };
  parts-url_of = λ r. refl;
}

abbrev answer : Response
answer = record {
  status = 200;
  header = ("Access-Control-Allow-Origin", "*" ∷ []) ∷ ("Etag", "e" ∷ []) ∷ [];
}

request_is_sent : (sent : Request) × (serve server 1000 "id" received ≡ forwarded sent answer)
unfolding fakes3pp.S3.Routing.first_match fakes3pp.S3.Routing.register_operation fakes3pp.Text.split
    fakes3pp.Text.join fakes3pp.Text.trim_left fakes3pp.Text.remove_all fakes3pp.Text.to_lower
    fakes3pp.Map.lookup fakes3pp.Map.insert fakes3pp.Map.delete fakes3pp.Map.contains
    fakes3pp.Request.Http.canonical fakes3pp.Request.Http.query_get fakes3pp.Request.Http.query_has
    fakes3pp.Request.Http.header_get fakes3pp.Request.Http.header_del
    fakes3pp.Request.Http.header_set fakes3pp.Request.Http.header_add
    fakes3pp.Request.Credential.get_credential_part
    fakes3pp.Request.Credential.credential_string_from_auth_header
    fakes3pp.Request.Credential.credential_string_from_q_params
    fakes3pp.Request.Credential.get_signature_credential_part_from_request
    fakes3pp.Request.Credential.get_region_from_request
    fakes3pp.Presign.Headers.temporary_remove_headers fakes3pp.Presign.Headers.re_add_headers
    fakes3pp.Presign.Headers.get_signed_headers_from_request
    fakes3pp.Presign.Headers.temporary_remove_untrusted_headers
    fakes3pp.Presign.V4.get_s3_sign_request_params fakes3pp.Presign.V4.sign_request_with_creds
    fakes3pp.Presign.V4.signing_time fakes3pp.Presign.V4.sign_with_creds
    fakes3pp.Context.set_auth_type fakes3pp.Context.set_target_region
    fakes3pp.Context.set_session_token fakes3pp.Context.get_target_region
    fakes3pp.Context.get_session_token fakes3pp.Context.add_to fakes3pp.Context.add_access_log_info
    fakes3pp.Context.new_context_from_http_request fakes3pp.Credentials.SecretKey.digit
    fakes3pp.Credentials.SecretKey.encode_to_string
    fakes3pp.Credentials.SecretKey.calculate_secret_key
    fakes3pp.S3.Authorize.Claims.extract_token_claims
    fakes3pp.Middleware.Signature.is_presigned_aws_request
    fakes3pp.Middleware.Signature.get_credentials_from_request
    fakes3pp.Middleware.Signature.make_sure_session_token_is_for_access_key
    fakes3pp.Middleware.Signature.add_region_to_session
    fakes3pp.Middleware.Signature.remember_signed_headers
    fakes3pp.Middleware.Authentication.check_signature fakes3pp.Middleware.Authentication.sign_again
    fakes3pp.Middleware.Authentication.check_credentials
    fakes3pp.Middleware.Authentication.handle_auth_n_normal
    fakes3pp.Middleware.Authentication.aws_auth_n fakes3pp.S3.Backend.Endpoint.get_host
    fakes3pp.S3.Backend.Config.get_backend_config fakes3pp.S3.Backend.Config.get_backend_credentials
    fakes3pp.S3.Backend.Config.get_backend_endpoint fakes3pp.S3.Retarget.re_target_request
    fakes3pp.S3.Proxy.set_headers fakes3pp.S3.Proxy.copy_headers fakes3pp.S3.Proxy.passed_on
    fakes3pp.S3.Proxy.send fakes3pp.S3.Proxy.sign_and_send fakes3pp.S3.Proxy.just_proxy
    fakes3pp.S3.Pipeline.build fakes3pp.S3.Pipeline.serve
    fakes3pp.S3.RequesterPays.force_requester_pays fakes3pp.S3.Action.Path.make_s3_bucket_arn
    fakes3pp.S3.Action.Path.make_s3_object_arn fakes3pp.S3.Action.Path.is_virtual_hosting_request
    fakes3pp.S3.Action.Path.get_s3_object_from_request
    fakes3pp.S3.Action.Path.get_s3_bucket_from_request
    fakes3pp.S3.Action.Required.new_iam_actions_from_s3_request
    fakes3pp.S3.Authorize.Middleware.get_s3_action
    fakes3pp.S3.Authorize.Middleware.authorize_s3_action
    fakes3pp.S3.Authorize.Middleware.aws_auth_z_s3 fakes3pp.Iam.Policy.Evaluation.conditions_met
    fakes3pp.Iam.Policy.Evaluation.action_in_scope fakes3pp.Iam.Policy.Evaluation.resource_in_scope
    fakes3pp.Iam.Policy.Evaluation.is_relevant_for fakes3pp.Iam.Policy.Evaluation.evaluate
    fakes3pp.Iam.Policy.Evaluation.evaluate_all fakes3pp.Iam.Policy.Action.new_iam_action
    fakes3pp.Iam.StringLike.iam_string_like fakes3pp.Iam.StringLike.Regex.parse
    fakes3pp.Iam.StringLike.Regex.replace_wildcards fakes3pp.Iam.StringLike.Regex.quote_meta
    fakes3pp.Iam.StringLike.Regex.is_special fakes3pp.Iam.StringLike.Regex.match_string
    fakes3pp.Iam.StringLike.Regex.match_here
request_is_sent = (_, refl)

serve-IsAdmitted_example : IsAdmitted server 1000 "id" received request_is_sent.0
serve-IsAdmitted_example =
    serve-IsAdmitted server 1000 "id" received request_is_sent.0 answer request_is_sent.1

register_operation-method_example :
    (signed_request.method ≡ "GET")
    × ((skips_verification get_object ≡ false)
        ⊎ ((signed_request.method ≡ "GET") ⊎ (signed_request.method ≡ "HEAD")))
unfolding fakes3pp.S3.Routing.first_match fakes3pp.S3.Routing.register_operation
register_operation-method_example =
    register_operation-method server.mux signed_request get_object refl
