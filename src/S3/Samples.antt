-- ===== src/S3/Samples.antt =====
-- A concrete configuration, concrete requests and the services around them.
use fakes3pp.Prelude.{none, String, true, false, some, List, [], ◌∷◌, str_eq, if◌then◌else◌}
use fakes3pp.UserError.{text}
use fakes3pp.Outcome.{ok, fail}
use fakes3pp.Request.Http.{Request}
use fakes3pp.Iam.Policy.Samples.{sample_values, allow_reads, sample_session}
use fakes3pp.S3.Backend.Credentials.{Inner, dict, Platform}
use fakes3pp.S3.Backend.Config.{
  BackendConfigFileEntry, BackendsConfigFile, BackendsConfig, streaming_unsigned_payload_trailer,
}
use fakes3pp.S3.Authorize.Claims.{SessionClaims, Jwt}
use fakes3pp.S3.Authorize.Middleware.{Services}
use fakes3pp.S3.Authorize.Errors.{Unicode}

-- No files, and paths that are joined by a slash.
abbrev pub no_files : Platform
no_files = record {
  read_file = λ name. fail (text "no such file or directory");
  unmarshal = λ content. fail (text "not YAML");
  join = λ a b. b;
  show = λ v. "value";
}

abbrev pub sample_entry : BackendConfigFileEntry
sample_entry = record {
  region_name = "eu";
  credentials =
      (
        "inline",
        dict (
            ("aws_access_key_id", Inner.str "AK") ∷ ("aws_secret_access_key", Inner.str "SK") ∷ []),
      )
      ∷ [];
  endpoint = "https://s3.example";
  capabilities = "StreamingUnsignedPayloadTrailer" ∷ [];
}

abbrev pub sample_file : BackendsConfigFile
sample_file = record { backends = sample_entry ∷ []; default = "eu" }

abbrev pub get_k : Request
get_k = record {
  method = "GET";
  scheme = "";
  url_host = "";
  content_length = some 0;
  host = "S3.local:8443";
  path = "/b/dir/k";
  query = [];
  header = [];
}

abbrev pub server_names : List String
server_names = "s3.local" ∷ []

abbrev pub sample_claims : SessionClaims
sample_claims = record {
  role_arn = "arn:aws:iam::1:role/r";
  i_issuer = "";
  tags = sample_session.tags;
  issuer = "https://idp";
  subject = "alice";
  exp = some 1000;
  nbf = none;
  iat = none;
  access_key_id = "AK";
}

abbrev pub sample_jwt : Jwt
sample_jwt = record {
  KeyFunc = String;
  parse_unverified = λ token. ok sample_claims;
  parse_with_claims = λ token key.
      if str_eq token "good"
      then ok sample_claims
      else fail (text "token has invalid claims: token is expired");
}

-- One role, which may read the objects of one bucket.
abbrev pub sample_services : Services
sample_services = record {
  C = sample_values;
  J = sample_jwt;
  key_func = "key";
  get_policy = λ arn session. ok "policy";
  new_policy_evaluator_from_str = λ policy. ok (allow_reads ∷ []);
  fqdns = server_names;
}

abbrev pub ascii : Unicode
ascii = record { is_letter = λ c. true; to_upper = λ c. c }

-- What the sample file is read to.
abbrev pub sample_config : BackendsConfig
sample_config = record {
  backends =
      (
        "eu",
        record {
          credentials = record {
            access_key_id = "AK";
            secret_access_key = "SK";
            session_token = "";
            can_expire = false;
          };
          endpoint = "https://s3.example";
          capabilities = streaming_unsigned_payload_trailer ∷ [];
        },
      )
      ∷ [];
  default_backend = "eu";
  invalid_region_to_default_region = true;
}
