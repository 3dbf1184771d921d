-- ===== src/Middleware/Samples.antt =====
-- Concrete services, and a request that is signed for them.
use fakes3pp.Prelude.{String, false, [], ◌∷◌}
use fakes3pp.Outcome.{ok}
use fakes3pp.Request.Http.{Request}
use fakes3pp.S3.Samples.{sample_jwt}
use fakes3pp.Presign.Samples.{sample_library, authorization_of, hmac_request}
use fakes3pp.Middleware.Signature.{AuthServices}

abbrev pub services : AuthServices
services = record {
  J = sample_jwt;
  key_func = "key";
  with_leeway = sample_jwt;
  leeway_key_func = "key";
  L = sample_library;
  sha1 = λ b. b;
  private_key = ok "1111111111111111111111111111111111111111";
  removable_query_params = (λ key. false) ∷ [];
  allow_legacy_credentials = "";
  default_backend = "eu";
}

-- The secret key of the access key AK.
abbrev pub secret : String
secret = "QUsxMTExMTExMTExMTExMTExMTExMTExMTExMTExMT"

abbrev pub signed_request : Request
signed_request = record hmac_request {
  query = [];
  header =
      ("Authorization", authorization_of secret ∷ []) ∷ ("X-Amz-Security-Token", "good" ∷ []) ∷ [];
}
