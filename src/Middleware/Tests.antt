-- ===== src/Middleware/Tests.antt =====
-- The theorems on health checks at concrete requests.
use fakes3pp.Prelude.{◌≡◌, refl, true, some, [], ◌∷◌}
use fakes3pp.UserError.{text}
use fakes3pp.Request.Http.{Request}
use fakes3pp.Middleware.Healthcheck.{
  write_header, write, PathBasedHc, new_ping_pong_health_check, do_healthcheck_if_needed,
}

abbrev ping : Request
ping = record {
  method = "GET";
  scheme = "";
  url_host = "";
  content_length = some 0;
  host = "s3.local";
  path = "/ping";
  query = [];
  header = [];
}

pong :
    do_healthcheck_if_needed new_ping_pong_health_check ping
    ≡ (true, write_header 200 ∷ write "pong" ∷ [])
unfolding do_healthcheck_if_needed
pong = refl

abbrev broken : PathBasedHc
broken = record {
  healthcheck_path = "/ping";
  method = "GET";
  health_check_function = record { is_healthy = true; ok_body = "pong"; err = some (text "disk") };
}

-- A check that gives an error is answered twice.
answered_twice :
    do_healthcheck_if_needed broken ping
    ≡ (true, write_header 500 ∷ write "failed healthcheck" ∷ write_header 200 ∷ write "pong" ∷ [])
unfolding do_healthcheck_if_needed
answered_twice = refl
