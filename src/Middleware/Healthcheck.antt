-- ===== src/Middleware/Healthcheck.antt =====
-- middleware/healthcheck.go: health checks by path. What is logged is left out.
use fakes3pp.Prelude.{
  ℕ, String, ◌≡◌, refl, ◌↔◌, ◌≢◌, inl, inr, Bool-cases, Option-cases, Bool, true, false, not,
  Option, none, some, List, [], ◌∷◌, ◌++◌, str_eq, eq_iff, if◌then◌else◌, arith,
}
use fakes3pp.UserError.{Error}
use fakes3pp.Request.Http.{Request}

-- The calls of the `http.ResponseWriter`, in order.
pub data Call : Type 0 where
  write_header : ℕ → Call
  write : String → Call

-- The three results of a `HealthCheckFunction`.
pub record Health : Type 0 where
  pub is_healthy : Bool
  pub ok_body : String
  pub err : Option Error

-- `pathBasedHC`.
pub record PathBasedHc : Type 0 where
  pub healthcheck_path : String
  pub method : String
  pub health_check_function : Health

-- `failHealthcheck`.
abbrev pub fail_healthcheck : List Call
fail_healthcheck = write_header 500 ∷ write "failed healthcheck" ∷ []

-- The first of the two parts of the answer: an error does not end it.
abbrev on_error : Option Error → List Call
on_error none = []
on_error (some e) = fail_healthcheck

abbrev on_health : Health → List Call
on_health h = if h.is_healthy then write_header 200 ∷ write h.ok_body ∷ [] else fail_healthcheck

abbrev checked : Health → Bool × List Call
checked h = (true, on_error h.err ++ on_health h)

-- `DoHealthcheckIfNeeded`: whether the request was for a health check, and what was answered.
unfoldable pub do_healthcheck_if_needed : PathBasedHc → Request → Bool × List Call
do_healthcheck_if_needed hc r =
    if not (str_eq r.method hc.method)
    then (false, [])
    else if not (str_eq r.path hc.healthcheck_path)
    then (false, [])
    else checked hc.health_check_function

-- `NewPingPongHealthCheck`.
abbrev pub new_ping_pong_health_check : PathBasedHc
new_ping_pong_health_check = record {
  healthcheck_path = "/ping";
  method = "GET";
  health_check_function = record { is_healthy = true; ok_body = "pong"; err = none };
}

on_health_header :
    (h : Health) → (n : ℕ) × (more : List Call) × (on_health h ≡ write_header n ∷ more)
on_health_header h = elim (Bool-cases h.is_healthy) [
  | inl q ↦ (200, write h.ok_body ∷ [], rw q refl)
  | inr q ↦ (500, write "failed healthcheck" ∷ [], rw q refl)
]

answered : (h : Health) → (checked h).1 ≢ []
answered h e = elim (Option-cases h.err) [
  | inl q ↦ (let (n, more, g) = on_health_header h in absurd (cc (g, q, e)))
  | inr (x, q) ↦ absurd (cc (q, e))
]

-- A request is taken for a health check exactly if it has its method and its path, and one that is
-- not is left without an answer.
pub do_healthcheck_if_needed_iff :
    (hc : PathBasedHc) (r : Request)
    → (((do_healthcheck_if_needed hc r).0 ≡ true)
        ↔ ((r.method ≡ hc.method) × (r.path ≡ hc.healthcheck_path)))
      × (((do_healthcheck_if_needed hc r).0 ≡ false) ↔ ((do_healthcheck_if_needed hc r).1 ≡ []))
unfolding do_healthcheck_if_needed
do_healthcheck_if_needed_iff hc r = grind (
  arith,
  eq_iff r.method hc.method,
  eq_iff r.path hc.healthcheck_path,
  answered hc.health_check_function,
)
