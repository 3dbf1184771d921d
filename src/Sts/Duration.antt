-- ===== src/Sts/Duration.antt =====
-- `calculateFinalDurationSeconds` of aws/service/sts/server.go. A `time.Duration` is a 64-bit signed
-- number of nanoseconds, kept as its residue modulo 2^64; a `time.Time` counts nanoseconds from a
-- moment far enough in the past.
use fakes3pp.Prelude.{
  ℕ, ◌+◌, ◌-◌, ◌*◌, ◌%◌, ◌≤◌, ◌<◌, ◌≡◌, refl, sym, ◌∙◌, Bool, Bool-cases, true, false, inl, inr,
  Option, none, some, ltb, if◌then◌else◌, arith,
}
use fakes3pp.UserError.{text}
use fakes3pp.Outcome.{Result, ok, fail, panic}

abbrev pub two_64 : ℕ
two_64 = 18446744073709551616

abbrev pub two_63 : ℕ
two_63 = 9223372036854775808

-- `time.Duration(n) * time.Second`, for the residue of `n`; it wraps around.
unfoldable pub seconds : ℕ → ℕ
seconds n = n * 1000000000 % 18446744073709551616

-- `a < b` for signed numbers.
abbrev pub signed_ltb : ℕ → ℕ → Bool
signed_ltb a b =
    if ltb a two_63
    then (if ltb b two_63 then ltb a b else false)
    else (if ltb b two_63 then true else ltb a b)

-- `Time.Add`.
abbrev pub time_add : ℕ → ℕ → ℕ
time_add t d = if ltb d two_63 then t + d else t - (two_64 - d)

-- The fields of `STSServer` that are read.
pub record Limits : Type 0 where
  pub min_allowed_duration : ℕ
  pub max_allowed_duration : ℕ

abbrev within : Limits → ℕ → ℕ → Result ℕ
within s now provided =
    if ltb (time_add now provided) (time_add now s.min_allowed_duration)
    then fail (text "provided expiry time is before minimal time of ")
    else if signed_ltb s.max_allowed_duration provided
    then fail (text "provided duration seconds exceed the maximum of ")
    else ok provided

-- `calculateFinalDurationSeconds`, at the time `now`; a token without expiry panics, since the nil
-- pointer is followed. The durations in the texts of the errors are left out.
unfoldable pub calculate_final_duration_seconds : Limits → ℕ → ℕ → Option ℕ → Result ℕ
calculate_final_duration_seconds s now api_provided_duration none = panic
calculate_final_duration_seconds s now api_provided_duration (some jwt_expiry) =
    if ltb jwt_expiry now
    then fail (text "provided OIDC token had already expired")
    else within s now (seconds api_provided_duration)

-- Limits as they are configured: not negative.
pub record IsConfigured (s : Limits) : Type 0 where
  pub min_bound : s.min_allowed_duration < 9223372036854775808
  pub max_bound : s.max_allowed_duration < 9223372036854775808

within-bounds :
    (s : Limits) (now provided d : ℕ)
    → IsConfigured s
    → 0 < now
    → provided < 18446744073709551616
    → within s now provided ≡ ok d
    → (d ≡ provided) × (s.min_allowed_duration ≤ d) × (d ≤ s.max_allowed_duration)
within-bounds s now provided d h p b e = ground (arith, h.min_bound, h.max_bound)

seconds-bound : (n : ℕ) → seconds n < 18446744073709551616
unfolding seconds
seconds-bound n = omega arith

-- A duration that is granted lies between the configured limits, both included, and is the one that
-- was asked for, as far as 64 bits hold it; the token had not expired.
pub calculate_final_duration_seconds-bounds :
    (s : Limits) (now api_provided_duration : ℕ) (exp : Option ℕ) (d : ℕ)
    → IsConfigured s
    → 0 < now
    → calculate_final_duration_seconds s now api_provided_duration exp ≡ ok d
    → (d ≡ seconds api_provided_duration)
      × (s.min_allowed_duration ≤ d)
      × (d ≤ s.max_allowed_duration)
      × ((e : ℕ) × (exp ≡ some e) × (now ≤ e))
unfolding calculate_final_duration_seconds
calculate_final_duration_seconds-bounds s now n none d h p e = absurd (cc)
calculate_final_duration_seconds-bounds s now n (some x) d h p e = elim (Bool-cases (ltb x now)) [
  | inl q ↦ absurd (ground arith)
  | inr q ↦
      (let (a, b, c) =
          within-bounds s now (seconds n) d h p (seconds-bound n) (sym (rw q refl) ∙ e) in
        (a, b, c, (x, refl, ground arith)))
]
