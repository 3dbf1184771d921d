-- ===== src/Sts/Tests.antt =====
-- The theorem on durations at concrete limits.
use fakes3pp.Prelude.{ℕ, ◌≤◌, ◌≡◌, refl, some, arith}
use fakes3pp.Outcome.{ok}
use fakes3pp.Sts.Duration.{
  Limits, seconds, calculate_final_duration_seconds, calculate_final_duration_seconds-bounds,
}

-- From 15 minutes to 12 hours.
abbrev limits : Limits
limits = record { min_allowed_duration = 900000000000; max_allowed_duration = 43200000000000 }

one_hour : calculate_final_duration_seconds limits 1000 3600 (some 2000) ≡ ok 3600000000000
unfolding calculate_final_duration_seconds seconds
one_hour = refl

calculate_final_duration_seconds-bounds_example :
    (3600000000000 ≡ seconds 3600)
    × (limits.min_allowed_duration ≤ 3600000000000)
    × (3600000000000 ≤ limits.max_allowed_duration)
    × ((e : ℕ) × (some 2000 ≡ some e) × (1000 ≤ e))
calculate_final_duration_seconds-bounds_example =
    calculate_final_duration_seconds-bounds limits 1000 3600 (some 2000) 3600000000000
      (record { min_bound = omega arith; max_bound = omega arith }) (omega arith) one_hour
