-- ===== src/Credentials/Tests.antt =====
-- The secret key of a concrete access key.
use fakes3pp.Prelude.{◌≡◌, arith}
use fakes3pp.Outcome.{ok}
use fakes3pp.Credentials.SecretKey.{calculate_secret_key, digit, encode_to_string}
use fakes3pp.Credentials.Derived.{calculate_secret_key-guess}

calculate_secret_key-guess_example :
    calculate_secret_key (λ b. b) (ok "1234567") "0123456789abcdef0123456789abcdef"
    ≡ ok "MDEyMzQ1Njc4OWFiY2RlZjAxMjM0NTY3ODlhYmNkZW"
unfolding digit encode_to_string
calculate_secret_key-guess_example =
    calculate_secret_key-guess (λ b. b) "1234567" "0123456789abcdef0123456789abcdef" (omega arith)
