-- ===== src/Outcome.antt =====
-- Results of Go calls: a value with a nil error, an error, or a panic of the Go runtime.
use fakes3pp.Prelude.{◌≡◌, refl}
use fakes3pp.UserError.{Error}

-- `(value, error)`, or a run-time panic such as an index out of range or a nil dereference.
pub data Result {ℓ} (A : Type ℓ) : Type ℓ where
  ok : A → Result A
  fail : Error → Result A
  panic : Result A

infixl 5 ◌>>=◌
abbrev pub ◌>>=◌ {ℓ κ} : {A : Type ℓ} {B : Type κ} → Result A → (A → Result B) → Result B
ok a >>= f = f a
fail e >>= f = fail e
panic >>= f = panic

-- `%w` of `fmt.Errorf`, or another change of an error on its way out.
abbrev pub map_error {ℓ} : {A : Type ℓ} → (Error → Error) → Result A → Result A
map_error g (ok a) = ok a
map_error g (fail e) = fail (g e)
map_error g panic = panic

-- A call that returns a value and no error, or panics.
pub data Run {ℓ} (A : Type ℓ) : Type ℓ where
  returned : A → Run A
  panicked : Run A

-- Inversion of a successful bind.
pub >>=-eq-ok {ℓ κ} :
    {X : Type ℓ} {Y : Type κ} (r : Result X) (next : X → Result Y) {y : Y}
    → (r >>= next) ≡ ok y
    → (x : X) × (r ≡ ok x) × (next x ≡ ok y)
>>=-eq-ok panic next e = absurd (cc)
>>=-eq-ok (fail why) next e = absurd (cc)
>>=-eq-ok (ok x) next e = (x, refl, e)

pub map_error-eq-ok {ℓ} :
    {A : Type ℓ} (g : Error → Error) (r : Result A) (a : A) → map_error g r ≡ ok a → r ≡ ok a
map_error-eq-ok g (ok b) a e = e
map_error-eq-ok g (fail x) a e = absurd (cc)
map_error-eq-ok g panic a e = absurd (cc)

pub ok-eq-ok {ℓ} : {A : Type ℓ} (a b : A) → ok a ≡ ok b → a ≡ b
ok-eq-ok a b h = cc
