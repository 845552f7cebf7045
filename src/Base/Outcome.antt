-- ===== src/Base/Outcome.antt =====
-- Go's (value, error) pair: a value, or the error that the function returned.
use mathlib.Core.Path.{◌≡◌, refl}
use mathlib.Core.Bool.{Bool, true, false}
use go_polymarket.Base.Tests.{if◌then◌else◌}

pub data Result {ℓ κ} (E : Type ℓ) (A : Type κ) : Type (ℓ ⊔ κ) where
  err : E → Result E A
  ok : A → Result E A

-- `fmt.Errorf("…: %w", err)`: the same outcome under another error.
abbrev pub map_err {ℓ κ μ} :
    {E : Type ℓ} {F : Type κ} {A : Type μ} → (E → F) → Result E A → Result F A
map_err wrap (err why) = err (wrap why)
map_err wrap (ok value) = ok value

-- `if !test { return …, why }`
abbrev pub guard {ℓ} : {E : Type ℓ} → Bool → E → Result E (Unit {0})
guard test why = if test then ok tt else err why

-- `v, err := …; if err != nil { return …, err }`, and the code that goes on with `v`.
infixl 5 ◌>>=◌
abbrev pub ◌>>=◌ {ℓ κ μ} :
    {E : Type ℓ} {A : Type κ} {B : Type μ} → Result E A → (A → Result E B) → Result E B
err why >>= rest = err why
ok value >>= rest = rest value

infixl 5 ◌>>◌
abbrev pub ◌>>◌ {ℓ κ} : {E : Type ℓ} {B : Type κ} → Result E (Unit {0}) → Result E B → Result E B
check >> rest = check >>= λ _. rest

module _ {ℓ κ} {E : Type ℓ} {A : Type κ} where
  -- A chain succeeds only if its first step does, and the rest after it.
  pub bind_inversion {μ} :
      {B : Type μ} (step : Result E B) (rest : B → Result E A) {a : A}
      → (step >>= rest) ≡ ok a
      → (b : B) × (step ≡ ok b) × (rest b ≡ ok a)
  bind_inversion (err why) rest done = cc
  bind_inversion (ok value) rest done = (value, refl, done)

  pub guarded :
      (test : Bool) (why : E) (rest : Result E A) {a : A}
      → (guard test why >> rest) ≡ ok a
      → (test ≡ true) × (rest ≡ ok a)
  guarded false why rest done = absurd (cc)
  guarded true why rest done = (refl, done)

module _ {ℓ κ μ} {E : Type ℓ} {A : Type κ} {B : Type μ} where
  pub bind_congr :
      (step : Result E A) (f g : A → Result E B)
      → ((a : A) → f a ≡ g a)
      → (step >>= f) ≡ (step >>= g)
  bind_congr (err why) f g same = refl
  bind_congr (ok value) f g same = same value

  -- What goes on needs to agree only on the value that the first step has.
  pub bind_congr_ok :
      (step : Result E A) (f g : A → Result E B)
      → ((a : A) → step ≡ ok a → f a ≡ g a)
      → (step >>= f) ≡ (step >>= g)
  bind_congr_ok (err why) f g same = refl
  bind_congr_ok (ok value) f g same = same value refl

  pub bind_assoc {ν} :
      {C : Type ν} (step : Result E A) (f : A → Result E B) (g : B → Result E C)
      → (step >>= f >>= g) ≡ (step >>= λ a. f a >>= g)
  bind_assoc (err why) f g = refl
  bind_assoc (ok value) f g = refl

module _ {ℓ κ μ} {E : Type ℓ} {F : Type κ} {A : Type μ} where
  pub map_err-ok : (wrap : E → F) (r : Result E A) (a : A) → map_err wrap r ≡ ok a → r ≡ ok a
  map_err-ok wrap (err x) a e = absurd (cc)
  map_err-ok wrap (ok b) a e = cc

pub value_of {ℓ κ} : {E : Type ℓ} {A : Type κ} {x y : A} → Path (Result E A) (ok x) (ok y) → x ≡ y
value_of e = cc

abbrev pub is_ok {ℓ κ} : {E : Type ℓ} {A : Type κ} → Result E A → Bool
is_ok (err x) = false
is_ok (ok a) = true

pub is_ok→ok {ℓ κ} :
    {E : Type ℓ} {A : Type κ} (r : Result E A) → is_ok r ≡ true → (a : A) × (r ≡ ok a)
is_ok→ok (err x) h = absurd (cc)
is_ok→ok (ok a) h = (a, refl)

pub bind-is_ok {ℓ κ μ} :
    {E : Type ℓ} {A : Type κ} {B : Type μ} (r : Result E A) (f : A → Result E B)
    → is_ok r ≡ true
    → ((a : A) → is_ok (f a) ≡ true)
    → is_ok (r >>= f) ≡ true
bind-is_ok (err x) f h g = absurd (cc)
bind-is_ok (ok a) f h g = g a

pub map_err-is_ok {ℓ κ μ} :
    {E : Type ℓ} {F : Type κ} {A : Type μ} (wrap : E → F) (r : Result E A)
    → is_ok r ≡ true
    → is_ok (map_err wrap r) ≡ true
map_err-is_ok wrap (err x) h = absurd (cc)
map_err-is_ok wrap (ok a) h = refl

pub map_err-was_ok {ℓ κ μ} :
    {E : Type ℓ} {F : Type κ} {A : Type μ} (wrap : E → F) (r : Result E A) (a : A)
    → map_err wrap r ≡ ok a
    → is_ok r ≡ true
map_err-was_ok wrap (err x) a e = absurd (cc)
map_err-was_ok wrap (ok b) a e = refl
