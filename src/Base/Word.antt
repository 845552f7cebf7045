-- ===== src/Base/Word.antt =====
-- Big-endian bytes of a number, as `big.Int.Bytes`, `SetBytes` and the fixed-width forms have them.
use Prim.Native.Nat.{ℕ, zero, suc, ◌+◌, ◌-◌, ◌*◌, ◌/◌, ◌%◌, ◌^◌, ◌≤◌, ◌<◌}
use mathlib.Core.Path.{◌≡◌, refl, sym, ap, ◌∙◌, subst}
use mathlib.Core.Logic.{◌≢◌}
use mathlib.Core.List.{[], ◌∷◌, ◌++◌, append_assoc, append-nil}
use native.Mathlib.Omega.{arith}
use native.Mathlib.Nat.{pow-suc, add-zero, add-suc}
use native.Mathlib.Decide.{dec_le}
use go_polymarket.Base.Tests.{◌==◌, if◌then◌else◌}
use go_polymarket.Base.Lists.{length, length-append, replicate, All, All-append}
use go_polymarket.Base.Bytes.{Bytes, IsByte}

-- The `k` low bytes of `n`, highest first.
unfoldable pub be_bytes : ℕ → ℕ → Bytes
be_bytes zero n = []
be_bytes (suc k) n = be_bytes k (n / 256) ++ ((n % 256) ∷ [])

-- `new(big.Int).SetBytes(b)`
unfoldable pub be_value_from : ℕ → Bytes → ℕ
be_value_from acc [] = acc
be_value_from acc (b ∷ bs) = be_value_from (acc * 256 + b) bs

unfoldable pub be_value : Bytes → ℕ
unfolding be_value_from
be_value bs = be_value_from 0 bs

-- The bytes that a number needs, on fuel that `n` itself bounds.
unfoldable pub byte_len_fuel : ℕ → ℕ → ℕ
byte_len_fuel zero n = 0
byte_len_fuel (suc f) n = let rest = byte_len_fuel f (n / 256) in if n == 0 then 0 else suc rest

unfoldable pub byte_len : ℕ → ℕ
unfolding byte_len_fuel
byte_len n = byte_len_fuel n n

-- `x.Bytes()`: the shortest big-endian form, empty for zero.
unfoldable pub int_bytes : ℕ → Bytes
unfolding byte_len be_bytes
int_bytes n = be_bytes (byte_len n) n

abbrev pub zeros : ℕ → Bytes
zeros k = replicate k 0

pub length-be_bytes : (k n : ℕ) → length (be_bytes k n) ≡ k
unfolding be_bytes
length-be_bytes zero n = refl
length-be_bytes (suc k) n = rw length-append (omega (arith, length-be_bytes k (n / 256)))

pub be_bytes-IsByte : (k n : ℕ) → All IsByte (be_bytes k n)
unfolding be_bytes
be_bytes-IsByte zero n = tt
be_bytes-IsByte (suc k) n =
    All-append IsByte (be_bytes k (n / 256)) ((n % 256) ∷ []) (be_bytes-IsByte k (n / 256))
      (omega arith)

pub be_value_from-append :
    (acc : ℕ) (xs ys : Bytes)
    → be_value_from acc (xs ++ ys) ≡ be_value_from (be_value_from acc xs) ys
unfolding be_value_from
be_value_from-append acc [] ys = refl
be_value_from-append acc (x ∷ xs) ys = be_value_from-append (acc * 256 + x) xs ys

pow_step : (k : ℕ) → 256 ^ suc k ≡ 256 * 256 ^ k
pow_step k = omega (arith, pow-suc 256 k)

fits_div : (k n : ℕ) → n < 256 ^ suc k → n / 256 < 256 ^ k
fits_div k n h = omega (arith, pow_step k)

last_byte :
    (k acc n : ℕ) → be_value_from (acc * 256 ^ k + n / 256) ((n % 256) ∷ []) ≡ acc * 256 ^ suc k + n
unfolding be_value_from
last_byte k acc n = omega (arith, ap (λ (t : ℕ). acc * t) (pow_step k))

be_value_from-be_bytes :
    (k acc n : ℕ) → n < 256 ^ k → be_value_from acc (be_bytes k n) ≡ acc * 256 ^ k + n
unfolding be_bytes
be_value_from-be_bytes zero acc n h = unfold be_value_from in omega arith
be_value_from-be_bytes (suc k) acc n h =
    be_value_from-append acc (be_bytes k (n / 256)) ((n % 256) ∷ [])
    ∙ rw (be_value_from-be_bytes k acc (n / 256) (fits_div k n h)) (last_byte k acc n)

-- The fixed-width form is read back to the number that was written, if it fits.
pub be_value-be_bytes : (k n : ℕ) → n < 256 ^ k → be_value (be_bytes k n) ≡ n
unfolding be_value
be_value-be_bytes k n h = rw (be_value_from-be_bytes k 0 n h) (omega arith)

byte_len_fuel_zero : (f : ℕ) → byte_len_fuel f 0 ≡ 0
unfolding byte_len_fuel
byte_len_fuel_zero zero = refl
byte_len_fuel_zero (suc f) = refl

byte_len_fuel_pos : (f n : ℕ) → 0 < n → byte_len_fuel (suc f) n ≡ suc (byte_len_fuel f (n / 256))
unfolding byte_len_fuel
byte_len_fuel_pos f n h = ground arith

byte_len_fuel-fits : (f n : ℕ) → n ≤ f → n < 256 ^ byte_len_fuel f n
byte_len_fuel-fits zero n h = unfold byte_len_fuel in omega arith
byte_len_fuel-fits (suc f) zero h = rw byte_len_fuel_zero (omega arith)
byte_len_fuel-fits (suc f) (suc m) h = rw (byte_len_fuel_pos f (suc m) (omega arith)) (
    omega (
      arith,
      byte_len_fuel-fits f (suc m / 256) (omega arith),
      pow_step (byte_len_fuel f (suc m / 256)),
    ))

byte_len_fuel_least : (f n m : ℕ) → byte_len_fuel f n ≡ suc m → 256 ^ m ≤ n
byte_len_fuel_least zero n m e = absurd (unfold byte_len_fuel in omega (arith, e))
byte_len_fuel_least (suc f) zero m e = absurd (omega (arith, byte_len_fuel_zero (suc f), e))
byte_len_fuel_least (suc f) (suc n) zero e = omega arith
byte_len_fuel_least (suc f) (suc n) (suc m) e = omega (
  arith,
  pow_step m,
  byte_len_fuel_least f (suc n / 256) m
      (omega (arith, byte_len_fuel_pos f (suc n) (omega arith), e)),
)

-- The shortest form is long enough.
pub byte_len-fits : (n : ℕ) → n < 256 ^ byte_len n
unfolding byte_len
byte_len-fits n = byte_len_fuel-fits n n (omega arith)

pub byte_len_least : (n m : ℕ) → byte_len n ≡ suc m → 256 ^ m ≤ n
unfolding byte_len
byte_len_least n m e = byte_len_fuel_least n n m e

pow_mono : (j k : ℕ) → j ≤ k → 256 ^ j ≤ 256 ^ k
pow_mono zero zero h = omega arith
pow_mono zero (suc k) h = omega (arith, pow_step k, pow_mono zero k (omega arith))
pow_mono (suc j) zero h = absurd (omega arith)
pow_mono (suc j) (suc k) h = omega (arith, pow_step j, pow_step k, pow_mono j k (omega arith))

-- A number below `256 ^ k` needs `k` bytes at most.
pub byte_len-le : (n k : ℕ) → n < 256 ^ k → byte_len n ≤ k
byte_len-le n k h = go (byte_len n) refl
  where
    go : (l : ℕ) → byte_len n ≡ l → l ≤ k
    go zero e = omega arith
    go (suc m) e = elim (dec_le (suc m) k) [
      | yes p ↦ p
      | no p ↦ absurd (omega (arith, byte_len_least n m e, pow_mono k m (omega arith)))
    ]

pub fits_of_byte_len-le : (n k : ℕ) → byte_len n ≤ k → n < 256 ^ k
fits_of_byte_len-le n k h = omega (arith, byte_len-fits n, pow_mono (byte_len n) k h)

-- `SetBytes` undoes `Bytes`.
pub be_value-int_bytes : (n : ℕ) → be_value (int_bytes n) ≡ n
unfolding int_bytes
be_value-int_bytes n = be_value-be_bytes (byte_len n) n (byte_len-fits n)

pub length-int_bytes : (n : ℕ) → length (int_bytes n) ≡ byte_len n
unfolding int_bytes
length-int_bytes n = length-be_bytes (byte_len n) n

pub int_bytes-IsByte : (n : ℕ) → All IsByte (int_bytes n)
unfolding int_bytes
int_bytes-IsByte n = be_bytes-IsByte (byte_len n) n

zeros_snoc : (k : ℕ) → zeros k ++ 0 ∷ [] ≡ 0 ∷ zeros k
zeros_snoc zero = refl
zeros_snoc (suc k) = ap (λ t. 0 ∷ t) (zeros_snoc k)

be_bytes_zero : (k : ℕ) → be_bytes k 0 ≡ zeros k
unfolding be_bytes
be_bytes_zero zero = refl
be_bytes_zero (suc k) = rw (be_bytes_zero k) (zeros_snoc k)

-- Left padding with zero bytes: a number that fits `k` bytes, written in `j + k` of them.
pub be_bytes_pad : (j k n : ℕ) → n < 256 ^ k → be_bytes (j + k) n ≡ zeros j ++ be_bytes k n
unfolding be_bytes
be_bytes_pad j zero zero h = rw (add-zero, be_bytes_zero j) (sym (append-nil (zeros j)))
be_bytes_pad j zero (suc n) h = absurd (omega arith)
be_bytes_pad j (suc k) n h = rw add-suc (
    ap (λ t. t ++ (n % 256) ∷ []) (be_bytes_pad j k (n / 256) (fits_div k n h))
    ∙ append_assoc (zeros j) (be_bytes k (n / 256)) ((n % 256) ∷ []))

-- The fixed width holds what the shortest form holds, behind zeros.
pub be_bytes-int_bytes :
    (k n : ℕ) → n < 256 ^ k → be_bytes k n ≡ zeros (k - byte_len n) ++ int_bytes n
unfolding int_bytes
be_bytes-int_bytes k n h =
    ap (λ (t : ℕ). be_bytes t n) {x = k} {y = k - byte_len n + byte_len n}
      (omega (arith, byte_len-le n k h))
    ∙ be_bytes_pad (k - byte_len n) (byte_len n) n (byte_len-fits n)

round_up : (acc b p : ℕ) → b < 256 → (acc * 256 + b + 1) * p ≤ (acc + 1) * (256 * p)
round_up acc b p h = grind arith

be_value_from-lt :
    (acc : ℕ) (bs : Bytes) → All IsByte bs → be_value_from acc bs < (acc + 1) * 256 ^ length bs
unfolding be_value_from
be_value_from-lt acc [] h = omega arith
be_value_from-lt acc (b ∷ bs) h =
    rw (pow_step (length bs))
      (omega (arith, be_value_from-lt (acc * 256 + b) bs h.1, round_up acc b (256 ^ length bs) h.0))

-- A byte string is below `256` to its length.
pub be_value-lt : (bs : Bytes) → All IsByte bs → be_value bs < 256 ^ length bs
unfolding be_value
be_value-lt bs h = omega (arith, be_value_from-lt 0 bs h)

-- The first byte of the shortest form is not zero.
pub head-int_bytes : (n : ℕ) (b : ℕ) (bs : Bytes) → int_bytes n ≡ b ∷ bs → b ≢ 0
unfolding be_value be_value_from
head-int_bytes n b bs e z = omega (
  arith,
  byte_len-le n (length bs)
      (rw value (be_value-lt bs (subst (All IsByte) e (int_bytes-IsByte n)).1)),
  length-int_bytes n,
  ap length e,
)
  where
    value : n ≡ be_value bs
    value = sym (be_value-int_bytes n) ∙ ap be_value e ∙ ap (λ (t : ℕ). be_value (t ∷ bs)) z
