-- ===== src/Base/Decimal.antt =====
-- Decimal integers: `strconv.FormatInt(n, 10)` and `big.Int.String`, and `SetString(s, 10)`.
use Prim.Native.Nat.{ℕ, zero, suc, ◌+◌, ◌-◌, ◌*◌, ◌/◌, ◌%◌, ◌^◌, ◌≤◌}
use mathlib.Core.Path.{◌≡◌, refl, ap, ◌∙◌}
use mathlib.Core.Bool.{◌&&◌}
use mathlib.Core.Option
use mathlib.Core.Option.{Option, none, some}
use mathlib.Core.List.{[], ◌∷◌, ◌++◌}
use native.Mathlib.Omega.{arith}
use go_polymarket.Base.Tests.{ltb, leb, ◌==◌, if◌then◌else◌, Bool-cases}
use mathlib.Core.Logic.{inl, inr}
use go_polymarket.Base.Bytes.{Bytes}
use go_polymarket.Base.Int.{ℤ, pos, negsuc, neg_ℕ}

-- The digits of `n`, on fuel that `n` bounds.
unfoldable pub digits_fuel : ℕ → ℕ → Bytes
digits_fuel zero n = (b'0' + n % 10) ∷ []
digits_fuel (suc f) n =
    let more = digits_fuel f (n / 10) ++ (b'0' + n % 10) ∷ [] in
    if ltb n 10 then (b'0' + n % 10) ∷ [] else more

unfoldable pub format_ℕ : ℕ → Bytes
unfolding digits_fuel
format_ℕ n = digits_fuel n n

unfoldable pub format_ℤ : ℤ → Bytes
unfolding format_ℕ
format_ℤ (pos n) = format_ℕ n
format_ℤ (negsuc n) = b'-' ∷ format_ℕ (suc n)

unfoldable pub parse_digits : ℕ → Bytes → Option ℕ
parse_digits acc [] = some acc
parse_digits acc (c ∷ s) =
    let rest = parse_digits (acc * 10 + (c - b'0')) s in
    if leb b'0' c && leb c b'9' then rest else none

-- A number of one digit or more.
unfoldable pub parse_ℕ : Bytes → Option ℕ
unfolding parse_digits
parse_ℕ [] = none
parse_ℕ (c ∷ s) = parse_digits 0 (c ∷ s)

-- A sign may lead.
unfoldable pub parse_ℤ : Bytes → Option ℤ
unfolding parse_ℕ
parse_ℤ [] = none
parse_ℤ (c ∷ s) =
    if c == b'-'
    then Option.map neg_ℕ (parse_ℕ s)
    else if c == b'+'
    then Option.map pos (parse_ℕ s)
    else Option.map pos (parse_ℕ (c ∷ s))

parse_digits-append :
    (acc m : ℕ) (xs ys : Bytes)
    → parse_digits acc xs ≡ some m
    → parse_digits acc (xs ++ ys) ≡ parse_digits m ys
unfolding parse_digits
parse_digits-append acc m [] ys e = ground arith
parse_digits-append acc m (x ∷ xs) ys e =
    ground (arith, parse_digits-append (acc * 10 + (x - b'0')) m xs ys)

parse_last : (m n : ℕ) → parse_digits m ((b'0' + n % 10) ∷ []) ≡ some (m * 10 + n % 10)
unfolding parse_digits
parse_last m n = ground arith

parse-digits_fuel : (f n : ℕ) → n ≤ f → parse_digits 0 (digits_fuel f n) ≡ some n
unfolding digits_fuel
parse-digits_fuel zero n h = parse_last 0 n ∙ ap some {x = 0 * 10 + n % 10} {y = n} (omega arith)
parse-digits_fuel (suc f) n h = elim (Bool-cases (ltb n 10)) [
  | inl one ↦ rw one (parse_last 0 n ∙ ap some {x = 0 * 10 + n % 10} {y = n} (ground arith))
  | inr more ↦ rw more (
      parse_digits-append 0 (n / 10) (digits_fuel f (n / 10)) ((b'0' + n % 10) ∷ [])
        (parse-digits_fuel f (n / 10) (ground arith))
      ∙ parse_last (n / 10) n
      ∙ ap some {x = n / 10 * 10 + n % 10} {y = n} (omega arith))
]

-- The first byte of a print is a digit, so it is no sign.
digits_fuel-cons :
    (f n : ℕ) → (c : ℕ) × (s : Bytes) × (digits_fuel f n ≡ c ∷ s) × (b'0' ≤ c) × (c ≤ b'9')
unfolding digits_fuel
digits_fuel-cons zero n = (b'0' + n % 10, [], refl, omega arith, omega arith)
digits_fuel-cons (suc f) n = elim (Bool-cases (ltb n 10)) [
  | inl one ↦ (b'0' + n % 10, [], rw one refl, omega arith, omega arith)
  | inr more ↦
      let (c, s, e, lo, hi) = digits_fuel-cons f (n / 10) in
      (c, s ++ (b'0' + n % 10) ∷ [], rw (more, e) refl, lo, hi)
]

pub parse-format_ℕ : (n : ℕ) → parse_ℕ (format_ℕ n) ≡ some n
unfolding parse_ℕ format_ℕ
parse-format_ℕ n =
    let (c, s, e, lo, hi) = digits_fuel-cons n n in
    rw (e, parse_ℕ) (rw e at (parse-digits_fuel n n (omega arith)))

-- Every integer is read back from its decimal print.
pub parse-format_ℤ : (z : ℤ) → parse_ℤ (format_ℤ z) ≡ some z
unfolding parse_ℤ format_ℤ
parse-format_ℤ (pos n) =
    let (c, s, e, lo, hi) = digits_fuel-cons n n in
    let back : parse_ℕ (c ∷ s) ≡ some n = rw e at (parse-format_ℕ n) in
    unfold format_ℕ in rw (e, parse_ℤ) (ground (arith, back))
parse-format_ℤ (negsuc n) = ground (arith, parse-format_ℕ (suc n))

abbrev pub in_int64 : Option ℤ → Option ℤ
in_int64 none = none
in_int64 (some (pos n)) = if ltb n (2 ^ 63) then some (pos n) else none
in_int64 (some (negsuc n)) = if ltb n (2 ^ 63) then some (negsuc n) else none

-- `strconv.ParseInt(s, 10, 64)`: an integer that 64 bits hold.
unfoldable pub parse_int64 : Bytes → Option ℤ
unfolding parse_ℤ
parse_int64 s = in_int64 (parse_ℤ s)
