-- ===== src/Amount.antt =====
-- internal/amount/amount.go: the maker and taker amounts of an order, in exact rationals.
pub mod Round
mod Tests
pub mod Places
pub mod Exact
pub mod Converge
use go_polymarket.Base.{
  ℕ, zero, suc, ◌+◌, ◌*◌, ◌%◌, ◌^◌, Bool, true, false, not, Option, none, some, List, [], ◌∷◌, ltb,
  leb, ◌==◌, if◌then◌else◌, Result, ok, err,
}
use go_polymarket.Base.Bytes.{Bytes, codes, bytes_eq}
use go_polymarket.Base.Int.{ℤ, pos, abs, scale_ℤ, inc_ℤ, quo_ℤ}
use go_polymarket.Base.Rat.{Rat, of_ℤ, mul_rat, div_ℕ, quo_rat, eqb_rat, is_zero_rat}

pub record Config : Type 0 where
  pub price : ℕ
  pub size : ℕ
  pub amount : ℕ

abbrev config : ℕ → ℕ → ℕ → Config
config p s a = record { price = p; size = s; amount = a }

-- The lookup `ByTickSize[s]`.
unfoldable pub by_tick_size : Bytes → Option Config
by_tick_size s =
    if bytes_eq s (codes "0.1")
    then some (config 1 2 3)
    else if bytes_eq s (codes "0.01")
    then some (config 2 2 4)
    else if bytes_eq s (codes "0.005")
    then some (config 3 2 5)
    else if bytes_eq s (codes "0.0025")
    then some (config 4 2 6)
    else if bytes_eq s (codes "0.001")
    then some (config 3 2 5)
    else if bytes_eq s (codes "0.0001")
    then some (config 4 2 6)
    else none

abbrev pub decimals : ℕ
decimals = 6

pub record Raw : Type 0 where
  pub maker : Rat
  pub taker : Rat

abbrev pub pow10 : ℕ → ℕ
pow10 n = 10 ^ n

pub data Mode : Type 0 where
  half_up floor ceil : Mode

-- Whether the mode adds one to the quotient, for the remainder `r` of the magnitudes.
unfoldable pub rounds_up : Mode → ℕ → ℕ → Bool
rounds_up floor r den = false
rounds_up ceil r den = not (r == 0)
rounds_up half_up r den = leb den (r * 2)

unfoldable pub round : Rat → ℕ → Mode → Rat
unfolding rounds_up
round x n m =
    let scaled = scale_ℤ x.num (pow10 n) in
    let q = quo_ℤ scaled x.den in
    let r = abs scaled % x.den in
    div_ℕ (of_ℤ (if rounds_up m r x.den then inc_ℤ q else q)) (pow10 n)

abbrev pub round_half_up : Rat → ℕ → Rat
round_half_up x n = round x n half_up

abbrev pub round_down : Rat → ℕ → Rat
round_down x n = round x n floor

abbrev pub round_up : Rat → ℕ → Rat
round_up x n = round x n ceil

-- The loop of `decimalPlaces` from `n` on, with `left` rounds to go.
unfoldable pub places_from : Rat → ℕ → ℕ → ℕ
unfolding round
places_from x n zero = n
places_from x n (suc left) =
    let rest = places_from x (n + 1) left in if eqb_rat (round_down x n) x then n else rest

unfoldable pub decimal_places : Rat → ℕ → ℕ
unfolding places_from
decimal_places x limit = places_from x 0 (limit + 1)

unfoldable pub converge : Rat → ℕ → Rat
converge v limit =
    if leb (decimal_places v limit) limit
    then v
    else (let v' = round_up v (limit + 4) in
        if ltb limit (decimal_places v' limit) then round_down v' limit else v')

-- `Limit`
unfoldable pub limit : Bool → Rat → Rat → Config → Raw
limit buy size price cfg =
    let p = round_half_up price cfg.price in
    let whole = round_down size cfg.size in
    let derived = converge (mul_rat whole p) cfg.amount in
    if buy
    then record { maker = derived; taker = whole }
    else record { maker = whole; taker = derived }

pub data Error : Type 0 where
  zero_price : Error

-- `Market`
unfoldable pub market : Bool → Rat → Rat → Config → Result Error Raw
market buy amt price cfg =
    let p = round_down price cfg.price in
    let maker = round_down amt cfg.size in
    if buy
    then (if is_zero_rat p
        then err zero_price
        else ok (record { maker = maker; taker = converge (quo_rat maker p) cfg.amount }))
    else ok (record { maker = maker; taker = converge (mul_rat maker p) cfg.amount })

-- The integer that `Fixed` prints.
unfoldable pub fixed : Rat → ℤ
fixed v = quo_ℤ (scale_ℤ v.num (pow10 decimals)) v.den
