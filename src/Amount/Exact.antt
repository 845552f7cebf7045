-- ===== src/Amount/Exact.antt =====
-- The amounts that an order carries: their places, and that printing them loses nothing.
use go_polymarket.Base.{
  ℕ, ◌+◌, ◌-◌, ◌≤◌, ◌<◌, ◌≡◌, refl, subst, Bool, true, false, arith, Bool-cases, inl, inr, some, ok,
  err, ◌↔◌, Result,
}
use go_polymarket.Base.Bytes.{Bytes}
use go_polymarket.Base.Rat.{Rat, of_ℤ, div_ℕ, mul_rat, quo_rat, eqb_rat, is_zero_rat}
use go_polymarket.Amount.{
  Config, by_tick_size, Raw, Mode, zero_price, half_up, floor, round, round_down, converge, limit,
  market, fixed, decimals, pow10, Error,
}
use native.Mathlib.Nat.{mul-pos}
use go_polymarket.Amount.Places.{
  FitsPlaces, FitsPlaces-mono, round-FitsPlaces, round-den, converge-FitsPlaces, round_down_lem,
  eqb-round_down, converge-den,
}

-- The integer on the wire, over 10^6, is the amount itself.
abbrev pub IsExact : Rat → Type 0
IsExact v = eqb_rat (div_ℕ (of_ℤ (fixed v)) (pow10 decimals)) v ≡ true

fixed-IsExact : (v : Rat) → 0 < v.den → FitsPlaces v decimals → IsExact v
unfolding fixed
fixed-IsExact v h fits = rw round_down_lem at ((eqb-round_down v.num v.den decimals h).1 fits)

-- `Fixed` of what has at most six places.
fixed-IsExact_of_places : (v : Rat) (n : ℕ) → 0 < v.den → FitsPlaces v n → n ≤ decimals → IsExact v
fixed-IsExact_of_places v n h fits le = fixed-IsExact v h (
    subst (FitsPlaces v) {x = n + (decimals - n)} {y = decimals} (omega arith)
      (FitsPlaces-mono v n (decimals - n) fits))

by_tick_size_bounds :
    (tick : Bytes) (cfg : Config)
    → by_tick_size tick ≡ some cfg
    → (cfg.size ≤ decimals) × (cfg.amount ≤ decimals)
unfolding by_tick_size
by_tick_size_bounds tick cfg e = ground arith

-- The two amounts are computed from a rounded one, `whole`, and a rounded price.
module _ (cfg : Config) (s : cfg.size ≤ decimals) (a : cfg.amount ≤ decimals) where
  whole-IsExact : (x : Rat) → IsExact (round_down x cfg.size)
  whole-IsExact x =
      fixed-IsExact_of_places _ cfg.size (round-den x cfg.size floor)
        (round-FitsPlaces x cfg.size floor) s

  derived-IsExact : (v : Rat) → 0 < v.den → IsExact (converge v cfg.amount)
  derived-IsExact v h =
      fixed-IsExact_of_places _ cfg.amount (converge-den v cfg.amount h)
        (converge-FitsPlaces v cfg.amount h) a

  product-IsExact :
      (x price : Rat) (m k : Mode)
      → IsExact (converge (mul_rat (round x cfg.size m) (round price cfg.price k)) cfg.amount)
  product-IsExact x price m k =
      derived-IsExact _ (mul-pos (round-den x cfg.size m) (round-den price cfg.price k))

  quotient-IsExact :
      (x price : Rat)
      → is_zero_rat (round_down price cfg.price) ≡ false
      → IsExact (converge (quo_rat (round_down x cfg.size) (round_down price cfg.price)) cfg.amount)
  quotient-IsExact x price h =
      derived-IsExact _ (mul-pos (round-den x cfg.size floor) (ground arith))

abbrev AreExact : Raw → Type 0
AreExact r = IsExact r.maker × IsExact r.taker

abbrev pub AllExact : Result Error Raw → Type 0
AllExact (ok r) = AreExact r
AllExact (err e) = Unit

-- For every tick size of the table, the two amounts that `Limit` computes are printed exactly: the
-- integer that `Fixed` writes for them, divided by 10^6, is the amount. It holds on either side and
-- for any size and price, negative ones included.
pub limit-IsExact :
    (tick : Bytes) (cfg : Config) (buy : Bool) (size price : Rat)
    → by_tick_size tick ≡ some cfg
    → IsExact (limit buy size price cfg).maker × IsExact (limit buy size price cfg).taker
unfolding limit
limit-IsExact tick cfg true size price e =
    let (s, a) = by_tick_size_bounds tick cfg e in
    (product-IsExact cfg s a size price floor half_up, whole-IsExact cfg s a size)
limit-IsExact tick cfg false size price e =
    let (s, a) = by_tick_size_bounds tick cfg e in
    (whole-IsExact cfg s a size, product-IsExact cfg s a size price floor half_up)

-- For every tick size of the table, `Market` fails exactly on a buy at a price that rounds to zero, and
-- `Fixed` prints exactly the two amounts that it returns otherwise.
pub market_exact :
    (tick : Bytes) (cfg : Config) (buy : Bool) (amt price : Rat)
    → by_tick_size tick ≡ some cfg
    → (market buy amt price cfg ≡ err zero_price
        ↔ (buy ≡ true) × (is_zero_rat (round_down price cfg.price) ≡ true))
      × AllExact (market buy amt price cfg)
unfolding market
market_exact tick cfg true amt price e =
    let (s, a) = by_tick_size_bounds tick cfg e in
    elim (Bool-cases (is_zero_rat (round_down price cfg.price))) [
      | inl free ↦ rw free ((λ _. (refl, refl), λ _. refl), tt)
      | inr some_price ↦ rw some_price (
        (λ h. cc, λ h. cc),
        (whole-IsExact cfg s a amt, quotient-IsExact cfg s a amt price some_price),
      )
    ]
market_exact tick cfg false amt price e =
    let (s, a) = by_tick_size_bounds tick cfg e in
    ((λ h. cc, λ h. cc), (whole-IsExact cfg s a amt, product-IsExact cfg s a amt price floor floor))
