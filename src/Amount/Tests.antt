-- ===== src/Amount/Tests.antt =====
-- Amounts of orders, and the theorems at concrete inputs.
use go_polymarket.Base.{ℕ, ◌+◌, ◌^◌, ◌≡◌, refl, ◌↔◌, true, arith, err}
use go_polymarket.Base.Bytes.{codes}
use go_polymarket.Base.Int.{pos}
use go_polymarket.Base.Rat.{is_zero_rat}
use go_polymarket.Amount.{
  Config, by_tick_size, limit, market, zero_price, converge, decimal_places, places_from, round,
  round_down, rounds_up, fixed,
}
use go_polymarket.Amount.Round.{frac}
use go_polymarket.Amount.Converge.{IsNear, converge-IsNear}
use go_polymarket.Amount.Exact.{IsExact, AllExact, limit-IsExact, market_exact}

abbrev cent : Config
cent = record { price = 2; size = 2; amount = 4 }

-- A buy of 100 at 0.52 pays 52.
buy_hundred : fixed (limit true (frac 100 1) (frac 52 100) cent).maker ≡ pos 52000000
unfolding limit converge decimal_places places_from round rounds_up fixed
buy_hundred = refl

-- A third, cut to four places.
a_third : fixed (converge (frac 1 3) 4) ≡ pos 333300
unfolding converge decimal_places places_from round rounds_up fixed
a_third = refl

limit-IsExact_example :
    IsExact (limit true (frac 100 1) (frac 52 100) cent).maker
    × IsExact (limit true (frac 100 1) (frac 52 100) cent).taker
unfolding by_tick_size
limit-IsExact_example = limit-IsExact (codes "0.01") cent true (frac 100 1) (frac 52 100) refl

market_exact_example :
    (market true (frac 100 1) (frac 52 100) cent ≡ err zero_price
      ↔ (true ≡ true) × (is_zero_rat (round_down (frac 52 100) 2) ≡ true))
    × AllExact (market true (frac 100 1) (frac 52 100) cent)
unfolding by_tick_size
market_exact_example = market_exact (codes "0.01") cent true (frac 100 1) (frac 52 100) refl

converge-IsNear_example :
    (n e : ℕ) × (converge (frac 1 3) 4 ≡ frac n e) × IsNear 1 3 (10 ^ (4 + 4)) (10 ^ 4) n e
converge-IsNear_example = converge-IsNear 1 3 4 (omega arith)
