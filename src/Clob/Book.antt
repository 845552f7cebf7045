-- ===== src/Clob/Book.antt =====
-- clob/market.go: the price that a market order clears at, walked from the book. `ParseDecimal` is that of Order.antt,
-- over the reader of `big.Rat.SetString`. Of an order book, the walk reads the two sides, worst price first.
pub mod Walk
pub mod Depth
use go_polymarket.Base.{
  Bool, true, false, not, Option, none, some, List, [], ◌∷◌, if◌then◌else◌, Result, ok, err, ◌>>=◌,
  map_err,
}
use mathlib.Core.List.{reverse}
use go_polymarket.Base.Bytes.{Bytes, codes, bytes_eq, is_empty}
use go_polymarket.Base.Int.{pos}
use go_polymarket.Base.Rat.{Rat, add_rat, mul_rat, ltb_rat}
use go_polymarket.Order.{Side, buy, sell, OrderError, parse_decimal}

pub record OrderSummary : Type 0 where
  pub price : Bytes
  pub size : Bytes

pub record OrderBook : Type 0 where
  pub bids : List OrderSummary
  pub asks : List OrderSummary

pub data BookError : Type 0 where
  bad_decimal : OrderError → BookError
  no_levels : Side → BookError
  cannot_fill : Bytes → BookError

abbrev pub fok : Bytes
fok = codes "FOK"

abbrev pub fak : Bytes
fak = codes "FAK"

-- `new(big.Rat)`
abbrev pub zero_rat : Rat
zero_rat = record { num = pos 0; den = 1 }

abbrev pub levels_of : OrderBook → Side → List OrderSummary
levels_of book side = if bytes_eq side sell then book.bids else book.asks

-- `levels[0].Price`
abbrev pub worst_price : List OrderSummary → Bytes
worst_price [] = []
worst_price (l ∷ levels) = l.price

-- A market order may take the whole book unless it is to be filled or killed.
abbrev pub beyond_book : Bytes → Bytes → List OrderSummary → Result BookError Bytes
beyond_book size order_type levels =
    if bytes_eq order_type fok then err (cannot_fill size) else ok (worst_price levels)

module _ (parse_rat : Bytes → Option Rat) where
  abbrev pub decimal : Bytes → Result BookError Rat
  decimal s = map_err bad_decimal (parse_decimal parse_rat s)

  -- What one level adds to the sum: dollars for a buy, else shares.
  unfoldable pub level_value : Side → OrderSummary → Result BookError Rat
  level_value side l = do
    size ← decimal l.size
    if bytes_eq side buy then (do price ← decimal l.price; ok (mul_rat size price)) else ok size

  -- The loop from the end of the slice; `none` is its end without a return.
  unfoldable pub walk : Side → Rat → Rat → List OrderSummary → Result BookError (Option Bytes)
  unfolding level_value
  walk side amt sum [] = ok none
  walk side amt sum (l ∷ rest) = do
    v ← level_value side l
    let go_on = walk side amt (add_rat sum v) rest
    if not (ltb_rat (add_rat sum v) amt) then ok (some l.price) else go_on

  abbrev pub priced : Bytes → Bytes → List OrderSummary → Option Bytes → Result BookError Bytes
  priced size order_type levels (some price) = ok price
  priced size order_type levels none = beyond_book size order_type levels

  abbrev pub walk_levels : Side → Bytes → Bytes → Rat → List OrderSummary → Result BookError Bytes
  walk_levels side size order_type amt [] = err (no_levels side)
  walk_levels side size order_type amt (l ∷ levels) =
      walk side amt zero_rat (reverse (l ∷ levels)) >>= priced size order_type (l ∷ levels)

  unfoldable pub market_price : OrderBook → Side → Bytes → Bytes → Result BookError Bytes
  unfolding walk
  market_price book side size order_type = do
    amt ← decimal size
    walk_levels side size order_type amt (levels_of book side)
