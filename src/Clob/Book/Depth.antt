-- ===== src/Clob/Book/Depth.antt =====
-- clob/market.go, `marketPrice`: what its price, and its errors, say of the book.
use go_polymarket.Base.{
  ◌≡◌, ◌≢◌, refl, sym, ◌∙◌, ◌⊎◌, inl, inr, Option, none, some, List, [], ◌∷◌, ◌++◌, Bool-cases,
  if◌then◌else◌, Result, ok, err, ◌>>=◌, map_err,
}
use mathlib.Core.List.{reverse, reverse-cons}
use go_polymarket.Base.Bytes.{Bytes, codes, bytes_eq, bytes_eq_iff}
use go_polymarket.Base.Rat.{Rat}
use go_polymarket.Order.{Side, invalid_decimal, parse_decimal, or_invalid}
use go_polymarket.Clob.Book.{
  OrderSummary, OrderBook, BookError, bad_decimal, no_levels, cannot_fill, fok, zero_rat, levels_of,
  walk, priced, walk_levels, market_price,
}
use go_polymarket.Clob.Book.Walk.{Reaches, Short, Breaks, Walked, walk-Walked}

snoc-ne-nil : (l : OrderSummary) (levels : List OrderSummary) → levels ++ l ∷ [] ≢ []
snoc-ne-nil l [] e = cc
snoc-ne-nil l (k ∷ levels) e = cc

reverse-ne-nil : (l : OrderSummary) (levels : List OrderSummary) → reverse (l ∷ levels) ≢ []
reverse-ne-nil l levels e = snoc-ne-nil l (reverse levels) (sym (reverse-cons l levels) ∙ e)

module _ (parse_rat : Bytes → Option Rat) where
  -- The side of the book that an order takes from: the bids for a sale, else the asks.
  abbrev pub opposite : OrderBook → Side → List OrderSummary
  opposite book side = if bytes_eq side (codes "SELL") then book.bids else book.asks

  -- What a price, or an error, says about the book: with a price, the amount is a decimal and the side's levels, best first,
  -- reach it at the level of the price, or together fall short, for an order that is not fill-or-kill, and the price is
  -- the first, worst one. An error says that the levels fall short of a fill-or-kill order, that there are none, or which text is no
  -- decimal: the amount, or one of the level at which the walk breaks.
  abbrev pub Outcome : OrderBook → Side → Bytes → Bytes → Result BookError Bytes → Type 0
  Outcome book side size order_type (ok price) =
      (amt : Rat) × (parse_rat size ≡ some amt)
      × (Reaches parse_rat side amt zero_rat (reverse (opposite book side)) price
          ⊎ (Short parse_rat side amt zero_rat (reverse (opposite book side))
              × (order_type ≢ codes "FOK")
              × (l : OrderSummary) × (levels : List OrderSummary) × (opposite book side
                  ≡ l ∷ levels)
              × (price ≡ l.price)))
  Outcome book side size order_type (err (cannot_fill s)) =
      (amt : Rat) × (parse_rat size ≡ some amt)
      × Short parse_rat side amt zero_rat (reverse (opposite book side))
      × (opposite book side ≢ [])
      × (order_type ≡ codes "FOK")
      × (s ≡ size)
  Outcome book side size order_type (err (no_levels s)) =
      (amt : Rat) × (parse_rat size ≡ some amt) × (opposite book side ≡ []) × (s ≡ side)
  Outcome book side size order_type (err (bad_decimal x)) =
      (text : Bytes) × (x ≡ invalid_decimal text)
      × (((parse_rat size ≡ none) × (text ≡ size))
          ⊎ ((amt : Rat) × (parse_rat size ≡ some amt)
              × Breaks parse_rat side amt zero_rat (reverse (opposite book side)) text))

  -- A price of `MarketPrice` is that of the first level from the best at which the depth, in dollars for a buy and in shares for
  -- a sale, reaches the amount, or the worst one if all the levels fall short and the order is not fill-or-kill. An error says
  -- that they fall short of a fill-or-kill order, that the side is empty, or which text is no decimal: the amount, or one of the
  -- level at which the walk breaks.
  pub market_price-Outcome :
      (book : OrderBook) (side : Side) (size order_type : Bytes)
      → Outcome book side size order_type (market_price parse_rat book side size order_type)
  unfolding market_price parse_decimal
  market_price-Outcome book side size order_type = read (parse_rat size) refl
    where
      last :
          (amt : Rat) (l : OrderSummary) (levels : List OrderSummary)
          → parse_rat size ≡ some amt
          → opposite book side ≡ l ∷ levels
          → (r : Result BookError (Option Bytes))
          → Walked parse_rat side amt zero_rat (reverse (l ∷ levels)) r
          → Outcome book side size order_type (r >>= priced parse_rat size order_type (l ∷ levels))
      last amt l levels ea el (ok (some price)) reached = (amt, ea, inl (rw el reached))
      last amt l levels ea el (ok none) (inl nil) = absurd (reverse-ne-nil l levels nil)
      last amt l levels ea el (ok none) (inr short) = elim (Bool-cases (bytes_eq order_type fok)) [
        | inl kill ↦
            rw kill
              (amt, ea, rw el short, λ nil. absurd (cc), (bytes_eq_iff order_type fok).0 kill, refl)
        | inr other ↦ rw other (
          amt,
          ea,
          inr (
            rw el short,
            λ same. let equal = (bytes_eq_iff order_type fok).1 same in cc,
            l,
            levels,
            el,
            refl,
          ),
        )
      ]
      last amt l levels ea el (err x) (text, ex, breaks) =
          rw ex (text, refl, inr (amt, ea, rw el breaks))

      sided :
          (amt : Rat) (levels : List OrderSummary)
          → parse_rat size ≡ some amt
          → opposite book side ≡ levels
          → Outcome book side size order_type
              (walk_levels parse_rat side size order_type amt levels)
      sided amt [] ea el = (amt, ea, el, refl)
      sided amt (l ∷ levels) ea el =
          last amt l levels ea el (walk parse_rat side amt zero_rat (reverse (l ∷ levels)))
            (walk-Walked parse_rat side amt zero_rat (reverse (l ∷ levels)))

      read :
          (o : Option Rat)
          → parse_rat size ≡ o
          → Outcome book side size order_type (
              map_err bad_decimal (or_invalid size o) >>= λ amt.
              walk_levels parse_rat side size order_type amt (levels_of book side))
      read none e = (size, refl, inl (e, refl))
      read (some amt) e = sided amt (levels_of book side) e refl
