-- ===== src/Clob/Trading/Orders.antt =====
-- clob/trading.go, `CreateMarketOrder`: an order without a price of its own, from the book to the signature.
use go_polymarket.Base.{
  ℕ, ◌≡◌, refl, sym, ap, ◌∙◌, subst, inl, inr, true, Option, some, ok, map_err, map_err-ok,
  bind_inversion, value_of,
}
use mathlib.Core.List.{reverse}
use go_polymarket.Base.Bytes.{Bytes, bytes_eq, is_empty}
use go_polymarket.Base.Int.{ℤ}
use go_polymarket.Base.Rat.{Rat}
use go_polymarket.Amount.{Config, Raw, by_tick_size, market}
use go_polymarket.Order.{MarketOrder, OrderOptions, Order, buy, build_market_order}
use go_polymarket.Order.Build.{Carries, build_market_order-Carries}
use go_polymarket.Order.Sign.{PayloadSigner, SignedOrder, sign_order}
use go_polymarket.Clob.Book.{OrderBook, market_price, fok, zero_rat, levels_of}
use go_polymarket.Clob.Book.Walk.{Reaches}
use go_polymarket.Clob.Book.Depth.{Outcome, market_price-Outcome}
use go_polymarket.Clob.Trading.{
  Exchange, building, pricing, pricing_request, resolve_market, resolve_tick, resolve_risk,
  resolve_price, create_market_order,
}
use go_polymarket.Clob.Trading.Submission.{sign_order-ok}

module _ (parse_rat : Bytes → Option Rat) where
  -- A price for a fill-or-kill order is one at which the book's depth reaches the amount.
  pub fok-Reaches :
      (book : OrderBook) (side size price : Bytes)
      → market_price parse_rat book side size fok ≡ ok price
      → (amt : Rat) × (parse_rat size ≡ some amt)
        × Reaches parse_rat side amt zero_rat (reverse (levels_of book side)) price
  fok-Reaches book side size price e =
      let (amt, ea, way) =
        subst (Outcome parse_rat book side size fok) e
          (market_price-Outcome parse_rat book side size fok) in
      elim way [
        | inl reaches ↦ (amt, ea, reaches)
        | inr (short, other, l, levels, el, worst) ↦ absurd (other refl)
      ]

module _ {E : Type 0} (x : Exchange E) where
  resolve_market-tick :
      (t : Bytes) (opts resolved : OrderOptions)
      → resolve_market x t opts ≡ ok resolved
      → resolve_tick x t opts.tick_size ≡ ok resolved.tick_size
  unfolding resolve_market
  resolve_market-tick t opts resolved e =
      let (tick, et, e₁) = bind_inversion (resolve_tick x t opts.tick_size) _ e in
      let (risk, _, made) = bind_inversion (resolve_risk x t opts.neg_risk) _ e₁ in
      et ∙ ap ok (ap (λ (o : OrderOptions). o.tick_size) (value_of made))

  module _ (parse_rat : Bytes → Option Rat) where
    -- The book's price for an order that names none.
    resolve_price-book :
        (m : MarketOrder) (price : Bytes)
        → is_empty m.price ≡ true
        → resolve_price x parse_rat m ≡ ok price
        → (book : OrderBook) × (x.book_of m.token_id ≡ ok book)
          × (market_price parse_rat book m.side m.amount fok ≡ ok price)
    resolve_price-book m price unnamed e =
        let (book, eb, e₁) =
          bind_inversion (map_err pricing_request (x.book_of m.token_id)) _ (simp unnamed at e) in
        (
          book,
          map_err-ok pricing_request (x.book_of m.token_id) book eb,
          map_err-ok pricing (market_price parse_rat book m.side m.amount fok) price e₁,
        )

    module _ (draw : Option ℕ) (now : ℤ) (keccak : Bytes → Bytes)
        (recover : Bytes → Bytes → Option Bytes) (chain_id : ℤ) where
      -- A market order that names no price, when `CreateMarketOrder` makes it: its book has a level at which the depth
      -- first reaches the order's whole amount, and the signed order carries, exactly as integers, the amounts
      -- that `Market` gives at that level's price under the tick size that was resolved.
      pub create_market_order_clears :
          (s : PayloadSigner) (m : MarketOrder) (opts : OrderOptions) (so : SignedOrder)
          → is_empty m.price ≡ true
          → create_market_order x parse_rat draw now keccak recover chain_id (some s) m opts ≡ ok so
          → (book : OrderBook) × (level : Bytes) × (tick : Bytes) × (cfg : Config) × (price : Rat)
            × (amt : Rat) × (raw : Raw) × (x.book_of m.token_id ≡ ok book)
            × Reaches parse_rat m.side amt zero_rat (reverse (levels_of book m.side)) level
            × (parse_rat m.amount ≡ some amt)
            × (parse_rat level ≡ some price)
            × (resolve_tick x m.token_id opts.tick_size ≡ ok tick)
            × (by_tick_size tick ≡ some cfg)
            × (market (bytes_eq m.side buy) amt price cfg ≡ ok raw)
            × (so.order.side ≡ m.side)
            × Carries so.order raw
      unfolding create_market_order
      create_market_order_clears s m opts so unnamed e =
          let (resolved, er, e₁) = bind_inversion (resolve_market x m.token_id opts) _ e in
          let (level, el, e₂) = bind_inversion (resolve_price x parse_rat m) _ e₁ in
          let build =
            build_market_order parse_rat draw now (record m { price = level }) s.own_address
              resolved in
          let (o, eo, e₃) = bind_inversion (map_err building build) _ e₂ in
          let (same, _) =
            sign_order-ok keccak recover o chain_id resolved s so (
              map_err-ok building (sign_order keccak recover o chain_id resolved (some s)) so e₃) in
          let (book, eb, ep) = resolve_price-book m level unnamed el in
          let (amt, ea, reaches) = fok-Reaches parse_rat book m.side m.amount level ep in
          let (cfg, price, amt₁, raw, ec, epr, ea₁, em, side, _, carried) =
            build_market_order-Carries parse_rat draw now (record m { price = level }) s.own_address
              resolved o (map_err-ok building build o eo) in
          let same_amt : amt₁ ≡ amt = cc in
          (
            book,
            level,
            resolved.tick_size,
            cfg,
            price,
            amt,
            raw,
            eb,
            reaches,
            ea,
            epr,
            resolve_market-tick m.token_id opts resolved er,
            ec,
            subst (λ (r : Rat). market (bytes_eq m.side buy) r price cfg ≡ ok raw) same_amt em,
            ap (λ (o : Order). o.side) same ∙ side,
            subst (λ (o : Order). Carries o raw) (sym same) carried,
          )
