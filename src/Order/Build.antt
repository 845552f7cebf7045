-- ===== src/Order/Build.antt =====
-- What the builders promise: an order in the market's range, with the amounts of Amount.antt written in full,
-- whose digest does not fail on a text that was accepted.
use go_polymarket.Base.{
  ℕ, ◌≡◌, refl, subst, Bool, true, false, not, ◌||◌, Option, none, some, Result, ok, bind_inversion,
  guard, value_of, map_err, map_err-ok,
}
use go_polymarket.Base.Bytes.{Bytes, bytes_eq}
use go_polymarket.Base.Int.{ℤ, pos}
use go_polymarket.Base.Rat.{Rat, sub_rat, ltb_rat}
use go_polymarket.Base.Decimal.{parse_ℤ, format_ℤ, parse-format_ℤ}
use go_polymarket.Amount.{Config, Raw, by_tick_size, limit, fixed, market}
use go_polymarket.Amount.Exact.{IsExact, AllExact, limit-IsExact, market_exact}
use go_polymarket.Order.{
  Side, buy, UserOrder, OrderOptions, Order, OrderError, price_outside, assemble, build_order,
  check_price, parse_decimal, or_unknown_tick, or_invalid, check_texts, salt_or_draw, maker_of,
  signer_of, or_default, MarketOrder, build_market_order, bad_amount,
}

or_unknown_tick-ok :
    (s : Bytes) (o : Option Config) (cfg : Config) → or_unknown_tick s o ≡ ok cfg → o ≡ some cfg
or_unknown_tick-ok s none cfg e = absurd (cc)
or_unknown_tick-ok s (some c) cfg e = cc

pub or_invalid-ok : (s : Bytes) (o : Option Rat) (r : Rat) → or_invalid s o ≡ ok r → o ≡ some r
or_invalid-ok s none r e = absurd (cc)
or_invalid-ok s (some q) r e = cc

-- The amounts that the wire carries, as the integers that they write.
abbrev pub Carries : Order → Raw → Type 0
Carries o raw =
    (parse_ℤ o.maker_amount ≡ some (fixed raw.maker))
    × (parse_ℤ o.taker_amount ≡ some (fixed raw.taker))
    × IsExact raw.maker
    × IsExact raw.taker

-- The two amounts of an order, as texts.
abbrev pub Amounts : Order → Raw → Type 0
Amounts o raw =
    (o.maker_amount ≡ format_ℤ (fixed raw.maker)) × (o.taker_amount ≡ format_ℤ (fixed raw.taker))

carries :
    (o : Order) (raw : Raw) → Amounts o raw → IsExact raw.maker → IsExact raw.taker → Carries o raw
carries o raw (em, et) xm xt =
    (rw em (parse-format_ℤ (fixed raw.maker)), rw et (parse-format_ℤ (fixed raw.taker)), xm, xt)

-- What `assemble` accepts, and makes.
abbrev pub Assembled : Bytes → Side → Raw → Bytes → OrderOptions → Order → Type 0
Assembled token_id side raw signer_address opts o =
    (o.token_id ≡ token_id)
    × (o.side ≡ side)
    × (o.maker ≡ maker_of signer_address opts)
    × (o.signer ≡ signer_of signer_address opts)
    × (o.signature_type ≡ opts.signature_type)
    × Amounts o raw

neither :
    (a b : Bool)
    → Path (Result OrderError (Unit {0})) (guard (not (a || b)) price_outside) (ok tt)
    → (a ≡ false) × (b ≡ false)
neither true b e = absurd (cc)
neither false true e = absurd (cc)
neither false false e = (refl, refl)

pub assemble-ok :
    (draw : Option ℕ) (now : ℤ) (t : Bytes) (s : Side) (raw : Raw) (a : Bytes) (opts : OrderOptions)
    (b m k : Bytes) (x : ℤ) (o : Order)
    → assemble draw now t s raw a opts b m k x ≡ ok o
    → Assembled t s raw a opts o
      × (check_texts o.token_id o.builder o.metadata o.taker o.maker o.signer ≡ ok tt)
unfolding assemble
assemble-ok draw now t s raw a opts b m k x o e =
    let (u, checked, e₁) = bind_inversion (check_texts t _ _ _ _ _) _ e in
    let (salt, _, made) = bind_inversion (salt_or_draw draw opts.salt) _ e₁ in
    subst
      (λ o.
        Assembled t s raw a opts o
        × (check_texts o.token_id o.builder o.metadata o.taker o.maker o.signer ≡ ok tt))
      (value_of made) ((refl, refl, refl, refl, refl, (refl, refl)), checked)

-- What a successful `build_order` has read and checked.
module _ (parse_rat : Bytes → Option Rat) (draw : Option ℕ) (now : ℤ) where
  check_price-ok :
      (price : Rat) (tick : Bytes)
      → check_price parse_rat price tick ≡ ok tt
      → (t : Rat) × (parse_rat tick ≡ some t)
        × (ltb_rat price t ≡ false)
        × (ltb_rat (sub_rat (record { num = pos 1; den = 1 }) t) price ≡ false)
  unfolding check_price parse_decimal
  check_price-ok price tick e =
      let (t, et, e₁) = bind_inversion (or_invalid tick (parse_rat tick)) _ e in
      let upper = sub_rat (record { num = pos 1; den = 1 }) t in
      let (low, high) = neither (ltb_rat price t) (ltb_rat upper price) e₁ in
      (t, or_invalid-ok tick (parse_rat tick) t et, low, high)

  -- The parts of a successful `build_order`.
  unfoldable pub Built : UserOrder → Bytes → OrderOptions → Order → Type 0
  Built u a opts o =
      (cfg : Config) × (price : Rat) × (size : Rat) × (by_tick_size opts.tick_size ≡ some cfg)
      × (parse_rat u.price ≡ some price)
      × (parse_rat u.size ≡ some size)
      × (check_price parse_rat price opts.tick_size ≡ ok tt)
      × (assemble draw now u.token_id u.side (limit (bytes_eq u.side buy) size price cfg) a opts
            u.builder_code u.metadata u.taker u.expiration
          ≡ ok o)

  pub build_order-ok :
      (u : UserOrder) (a : Bytes) (opts : OrderOptions) (o : Order)
      → build_order parse_rat draw now u a opts ≡ ok o
      → Built u a opts o
  unfolding build_order parse_decimal Built
  build_order-ok u a opts o e =
      let (cfg, ec, e₁) =
        bind_inversion (or_unknown_tick opts.tick_size (by_tick_size opts.tick_size)) _ e in
      let (price, ep, e₂) = bind_inversion (or_invalid u.price (parse_rat u.price)) _ e₁ in
      let (size, es, e₃) = bind_inversion (or_invalid u.size (parse_rat u.size)) _ e₂ in
      let (_, checked, made) = bind_inversion (check_price parse_rat price opts.tick_size) _ e₃ in
      (
        cfg,
        price,
        size,
        or_unknown_tick-ok opts.tick_size (by_tick_size opts.tick_size) cfg ec,
        or_invalid-ok u.price (parse_rat u.price) price ep,
        or_invalid-ok u.size (parse_rat u.size) size es,
        checked,
        made,
      )

  -- A limit order that is built has a tick size of the table and a price that parses and lies between the tick and
  -- one minus the tick, both included. Its maker is the funder, or the signing address if there is none; its amounts are
  -- the integers of the amounts of `Limit`, of which printing loses nothing.
  pub build_order-Carries :
      (u : UserOrder) (a : Bytes) (opts : OrderOptions) (o : Order)
      → build_order parse_rat draw now u a opts ≡ ok o
      → (cfg : Config) × (price : Rat) × (size : Rat) × (tick : Rat) × (by_tick_size opts.tick_size
          ≡ some cfg)
        × (parse_rat u.price ≡ some price)
        × (parse_rat u.size ≡ some size)
        × (parse_rat opts.tick_size ≡ some tick)
        × (ltb_rat price tick ≡ false)
        × (ltb_rat (sub_rat (record { num = pos 1; den = 1 }) tick) price ≡ false)
        × (o.maker ≡ or_default opts.funder a)
        × Carries o (limit (bytes_eq u.side buy) size price cfg)
  unfolding Built maker_of
  build_order-Carries u a opts o e =
      let (cfg, price, size, ec, ep, es, checked, made) = build_order-ok u a opts o e in
      let (tick, et, low, high) = check_price-ok price opts.tick_size checked in
      let raw = limit (bytes_eq u.side buy) size price cfg in
      let ((_, _, maker, _, _, amounts), _) =
        assemble-ok draw now u.token_id u.side raw a opts u.builder_code u.metadata u.taker
          u.expiration o made in
      let (xm, xt) = limit-IsExact opts.tick_size cfg (bytes_eq u.side buy) size price ec in
      (cfg, price, size, tick, ec, ep, es, et, low, high, maker, carries o raw amounts xm xt)

  -- What a successful `build_market_order` has read.
  unfoldable pub BuiltMarket : MarketOrder → Bytes → OrderOptions → Order → Type 0
  BuiltMarket m a opts o =
      (cfg : Config) × (price : Rat) × (amt : Rat) × (raw : Raw) × (by_tick_size opts.tick_size
        ≡ some cfg)
      × (parse_rat m.price ≡ some price)
      × (parse_rat m.amount ≡ some amt)
      × (market (bytes_eq m.side buy) amt price cfg ≡ ok raw)
      × (assemble draw now m.token_id m.side raw a opts m.builder_code m.metadata m.taker
            m.expiration
          ≡ ok o)

  build_market_order-ok :
      (m : MarketOrder) (a : Bytes) (opts : OrderOptions) (o : Order)
      → build_market_order parse_rat draw now m a opts ≡ ok o
      → BuiltMarket m a opts o
  unfolding build_market_order parse_decimal BuiltMarket
  build_market_order-ok m a opts o e =
      let (cfg, ec, e₁) =
        bind_inversion (or_unknown_tick opts.tick_size (by_tick_size opts.tick_size)) _ e in
      let (price, ep, e₂) = bind_inversion (or_invalid m.price (parse_rat m.price)) _ e₁ in
      let (amt, ea, e₃) = bind_inversion (or_invalid m.amount (parse_rat m.amount)) _ e₂ in
      let (raw, er, made) =
        bind_inversion (map_err bad_amount (market (bytes_eq m.side buy) amt price cfg)) _ e₃ in
      (
        cfg,
        price,
        amt,
        raw,
        or_unknown_tick-ok opts.tick_size (by_tick_size opts.tick_size) cfg ec,
        or_invalid-ok m.price (parse_rat m.price) price ep,
        or_invalid-ok m.amount (parse_rat m.amount) amt ea,
        map_err-ok bad_amount (market (bytes_eq m.side buy) amt price cfg) raw er,
        made,
      )

  -- A market order that is built has a tick size of the table, and its amounts are the integers of the amounts of
  -- `Market` for the parsed amount and price, of which printing loses nothing. Its side is the one that was given,
  -- and its maker the funder, or the signing address if there is none.
  pub build_market_order-Carries :
      (m : MarketOrder) (a : Bytes) (opts : OrderOptions) (o : Order)
      → build_market_order parse_rat draw now m a opts ≡ ok o
      → (cfg : Config) × (price : Rat) × (amt : Rat) × (raw : Raw) × (by_tick_size opts.tick_size
          ≡ some cfg)
        × (parse_rat m.price ≡ some price)
        × (parse_rat m.amount ≡ some amt)
        × (market (bytes_eq m.side buy) amt price cfg ≡ ok raw)
        × (o.side ≡ m.side)
        × (o.maker ≡ or_default opts.funder a)
        × Carries o raw
  unfolding BuiltMarket maker_of
  build_market_order-Carries m a opts o e =
      let (cfg, price, amt, raw, ec, ep, ea, er, made) = build_market_order-ok m a opts o e in
      let ((_, side, maker, _, _, amounts), _) =
        assemble-ok draw now m.token_id m.side raw a opts m.builder_code m.metadata m.taker
          m.expiration o made in
      let (_, exact) = market_exact opts.tick_size cfg (bytes_eq m.side buy) amt price ec in
      let (xm, xt) = subst AllExact er exact in
      (cfg, price, amt, raw, ec, ep, ea, er, side, maker, carries o raw amounts xm xt)
