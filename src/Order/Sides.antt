-- ===== src/Order/Sides.antt =====
-- The side of an order: which amounts are computed and which side is signed.
use go_polymarket.Base.{
  ℕ, ◌≡◌, refl, ap, subst, false, Option, ok, bind_inversion, Result, value_of,
}
use go_polymarket.Base.Bytes.{Bytes, bytes_eq}
use go_polymarket.Base.Int.{ℤ}
use go_polymarket.Base.Rat.{Rat}
use go_polymarket.Amount.{Raw, limit}
use go_polymarket.Order.{
  Side, buy, sell, side_uint8, UserOrder, OrderOptions, Order, OrderError, assemble, build_order,
  parse_decimal, check_texts, salt_or_draw,
}
use go_polymarket.Order.Build.{build_order-ok, assemble-ok, Built}

assemble-side :
    (draw : Option ℕ) (now : ℤ) (t : Bytes) (s s' : Side) (raw : Raw) (a : Bytes)
    (opts : OrderOptions) (b m k : Bytes) (x : ℤ) (o : Order)
    → assemble draw now t s raw a opts b m k x ≡ ok o
    → assemble draw now t s' raw a opts b m k x ≡ ok (record o { side = s' })
unfolding assemble
assemble-side draw now t s s' raw a opts b m k x o e =
    let (u, checked, e₁) = bind_inversion (check_texts t _ _ _ _ _) _ e in
    let (salt, es, made) = bind_inversion (salt_or_draw draw opts.salt) _ e₁ in
    rw (checked, es) (with_side made)
  where
    with_side :
        {p : Order}
        → Path (Result OrderError Order) (ok p) (ok o)
        → Path (Result OrderError Order) (ok (record p { side = s' })) (ok (record o { side = s' }))
    with_side e =
        let same = value_of e in
        ap {A = Order} {B = Result OrderError Order} (λ q. ok (record q { side = s' })) same

module _ (parse_rat : Bytes → Option Rat) (draw : Option ℕ) (now : ℤ) where
  -- `BuildOrder` does not test the side. For one that is neither "BUY" nor "SELL" it returns the order that it would
  -- return for "SELL", with the amounts of a sale, under the side that was given; and that side is signed as 0, the
  -- number of "BUY".
  pub build_order_other_side :
      (u : UserOrder) (a : Bytes) (opts : OrderOptions) (o : Order)
      → bytes_eq u.side buy ≡ false
      → bytes_eq u.side sell ≡ false
      → build_order parse_rat draw now u a opts ≡ ok o
      → (build_order parse_rat draw now (record u { side = sell }) a opts
          ≡ ok (record o { side = sell }))
        × (side_uint8 o.side ≡ side_uint8 buy)
  unfolding build_order Built parse_decimal side_uint8
  build_order_other_side u a opts o not_buy not_sell e =
      let (cfg, price, size, ec, ep, es, checked, made) =
        build_order-ok parse_rat draw now u a opts o e in
      let sale =
        subst
          (λ b.
            assemble draw now u.token_id u.side (limit b size price cfg) a opts u.builder_code
              u.metadata u.taker u.expiration
            ≡ ok o)
          not_buy made in
      let ((_, side, _, _, _, _), _) =
        assemble-ok draw now u.token_id u.side _ a opts u.builder_code u.metadata u.taker
          u.expiration o made in
      (
        rw (ec, ep, es, checked)
            (assemble-side draw now u.token_id u.side sell (limit false size price cfg) a opts
              u.builder_code u.metadata u.taker u.expiration o sale),
        rw (side, not_sell) refl,
      )
