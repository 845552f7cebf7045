-- ===== src/Order/Tests.antt =====
-- An order of the test network, built, hashed and wrapped, and the theorems at it.
use go_polymarket.Base.{
  ◌≡◌, refl, ◌⊎◌, false, some, [], ◌∷◌, arith, ok, ◌>>=◌, map_err, replicate, ◌++◌,
}
use go_polymarket.Base.Bytes.{Bytes, codes, bytes_eq}
use go_polymarket.Base.Hex.{decode_hex, trim_0x}
use go_polymarket.Base.Int.{pos}
use go_polymarket.Base.Rat.{Rat, sub_rat, ltb_rat}
use go_polymarket.Base.Decimal.{parse_ℕ, parse_ℤ, format_ℤ}
use go_polymarket.Samples.{short_hash, length-short_hash, short_hash-IsByte, plain_decimal}
use go_polymarket.Samples.Orders.{
  signer_address, user, options, built, market_user, market_built, build_order-user,
  built-NumbersFit, exchange, order_domain_polygon, digested, build_market_order-user,
}
use go_polymarket.Amount.{
  Raw, market, Config, by_tick_size, limit, fixed, converge, round, decimal_places,
}
use go_polymarket.Protocol.{order_type_string}
use go_polymarket.Eip712.{
  Word, bytes32, address, decode_hex_of, separator, struct_hash, digest, type_hash,
}
use go_polymarket.Eip712.Binding.{Collision}
use go_polymarket.Order.{
  UserOrder, Order, build_order, buy, sell, side_uint8, check_price, assemble, check_texts,
  order_domain, version_of, maker_of, signer_of, salt_or_draw, payload, or_default,
}
use go_polymarket.TypedData.Types.{word}
use go_polymarket.Order.Accept.{order_digest-build_order}
use go_polymarket.Order.Payload.{order_digest}
use go_polymarket.TypedData.Named.{named_words}
use go_polymarket.Order.Digest.{signed_words, order_digest_lem}
use go_polymarket.Order.Binding.{SameOrder, SameExchange, order_digest_binds}
use go_polymarket.Order.Build.{Carries, build_order-Carries, build_market_order-Carries}
use go_polymarket.Order.Sides.{build_order_other_side}
use go_polymarket.Order.Sign.{wrap_order_signature}
use go_polymarket.Order.Wrapped.{
  Delivers, wrap_order_signature-digested, unwrap-wrap_order_signature,
}

order_digest-build_order_example :
    (h : Word) × (order_digest short_hash built (pos 137) options ≡ ok h)
order_digest-build_order_example =
    order_digest-build_order short_hash plain_decimal (some 3) (pos 1) user signer_address options
      built (pos 137) exchange build_order-user order_domain_polygon built-NumbersFit

build_order-Carries_example :
    (cfg : Config) × (price : Rat) × (size : Rat) × (tick : Rat) × (by_tick_size (codes "0.01")
      ≡ some cfg)
    × (plain_decimal (codes "0.52") ≡ some price)
    × (plain_decimal (codes "10.0") ≡ some size)
    × (plain_decimal (codes "0.01") ≡ some tick)
    × (ltb_rat price tick ≡ false)
    × (ltb_rat (sub_rat (record { num = pos 1; den = 1 }) tick) price ≡ false)
    × (signer_address ≡ or_default [] signer_address)
    × Carries built (limit (bytes_eq buy buy) size price cfg)
build_order-Carries_example =
    build_order-Carries plain_decimal (some 3) (pos 1) user signer_address options built
      build_order-user

-- A side in lower case.
abbrev odd_user : UserOrder
odd_user = record user { side = codes "buy" }

abbrev odd_built : Order
odd_built = record built {
  side = codes "buy";
  maker_amount = codes "10000000";
  taker_amount = codes "5200000";
}

build_order_odd :
    build_order plain_decimal (some 3) (pos 1) odd_user signer_address options ≡ ok odd_built
unfolding build_order check_price assemble check_texts by_tick_size parse_ℕ parse_ℤ bytes32
    decode_hex_of decode_hex trim_0x address maker_of signer_of salt_or_draw format_ℤ fixed limit
    converge round decimal_places
build_order_odd = refl

build_order_other_side_example :
    (build_order plain_decimal
        (some 3)
        (pos 1)
        (record odd_user { side = sell })
        signer_address
        options
      ≡ ok (record odd_built { side = sell }))
    × (side_uint8 (codes "buy") ≡ side_uint8 buy)
build_order_other_side_example =
    build_order_other_side plain_decimal (some 3) (pos 1) odd_user signer_address options odd_built
      refl refl build_order_odd

order_digest_lem_example : order_digest short_hash built (pos 137) options ≡ (
    order_domain (pos 137) (version_of options) options.neg_risk >>= λ d. map_err payload (
      map_err word (separator short_hash d) >>= λ s. named_words (signed_words built) >>= λ words.
      ok (
        digest short_hash s
          (struct_hash short_hash (type_hash short_hash order_type_string) words))))
order_digest_lem_example = order_digest_lem short_hash built (pos 137) options

order_digest_binds_example :
    ((pos 137 ≡ pos 137)
      × (SameExchange (pos 137) options (pos 137) options × SameOrder built built))
    ⊎ Collision short_hash
order_digest_binds_example =
    order_digest_binds short_hash length-short_hash built built (pos 137) (pos 137) options options
      digested.0 digested.1 digested.1

abbrev inner_signature : Bytes
inner_signature = replicate 64 7 ++ 27 ∷ []

wrapped :
    (out : Bytes) × (wrap_order_signature short_hash inner_signature built (pos 137) options
      ≡ ok out)
wrapped =
    wrap_order_signature-digested short_hash inner_signature built (pos 137) options digested.0
      digested.1

unwrap-wrap_order_signature_example :
    (b : Bytes) × (decode_hex (trim_0x wrapped.0) ≡ some b)
    × Delivers short_hash built (pos 137) options inner_signature b
unwrap-wrap_order_signature_example =
    unwrap-wrap_order_signature short_hash length-short_hash short_hash-IsByte inner_signature built
      (pos 137) options wrapped.0 (ground arith) wrapped.1

build_market_order-Carries_example :
    (cfg : Config) × (price : Rat) × (amt : Rat) × (raw : Raw) × (by_tick_size (codes "0.01")
      ≡ some cfg)
    × (plain_decimal (codes "0.52") ≡ some price)
    × (plain_decimal (codes "10.0") ≡ some amt)
    × (market (bytes_eq sell buy) amt price cfg ≡ ok raw)
    × (sell ≡ sell)
    × (signer_address ≡ or_default [] signer_address)
    × Carries market_built raw
build_market_order-Carries_example =
    build_market_order-Carries plain_decimal (some 3) (pos 1) market_user signer_address options
      market_built build_market_order-user
