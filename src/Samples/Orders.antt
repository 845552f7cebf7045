-- ===== src/Samples/Orders.antt =====
-- A limit order and a market order of the test network, what the builders make of them, and their digests.
use go_polymarket.Base.{◌≡◌, refl, false, some, [], arith, ok}
use go_polymarket.Base.Bytes.{Bytes, codes}
use go_polymarket.Base.Hex.{decode_hex, trim_0x}
use go_polymarket.Base.Int.{pos}
use go_polymarket.Base.Decimal.{parse_ℕ, parse_ℤ, format_ℤ}
use go_polymarket.Samples.{short_hash, plain_decimal}
use go_polymarket.Amount.{by_tick_size, limit, market, fixed, converge, round, decimal_places}
use go_polymarket.Protocol.{polygon_contracts, zero_address, zero_bytes32, contracts_for}
use go_polymarket.Eip712.{Word, Domain, bytes32, address, decode_hex_of}
use go_polymarket.Order.{
  UserOrder, MarketOrder, build_market_order, OrderOptions, Order, build_order, buy, sell,
  check_price, assemble, check_texts, order_domain, version_of, maker_of, signer_of, salt_or_draw,
  exchange_for,
}
use go_polymarket.Order.Accept.{NumbersFit, order_digest-build_order}
use go_polymarket.Order.Payload.{order_digest}

abbrev pub signer_address : Bytes
signer_address = codes "0x1111111111111111111111111111111111111111"

abbrev pub user : UserOrder
user = record {
  token_id = codes "71";
  price = codes "0.52";
  size = codes "10.0";
  side = buy;
  builder_code = [];
  expiration = pos 0;
  taker = [];
  metadata = [];
}

abbrev pub options : OrderOptions
options = record {
  tick_size = codes "0.01";
  neg_risk = false;
  version = pos 0;
  signature_type = 0;
  funder = [];
  salt = pos 5;
  timestamp = pos 9;
}

abbrev pub built : Order
built = record {
  salt = codes "5";
  maker = signer_address;
  signer = signer_address;
  taker = zero_address;
  token_id = codes "71";
  maker_amount = codes "5200000";
  taker_amount = codes "10000000";
  side = buy;
  signature_type = 0;
  timestamp = codes "9";
  expiration = codes "0";
  metadata = zero_bytes32;
  builder = zero_bytes32;
}

-- A sale of ten shares at the market.
abbrev pub market_user : MarketOrder
market_user = record {
  token_id = codes "71";
  amount = codes "10.0";
  side = sell;
  price = codes "0.52";
  builder_code = [];
  expiration = pos 0;
  taker = [];
  metadata = [];
}

abbrev pub market_built : Order
market_built = record built {
  side = sell;
  maker_amount = codes "10000000";
  taker_amount = codes "5200000";
}

pub build_order-user :
    build_order plain_decimal (some 3) (pos 1) user signer_address options ≡ ok built
unfolding build_order check_price assemble check_texts by_tick_size parse_ℕ parse_ℤ bytes32
    decode_hex_of decode_hex trim_0x address maker_of signer_of salt_or_draw format_ℤ fixed limit
    converge round decimal_places
build_order-user = refl

pub built-NumbersFit : NumbersFit built
unfolding parse_ℤ parse_ℕ
built-NumbersFit = (
  (5, refl, omega arith),
  (71, refl, omega arith),
  (5200000, refl, omega arith),
  (10000000, refl, omega arith),
  (9, refl, omega arith),
  omega arith,
)

abbrev pub exchange : Domain
exchange = record {
  name = codes "Polymarket CTF Exchange";
  version = codes "2";
  chain_id = some (pos 137);
  verifying_contract = polygon_contracts.exchange_v2;
}

pub order_domain_polygon :
    order_domain (pos 137) (version_of options) options.neg_risk ≡ ok exchange
unfolding order_domain version_of exchange_for contracts_for
order_domain_polygon = refl

pub digested : (h : Word) × (order_digest short_hash built (pos 137) options ≡ ok h)
digested =
    order_digest-build_order short_hash plain_decimal (some 3) (pos 1) user signer_address options
      built (pos 137) exchange build_order-user order_domain_polygon built-NumbersFit

pub build_market_order-user :
    build_market_order plain_decimal (some 3) (pos 1) market_user signer_address options
    ≡ ok market_built
unfolding build_market_order assemble check_texts by_tick_size parse_ℕ parse_ℤ bytes32 decode_hex_of
    decode_hex trim_0x address maker_of signer_of salt_or_draw format_ℤ fixed market converge round
    decimal_places
build_market_order-user = refl

build_order-sale :
    build_order plain_decimal (some 3) (pos 1) (record user { side = sell }) signer_address options
    ≡ ok market_built
unfolding build_order check_price assemble check_texts by_tick_size parse_ℕ parse_ℤ bytes32
    decode_hex_of decode_hex trim_0x address maker_of signer_of salt_or_draw format_ℤ fixed limit
    converge round decimal_places
build_order-sale = refl

market_built-NumbersFit : NumbersFit market_built
unfolding parse_ℤ parse_ℕ
market_built-NumbersFit = (
  (5, refl, omega arith),
  (71, refl, omega arith),
  (10000000, refl, omega arith),
  (5200000, refl, omega arith),
  (9, refl, omega arith),
  omega arith,
)

pub market_digested : (h : Word) × (order_digest short_hash market_built (pos 137) options ≡ ok h)
market_digested =
    order_digest-build_order short_hash plain_decimal (some 3) (pos 1) (record user { side = sell })
      signer_address options market_built (pos 137) exchange build_order-sale order_domain_polygon
      market_built-NumbersFit
