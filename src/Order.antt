-- ===== src/Order.antt =====
-- order.go: limit and market orders, resolved into the order that is signed. `big.Rat.SetString` is the
-- parameter `parse_rat`, the number that `rand.Int` draws below 2^52 the parameter `draw`, `none` for a
-- failure of the source, and `time.Now().UnixMilli()` the parameter `now`.
mod Tests
pub mod Payload
pub mod Sign
pub mod Digest
pub mod Binding
pub mod Wrapped
pub mod Build
pub mod Accept
pub mod Sides
use go_polymarket.Base.{
  ℕ, ◌+◌, ◌^◌, Bool, true, false, not, ◌||◌, Option, none, some, List, [], ◌∷◌, ◌==◌, if◌then◌else◌,
  Result, ok, err, ◌>>=◌, map_err, guard,
}
use go_polymarket.Base.Bytes.{Bytes, codes, bytes_eq, is_empty}
use go_polymarket.Base.Int.{ℤ, pos, eqb_ℤ}
use go_polymarket.Base.Rat.{Rat, sub_rat, ltb_rat}
use go_polymarket.Base.Decimal.{parse_ℤ, format_ℤ}
use go_polymarket.Amount.{Config, Raw, by_tick_size, limit, market, fixed}
use go_polymarket.Eip712.{Error, address, bytes32, Domain}
use go_polymarket.Protocol.{
  Contracts, contracts_for, exchange_domain_name, exchange_v1_version, exchange_v2_version,
  exchange_v3_version, zero_address, zero_bytes32,
}
use go_polymarket.TypedData.Types.{TypedError}
use go_polymarket.Signer.{SignerError}

abbrev pub Side : Type 0
Side = Bytes

abbrev pub buy : Side
buy = codes "BUY"

abbrev pub sell : Side
sell = codes "SELL"

unfoldable pub side_uint8 : Side → ℕ
side_uint8 s = if bytes_eq s sell then 1 else 0

-- A `SignatureType` is a number; these are the four that have a name.
abbrev pub sig_eoa : ℕ
sig_eoa = 0

abbrev pub sig_poly_proxy : ℕ
sig_poly_proxy = 1

abbrev pub sig_poly_gnosis_safe : ℕ
sig_poly_gnosis_safe = 2

abbrev pub sig_eip1271 : ℕ
sig_eip1271 = 3

pub record UserOrder : Type 0 where
  pub token_id : Bytes
  pub price : Bytes
  pub size : Bytes
  pub side : Side
  pub builder_code : Bytes
  pub expiration : ℤ
  pub taker : Bytes
  pub metadata : Bytes

pub record MarketOrder : Type 0 where
  pub token_id : Bytes
  pub amount : Bytes
  pub side : Side
  pub price : Bytes
  pub builder_code : Bytes
  pub expiration : ℤ
  pub taker : Bytes
  pub metadata : Bytes

pub record OrderOptions : Type 0 where
  pub tick_size : Bytes
  pub neg_risk : Bool
  pub version : ℤ
  pub signature_type : ℕ
  pub funder : Bytes
  pub salt : ℤ
  pub timestamp : ℤ

unfoldable pub version_of : OrderOptions → ℤ
version_of o = if eqb_ℤ o.version (pos 0) then pos 2 else o.version

pub record Order : Type 0 where
  pub salt : Bytes
  pub maker : Bytes
  pub signer : Bytes
  pub taker : Bytes
  pub token_id : Bytes
  pub maker_amount : Bytes
  pub taker_amount : Bytes
  pub side : Side
  pub signature_type : ℕ
  pub timestamp : Bytes
  pub expiration : Bytes
  pub metadata : Bytes
  pub builder : Bytes

pub data OrderError : Type 0 where
  unknown_tick_size invalid_decimal token_not_decimal : Bytes → OrderError
  price_outside no_token_id no_salt : OrderError
  bad_amount : go_polymarket.Amount.Error → OrderError
  bad_builder bad_metadata bad_taker bad_maker bad_signer bad_domain : Error → OrderError
  unknown_chain unsupported_version : ℤ → OrderError
  payload : TypedError → OrderError
  signing : SignerError → OrderError
  different_data : SignerError → OrderError
  type_string_too_long : ℕ → OrderError

abbrev pub or_default : Bytes → Bytes → Bytes
or_default v d = if is_empty v then d else v

abbrev pub or_invalid : Bytes → Option Rat → Result OrderError Rat
or_invalid s none = err (invalid_decimal s)
or_invalid s (some r) = ok r

abbrev pub or_unknown_tick : Bytes → Option Config → Result OrderError Config
or_unknown_tick s none = err (unknown_tick_size s)
or_unknown_tick s (some cfg) = ok cfg

abbrev pub or_not_token : Bytes → Option ℤ → Result OrderError ℤ
or_not_token s none = err (token_not_decimal s)
or_not_token s (some n) = ok n

unfoldable pub random_salt : Option ℕ → Result OrderError ℤ
random_salt none = err no_salt
random_salt (some n) = ok (pos (n + 1))

abbrev pub or_unknown_chain : ℤ → Option Contracts → Result OrderError Contracts
or_unknown_chain chain none = err (unknown_chain chain)
or_unknown_chain chain (some c) = ok c

-- The version of the domain and the verifying contract.
unfoldable pub exchange_for : Contracts → ℤ → Bool → Result OrderError (Bytes × Bytes)
exchange_for c version neg_risk =
    if eqb_ℤ version (pos 1)
    then ok (exchange_v1_version, if neg_risk then c.neg_risk_exchange else c.exchange)
    else if eqb_ℤ version (pos 2)
    then ok (exchange_v2_version, if neg_risk then c.neg_risk_exchange_v2 else c.exchange_v2)
    else if eqb_ℤ version (pos 3)
    then ok (exchange_v3_version, c.exchange_v3)
    else err (unsupported_version version)

unfoldable pub order_domain : ℤ → ℤ → Bool → Result OrderError Domain
order_domain chain_id version neg_risk = do
  c ← or_unknown_chain chain_id (contracts_for chain_id)
  (domain_version, contract) ← exchange_for c version neg_risk
  ok (record {
    name = exchange_domain_name;
    version = domain_version;
    chain_id = some chain_id;
    verifying_contract = contract;
  })

-- The salt, drawn if the options hold none.
unfoldable pub salt_or_draw : Option ℕ → ℤ → Result OrderError ℤ
salt_or_draw draw salt = if eqb_ℤ salt (pos 0) then random_salt draw else ok salt

abbrev pub time_or_now : ℤ → ℤ → ℤ
time_or_now now ts = if eqb_ℤ ts (pos 0) then now else ts

unfoldable pub maker_of : Bytes → OrderOptions → Bytes
maker_of signer_address opts = or_default opts.funder signer_address

unfoldable pub signer_of : Bytes → OrderOptions → Bytes
signer_of signer_address opts =
    if opts.signature_type == sig_eip1271 then maker_of signer_address opts else signer_address

-- The tests of `assemble` on the texts that an order carries.
unfoldable pub check_texts :
    Bytes → Bytes → Bytes → Bytes → Bytes → Bytes → Result OrderError (Unit {0})
check_texts token_id builder meta taker maker signer = do
  _ ← guard (not (is_empty token_id)) no_token_id
  _ ← or_not_token token_id (parse_ℤ token_id)
  _ ← map_err bad_builder (bytes32 builder)
  _ ← map_err bad_metadata (bytes32 meta)
  _ ← map_err bad_taker (address taker)
  _ ← map_err bad_maker (address maker)
  _ ← map_err bad_signer (address signer)
  ok tt

unfoldable pub assemble :
    Option ℕ
    → ℤ
    → Bytes
    → Side
    → Raw
    → Bytes
    → OrderOptions
    → Bytes
    → Bytes
    → Bytes
    → ℤ
    → Result OrderError Order
assemble draw now token_id side raw signer_address opts builder_code metadata taker expiration =
    let builder = or_default builder_code zero_bytes32 in
    let meta = or_default metadata zero_bytes32 in
    let taker_address = or_default taker zero_address in
    let maker = maker_of signer_address opts in
    let signer = signer_of signer_address opts in
    do
      _ ← check_texts token_id builder meta taker_address maker signer
      salt ← salt_or_draw draw opts.salt
      ok (record {
        salt = format_ℤ salt;
        maker = maker;
        signer = signer;
        taker = taker_address;
        token_id = token_id;
        maker_amount = format_ℤ (fixed raw.maker);
        taker_amount = format_ℤ (fixed raw.taker);
        side = side;
        signature_type = opts.signature_type;
        timestamp = format_ℤ (time_or_now now opts.timestamp);
        expiration = format_ℤ expiration;
        metadata = meta;
        builder = builder;
      })

module _ (parse_rat : Bytes → Option Rat) where
  unfoldable pub parse_decimal : Bytes → Result OrderError Rat
  parse_decimal s = or_invalid s (parse_rat s)

  unfoldable pub check_price : Rat → Bytes → Result OrderError (Unit {0})
  unfolding parse_decimal
  check_price price tick_size = do
    tick ← parse_decimal tick_size
    let upper = sub_rat (record { num = pos 1; den = 1 }) tick
    guard (not (ltb_rat price tick || ltb_rat upper price)) price_outside

  module _ (draw : Option ℕ) (now : ℤ) where
    unfoldable pub build_order : UserOrder → Bytes → OrderOptions → Result OrderError Order
    unfolding parse_decimal check_price
    build_order u signer_address opts = do
      cfg ← or_unknown_tick opts.tick_size (by_tick_size opts.tick_size)
      price ← parse_decimal u.price
      size ← parse_decimal u.size
      _ ← check_price price opts.tick_size
      assemble draw now u.token_id u.side (limit (bytes_eq u.side buy) size price cfg)
          signer_address opts u.builder_code u.metadata u.taker u.expiration

    unfoldable pub build_market_order : MarketOrder → Bytes → OrderOptions → Result OrderError Order
    unfolding parse_decimal
    build_market_order m signer_address opts = do
      cfg ← or_unknown_tick opts.tick_size (by_tick_size opts.tick_size)
      price ← parse_decimal m.price
      amt ← parse_decimal m.amount
      raw ← map_err bad_amount (market (bytes_eq m.side buy) amt price cfg)
      assemble draw now m.token_id m.side raw signer_address opts m.builder_code m.metadata m.taker
          m.expiration
