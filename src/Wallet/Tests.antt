-- ===== src/Wallet/Tests.antt =====
-- Wallets of one owner, in two spellings of the address.
use go_polymarket.Base.{◌≡◌, refl, some, ◌∙◌, ap, map_err, arith, ◌⊎◌, [], ◌∷◌, ok, is_ok→ok}
use go_polymarket.Base.Bytes.{Bytes, codes, to_lower, lower}
use go_polymarket.Signer.{checksum_address, checksum_chars, checksum_char, nibble_at}
use go_polymarket.Base.Hex.{hex_value, decode_hex, trim_0x}
use go_polymarket.Base.Word.{be_bytes}
use go_polymarket.Base.Int.{pos}
use go_polymarket.Abi.Words.{packed_uint_exact}
use go_polymarket.Abi.{packed_address, create2, hex_lower}
use go_polymarket.Samples.{short_hash, length-short_hash, short_hash-IsByte, plain_decimal}
use go_polymarket.Eip712.{address, bytes32, decode_hex_of, keccak256}
use go_polymarket.Protocol.{polygon_contracts, contracts_for, zero_address, zero_bytes32}
use go_polymarket.Order.{
  UserOrder, OrderOptions, Order, buy, build_order, check_price, assemble, check_texts, maker_of,
  signer_of, salt_or_draw,
}
use go_polymarket.Amount.{by_tick_size, fixed, limit, converge, round, decimal_places}
use go_polymarket.Base.Decimal.{parse_ℕ, parse_ℤ, format_ℤ}
use go_polymarket.Wallet.Orders.{build_order-order_options}
use go_polymarket.Wallet.{
  Wallet, new_wallet, order_options, bad_packing, derive_wallet, parse_hex_from, solady_prefix,
  erc1967_prefix,
}
use go_polymarket.Wallet.Owners.{derive_wallet_binds, OwnersCollide}

-- The length of two words of arguments is added to the operand behind the first byte.
solady_prefix_test :
    solady_prefix erc1967_prefix 64
    ≡ ok (0x61 ∷ 0x00 ∷ 0x7d ∷ 0x3d ∷ 0x81 ∷ 0x60 ∷ 0x23 ∷ 0x3d ∷ 0x39 ∷ 0x73 ∷ [])
unfolding solady_prefix parse_hex_from hex_value be_bytes
solady_prefix_test = ap (map_err bad_packing) (
    (packed_uint_exact (pos 0x61007d3d8160233d3973) 10 (be_bytes 10 0x61007d3d8160233d3973)).1
      (0x61007d3d8160233d3973, refl, omega arith, refl))

abbrev owner : Bytes
owner = codes "0xaB11111111111111111111111111111111111111"

abbrev same_owner : Bytes
same_owner = codes "0xab11111111111111111111111111111111111111"

-- The Safe of the owner.
safe_wallet : (a : Bytes) × (derive_wallet short_hash 2 owner polygon_contracts ≡ ok a)
unfolding derive_wallet address decode_hex_of decode_hex trim_0x bytes32 create2 packed_address
safe_wallet = is_ok→ok (derive_wallet short_hash 2 owner polygon_contracts) refl

same_wallet :
    derive_wallet short_hash 2 same_owner polygon_contracts
    ≡ derive_wallet short_hash 2 owner polygon_contracts
unfolding derive_wallet address decode_hex_of decode_hex trim_0x bytes32 create2 packed_address
same_wallet = refl

derive_wallet_binds_example :
    (address owner ≡ address same_owner)
    ⊎ OwnersCollide short_hash 2 polygon_contracts owner same_owner
derive_wallet_binds_example =
    derive_wallet_binds short_hash length-short_hash short_hash-IsByte 2 polygon_contracts owner
      same_owner safe_wallet.0 safe_wallet.1 (same_wallet ∙ safe_wallet.1)

-- The Safe of the owner, on Polygon.
abbrev wallet : Wallet
wallet = record {
  signature_type = 2;
  owner = codes "0xab11111111111111111111111111111111111111";
  wallet_address = codes "0x61e40682bd20e3541b0000000000000000000055";
}

new_wallet-owner : new_wallet short_hash 2 owner (pos 137) ≡ ok wallet
unfolding new_wallet derive_wallet address decode_hex_of decode_hex trim_0x bytes32 create2
    packed_address contracts_for checksum_address to_lower hex_lower lower checksum_chars
    checksum_char nibble_at keccak256
new_wallet-owner = refl

abbrev user : UserOrder
user = record {
  token_id = codes "71";
  price = codes "0.52";
  size = codes "10.0";
  side = buy;
  builder_code = [];
  expiration = pos 0;
  taker = [];
  metadata = [];
}

-- The wallet's options for a market.
abbrev wallet_options : OrderOptions
wallet_options = record (order_options wallet) {
  tick_size = codes "0.01";
  salt = pos 5;
  timestamp = pos 9;
}

abbrev order : Order
order = record {
  salt = codes "5";
  maker = wallet.wallet_address;
  signer = owner;
  taker = zero_address;
  token_id = codes "71";
  maker_amount = codes "5200000";
  taker_amount = codes "10000000";
  side = buy;
  signature_type = 2;
  timestamp = codes "9";
  expiration = codes "0";
  metadata = zero_bytes32;
  builder = zero_bytes32;
}

build_order-wallet : build_order plain_decimal (some 3) (pos 1) user owner wallet_options ≡ ok order
unfolding build_order check_price assemble check_texts by_tick_size parse_ℕ parse_ℤ bytes32
    decode_hex_of decode_hex trim_0x address maker_of signer_of salt_or_draw format_ℤ fixed limit
    converge round decimal_places order_options
build_order-wallet = refl

build_order-order_options_example :
    (order.maker ≡ wallet.wallet_address) × (order.signer ≡ owner) × (order.signature_type ≡ 2)
build_order-order_options_example =
    build_order-order_options short_hash plain_decimal (some 3) (pos 1) 2 owner (pos 137) wallet
      user owner wallet_options order new_wallet-owner refl refl build_order-wallet
