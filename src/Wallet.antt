-- ===== src/Wallet.antt =====
-- wallet.go: the smart-contract wallets of an owner, at the CREATE2 addresses of their factories.
mod Tests
pub mod Owners
pub mod Orders
use go_polymarket.Base.{
  ℕ, zero, suc, ◌+◌, ◌*◌, ◌^◌, Option, none, some, List, [], ◌∷◌, ◌++◌, ◌==◌, if◌then◌else◌, length,
  drop, Result, ok, err, ◌>>=◌, map_err, guard, not, false,
}
use go_polymarket.Base.Bytes.{Bytes, codes, is_empty}
use go_polymarket.Base.Hex.{hex_value}
use go_polymarket.Base.Int.{ℤ, pos}
use go_polymarket.Eip712.{Error, Word, keccak256, address, bytes32, hex_bytes}
use go_polymarket.Abi.{AbiError, packed_address, packed_uint, create2, encode}
use go_polymarket.Signer.{checksum_address}
use go_polymarket.Protocol.{Contracts, contracts_for}
use go_polymarket.Order.{OrderOptions, sig_eoa, sig_poly_proxy, sig_poly_gnosis_safe, sig_eip1271}

abbrev pub proxy_init_code_hash : Bytes
proxy_init_code_hash = codes "0xd21df8dc65880a8606f09fe0ce3df9b8869287ab0b058be05aa9e8af6330a00b"

abbrev pub safe_init_code_hash : Bytes
safe_init_code_hash = codes "0x2bce2127ff07fb632d16c8347c4ebf501f4841168bed00d9e6ef715ddb6fcecf"

abbrev pub erc1967_const1 : Bytes
erc1967_const1 = codes "0xcc3735a920a3ca505d382bbc545af43d6000803e6038573d6000fd5b3d6000f3"

abbrev pub erc1967_const2 : Bytes
erc1967_const2 = codes "0x5155f3363d3d373d3d363d7f360894a13ba1a3210667c828492db98dca3e2076"

abbrev pub erc1967_prefix : Bytes
erc1967_prefix = codes "0x61003d3d8160233d3973"

abbrev pub erc1967_beacon_const1 : Bytes
erc1967_beacon_const1 = codes "0xb3582b35133d50545afa5036515af43d6000803e604d573d6000fd5b3d6000f3"

abbrev pub erc1967_beacon_const2 : Bytes
erc1967_beacon_const2 = codes "0x1b60e01b36527fa3f0ad74e5423aebfd80d3ef4346578335a9a72aeaee59ff6c"

abbrev pub erc1967_beacon_const3 : Bytes
erc1967_beacon_const3 = codes "0x60195155f3363d3d373d3d363d602036600436635c60da"

abbrev pub erc1967_beacon_prefix : Bytes
erc1967_beacon_prefix = codes "0x6100523d8160233d3973"

pub data WalletError : Type 0 where
  unknown_chain : ℤ → WalletError
  unknown_signature_type : ℕ → WalletError
  no_factory : WalletError
  bad_prefix : Bytes → WalletError
  bad_word : Error → WalletError
  bad_packing : AbiError → WalletError

pub record Wallet : Type 0 where
  pub signature_type : ℕ
  pub owner : Bytes
  pub wallet_address : Bytes

-- `SetString(s, 16)` on a text of hex digits.
unfoldable pub parse_hex_from : ℕ → Bytes → Option ℕ
parse_hex_from n [] = some n
parse_hex_from n (c ∷ s) = elim (hex_value c) [
  | none ↦ none
  | some d ↦ parse_hex_from (n * 16 + d) s
]

abbrev pub or_bad_prefix : Bytes → Option ℕ → Result WalletError ℕ
or_bad_prefix s none = err (bad_prefix s)
or_bad_prefix s (some n) = ok n

unfoldable pub solady_prefix : Bytes → ℕ → Result WalletError Bytes
unfolding parse_hex_from
solady_prefix prefix arg_len = do
  base ← or_bad_prefix prefix (parse_hex_from 0 (drop 2 prefix))
  map_err bad_packing (packed_uint (pos (base + arg_len * 2 ^ 56)) 10)

-- The options that a wallet decides, with nothing else set.
unfoldable pub order_options : Wallet → OrderOptions
order_options w = record {
  tick_size = [];
  neg_risk = false;
  version = pos 0;
  signature_type = w.signature_type;
  funder = if w.signature_type == sig_eoa then [] else w.wallet_address;
  salt = pos 0;
  timestamp = pos 0;
}

abbrev pub or_unknown : ℤ → Option Contracts → Result WalletError Contracts
or_unknown chain_id none = err (unknown_chain chain_id)
or_unknown chain_id (some c) = ok c

module _ (keccak : Bytes → Bytes) where
  -- The end of every derivation: the address that the factory deploys at.
  unfoldable pub deployed : Bytes → Word → Word → Result WalletError Bytes
  deployed factory salt init_code_hash = do
    a ← map_err bad_packing (create2 keccak factory salt init_code_hash)
    ok (checksum_address keccak a)

  unfoldable pub derive_proxy_wallet : Bytes → Bytes → Result WalletError Bytes
  derive_proxy_wallet owner factory = do
    _ ← guard (not (is_empty factory)) no_factory
    packed ← map_err bad_packing (packed_address owner)
    init_code_hash ← map_err bad_word (bytes32 proxy_init_code_hash)
    deployed factory (keccak256 keccak (packed ∷ [])) init_code_hash

  unfoldable pub derive_safe_wallet : Bytes → Bytes → Result WalletError Bytes
  derive_safe_wallet owner factory = do
    _ ← guard (not (is_empty factory)) no_factory
    word ← map_err bad_word (address owner)
    init_code_hash ← map_err bad_word (bytes32 safe_init_code_hash)
    deployed factory (keccak256 keccak (word ∷ [])) init_code_hash

  -- The constructor's arguments and the salt.
  unfoldable pub deposit_wallet_args : Bytes → Bytes → Result WalletError (Bytes × Word)
  deposit_wallet_args owner factory = do
    _ ← guard (not (is_empty factory)) no_factory
    factory_word ← map_err bad_word (address factory)
    wallet_id ← map_err bad_word (address owner)
    let args = encode (factory_word ∷ wallet_id ∷ [])
    ok (args, keccak256 keccak (args ∷ []))

  unfoldable pub uups_init_code_hash : Bytes → Bytes → Result WalletError Word
  unfolding solady_prefix
  uups_init_code_hash implementation args = do
    prefix ← solady_prefix erc1967_prefix (length args)
    target ← map_err bad_packing (packed_address implementation)
    const1 ← map_err bad_word (hex_bytes erc1967_const1)
    const2 ← map_err bad_word (hex_bytes erc1967_const2)
    ok (keccak256 keccak (prefix ∷ target ∷ (0x60 ∷ 0x09 ∷ []) ∷ const2 ∷ const1 ∷ args ∷ []))

  unfoldable pub beacon_init_code_hash : Bytes → Bytes → Result WalletError Word
  unfolding solady_prefix
  beacon_init_code_hash beacon args = do
    prefix ← solady_prefix erc1967_beacon_prefix (length args)
    target ← map_err bad_packing (packed_address beacon)
    const1 ← map_err bad_word (hex_bytes erc1967_beacon_const1)
    const2 ← map_err bad_word (hex_bytes erc1967_beacon_const2)
    const3 ← map_err bad_word (hex_bytes erc1967_beacon_const3)
    ok (keccak256 keccak (prefix ∷ target ∷ const3 ∷ const2 ∷ const1 ∷ args ∷ []))

  unfoldable pub derive_deposit_wallet : Bytes → Bytes → Bytes → Result WalletError Bytes
  unfolding deposit_wallet_args beacon_init_code_hash deployed
  derive_deposit_wallet owner factory beacon = do
    (args, salt) ← deposit_wallet_args owner factory
    init_code_hash ← beacon_init_code_hash beacon args
    deployed factory salt init_code_hash

  unfoldable pub derive_deposit_wallet_uups : Bytes → Bytes → Bytes → Result WalletError Bytes
  unfolding deposit_wallet_args uups_init_code_hash deployed
  derive_deposit_wallet_uups owner factory implementation = do
    (args, salt) ← deposit_wallet_args owner factory
    init_code_hash ← uups_init_code_hash implementation args
    deployed factory salt init_code_hash

  unfoldable pub derive_wallet : ℕ → Bytes → Contracts → Result WalletError Bytes
  unfolding derive_proxy_wallet derive_safe_wallet derive_deposit_wallet
  derive_wallet sig_type owner c =
      if sig_type == sig_eoa
      then (do _ ← map_err bad_word (address owner); ok (checksum_address keccak owner))
      else if sig_type == sig_poly_proxy
      then derive_proxy_wallet owner c.proxy_factory
      else if sig_type == sig_poly_gnosis_safe
      then derive_safe_wallet owner c.safe_factory
      else if sig_type == sig_eip1271
      then derive_deposit_wallet owner c.deposit_wallet_factory c.deposit_wallet_beacon
      else err (unknown_signature_type sig_type)

  unfoldable pub new_wallet : ℕ → Bytes → ℤ → Result WalletError Wallet
  unfolding derive_wallet
  new_wallet sig_type owner chain_id = do
    c ← or_unknown chain_id (contracts_for chain_id)
    a ← derive_wallet sig_type owner c
    ok (record {
      signature_type = sig_type;
      owner = checksum_address keccak owner;
      wallet_address = a;
    })
