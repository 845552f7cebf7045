-- ===== src/Relayer.antt =====
-- relayer/transaction.go: transactions that the relayer carries out for a wallet.
pub mod Safe
pub mod Proxy
pub mod Batch
mod Tests
pub mod Multisend
pub mod Calldata
pub mod Signatures
use go_polymarket.Base.{
  ℕ, suc, ◌+◌, ◌%◌, Option, none, some, List, [], ◌∷◌, ◌++◌, ltb, ◌==◌, Bool, ◌||◌, ◌&&◌,
  if◌then◌else◌, length, get_or, take, Result, ok, err, ◌>>=◌, map_err, guard, not,
}
use go_polymarket.Base.Bytes.{Bytes, codes, is_empty}
use go_polymarket.Base.Hex.{encode_hex}
use go_polymarket.Base.Int.{ℤ, pos, is_neg, eqb_ℤ}
use go_polymarket.Base.Decimal.{parse_ℤ}
use go_polymarket.Eip712.{Error, Word, address, hex_bytes}
use go_polymarket.Abi.{AbiError, packed_uint}
use go_polymarket.Protocol.{chain_polygon}
use go_polymarket.Order.{OrderError}
use go_polymarket.Signer.{SignerError}
use go_polymarket.TypedData.Types.{TypedError}
use go_polymarket.Wallet.{WalletError}

abbrev pub Operation : Type 0
Operation = ℕ

abbrev pub op_call : Operation
op_call = 0

abbrev pub op_delegate_call : Operation
op_delegate_call = 1

-- A uint8, which wraps.
abbrev pub safe_code : Operation → ℕ
safe_code o = o

abbrev pub proxy_code : Operation → ℕ
proxy_code o = (o + 1) % 256

pub record Call : Type 0 where
  pub to : Bytes
  pub value : Bytes
  pub calldata : Bytes
  pub operation : Operation

pub data RelayError : Type 0 where
  bad_target bad_data bad_word : Error → RelayError
  value_not_decimal negative_value not_decimal : Bytes → RelayError
  bad_packing : AbiError → RelayError
  no_calls no_multisend no_nonce no_proxy_factory no_wallet_factory no_deadline : RelayError
  signature_length signature_v : ℕ → RelayError
  in_call : ℕ → RelayError → RelayError
  wallet : WalletError → RelayError
  typed : TypedError → RelayError
  signer : SignerError → RelayError
  signing : OrderError → RelayError

-- The value of a call, zero if it is empty.
unfoldable pub call_value : Bytes → Result RelayError ℤ
call_value s = if is_empty s then ok (pos 0) else elim (parse_ℤ s) [
  | none ↦ err (value_not_decimal s)
  | some n ↦ if is_neg n then err (negative_value s) else ok n
]

unfoldable pub call_data : Bytes → Result RelayError Bytes
call_data s = if is_empty s then ok [] else map_err bad_data (hex_bytes s)

pub record Decoded : Type 0 where
  pub target : Bytes
  pub amount : ℤ
  pub payload : Bytes

-- `Call.decode`
unfoldable pub decode : Call → Result RelayError Decoded
unfolding call_value call_data
decode c = do
  _ ← map_err bad_target (address c.to)
  value ← call_value c.value
  data_bytes ← call_data c.calldata
  ok (record { target = c.to; amount = value; payload = data_bytes })

pub record SignatureParams : Type 0 where
  pub gas_price : Bytes
  pub operation_text : Bytes
  pub safe_txn_gas : Bytes
  pub base_gas : Bytes
  pub gas_token : Bytes
  pub refund_receiver : Bytes
  pub relayer_fee : Bytes
  pub gas_limit : Bytes
  pub relay_hub : Bytes
  pub relay : Bytes

abbrev pub no_params : SignatureParams
no_params = record {
  gas_price = [];
  operation_text = [];
  safe_txn_gas = [];
  base_gas = [];
  gas_token = [];
  refund_receiver = [];
  relayer_fee = [];
  gas_limit = [];
  relay_hub = [];
  relay = [];
}

pub record BatchCall : Type 0 where
  pub batch_target : Bytes
  pub batch_value : Bytes
  pub batch_data : Bytes

pub record DepositWalletParams : Type 0 where
  pub deposit_wallet : Bytes
  pub batch_deadline : Bytes
  pub batch_calls : List BatchCall

pub data TransactionType : Type 0 where
  safe_transaction proxy_transaction safe_create wallet_transaction wallet_create : TransactionType

pub record SubmitRequest : Type 0 where
  pub kind : TransactionType
  pub from : Bytes
  pub request_to : Bytes
  pub proxy_wallet : Bytes
  pub request_data : Bytes
  pub request_nonce : Bytes
  pub signature : Bytes
  pub signature_params : Option SignatureParams
  pub metadata : Bytes
  pub deposit : Option DepositWalletParams

unfoldable pub chain_or_default : ℤ → ℤ
chain_or_default chain_id = if eqb_ℤ chain_id (pos 0) then pos chain_polygon else chain_id

unfoldable pub hex_or_empty : Bytes → Bytes
hex_or_empty b = codes "0x" ++ encode_hex b

-- `strings.TrimSpace(s)`, on ASCII text.
abbrev pub is_space : ℕ → Bool
is_space c = c == 32 || c == 9 || c == 10 || c == 11 || c == 12 || c == 13

abbrev pub trim_left : Bytes → Bytes
trim_left [] = []
trim_left (c ∷ s) = if is_space c then trim_left s else c ∷ s

abbrev pub trim_right : Bytes → Bytes
trim_right [] = []
trim_right (c ∷ s) = let rest = trim_right s in if is_empty rest && is_space c then [] else c ∷ rest

abbrev pub or_not_decimal : Bytes → Option ℤ → Result RelayError ℤ
or_not_decimal s none = err (not_decimal s)
or_not_decimal s (some n) = ok n

unfoldable pub packed_decimal : Bytes → ℕ → Result RelayError Bytes
packed_decimal s size = do
  n ← or_not_decimal s (parse_ℤ (trim_right (trim_left s)))
  map_err bad_packing (packed_uint n size)

-- What `switch v` makes of the last byte of a signature.
unfoldable pub safe_v : ℕ → Result RelayError ℕ
safe_v v =
    if v == 0 || v == 1
    then ok (v + 31)
    else if v == 27 || v == 28
    then ok (v + 4)
    else err (signature_v v)

unfoldable pub safe_signature : Bytes → Result RelayError Bytes
unfolding safe_v
safe_signature sig =
    if not (length sig == 65)
    then err (signature_length (length sig))
    else (do v ← safe_v (get_or sig 64 0); ok (codes "0x" ++ encode_hex (take 64 sig ++ v ∷ [])))
