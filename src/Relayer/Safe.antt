-- ===== src/Relayer/Safe.antt =====
-- relayer/transaction.go: transactions of a Gnosis Safe, several calls packed for the multisend contract.
use go_polymarket.Base.{
  ℕ, suc, Option, none, some, List, [], ◌∷◌, ◌++◌, length, Result, ok, err, ◌>>=◌, map_err, guard,
  not,
}
use go_polymarket.Base.Bytes.{Bytes, codes, is_empty}
use go_polymarket.Base.Hex.{encode_hex}
use go_polymarket.Base.Int.{ℤ, pos}
use go_polymarket.Base.Decimal.{format_ℕ, format_ℤ}
use go_polymarket.Abi.{packed_address, packed_uint, encode_bytes_call}
use go_polymarket.Protocol.{Contracts, zero_address}
use go_polymarket.Signer.{no_signer, personal_digest}
use go_polymarket.TypedData.Types.{TypedDataField, typed_field, TypedDataDomain, domain_type}
use go_polymarket.TypedData.Values.{TypedData, no_entries, entry, text, integer, typed_digest}
use go_polymarket.Order.Sign.{PayloadSigner}
use go_polymarket.Wallet.{derive_safe_wallet}
use go_polymarket.Relayer.{
  Call, RelayError, decode, safe_code, op_delegate_call, no_calls, no_multisend, no_nonce, in_call,
  bad_packing, wallet, typed, signer, chain_or_default, hex_or_empty, safe_signature, SubmitRequest,
  no_params, safe_transaction,
}

pub record SafeParams : Type 0 where
  pub owner : Bytes
  pub nonce : Bytes
  pub calls : List Call
  pub chain_id : ℤ
  pub safe_metadata : Bytes

unfoldable pub safe_tx_fields : List TypedDataField
safe_tx_fields =
    typed_field (codes "to") (codes "address")
    ∷ typed_field (codes "value") (codes "uint256")
    ∷ typed_field (codes "data") (codes "bytes")
    ∷ typed_field (codes "operation") (codes "uint8")
    ∷ typed_field (codes "safeTxGas") (codes "uint256")
    ∷ typed_field (codes "baseGas") (codes "uint256")
    ∷ typed_field (codes "gasPrice") (codes "uint256")
    ∷ typed_field (codes "gasToken") (codes "address")
    ∷ typed_field (codes "refundReceiver") (codes "address")
    ∷ typed_field (codes "nonce") (codes "uint256")
    ∷ []

-- One entry: operation, target, value, length and calldata.
unfoldable pub pack_call : ℕ → Call → Result RelayError Bytes
pack_call i call = do
  d ← map_err (in_call i) (decode call)
  a ← map_err bad_packing (packed_address d.target)
  amount ← map_err (in_call i) (map_err bad_packing (packed_uint d.amount 32))
  size ← map_err bad_packing (packed_uint (pos (length d.payload)) 32)
  ok (safe_code call.operation ∷ a ++ (amount ++ (size ++ d.payload)))

-- The entries from call `i` on.
unfoldable pub pack_multisend_from : ℕ → List Call → Result RelayError Bytes
unfolding pack_call
pack_multisend_from i [] = ok []
pack_multisend_from i (call ∷ calls) = do
  packed ← pack_call i call
  rest ← pack_multisend_from (suc i) calls
  ok (packed ++ rest)

unfoldable pub pack_multisend : List Call → Result RelayError Bytes
unfolding pack_multisend_from
pack_multisend calls = pack_multisend_from 0 calls

module _ (keccak : Bytes → Bytes) where
  unfoldable pub aggregate : List Call → Bytes → Result RelayError Call
  unfolding pack_multisend
  aggregate [] multisend = err no_calls
  aggregate (call ∷ []) multisend = ok call
  aggregate (call ∷ next ∷ calls) multisend = do
    _ ← guard (not (is_empty multisend)) no_multisend
    packed ← pack_multisend (call ∷ next ∷ calls)
    ok (record {
      to = multisend;
      value = codes "0";
      calldata =
          codes "0x" ++ encode_hex (encode_bytes_call keccak (codes "multiSend(bytes)") packed);
      operation = op_delegate_call;
    })

  abbrev pub safe_domain : SafeParams → Bytes → TypedDataDomain
  safe_domain p safe = record {
    name = [];
    version = [];
    chain_id = chain_or_default p.chain_id;
    verifying_contract = safe;
  }

  unfoldable pub safe_typed_data : SafeParams → Contracts → Result RelayError TypedData
  unfolding aggregate safe_tx_fields
  safe_typed_data p c = do
    safe ← map_err wallet (derive_safe_wallet keccak p.owner c.safe_factory)
    call ← aggregate p.calls c.safe_multisend
    d ← decode call
    _ ← guard (not (is_empty p.nonce)) no_nonce
    ok (record {
      types =
          (codes "EIP712Domain", domain_type (safe_domain p safe))
          ∷ (codes "SafeTx", safe_tx_fields)
          ∷ [];
      primary_type = codes "SafeTx";
      domain = safe_domain p safe;
      content = entry (codes "to") (text d.target) (
          entry (codes "value") (text (format_ℤ d.amount)) (
            entry (codes "data") (text (hex_or_empty d.payload)) (
              entry (codes "operation") (integer (pos (safe_code call.operation))) (
                entry (codes "safeTxGas") (text (codes "0")) (
                  entry (codes "baseGas") (text (codes "0")) (
                    entry (codes "gasPrice") (text (codes "0")) (
                      entry (codes "gasToken") (text zero_address) (
                        entry (codes "refundReceiver") (text zero_address)
                          (entry (codes "nonce") (text p.nonce) no_entries)))))))));
    })

  unfoldable pub build_safe_transaction :
      Option PayloadSigner → SafeParams → Contracts → Result RelayError SubmitRequest
  unfolding safe_typed_data
  build_safe_transaction none p c = err (signer no_signer)
  build_safe_transaction (some s) p c = do
    safe ← map_err wallet (derive_safe_wallet keccak p.owner c.safe_factory)
    call ← aggregate p.calls c.safe_multisend
    td ← safe_typed_data p c
    digest ← map_err typed (typed_digest keccak td)
    sig ← map_err signer (s.sign_hash (personal_digest keccak digest))
    packed ← safe_signature sig
    ok (record {
      kind = safe_transaction;
      from = p.owner;
      request_to = call.to;
      proxy_wallet = safe;
      request_data = call.calldata;
      request_nonce = p.nonce;
      signature = packed;
      signature_params = some (record no_params {
        gas_price = codes "0";
        operation_text = format_ℕ (safe_code call.operation);
        safe_txn_gas = codes "0";
        base_gas = codes "0";
        gas_token = zero_address;
        refund_receiver = zero_address;
      });
      metadata = p.safe_metadata;
      deposit = none;
    })
