-- ===== src/Relayer/Batch.antt =====
-- relayer/transaction.go: batches of a deposit wallet, and its creation.
use go_polymarket.Base.{
  ℕ, suc, ◌||◌, Option, none, some, List, [], ◌∷◌, ◌++◌, if◌then◌else◌, Result, ok, err, ◌>>=◌,
  map_err, guard, not,
}
use go_polymarket.Base.Bytes.{Bytes, codes, is_empty}
use go_polymarket.Base.Hex.{encode_hex}
use go_polymarket.Base.Int.{ℤ}
use go_polymarket.Base.Decimal.{format_ℤ}
use go_polymarket.Eip712.{address}
use go_polymarket.Protocol.{Contracts}
use go_polymarket.Signer.{no_signer}
use go_polymarket.TypedData.Types.{TypedDataField, typed_field, TypedDataDomain, domain_type}
use go_polymarket.TypedData.Values.{
  TypedData, Items, no_items, item, no_entries, entry, text, items, message,
}
use go_polymarket.Order.Sign.{
  PayloadSigner, sign_payload, deposit_wallet_domain_name, deposit_wallet_domain_version,
}
use go_polymarket.Wallet.{derive_deposit_wallet}
use go_polymarket.Relayer.{
  Call, RelayError, decode, no_nonce, no_wallet_factory, in_call, bad_word, wallet, signer, signing,
  chain_or_default, hex_or_empty, SubmitRequest, BatchCall, wallet_transaction, wallet_create,
}

pub record BatchParams : Type 0 where
  pub owner : Bytes
  pub batch_wallet_override : Bytes
  pub nonce : Bytes
  pub deadline : Bytes
  pub calls : List Call
  pub chain_id : ℤ

unfoldable pub batch_fields : List TypedDataField
batch_fields =
    typed_field (codes "wallet") (codes "address")
    ∷ typed_field (codes "nonce") (codes "uint256")
    ∷ typed_field (codes "deadline") (codes "uint256")
    ∷ typed_field (codes "calls") (codes "Call[]")
    ∷ []

unfoldable pub batch_call_fields : List TypedDataField
batch_call_fields =
    typed_field (codes "target") (codes "address")
    ∷ typed_field (codes "value") (codes "uint256")
    ∷ typed_field (codes "data") (codes "bytes")
    ∷ []

-- The calls from `i` on, as values of a message.
unfoldable pub call_items : ℕ → List Call → Result RelayError Items
call_items i [] = ok no_items
call_items i (call ∷ calls) = do
  d ← map_err (in_call i) (decode call)
  rest ← call_items (suc i) calls
  ok (
      item
        (message (
          entry (codes "target") (text d.target) (
            entry (codes "value") (text (format_ℤ d.amount))
              (entry (codes "data") (text (hex_or_empty d.payload)) no_entries))))
        rest)

-- The calls from `i` on, as the request carries them.
unfoldable pub request_calls : ℕ → List Call → Result RelayError (List BatchCall)
request_calls i [] = ok []
request_calls i (call ∷ calls) = do
  d ← map_err (in_call i) (decode call)
  rest ← request_calls (suc i) calls
  ok (
      record {
        batch_target = d.target;
        batch_value = format_ℤ d.amount;
        batch_data = hex_or_empty d.payload;
      }
      ∷ rest)

module _ (keccak : Bytes → Bytes) where
  unfoldable pub batch_wallet : BatchParams → Contracts → Result RelayError Bytes
  batch_wallet p c =
      if not (is_empty p.batch_wallet_override)
      then (do _ ← map_err bad_word (address p.batch_wallet_override); ok p.batch_wallet_override)
      else map_err wallet
          (derive_deposit_wallet keccak p.owner c.deposit_wallet_factory c.deposit_wallet_beacon)

  abbrev pub batch_domain : BatchParams → Bytes → TypedDataDomain
  batch_domain p w = record {
    name = deposit_wallet_domain_name;
    version = deposit_wallet_domain_version;
    chain_id = chain_or_default p.chain_id;
    verifying_contract = w;
  }

  unfoldable pub batch_typed_data : BatchParams → Contracts → Result RelayError TypedData
  unfolding batch_wallet call_items
  batch_typed_data p c = do
    w ← batch_wallet p c
    _ ← guard (not (is_empty p.nonce || is_empty p.deadline)) no_nonce
    calls ← call_items 0 p.calls
    ok (record {
      types =
          (codes "EIP712Domain", domain_type (batch_domain p w))
          ∷ (codes "Batch", batch_fields)
          ∷ (codes "Call", batch_call_fields)
          ∷ [];
      primary_type = codes "Batch";
      domain = batch_domain p w;
      content = entry (codes "wallet") (text w) (
          entry (codes "nonce") (text p.nonce) (
            entry (codes "deadline") (text p.deadline)
              (entry (codes "calls") (items calls) no_entries)));
    })

  unfoldable pub build_wallet_create : Bytes → Contracts → Result RelayError SubmitRequest
  build_wallet_create owner c = do
    _ ← map_err bad_word (address owner)
    _ ← guard (not (is_empty c.deposit_wallet_factory)) no_wallet_factory
    ok (record {
      kind = wallet_create;
      from = owner;
      request_to = c.deposit_wallet_factory;
      proxy_wallet = [];
      request_data = [];
      request_nonce = [];
      signature = [];
      signature_params = none;
      metadata = [];
      deposit = none;
    })

  unfoldable pub build_wallet_batch :
      (Bytes → Bytes → Option Bytes)
      → Option PayloadSigner
      → BatchParams
      → Contracts
      → Result RelayError SubmitRequest
  unfolding batch_typed_data request_calls
  build_wallet_batch recover none p c = err (signer no_signer)
  build_wallet_batch recover (some s) p c = do
    w ← batch_wallet p c
    td ← batch_typed_data p c
    sig ← map_err signing (sign_payload keccak recover s td)
    calls ← request_calls 0 p.calls
    ok (record {
      kind = wallet_transaction;
      from = p.owner;
      request_to = c.deposit_wallet_factory;
      proxy_wallet = [];
      request_data = [];
      request_nonce = p.nonce;
      signature = codes "0x" ++ encode_hex sig;
      signature_params = none;
      metadata = [];
      deposit =
          some (record { deposit_wallet = w; batch_deadline = p.deadline; batch_calls = calls });
    })
