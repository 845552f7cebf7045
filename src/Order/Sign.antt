-- ===== src/Order/Sign.antt =====
-- order.go, erc7739.go and signer.go: signing a payload and an order, plainly or wrapped for a contract
-- wallet. `recover` is the library's recovery of a public key, as in Signer.antt.
use go_polymarket.Base.{
  ◌/◌, ◌%◌, Option, none, some, List, [], ◌∷◌, ◌++◌, ltb, ◌==◌, if◌then◌else◌, length, Result, ok,
  err, ◌>>=◌, map_err, guard, not,
}
use go_polymarket.Base.Bytes.{Bytes, codes}
use go_polymarket.Base.Hex.{encode_hex}
use go_polymarket.Base.Int.{ℤ}
use go_polymarket.Eip712.{separator}
use go_polymarket.Protocol.{order_type_string, zero_bytes32}
use go_polymarket.Signer.{SignerError, no_signer, verify_signature}
use go_polymarket.TypedData.Types.{TypedDataField, typed_field, domain_type}
use go_polymarket.TypedData.Values.{
  TypedData, no_entries, entry, text, integer, message, typed_digest, typed_struct_hash,
}
use go_polymarket.Order.{
  Order, OrderOptions, OrderError, payload, signing, different_data, bad_domain,
  type_string_too_long, order_domain, version_of, sig_eip1271,
}
use go_polymarket.Order.Payload.{order_typed_data, order_struct_fields}

-- A signer; `sign_typed_data` is there if it is a `TypedDataSigner`.
pub record PayloadSigner : Type 0 where
  pub own_address : Bytes
  pub sign_hash : Bytes → Result SignerError Bytes
  pub sign_typed_data : Option (TypedData → Result SignerError Bytes)

pub record SignedOrder : Type 0 where
  pub order : Order
  pub signature : Bytes

unfoldable pub typed_data_sign_fields : List TypedDataField
typed_data_sign_fields =
    typed_field (codes "contents") (codes "Order")
    ∷ typed_field (codes "name") (codes "string")
    ∷ typed_field (codes "version") (codes "string")
    ∷ typed_field (codes "chainId") (codes "uint256")
    ∷ typed_field (codes "verifyingContract") (codes "address")
    ∷ typed_field (codes "salt") (codes "bytes32")
    ∷ []

abbrev pub deposit_wallet_domain_name : Bytes
deposit_wallet_domain_name = codes "DepositWallet"

abbrev pub deposit_wallet_domain_version : Bytes
deposit_wallet_domain_version = codes "1"

unfoldable pub wrapped_order_typed_data : Order → ℤ → OrderOptions → Result OrderError TypedData
wrapped_order_typed_data o chain_id opts = do
  inner ← order_typed_data o chain_id opts
  ok (record {
    types =
        (codes "EIP712Domain", domain_type inner.domain)
        ∷ (codes "TypedDataSign", typed_data_sign_fields)
        ∷ (codes "Order", order_struct_fields)
        ∷ [];
    primary_type = codes "TypedDataSign";
    domain = inner.domain;
    content = entry (codes "contents") (message inner.content) (
        entry (codes "name") (text deposit_wallet_domain_name) (
          entry (codes "version") (text deposit_wallet_domain_version) (
            entry (codes "chainId") (integer chain_id) (
              entry (codes "verifyingContract") (text o.signer)
                (entry (codes "salt") (text zero_bytes32) no_entries)))));
  })

module _ (keccak : Bytes → Bytes) where
  unfoldable pub wrap_order_signature : Bytes → Order → ℤ → OrderOptions → Result OrderError Bytes
  wrap_order_signature inner o chain_id opts = do
    domain ← order_domain chain_id (version_of opts) opts.neg_risk
    s ← map_err bad_domain (separator keccak domain)
    td ← order_typed_data o chain_id opts
    contents ← map_err payload (typed_struct_hash keccak td)
    _ ←
        guard (not (ltb 0xffff (length order_type_string)))
          (type_string_too_long (length order_type_string))
    ok (
        codes "0x"
        ++ encode_hex (
            inner
            ++ (s
                ++ (contents
                    ++ (order_type_string
                        ++ length order_type_string / 256 % 256
                          ∷ length order_type_string % 256
                          ∷ [])))))

  module _ (recover : Bytes → Bytes → Option Bytes) where
    unfoldable pub sign_payload : PayloadSigner → TypedData → Result OrderError Bytes
    sign_payload s td = do
      digest ← map_err payload (typed_digest keccak td)
      elim s.sign_typed_data [
        | none ↦ map_err signing (s.sign_hash digest)
        | some rich ↦ do
          sig ← map_err signing (rich td)
          _ ← map_err different_data (verify_signature keccak recover digest sig s.own_address)
          ok sig
      ]

    unfoldable pub sign_wrapped_order :
        Order → ℤ → OrderOptions → PayloadSigner → Result OrderError SignedOrder
    sign_wrapped_order o chain_id opts s = do
      td ← wrapped_order_typed_data o chain_id opts
      inner ← sign_payload s td
      sig ← wrap_order_signature inner o chain_id opts
      ok (record { order = o; signature = sig })

    unfoldable pub sign_order :
        Order → ℤ → OrderOptions → Option PayloadSigner → Result OrderError SignedOrder
    unfolding sign_payload sign_wrapped_order
    sign_order o chain_id opts none = err (signing no_signer)
    sign_order o chain_id opts (some s) =
        if o.signature_type == sig_eip1271 then sign_wrapped_order o chain_id opts s else (do
          td ← order_typed_data o chain_id opts
          sig ← sign_payload s td
          ok (record { order = o; signature = codes "0x" ++ encode_hex sig }))
