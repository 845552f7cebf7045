-- ===== src/Order/Payload.antt =====
-- order.go and typeddata.go: the payload that an order's signature covers, and that of level-1
-- authentication (auth.go).
use go_polymarket.Base.{List, [], ◌∷◌, Result, ok, ◌>>=◌, map_err}
use go_polymarket.Base.Bytes.{Bytes, codes}
use go_polymarket.Base.Int.{ℤ, pos}
use go_polymarket.Eip712.{Word, Domain}
use go_polymarket.Protocol.{clob_auth_domain_name, clob_auth_domain_version, clob_auth_message}
use go_polymarket.TypedData.Types.{
  TypedDataField, typed_field, TypedDataDomain, domain_type, Types, TypedError,
}
use go_polymarket.TypedData.Values.{
  TypedData, Message, no_entries, entry, text, integer, typed_digest,
}
use go_polymarket.Order.{
  Order, OrderOptions, OrderError, payload, order_domain, version_of, side_uint8,
}

unfoldable pub order_struct_fields : List TypedDataField
order_struct_fields =
    typed_field (codes "salt") (codes "uint256")
    ∷ typed_field (codes "maker") (codes "address")
    ∷ typed_field (codes "signer") (codes "address")
    ∷ typed_field (codes "tokenId") (codes "uint256")
    ∷ typed_field (codes "makerAmount") (codes "uint256")
    ∷ typed_field (codes "takerAmount") (codes "uint256")
    ∷ typed_field (codes "side") (codes "uint8")
    ∷ typed_field (codes "signatureType") (codes "uint8")
    ∷ typed_field (codes "timestamp") (codes "uint256")
    ∷ typed_field (codes "metadata") (codes "bytes32")
    ∷ typed_field (codes "builder") (codes "bytes32")
    ∷ []

unfoldable pub clob_auth_struct_fields : List TypedDataField
clob_auth_struct_fields =
    typed_field (codes "address") (codes "address")
    ∷ typed_field (codes "timestamp") (codes "string")
    ∷ typed_field (codes "nonce") (codes "uint256")
    ∷ typed_field (codes "message") (codes "string")
    ∷ []

unfoldable pub order_message : Order → Message
order_message o = entry (codes "salt") (text o.salt) (
    entry (codes "maker") (text o.maker) (
      entry (codes "signer") (text o.signer) (
        entry (codes "tokenId") (text o.token_id) (
          entry (codes "makerAmount") (text o.maker_amount) (
            entry (codes "takerAmount") (text o.taker_amount) (
              entry (codes "side") (integer (pos (side_uint8 o.side))) (
                entry (codes "signatureType") (integer (pos o.signature_type)) (
                  entry (codes "timestamp") (text o.timestamp) (
                    entry (codes "metadata") (text o.metadata)
                      (entry (codes "builder") (text o.builder) no_entries))))))))))

-- The domain of a payload for a chain, from the domain that `orderDomain` resolves.
abbrev pub payload_domain : ℤ → Domain → TypedDataDomain
payload_domain chain_id domain = record {
  name = domain.name;
  version = domain.version;
  chain_id = chain_id;
  verifying_contract = domain.verifying_contract;
}

abbrev pub order_types : TypedDataDomain → Types
order_types d = (codes "EIP712Domain", domain_type d) ∷ (codes "Order", order_struct_fields) ∷ []

unfoldable pub order_typed_data : Order → ℤ → OrderOptions → Result OrderError TypedData
order_typed_data o chain_id opts = do
  domain ← order_domain chain_id (version_of opts) opts.neg_risk
  ok (record {
    types = order_types (payload_domain chain_id domain);
    primary_type = codes "Order";
    domain = payload_domain chain_id domain;
    content = order_message o;
  })

abbrev pub clob_auth_domain : ℤ → TypedDataDomain
clob_auth_domain chain_id = record {
  name = clob_auth_domain_name;
  version = clob_auth_domain_version;
  chain_id = chain_id;
  verifying_contract = [];
}

unfoldable pub clob_auth_typed_data : Bytes → ℤ → Bytes → ℤ → TypedData
clob_auth_typed_data address chain_id timestamp nonce = record {
  types =
      (codes "EIP712Domain", domain_type (clob_auth_domain chain_id))
      ∷ (codes "ClobAuth", clob_auth_struct_fields)
      ∷ [];
  primary_type = codes "ClobAuth";
  domain = clob_auth_domain chain_id;
  content = entry (codes "address") (text address) (
      entry (codes "timestamp") (text timestamp) (
        entry (codes "nonce") (integer nonce)
          (entry (codes "message") (text clob_auth_message) no_entries)));
}

module _ (keccak : Bytes → Bytes) where
  unfoldable pub order_digest : Order → ℤ → OrderOptions → Result OrderError Word
  order_digest o chain_id opts = do
    td ← order_typed_data o chain_id opts
    map_err payload (typed_digest keccak td)

  unfoldable pub clob_auth_digest : Bytes → ℤ → Bytes → ℤ → Result TypedError Word
  clob_auth_digest address chain_id timestamp nonce =
      typed_digest keccak (clob_auth_typed_data address chain_id timestamp nonce)
