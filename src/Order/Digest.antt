-- ===== src/Order/Digest.antt =====
-- The digest of an order, against the signed struct written out by hand: eleven words behind the hash of the
-- type string of protocol.go.
use go_polymarket.Base.{
  ◌≡◌, refl, ap, ◌∙◌, some, List, [], ◌∷◌, Result, ok, ◌>>=◌, map_err, bind_congr, bind_congr_ok,
  bind_assoc, bind_inversion, Bool,
}
use go_polymarket.Base.Bytes.{Bytes, codes}
use go_polymarket.Base.Int.{ℤ, pos}
use go_polymarket.Base.Decimal.{parse_ℤ}
use go_polymarket.Eip712.{
  Word, Domain, uint, address, bytes32, separator, struct_hash, digest, type_hash,
}
use go_polymarket.Protocol.{contracts_for, order_type_string}
use go_polymarket.TypedData.Types.{
  TypedError, TypedDataDomain, word, eip712_domain, encode_type, collect_types, collect_fields,
  type_segment, segment_from, add_segments, element_type, strip_arrays, array_element,
}
use go_polymarket.TypedData.Values.{
  or_not_decimal, typed_digest, typed_struct_hash, domain_separator, encode_value, by_type,
  encode_typed_value, typed_string, typed_uint, read_entry, hash_struct,
}
use go_polymarket.TypedData.Hash.{all_words, hash_struct_lem}
use go_polymarket.TypedData.Named.{named_words}
use go_polymarket.Order.{
  Order, OrderOptions, payload, order_domain, version_of, side_uint8, exchange_for,
  or_unknown_chain,
}
use go_polymarket.Order.Payload.{
  order_digest, order_typed_data, order_message, order_struct_fields, order_types, payload_domain,
}

-- The word of a decimal text.
abbrev pub decimal_word : Bytes → Result TypedError Word
decimal_word s = or_not_decimal s (parse_ℤ s) >>= λ n. map_err word (uint n)

-- The signed fields of an order, each with its word.
abbrev pub signed_words : Order → List (Bytes × Result TypedError Word)
signed_words o =
    (codes "salt", decimal_word o.salt)
    ∷ (codes "maker", map_err word (address o.maker))
    ∷ (codes "signer", map_err word (address o.signer))
    ∷ (codes "tokenId", decimal_word o.token_id)
    ∷ (codes "makerAmount", decimal_word o.maker_amount)
    ∷ (codes "takerAmount", decimal_word o.taker_amount)
    ∷ (codes "side", map_err word (uint (pos (side_uint8 o.side))))
    ∷ (codes "signatureType", map_err word (uint (pos o.signature_type)))
    ∷ (codes "timestamp", decimal_word o.timestamp)
    ∷ (codes "metadata", map_err word (bytes32 o.metadata))
    ∷ (codes "builder", map_err word (bytes32 o.builder))
    ∷ []

-- The domain that `orderDomain` resolves names the chain that it was asked for.
pub order_domain-chain :
    (chain_id version : ℤ) (neg_risk : Bool) (d : Domain)
    → order_domain chain_id version neg_risk ≡ ok d
    → d.chain_id ≡ some chain_id
unfolding order_domain
order_domain-chain chain_id version neg_risk d e =
    let (c, _, chosen) = bind_inversion (or_unknown_chain chain_id (contracts_for chain_id)) _ e in
    let (pair, _, made) = bind_inversion (exchange_for c version neg_risk) _ chosen in cc

module _ (keccak : Bytes → Bytes) where
  order_type :
      (d : TypedDataDomain) → encode_type (order_types d) (codes "Order") ≡ ok order_type_string
  unfolding order_struct_fields encode_type collect_types collect_fields type_segment segment_from
      add_segments element_type strip_arrays array_element
  order_type d = refl

  order_words :
      (o : Order) (d : TypedDataDomain)
      → all_words keccak (read_entry keccak (order_types d) (order_message o)) order_struct_fields
        ≡ named_words (signed_words o)
  unfolding order_struct_fields order_message encode_value by_type encode_typed_value typed_string
      typed_uint array_element
  order_words o d = refl

  order_struct_hash :
      (o : Order) (d : TypedDataDomain)
      → hash_struct keccak
          (order_types d)
          (codes "Order")
          (read_entry keccak (order_types d) (order_message o))
        ≡ (named_words (signed_words o) >>= λ words.
            ok (struct_hash keccak (type_hash keccak order_type_string) words))
  order_struct_hash o d =
      hash_struct_lem keccak (order_types d) (codes "Order")
        (read_entry keccak (order_types d) (order_message o))
      ∙ rw (order_type d) (rw (order_words o d) refl)

  order_payload-digest :
      (o : Order) (chain_id : ℤ) (d : Domain)
      → d.chain_id ≡ some chain_id
      → typed_digest keccak (record {
        types = order_types (payload_domain chain_id d);
        primary_type = codes "Order";
        domain = payload_domain chain_id d;
        content = order_message o;
      })
        ≡ (map_err word (separator keccak d) >>= λ s. named_words (signed_words o) >>= λ words.
            ok (digest keccak s (struct_hash keccak (type_hash keccak order_type_string) words)))
  unfolding typed_digest typed_struct_hash domain_separator eip712_domain
  order_payload-digest o chain_id d e =
      let same : Path Domain (eip712_domain (payload_domain chain_id d)) d = cc in
      rw same (
        bind_congr (map_err word (separator keccak d)) _ _ (λ s.
          rw (order_struct_hash o (payload_domain chain_id d))
            (bind_assoc (named_words (signed_words o)) _ (λ h. ok (digest keccak s h)))))

  -- The digest of an order is that of the domain of its chain and version and of the hand-written struct: the
  -- hash of the type string of protocol.go and the eleven words in order. It fails with the error of
  -- the domain, or the first one of a field.
  pub order_digest_lem :
      (o : Order) (chain_id : ℤ) (opts : OrderOptions)
      → order_digest keccak o chain_id opts ≡ (
          order_domain chain_id (version_of opts) opts.neg_risk >>= λ d. map_err payload (
            map_err word (separator keccak d) >>= λ s. named_words (signed_words o) >>= λ words.
            ok (digest keccak s (struct_hash keccak (type_hash keccak order_type_string) words))))
  unfolding order_digest order_typed_data
  order_digest_lem o chain_id opts =
      bind_assoc (order_domain chain_id (version_of opts) opts.neg_risk) _
        (λ td. map_err payload (typed_digest keccak td))
      ∙ bind_congr_ok (order_domain chain_id (version_of opts) opts.neg_risk) _ _ (λ d e.
        ap (map_err payload) (
          order_payload-digest o chain_id d
            (order_domain-chain chain_id (version_of opts) opts.neg_risk d e)))
