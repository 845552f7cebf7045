-- ===== src/Order/Accept.antt =====
-- A built order is accepted by the payload: the texts that `assemble` tested are the ones that are hashed.
mod Exchange
use go_polymarket.Base.{
  ℕ, ◌^◌, ◌<◌, ◌≡◌, refl, sym, subst, Bool, true, false, Option, none, some, List, [], ◌∷◌, arith,
  ◌==◌, ==_iff, if◌then◌else◌, Bool-cases, inl, inr, Result, ok, err, ◌>>=◌, map_err,
  bind_inversion, is_ok, is_ok→ok, bind-is_ok, map_err-is_ok, map_err-was_ok, guard, not, All,
}
use go_polymarket.Base.Bytes.{Bytes, codes, is_empty}
use go_polymarket.Base.Int.{ℤ, pos, negsuc, eqb_ℤ}
use go_polymarket.Base.Rat.{Rat}
use go_polymarket.Base.Decimal.{parse_ℤ}
use go_polymarket.Base.Hex.{decode_hex, trim_0x}
use go_polymarket.Eip712.{
  Word, Domain, Parts, add_part, decode_hex_of, uint, address, bytes32, separator, domain_parts,
  add_chain, add_contract,
}
use go_polymarket.Eip712.Words.{uint_fits}
use mathlib.Core.Option.{some-injective}
use go_polymarket.Protocol.{
  exchange_v1_version, exchange_v2_version, exchange_v3_version, Contracts, contracts_for,
  polygon_contracts, amoy_contracts,
}
use go_polymarket.TypedData.Types.{TypedError, in_field, word}
use go_polymarket.Order.{
  UserOrder, OrderOptions, Order, OrderError, no_token_id, payload, build_order, check_texts,
  or_not_token, bad_builder, bad_metadata, bad_taker, bad_maker, bad_signer, order_domain,
  exchange_for, or_unknown_chain, unsupported_version, version_of, side_uint8,
}
use go_polymarket.Order.Payload.{order_digest}
use go_polymarket.TypedData.Named.{named_words}
use go_polymarket.Order.Digest.{decimal_word, signed_words, order_digest_lem, order_domain-chain}
use go_polymarket.Order.Build.{build_order-ok, assemble-ok, Built}
use go_polymarket.Order.Accept.Exchange.{
  known, or_unknown_chain-ok, exchange_for-address, uint-is_ok,
}

-- A text of a number that a word holds.
abbrev pub Fits : Bytes → Type 0
Fits s = (n : ℕ) × (parse_ℤ s ≡ some (pos n)) × (n < 2 ^ 256)

decimal-is_ok : (s : Bytes) → Fits s → is_ok (decimal_word s) ≡ true
decimal-is_ok s (n, e, h) = rw (e, uint_fits n h) refl

named_words-is_ok :
    (fields : List (Bytes × Result TypedError Word))
    → All (λ f. is_ok f.1 ≡ true) fields
    → is_ok (named_words fields) ≡ true
named_words-is_ok [] h = refl
named_words-is_ok ((name, r) ∷ fields) (h, hs) =
    bind-is_ok (map_err (in_field name) r) _ (map_err-is_ok (in_field name) r h)
      (λ w. bind-is_ok (named_words fields) _ (named_words-is_ok fields hs) (λ ws. refl))

-- The numbers of an order fit their fields.
abbrev pub NumbersFit : Order → Type 0
NumbersFit o =
    Fits o.salt
    × Fits o.token_id
    × Fits o.maker_amount
    × Fits o.taker_amount
    × Fits o.timestamp
    × (o.signature_type < 256)

-- The texts that `assemble` has tested.
Tested : Order → Type 0
Tested o =
    (is_ok (bytes32 o.builder) ≡ true)
    × (is_ok (bytes32 o.metadata) ≡ true)
    × (is_ok (address o.maker) ≡ true)
    × (is_ok (address o.signer) ≡ true)

check_texts-Tested :
    (o : Order)
    → check_texts o.token_id o.builder o.metadata o.taker o.maker o.signer ≡ ok tt
    → Tested o
unfolding check_texts Tested
check_texts-Tested o e =
    let (_, _, e₁) = bind_inversion (guard (not (is_empty o.token_id)) no_token_id) _ e in
    let (_, _, e₂) = bind_inversion (or_not_token o.token_id (parse_ℤ o.token_id)) _ e₁ in
    let (b, eb, e₃) = bind_inversion (map_err bad_builder (bytes32 o.builder)) _ e₂ in
    let (m, em, e₄) = bind_inversion (map_err bad_metadata (bytes32 o.metadata)) _ e₃ in
    let (t, et, e₅) = bind_inversion (map_err bad_taker (address o.taker)) _ e₄ in
    let (k, ek, e₆) = bind_inversion (map_err bad_maker (address o.maker)) _ e₅ in
    let (s, es, e₇) = bind_inversion (map_err bad_signer (address o.signer)) _ e₆ in
    (
      map_err-was_ok bad_builder (bytes32 o.builder) b eb,
      map_err-was_ok bad_metadata (bytes32 o.metadata) m em,
      map_err-was_ok bad_maker (address o.maker) k ek,
      map_err-was_ok bad_signer (address o.signer) s es,
    )

side_uint8-lt : (s : Bytes) → side_uint8 s < 2 ^ 256
unfolding side_uint8
side_uint8-lt s = ground arith

signed_words-is_ok :
    (o : Order) → NumbersFit o → Tested o → is_ok (named_words (signed_words o)) ≡ true
unfolding Tested
signed_words-is_ok o (salt, token, made, taken, time, kind) (b, m, k, s) =
    named_words-is_ok (signed_words o) (
      decimal-is_ok o.salt salt,
      (
        map_err-is_ok word (address o.maker) k,
        (
          map_err-is_ok word (address o.signer) s,
          (
            decimal-is_ok o.token_id token,
            (
              decimal-is_ok o.maker_amount made,
              (
                decimal-is_ok o.taker_amount taken,
                (
                  map_err-is_ok word (uint (pos (side_uint8 o.side)))
                      (uint-is_ok (side_uint8 o.side) (side_uint8-lt o.side)),
                  (
                    map_err-is_ok word (uint (pos o.signature_type))
                        (uint-is_ok o.signature_type (omega (arith, kind))),
                    (
                      decimal-is_ok o.timestamp time,
                      (
                        map_err-is_ok word (bytes32 o.metadata) m,
                        (map_err-is_ok word (bytes32 o.builder) b, tt),
                      ),
                    ),
                  ),
                ),
              ),
            ),
          ),
        ),
      ),
    )

module _ (keccak : Bytes → Bytes) where
  separator-is_ok :
      (d : Domain) (z : ℤ)
      → d.chain_id ≡ some z
      → is_ok (uint z) ≡ true
      → is_ok (address d.verifying_contract) ≡ true
      → is_ok (separator keccak d) ≡ true
  unfolding separator domain_parts add_chain add_contract
  separator-is_ok d z ez hz hc =
      bind-is_ok (domain_parts keccak d) _
        (rw ez (
          bind-is_ok (uint z >>= λ w. ok (add_part _ _ w)) _ (bind-is_ok (uint z) _ hz (λ w. refl))
            (λ p. contract p (is_empty d.verifying_contract))))
        (λ p. refl)
    where
      contract :
          (p : Parts) (b : Bool)
          → is_ok (
              if b
              then ok p
              else (address d.verifying_contract >>= λ w.
                  ok (add_part p (codes "address verifyingContract") w)))
            ≡ true
      contract p true = refl
      contract p false = bind-is_ok (address d.verifying_contract) _ hc (λ w. refl)

  order_domain-is_ok :
      (chain_id version : ℤ) (neg_risk : Bool) (d : Domain)
      → order_domain chain_id version neg_risk ≡ ok d
      → is_ok (separator keccak d) ≡ true
  unfolding order_domain
  order_domain-is_ok chain_id version neg_risk d e =
      let (c, ec, chosen) =
        bind_inversion (or_unknown_chain chain_id (contracts_for chain_id)) _ e in
      let (pair, ep, made) = bind_inversion (exchange_for c version neg_risk) _ chosen in
      let (addresses, small) =
        known chain_id c (or_unknown_chain-ok chain_id (contracts_for chain_id) c ec) in
      let same : pair.1 ≡ d.verifying_contract = cc in
      separator-is_ok d chain_id (order_domain-chain chain_id version neg_risk d e) small (
        subst (λ k. is_ok (address k) ≡ true) same
          (exchange_for-address c version neg_risk pair addresses ep))

  module _ (parse_rat : Bytes → Option Rat) (draw : Option ℕ) (now : ℤ) where
    -- A limit order that is built, for a chain and a version that have an exchange, has a digest, if its numbers fit
    -- their fields: no text that `BuildOrder` accepts fails when the order is hashed.
    pub order_digest-build_order :
        (u : UserOrder) (a : Bytes) (opts : OrderOptions) (o : Order) (chain_id : ℤ) (d : Domain)
        → build_order parse_rat draw now u a opts ≡ ok o
        → order_domain chain_id (version_of opts) opts.neg_risk ≡ ok d
        → NumbersFit o
        → (h : Word) × (order_digest keccak o chain_id opts ≡ ok h)
    unfolding Built
    order_digest-build_order u a opts o chain_id d built domain fits =
        let (cfg, price, size, _, _, _, _, made) =
          build_order-ok parse_rat draw now u a opts o built in
        let (_, checked) =
          assemble-ok draw now u.token_id u.side _ a opts u.builder_code u.metadata u.taker
            u.expiration o made in
        let words = signed_words-is_ok o fits (check_texts-Tested o checked) in
        let sep = order_domain-is_ok chain_id (version_of opts) opts.neg_risk d domain in
        is_ok→ok (order_digest keccak o chain_id opts) (
          rw (order_digest_lem keccak o chain_id opts, domain)
            (map_err-is_ok payload _ (
              bind-is_ok (map_err word (separator keccak d)) _
                (map_err-is_ok word (separator keccak d) sep)
                (λ s. bind-is_ok (named_words (signed_words o)) _ words (λ ws. refl)))))
