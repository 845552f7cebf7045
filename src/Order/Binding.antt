-- ===== src/Order/Binding.antt =====
-- What an order's digest commits to: the exchange and the chain, and every signed field.
use go_polymarket.Base.{
  ℕ, ◌≡◌, sym, ap, ◌∙◌, ◌⊎◌, inl, inr, Option, none, some, List, ok, ◌>>=◌, map_err, bind_inversion,
  All, map_err-ok,
}
use go_polymarket.Base.Bytes.{Bytes}
use go_polymarket.Base.Int.{ℤ, pos}
use go_polymarket.Base.Decimal.{parse_ℤ}
use go_polymarket.Eip712.{
  Word, Domain, uint, address, bytes32, separator, struct_hash, digest, type_hash,
}
use go_polymarket.Eip712.Words.{uint-injective}
use go_polymarket.Eip712.Binding.{Collision, IsWide}
use go_polymarket.Eip712.Domains.{SameDomain, typed_data_binds, type-IsWide}
use go_polymarket.Protocol.{order_type_string}
use go_polymarket.TypedData.Types.{word}
use go_polymarket.TypedData.Values.{or_not_decimal}
use go_polymarket.TypedData.Named.{
  named_words, results, all_ok, named_words-ok, WideIfOk, uint-wide, address-wide, bytes32-wide,
  all_ok-IsWide, BothAre, AllBoth, all_agree, agree_word,
}
use go_polymarket.Order.{Order, OrderOptions, payload, order_domain, version_of, side_uint8}
use go_polymarket.Order.Payload.{order_digest}
use go_polymarket.Order.Digest.{decimal_word, signed_words, order_digest_lem, order_domain-chain}

decimal-wide : (s : Bytes) → WideIfOk (decimal_word s)
decimal-wide s = read (parse_ℤ s)
  where
    read : (o : Option ℤ) → WideIfOk (or_not_decimal s o >>= λ n. map_err word (uint n))
    read none = tt
    read (some n) = uint-wide n

order-wide : (o : Order) → All WideIfOk (results (signed_words o))
order-wide o = (
  decimal-wide o.salt,
  (
    address-wide o.maker,
    (
      address-wide o.signer,
      (
        decimal-wide o.token_id,
        (
          decimal-wide o.maker_amount,
          (
            decimal-wide o.taker_amount,
            (
              uint-wide (pos (side_uint8 o.side)),
              (
                uint-wide (pos o.signature_type),
                (decimal-wide o.timestamp, (bytes32-wide o.metadata, (bytes32-wide o.builder, tt))),
              ),
            ),
          ),
        ),
      ),
    ),
  ),
)

decimal_word-eq :
    (s t : Bytes) (w : Word) → decimal_word s ≡ ok w → decimal_word t ≡ ok w → parse_ℤ s ≡ parse_ℤ t
decimal_word-eq s t w hs ht =
    let (m, ps, us) =
      bind_inversion (or_not_decimal s (parse_ℤ s)) (λ n. map_err word (uint n)) hs in
    let (n, pt, ut) =
      bind_inversion (or_not_decimal t (parse_ℤ t)) (λ n. map_err word (uint n)) ht in
    read s (parse_ℤ s) m ps
    ∙ ap some (uint-injective m n w (map_err-ok word (uint m) w us) (map_err-ok word (uint n) w ut))
    ∙ sym (read t (parse_ℤ t) n pt)
  where
    read : (s : Bytes) (o : Option ℤ) (n : ℤ) → or_not_decimal s o ≡ ok n → o ≡ some n
    read s none n e = absurd (cc)
    read s (some m) n e = cc

-- The signed fields of two orders agree: the numbers that the texts write, the addresses and words that
-- they stand for, the side and the signature type.
abbrev pub SameOrder : Order → Order → Type 0
SameOrder o p =
    (parse_ℤ o.salt ≡ parse_ℤ p.salt)
    × (address o.maker ≡ address p.maker)
    × (address o.signer ≡ address p.signer)
    × (parse_ℤ o.token_id ≡ parse_ℤ p.token_id)
    × (parse_ℤ o.maker_amount ≡ parse_ℤ p.maker_amount)
    × (parse_ℤ o.taker_amount ≡ parse_ℤ p.taker_amount)
    × (side_uint8 o.side ≡ side_uint8 p.side)
    × (o.signature_type ≡ p.signature_type)
    × (parse_ℤ o.timestamp ≡ parse_ℤ p.timestamp)
    × (bytes32 o.metadata ≡ bytes32 p.metadata)
    × (bytes32 o.builder ≡ bytes32 p.builder)

agree_decimal : (s t : Bytes) → BothAre (decimal_word s) (decimal_word t) → parse_ℤ s ≡ parse_ℤ t
agree_decimal s t (w, es, et) = decimal_word-eq s t w es et

agree_uint : (m n : ℕ) → BothAre (map_err word (uint (pos m))) (map_err word (uint (pos n))) → m ≡ n
agree_uint m n (w, em, en) =
    let same =
      uint-injective (pos m) (pos n) w (map_err-ok word (uint (pos m)) w em)
        (map_err-ok word (uint (pos n)) w en) in
    cc

same_order :
    (o p : Order) → AllBoth (results (signed_words o)) (results (signed_words p)) → SameOrder o p
same_order o p (a, (b, (c, (d, (e, (f, (g, (h, (i, (j, (k, _))))))))))) = (
  agree_decimal o.salt p.salt a,
  agree_word (address o.maker) (address p.maker) b,
  agree_word (address o.signer) (address p.signer) c,
  agree_decimal o.token_id p.token_id d,
  agree_decimal o.maker_amount p.maker_amount e,
  agree_decimal o.taker_amount p.taker_amount f,
  agree_uint (side_uint8 o.side) (side_uint8 p.side) g,
  agree_uint o.signature_type p.signature_type h,
  agree_decimal o.timestamp p.timestamp i,
  agree_word (bytes32 o.metadata) (bytes32 p.metadata) j,
  agree_word (bytes32 o.builder) (bytes32 p.builder) k,
)

-- The two domains that are resolved agree.
abbrev pub SameExchange : ℤ → OrderOptions → ℤ → OrderOptions → Type 0
SameExchange c opts c' opts' =
    (d : Domain) × (d' : Domain) × (order_domain c (version_of opts) opts.neg_risk ≡ ok d)
    × (order_domain c' (version_of opts') opts'.neg_risk ≡ ok d')
    × SameDomain d d'

same_chain :
    (c c' : ℤ) (d d' : Domain)
    → d.chain_id ≡ some c
    → d'.chain_id ≡ some c'
    → SameDomain d d'
    → c ≡ c'
same_chain c c' d d' e e' (_, _, same, _, _) = cc

module _ (keccak : Bytes → Bytes) where
  -- What a digest is made of.
  unfoldable pub Digested : Order → ℤ → OrderOptions → Word → Type 0
  Digested o chain_id opts h =
      (d : Domain) × (s : Word) × (ws : List Word) × (order_domain chain_id (version_of opts)
          opts.neg_risk
        ≡ ok d)
      × (separator keccak d ≡ ok s)
      × (named_words (signed_words o) ≡ ok ws)
      × (h ≡ digest keccak s (struct_hash keccak (type_hash keccak order_type_string) ws))

  pub order_digest-ok :
      (o : Order) (chain_id : ℤ) (opts : OrderOptions) (h : Word)
      → order_digest keccak o chain_id opts ≡ ok h
      → Digested o chain_id opts h
  unfolding Digested
  order_digest-ok o chain_id opts h e =
      let (d, domain, hashed) =
        bind_inversion (order_domain chain_id (version_of opts) opts.neg_risk) _
          (sym (order_digest_lem keccak o chain_id opts) ∙ e) in
      let (s, sep, rest) =
        bind_inversion (map_err word (separator keccak d)) _ (map_err-ok payload _ h hashed) in
      let (ws, words, made) = bind_inversion (named_words (signed_words o)) _ rest in
      (d, s, ws, domain, map_err-ok word (separator keccak d) s sep, words, cc)

  -- If the hash returns 32 bytes, two orders with one digest, each under a chain and options, have the same
  -- exchange domain, which holds the chain id and the verifying contract, and the same signed fields,
  -- or a collision of `keccak` is at hand.
  pub order_digest_binds :
      (width : (x : Bytes) → IsWide (keccak x)) (o p : Order) (c c' : ℤ) (opts opts' : OrderOptions)
      (h : Word)
      → order_digest keccak o c opts ≡ ok h
      → order_digest keccak p c' opts' ≡ ok h
      → ((c ≡ c') × (SameExchange c opts c' opts' × SameOrder o p)) ⊎ Collision keccak
  unfolding Digested
  order_digest_binds width o p c c' opts opts' h ho hp =
      let (d, s, ws, ed, es, ew, eh) = order_digest-ok o c opts h ho in
      let (d', s', ws', ed', es', ew', eh') = order_digest-ok p c' opts' h hp in
      let words = named_words-ok (signed_words o) ws ew in
      let words' = named_words-ok (signed_words p) ws' ew' in
      let th = type_hash keccak order_type_string in
      let wide = type-IsWide keccak width order_type_string in
      elim (typed_data_binds keccak width d d' s s' th th ws ws' es es' wide wide
        (all_ok-IsWide (results (signed_words o)) ws words (order-wide o))
        (all_ok-IsWide (results (signed_words p)) ws' words' (order-wide p)) (sym eh ∙ eh')) [
          | inr x ↦ inr x
          | inl (domains, _, fields) ↦ inl (
            same_chain c c' d d' (order_domain-chain c (version_of opts) opts.neg_risk d ed)
                (order_domain-chain c' (version_of opts') opts'.neg_risk d' ed') domains,
            (
              (d, d', ed, ed', domains),
              same_order o p (all_agree _ _ ws words (words' ∙ ap all_ok (sym fields))),
            ),
          )
        ]
