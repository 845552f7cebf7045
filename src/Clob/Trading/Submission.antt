-- ===== src/Clob/Trading/Submission.antt =====
-- clob/trading.go: from `CreateOrder` to the body of a submission.
use go_polymarket.Base.{
  ℕ, suc, ◌^◌, ◌<◌, ◌≡◌, refl, sym, ap, ◌∙◌, subst, false, not, ◌&&◌, Option, none, some, ◌++◌,
  arith, ◌==◌, Bool-cases, inl, inr, ltb, lt→ltb, length, Result, ok, ◌>>=◌, map_err, map_err-ok,
  bind_inversion, value_of, guarded,
}
use go_polymarket.Base.Bytes.{Bytes, codes, is_empty}
use go_polymarket.Base.Int.{ℤ, pos, negsuc, eqb_ℤ}
use go_polymarket.Base.Rat.{Rat}
use go_polymarket.Base.Decimal.{parse_ℤ, format_ℤ, parse-format_ℤ, parse_int64}
use go_polymarket.Base.Hex.{encode_hex}
use go_polymarket.Amount.{Raw}
use go_polymarket.Eip712.{separator}
use go_polymarket.Protocol.{order_type_string}
use go_polymarket.TypedData.Values.{typed_struct_hash}
use go_polymarket.Order.{
  Side, UserOrder, OrderOptions, Order, OrderError, bad_domain, payload, type_string_too_long,
  build_order, assemble, check_texts, salt_or_draw, random_salt, order_domain, version_of,
  sig_eip1271,
}
use go_polymarket.Order.Payload.{order_typed_data, order_digest}
use go_polymarket.Order.Build.{build_order-ok, Built}
use go_polymarket.Order.Sign.{
  PayloadSigner, SignedOrder, sign_order, sign_payload, sign_wrapped_order, wrap_order_signature,
  wrapped_order_typed_data,
}
use go_polymarket.Clob.Trading.{
  Exchange, building, resolve_market, resolve_tick, resolve_risk, create_order, submission_body,
  SubmitOptions, WireOrder, PostOrderRequest, wire_of, takes,
}

-- An integer that 64 bits hold.
abbrev pub IsInt64 : ℤ → Type 0
IsInt64 (pos n) = n < 2 ^ 63
IsInt64 (negsuc n) = n < 2 ^ 63

-- What the random source may draw.
abbrev pub DrawFits : Option ℕ → Type 0
DrawFits none = Unit
DrawFits (some n) = suc n < 2 ^ 63

parse_int64-format_ℤ : (z : ℤ) → IsInt64 z → parse_int64 (format_ℤ z) ≡ some z
unfolding parse_int64
parse_int64-format_ℤ (pos n) h = rw (parse-format_ℤ (pos n), lt→ltb n (2 ^ 63) h) refl
parse_int64-format_ℤ (negsuc n) h = rw (parse-format_ℤ (negsuc n), lt→ltb n (2 ^ 63) h) refl

salt_or_draw-IsInt64 :
    (draw : Option ℕ) (salt z : ℤ)
    → IsInt64 salt
    → DrawFits draw
    → salt_or_draw draw salt ≡ ok z
    → IsInt64 z
unfolding salt_or_draw random_salt
salt_or_draw-IsInt64 draw salt z h d e = elim (Bool-cases (eqb_ℤ salt (pos 0))) [
  | inr given ↦
      let same : Path (Result OrderError ℤ) (ok salt) (ok z) = simp given at e in
      subst IsInt64 (value_of same) h
  | inl drawn ↦ let from : random_salt draw ≡ ok z = simp drawn at e in drawn_fits draw d from
]
  where
    drawn_fits : (draw : Option ℕ) → DrawFits draw → random_salt draw ≡ ok z → IsInt64 z
    drawn_fits none d e = absurd (cc)
    drawn_fits (some n) d e = subst IsInt64 (value_of e) (omega (arith, d))

assemble-salt :
    (draw : Option ℕ) (now : ℤ) (t : Bytes) (s : Side) (raw : Raw) (a : Bytes) (opts : OrderOptions)
    (b m k : Bytes) (x : ℤ) (o : Order)
    → assemble draw now t s raw a opts b m k x ≡ ok o
    → (z : ℤ) × (salt_or_draw draw opts.salt ≡ ok z) × (o.salt ≡ format_ℤ z)
unfolding assemble
assemble-salt draw now t s raw a opts b m k x o e =
    let (_, _, e₁) = bind_inversion (check_texts t _ _ _ _ _) _ e in
    let (z, drawn, made) = bind_inversion (salt_or_draw draw opts.salt) _ e₁ in
    (z, drawn, ap (λ (o : Order). o.salt) (sym (value_of made)))

-- A signed order that has a signature.
abbrev Signs : Order → SignedOrder → Type 0
Signs o so = (so.order ≡ o) × (is_empty so.signature ≡ false)

module _ (keccak : Bytes → Bytes) (recover : Bytes → Bytes → Option Bytes) where
  wrap_order_signature-filled :
      (inner : Bytes) (o : Order) (c : ℤ) (opts : OrderOptions) (sig : Bytes)
      → wrap_order_signature keccak inner o c opts ≡ ok sig
      → is_empty sig ≡ false
  unfolding wrap_order_signature
  wrap_order_signature-filled inner o c opts sig e =
      let (d, _, e₁) = bind_inversion (order_domain c (version_of opts) opts.neg_risk) _ e in
      let (s, _, e₂) = bind_inversion (map_err bad_domain (separator keccak d)) _ e₁ in
      let (td, _, e₃) = bind_inversion (order_typed_data o c opts) _ e₂ in
      let (contents, _, e₄) = bind_inversion (map_err payload (typed_struct_hash keccak td)) _ e₃ in
      let (_, made) =
        guarded (not (ltb 0xffff (length order_type_string)))
          (type_string_too_long (length order_type_string)) _ e₄ in
      subst (λ (sig : Bytes). is_empty sig ≡ false) (value_of made) refl

  pub sign_order-ok :
      (o : Order) (c : ℤ) (opts : OrderOptions) (s : PayloadSigner) (so : SignedOrder)
      → sign_order keccak recover o c opts (some s) ≡ ok so
      → Signs o so
  unfolding sign_order sign_wrapped_order
  sign_order-ok o c opts s so e = elim (Bool-cases (o.signature_type == sig_eip1271)) [
    | inl contract ↦
        let e₀ : sign_wrapped_order keccak recover o c opts s ≡ ok so = simp contract at e in
        let (td, _, e₁) = bind_inversion (wrapped_order_typed_data o c opts) _ e₀ in
        let (inner, _, e₂) = bind_inversion (sign_payload keccak recover s td) _ e₁ in
        let (sig, es, made) = bind_inversion (wrap_order_signature keccak inner o c opts) _ e₂ in
        subst (Signs o) (value_of made) (refl, wrap_order_signature-filled inner o c opts sig es)
    | inr plain ↦
        let e₀ : (order_typed_data o c opts >>= λ td. sign_payload keccak recover s td >>= λ sig.
        ok (record { order = o; signature = codes "0x" ++ encode_hex sig }))
            ≡ ok so =
          simp plain at e in
        let (td, _, e₁) = bind_inversion (order_typed_data o c opts) _ e₀ in
        let (sig, _, made) = bind_inversion (sign_payload keccak recover s td) _ e₁ in
        subst (Signs o) (value_of made) (refl, refl)
  ]

  -- A signer that signs hashes alone, and the digest of the order, make the signature.
  pub sign_order-digested :
      (o : Order) (c : ℤ) (opts : OrderOptions) (s : PayloadSigner) (h sig : Bytes)
      → o.signature_type == sig_eip1271 ≡ false
      → s.sign_typed_data ≡ none
      → order_digest keccak o c opts ≡ ok h
      → s.sign_hash h ≡ ok sig
      → sign_order keccak recover o c opts (some s)
        ≡ ok (record { order = o; signature = codes "0x" ++ encode_hex sig })
  unfolding sign_order sign_payload order_digest
  sign_order-digested o c opts s h sig plain hash_only digested signed =
      let (td, et, e₁) = bind_inversion (order_typed_data o c opts) _ digested in
      rw (plain, et, e₁, hash_only, signed) refl

-- The wire carries every field of the order, and the signature.
abbrev pub Renders : WireOrder → SignedOrder → Type 0
Renders w so =
    (w.maker ≡ so.order.maker)
    × (w.signer ≡ so.order.signer)
    × (w.taker ≡ so.order.taker)
    × (w.token_id ≡ so.order.token_id)
    × (w.maker_amount ≡ so.order.maker_amount)
    × (w.taker_amount ≡ so.order.taker_amount)
    × (w.side ≡ so.order.side)
    × (w.signature_type ≡ so.order.signature_type)
    × (w.timestamp ≡ so.order.timestamp)
    × (w.expiration ≡ so.order.expiration)
    × (w.metadata ≡ so.order.metadata)
    × (w.builder ≡ so.order.builder)
    × (w.signature ≡ so.signature)

-- A signed order that has a salt of 64 bits is submitted as it is.
abbrev pub Submitted : SignedOrder → Bytes → Bytes → SubmitOptions → Type 0
Submitted so order_type owner opts =
    (z : ℤ) × (body : PostOrderRequest) × (submission_body so order_type owner opts ≡ ok body)
    × (parse_ℤ so.order.salt ≡ some z)
    × (body.wire_order.salt ≡ z)
    × Renders body.wire_order so
    × (body.owner ≡ owner)
    × (body.order_type ≡ order_type)
    × (body.post_only ≡ opts.post_only)
    × (body.defer_exec ≡ opts.defer_exec)

submission_body-ok :
    (so : SignedOrder) (order_type owner : Bytes) (opts : SubmitOptions) (z : ℤ)
    → so.order.salt ≡ format_ℤ z
    → IsInt64 z
    → is_empty so.signature ≡ false
    → (opts.post_only && takes order_type) ≡ false
    → Submitted so order_type owner opts
unfolding submission_body
submission_body-ok so order_type owner opts z es h signed allowed = (
  z,
  record {
    defer_exec = opts.defer_exec;
    post_only = opts.post_only;
    wire_order = wire_of so z;
    owner = owner;
    order_type = order_type;
  },
  simp (allowed, signed, es, parse_int64-format_ℤ z h),
  ap parse_ℤ es ∙ parse-format_ℤ z,
  refl,
  (refl, refl, refl, refl, refl, refl, refl, refl, refl, refl, refl, refl, refl),
  refl,
  refl,
  refl,
  refl,
)

module _ {E : Type 0} (x : Exchange E) where
  pub resolve_market-salt :
      (t : Bytes) (opts resolved : OrderOptions)
      → resolve_market x t opts ≡ ok resolved
      → resolved.salt ≡ opts.salt
  unfolding resolve_market
  resolve_market-salt t opts resolved e =
      let (tick, _, e₁) = bind_inversion (resolve_tick x t opts.tick_size) _ e in
      let (risk, _, made) = bind_inversion (resolve_risk x t opts.neg_risk) _ e₁ in
      ap (λ (o : OrderOptions). o.salt) (sym (value_of made))

  module _ (parse_rat : Bytes → Option Rat) (draw : Option ℕ) (now : ℤ) (keccak : Bytes → Bytes)
      (recover : Bytes → Bytes → Option Bytes) (chain_id : ℤ) where
    -- An order that `CreateOrder` makes is one that can be submitted, unless it is to be post-only and taken at once: the body
    -- carries every field of the signed order, the signature, and as a number the very salt that was signed. The salt
    -- of the options, and the drawn one, fit 64 bits.
    pub create_order-Submitted :
        (s : PayloadSigner) (u : UserOrder) (opts : OrderOptions) (so : SignedOrder)
        (order_type owner : Bytes) (submit : SubmitOptions)
        → IsInt64 opts.salt
        → DrawFits draw
        → create_order x parse_rat draw now keccak recover chain_id (some s) u opts ≡ ok so
        → (submit.post_only && takes order_type) ≡ false
        → Submitted so order_type owner submit
    unfolding create_order Built
    create_order-Submitted s u opts so order_type owner submit fits drawn e allowed =
        let (resolved, er, e₁) = bind_inversion (resolve_market x u.token_id opts) _ e in
        let (o, eo, e₂) =
          bind_inversion
            (map_err building (build_order parse_rat draw now u s.own_address resolved)) _ e₁ in
        let built =
          map_err-ok building (build_order parse_rat draw now u s.own_address resolved) o eo in
        let (same, signed) =
          sign_order-ok keccak recover o chain_id resolved s so
            (map_err-ok building (sign_order keccak recover o chain_id resolved (some s)) so e₂) in
        let (cfg, price, size, _, _, _, _, made) =
          build_order-ok parse_rat draw now u s.own_address resolved o built in
        let (z, ez, es) =
          assemble-salt draw now u.token_id u.side _ s.own_address resolved u.builder_code
            u.metadata u.taker u.expiration o made in
        submission_body-ok so order_type owner submit z (ap (λ (o : Order). o.salt) same ∙ es)
          (salt_or_draw-IsInt64 draw resolved.salt z
            (subst IsInt64 (sym (resolve_market-salt u.token_id opts resolved er)) fits) drawn ez)
          signed allowed
