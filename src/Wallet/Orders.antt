-- ===== src/Wallet/Orders.antt =====
-- The options of a wallet agree with the wallet: an order that is built with them is made by it.
use go_polymarket.Base.{
  ℕ, ◌≡◌, refl, sym, ap, ◌∙◌, subst, Bool, true, false, not, Option, none, some, [], ◌∷◌, ◌++◌,
  drop, ◌==◌, ==_iff, if◌then◌else◌, Bool-cases, inl, inr, length, Result, ok, err, ◌>>=◌, map_err,
  bind_inversion, value_of, guard,
}
use go_polymarket.Base.Bytes.{Bytes, is_empty, to_lower, codes}
use go_polymarket.Base.Hex.{decode_hex, trim_0x}
use go_polymarket.Base.Int.{ℤ}
use go_polymarket.Base.Rat.{Rat}
use go_polymarket.Eip712.{Word, keccak256, address, bytes32}
use go_polymarket.Abi.{AbiError, hex_lower, create2, packed_address, create2_deployer}
use go_polymarket.Signer.{checksum_address, checksum_chars}
use go_polymarket.Protocol.{Contracts, contracts_for}
use go_polymarket.Order.{
  UserOrder, OrderOptions, Order, build_order, or_default, maker_of, signer_of, sig_eoa,
  sig_poly_proxy, sig_poly_gnosis_safe, sig_eip1271,
}
use go_polymarket.Order.Build.{Built, build_order-ok, assemble-ok}
use go_polymarket.Wallet.{
  Wallet, WalletError, bad_word, bad_packing, no_factory, deployed, derive_proxy_wallet,
  derive_safe_wallet, derive_deposit_wallet, deposit_wallet_args, beacon_init_code_hash,
  derive_wallet, new_wallet, or_unknown, order_options, proxy_init_code_hash, safe_init_code_hash,
}

-- A text that is there, if it is returned.
abbrev Filled : Result WalletError Bytes → Type 0
Filled (err x) = Unit
Filled (ok a) = is_empty a ≡ false

module _ (keccak : Bytes → Bytes) where
  checksum-filled : (c : ℕ) (s : Bytes) → is_empty (checksum_address keccak (c ∷ s)) ≡ false
  unfolding checksum_address
  checksum-filled c s = elim (Bool-cases (length (trim_0x (c ∷ s)) == 40)) [
    | inr short ↦ rw short refl
    | inl long ↦ rw long (body (decode_hex (to_lower (trim_0x (c ∷ s)))))
  ]
    where
      body :
          (o : Option Bytes)
          → is_empty (elim o [
            | none ↦ c ∷ s
            | some b ↦
                codes "0x"
                ++ checksum_chars
                    (keccak256 keccak (to_lower (trim_0x (c ∷ s)) ∷ []))
                    0
                    (to_lower (trim_0x (c ∷ s)))
          ])
            ≡ false
      body none = refl
      body (some b) = refl

  bind-Filled {ℓ} :
      {A : Type ℓ} (r : Result WalletError A) (f : A → Result WalletError Bytes)
      → ((x : A) → Filled (f x))
      → Filled (r >>= f)
  bind-Filled (err x) f h = tt
  bind-Filled (ok x) f h = h x

  if-Filled :
      (b : Bool) (q r : Result WalletError Bytes)
      → Filled q
      → Filled r
      → Filled (if b then q else r)
  if-Filled true q r hq hr = hq
  if-Filled false q r hq hr = hr

  deployed-Filled : (f : Bytes) (salt code : Word) → Filled (deployed keccak f salt code)
  unfolding deployed create2
  deployed-Filled f salt code = step (packed_address f)
    where
      step :
          (r : Result AbiError Bytes)
          → Filled (
              map_err bad_packing (
                map_err create2_deployer r >>= λ a. ok (
                  codes "0x"
                  ++ hex_lower (drop 12 (keccak256 keccak ((0xff ∷ []) ∷ a ∷ salt ∷ code ∷ [])))))
              >>= λ t. ok (checksum_address keccak t))
      step (err x) = tt
      step (ok a) = checksum-filled b'0' _

  -- A derived wallet has an address.
  derive_wallet-Filled :
      (sig_type : ℕ) (owner : Bytes) (c : Contracts)
      → (sig_type == sig_eoa) ≡ false
      → Filled (derive_wallet keccak sig_type owner c)
  unfolding derive_wallet derive_proxy_wallet derive_safe_wallet derive_deposit_wallet
  derive_wallet-Filled sig_type owner c not_eoa = rw not_eoa (
      if-Filled (sig_type == sig_poly_proxy) _ _
        (bind-Filled (guard (not (is_empty c.proxy_factory)) no_factory) _ (λ _.
          bind-Filled (map_err bad_packing (packed_address owner)) _ (λ p.
            bind-Filled (map_err bad_word (bytes32 proxy_init_code_hash)) _
              (λ code. deployed-Filled c.proxy_factory _ code))))
        (if-Filled (sig_type == sig_poly_gnosis_safe) _ _
          (bind-Filled (guard (not (is_empty c.safe_factory)) no_factory) _ (λ _.
            bind-Filled (map_err bad_word (address owner)) _ (λ w.
              bind-Filled (map_err bad_word (bytes32 safe_init_code_hash)) _
                (λ code. deployed-Filled c.safe_factory _ code))))
          (if-Filled (sig_type == sig_eip1271) _ _
            (bind-Filled (deposit_wallet_args keccak owner c.deposit_wallet_factory) _ (λ p.
              bind-Filled (beacon_init_code_hash keccak c.deposit_wallet_beacon p.0) _
                (λ code. deployed-Filled c.deposit_wallet_factory p.1 code)))
            tt)))

default_of :
    (t : Bool) (x a : Bytes)
    → (t ≡ false → is_empty x ≡ false)
    → or_default (if t then [] else x) a ≡ (if t then a else x)
default_of true x a h = refl
default_of false x a h = rw (h refl) refl

-- A contract wallet signs in its own name; an address that signs for itself has no wallet to name.
signer_case :
    (n : ℕ) (x a : Bytes)
    → (if n == sig_eip1271 then (if n == sig_eoa then a else x) else a)
      ≡ (if n == sig_eip1271 then x else a)
signer_case n x a = elim (Bool-cases (n == 3)) [
  | inr other ↦ rw other refl
  | inl contract ↦ let eq = (==_iff n 3).0 contract in rw eq refl
]

module _ (keccak : Bytes → Bytes) (parse_rat : Bytes → Option Rat) (draw : Option ℕ) (now : ℤ) where
  -- For a wallet that `NewWallet` derives, an order that is built with the signature type and the funder of its options
  -- is made by the wallet, or by the signing address if the type is SigEOA; it is signed in the name of the wallet for
  -- SigEIP1271 and of the signing address else; and it has the signature type of the wallet.
  pub build_order-order_options :
      (sig_type : ℕ) (owner : Bytes) (chain_id : ℤ) (w : Wallet) (u : UserOrder) (a : Bytes)
      (opts : OrderOptions) (o : Order)
      → new_wallet keccak sig_type owner chain_id ≡ ok w
      → opts.signature_type ≡ (order_options w).signature_type
      → opts.funder ≡ (order_options w).funder
      → build_order parse_rat draw now u a opts ≡ ok o
      → (o.maker ≡ (if sig_type == sig_eoa then a else w.wallet_address))
        × (o.signer ≡ (if sig_type == sig_eip1271 then w.wallet_address else a))
        × (o.signature_type ≡ sig_type)
  unfolding new_wallet order_options Built maker_of signer_of
  build_order-order_options sig_type owner chain_id w u a opts o derived type_eq funder_eq built =
      let (c, _, e₁) = bind_inversion (or_unknown chain_id (contracts_for chain_id)) _ derived in
      let (x, ex, made) = bind_inversion (derive_wallet keccak sig_type owner c) _ e₁ in
      let whole = value_of made in
      let same_type : w.signature_type ≡ sig_type =
        ap (λ (v : Wallet). v.signature_type) (sym whole) in
      let same_address : x ≡ w.wallet_address = ap (λ (v : Wallet). v.wallet_address) whole in
      let (cfg, price, size, _, _, _, _, assembled) =
        build_order-ok parse_rat draw now u a opts o built in
      let ((_, _, maker, signer, kind, _), _) =
        assemble-ok draw now u.token_id u.side _ a opts u.builder_code u.metadata u.taker
          u.expiration o assembled in
      let type_is : opts.signature_type ≡ sig_type = type_eq ∙ same_type in
      let funder_is : opts.funder ≡ (if sig_type == sig_eoa then [] else w.wallet_address) =
        funder_eq ∙ ap (λ n. if n == sig_eoa then [] else w.wallet_address) same_type in
      let filled : (sig_type == sig_eoa) ≡ false → is_empty w.wallet_address ≡ false = λ h.
        subst (λ v. is_empty v ≡ false) same_address
          (subst Filled ex (derive_wallet-Filled keccak sig_type owner c h)) in
      let made_by : or_default opts.funder a
          ≡ (if sig_type == sig_eoa then a else w.wallet_address) =
        ap (λ f. or_default f a) funder_is
        ∙ default_of (sig_type == sig_eoa) w.wallet_address a filled in
      (
        maker ∙ made_by,
        signer
            ∙ ap (λ n. if n == sig_eip1271 then or_default opts.funder a else a) type_is
            ∙ ap (λ m. if sig_type == sig_eip1271 then m else a) made_by
            ∙ signer_case sig_type w.wallet_address a,
        kind ∙ type_is,
      )
