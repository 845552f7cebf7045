-- ===== src/Wallet/Owners.antt =====
-- wallet.go: the owner of a derived wallet. An address is the last 20 bytes of a hash, so the way out of the
-- statements is that the hash agrees on those bytes for what the derivations of the two owners hash.
pub mod Deployed
use go_polymarket.Base.{
  ℕ, zero, suc, ◌≡◌, ◌≢◌, refl, sym, ap, ◌∙◌, subst, ◌⊎◌, inl, inr, Bool, true, false, [], ◌∷◌,
  ◌++◌, arith, ◌==◌, Bool-cases, if◌then◌else◌, length, drop, ==_iff, length-drop, All, append-nil,
  Result, ok, err, ◌>>=◌, map_err, bind_inversion, guard, not, map_err-ok, value_of,
}
use go_polymarket.Base.Bytes.{Bytes, IsByte, bytes_eq, bytes_eq_iff, codes, is_empty}
use go_polymarket.Base.Word.{zeros}
use go_polymarket.Eip712.{Word, keccak256, address, bytes32, decode_hex_of}
use go_polymarket.Eip712.Words.{address-hex, address-IsWord}
use go_polymarket.Eip712.Binding.{IsWide, append-eq}
use go_polymarket.Abi.{packed_address, create2, create2_deployer, hex_lower, encode, bad_address}
use go_polymarket.Abi.Words.{hex_lower-encode_hex}
use go_polymarket.Signer.{checksum_address}
use go_polymarket.Signer.Checksum.{address-checksum_address}
use go_polymarket.Protocol.{Contracts}
use go_polymarket.Order.{sig_eoa, sig_poly_proxy, sig_poly_gnosis_safe, sig_eip1271}
use go_polymarket.Wallet.{
  WalletError, unknown_signature_type, bad_word, bad_packing, no_factory, deployed,
  derive_proxy_wallet, derive_safe_wallet, derive_deposit_wallet, deposit_wallet_args,
  beacon_init_code_hash, derive_wallet, proxy_init_code_hash, safe_init_code_hash,
}
use go_polymarket.Wallet.Owners.Deployed.{
  Collides, preimage, address-drop, packed_address-ok, same_hash, deployed_binds,
}

module _ (keccak : Bytes → Bytes) where
  -- The factory, the input of the salt and the hash of the creation code, for an owner's word: the salt hashes the owner's 20
  -- bytes, the owner's word, or the factory's word and the owner's.
  abbrev pub Kind : ℕ → Contracts → Bytes → Bytes → Word → Word → Type 0
  Kind sig_type c f x code w =
      ((sig_type ≡ sig_poly_proxy)
        × (f ≡ c.proxy_factory)
        × (x ≡ drop 12 w)
        × (bytes32 proxy_init_code_hash ≡ ok code))
      ⊎ (((sig_type ≡ sig_poly_gnosis_safe)
            × (f ≡ c.safe_factory)
            × (x ≡ w)
            × (bytes32 safe_init_code_hash ≡ ok code))
          ⊎ ((sig_type ≡ sig_eip1271)
              × (f ≡ c.deposit_wallet_factory)
              × (v : Word) × (address f ≡ ok v)
              × (x ≡ v ++ w)
              × (beacon_init_code_hash keccak c.deposit_wallet_beacon x ≡ ok code)))

  -- What the derivation of an owner's wallet hashes.
  abbrev pub Hashes : ℕ → Contracts → Bytes → Bytes → Bytes → Word → Type 0
  Hashes sig_type c o f x code = (w : Word) × (address o ≡ ok w) × Kind sig_type c f x code w

  -- Two inputs, of the salts or of CREATE2, that the derivations for two owners hash, and that collide.
  abbrev pub OwnersCollide : ℕ → Contracts → Bytes → Bytes → Type 0
  OwnersCollide sig_type c o o' =
      (f : Bytes) × (x : Bytes) × (x' : Bytes) × (code : Word) × (code' : Word) × Hashes sig_type c
        o f x code
      × Hashes sig_type c o' f x' code'
      × (Collides keccak x x'
          ⊎ ((b : Bytes) × (packed_address f ≡ ok b)
              × Collides keccak (preimage b (keccak x) code) (preimage b (keccak x') code')))

  proxy-Hashes :
      (c : Contracts) (o a : Bytes)
      → derive_proxy_wallet keccak o c.proxy_factory ≡ ok a
      → (x : Bytes) × (code : Word) × Hashes sig_poly_proxy c o c.proxy_factory x code
        × (deployed keccak c.proxy_factory (keccak x) code ≡ ok a)
  unfolding derive_proxy_wallet keccak256
  proxy-Hashes c o a e =
      let (_, _, e₁) = bind_inversion (guard (not (is_empty c.proxy_factory)) no_factory) _ e in
      let (p, ep, e₂) = bind_inversion (map_err bad_packing (packed_address o)) _ e₁ in
      let (code, ec, made) =
        bind_inversion (map_err bad_word (bytes32 proxy_init_code_hash)) _ e₂ in
      let (w, ew, pw) = packed_address-ok o p (map_err-ok bad_packing (packed_address o) p ep) in
      (
        p,
        code,
        (w, ew, inl (refl, refl, pw, map_err-ok bad_word (bytes32 proxy_init_code_hash) code ec)),
        subst (λ t. deployed keccak c.proxy_factory (keccak t) code ≡ ok a) (append-nil p) made,
      )

  safe-Hashes :
      (c : Contracts) (o a : Bytes)
      → derive_safe_wallet keccak o c.safe_factory ≡ ok a
      → (x : Bytes) × (code : Word) × Hashes sig_poly_gnosis_safe c o c.safe_factory x code
        × (deployed keccak c.safe_factory (keccak x) code ≡ ok a)
  unfolding derive_safe_wallet keccak256
  safe-Hashes c o a e =
      let (_, _, e₁) = bind_inversion (guard (not (is_empty c.safe_factory)) no_factory) _ e in
      let (w, ew, e₂) = bind_inversion (map_err bad_word (address o)) _ e₁ in
      let (code, ec, made) = bind_inversion (map_err bad_word (bytes32 safe_init_code_hash)) _ e₂ in
      (
        w,
        code,
        (
          w,
          map_err-ok bad_word (address o) w ew,
          inr (inl (refl, refl, refl, map_err-ok bad_word (bytes32 safe_init_code_hash) code ec)),
        ),
        subst (λ t. deployed keccak c.safe_factory (keccak t) code ≡ ok a) (append-nil w) made,
      )

  -- The arguments of a deposit wallet, and its salt.
  args-ok :
      (f o : Bytes) (args : Bytes) (salt : Word)
      → deposit_wallet_args keccak o f ≡ ok (args, salt)
      → (v : Word) × (w : Word) × (address f ≡ ok v)
        × (address o ≡ ok w)
        × (args ≡ v ++ w)
        × (salt ≡ keccak (v ++ w))
  unfolding deposit_wallet_args encode keccak256
  args-ok f o args salt e =
      let (_, _, e₁) = bind_inversion (guard (not (is_empty f)) no_factory) _ e in
      let (v, ev, e₂) = bind_inversion (map_err bad_word (address f)) _ e₁ in
      let (w, ew, made) = bind_inversion (map_err bad_word (address o)) _ e₂ in
      let pair = value_of made in
      let flat : v ++ (w ++ []) ≡ v ++ w = ap (λ t. v ++ t) (append-nil w) in
      (
        v,
        w,
        map_err-ok bad_word (address f) v ev,
        map_err-ok bad_word (address o) w ew,
        ap (λ (t : Bytes × Word). t.0) (sym pair) ∙ flat,
        ap (λ (t : Bytes × Word). t.1) (sym pair) ∙ ap keccak (append-nil (v ++ (w ++ [])) ∙ flat),
      )

  deposit-Hashes :
      (c : Contracts) (o a : Bytes)
      → derive_deposit_wallet keccak o c.deposit_wallet_factory c.deposit_wallet_beacon ≡ ok a
      → (x : Bytes) × (code : Word) × Hashes sig_eip1271 c o c.deposit_wallet_factory x code
        × (deployed keccak c.deposit_wallet_factory (keccak x) code ≡ ok a)
  unfolding derive_deposit_wallet
  deposit-Hashes c o a e =
      let f = c.deposit_wallet_factory in
      let ((args, salt), ep, e₁) = bind_inversion (deposit_wallet_args keccak o f) _ e in
      let (code, ec, made) =
        bind_inversion (beacon_init_code_hash keccak c.deposit_wallet_beacon args) _ e₁ in
      let (v, w, ev, ew, ea, es) = args-ok f o args salt ep in
      (
        v ++ w,
        code,
        (
          w,
          ew,
          inr (
              inr (
                refl,
                refl,
                v,
                ev,
                refl,
                subst (λ t. beacon_init_code_hash keccak c.deposit_wallet_beacon t ≡ ok code) ea ec,
              )),
        ),
        subst (λ t. deployed keccak f t code ≡ ok a) es made,
      )

  -- What is hashed for the salt tells the owner.
  Kind-owner :
      (sig_type : ℕ) (c : Contracts) (o o' f x x' : Bytes) (code code' w w' : Word)
      → address o ≡ ok w
      → address o' ≡ ok w'
      → x ≡ x'
      → Kind sig_type c f x code w
      → Kind sig_type c f x' code' w'
      → w ≡ w'
  Kind-owner sig_type c o o' f x x' code code' w w' ew ew' same (inl (_, _, ex, _))
        (inl (_, _, ex', _)) =
      address-drop o o' w w' ew ew' (sym ex ∙ same ∙ ex')
  Kind-owner sig_type c o o' f x x' code code' w w' ew ew' same (inr (inl (_, _, ex, _)))
        (inr (inl (_, _, ex', _))) =
      sym ex ∙ same ∙ ex'
  Kind-owner sig_type c o o' f x x' code code' w w' ew ew' same (inr (inr (_, _, v, ev, ex, _)))
        (inr (inr (_, _, v', ev', ex', _))) =
      (append-eq v w v' w' (omega (arith, (address-IsWord f v ev).1, (address-IsWord f v' ev').1))
        (sym ex ∙ same ∙ ex')).1
  Kind-owner sig_type c o o' f x x' code code' w w' ew ew' same (inl (p, _, _, _))
        (inr (inl (q, _, _, _))) =
      absurd (omega (arith, p, q))
  Kind-owner sig_type c o o' f x x' code code' w w' ew ew' same (inl (p, _, _, _))
        (inr (inr (q, _, _, _, _, _))) =
      absurd (omega (arith, p, q))
  Kind-owner sig_type c o o' f x x' code code' w w' ew ew' same (inr (inl (p, _, _, _)))
        (inl (q, _, _, _)) =
      absurd (omega (arith, p, q))
  Kind-owner sig_type c o o' f x x' code code' w w' ew ew' same (inr (inl (p, _, _, _)))
        (inr (inr (q, _, _, _, _, _))) =
      absurd (omega (arith, p, q))
  Kind-owner sig_type c o o' f x x' code code' w w' ew ew' same (inr (inr (p, _, _, _, _, _)))
        (inl (q, _, _, _)) =
      absurd (omega (arith, p, q))
  Kind-owner sig_type c o o' f x x' code code' w w' ew ew' same (inr (inr (p, _, _, _, _, _)))
        (inr (inl (q, _, _, _))) =
      absurd (omega (arith, p, q))

module _ (keccak : Bytes → Bytes) (width : (x : Bytes) → IsWide (keccak x))
    (bytes : (x : Bytes) → All IsByte (keccak x)) where
  -- One wallet of two owners, at one factory.
  wallet_binds :
      (sig_type : ℕ) (c : Contracts) (o o' f a : Bytes)
      → (x : Bytes) × (code : Word) × Hashes keccak sig_type c o f x code
        × (deployed keccak f (keccak x) code ≡ ok a)
      → (x : Bytes) × (code : Word) × Hashes keccak sig_type c o' f x code
        × (deployed keccak f (keccak x) code ≡ ok a)
      → (address o ≡ address o') ⊎ OwnersCollide keccak sig_type c o o'
  wallet_binds sig_type c o o' f a (x, code, (w, ew, k), made) (x', code', (w', ew', k'), made') =
      elim (deployed_binds keccak width bytes f a (keccak x) (keccak x') code code' (width x)
        (width x') made made') [
          | inr collide ↦ inr (f, x, x', code, code', (w, ew, k), (w', ew', k'), inr collide)
          | inl salts ↦ elim (same_hash keccak width bytes x x' salts) [
            | inr collide ↦ inr (f, x, x', code, code', (w, ew, k), (w', ew', k'), inl collide)
            | inl same ↦ inl (
                ew
                ∙ ap ok (Kind-owner keccak sig_type c o o' f x x' code code' w w' ew ew' same k k')
                ∙ sym ew')
          ]
        ]

  eoa_binds :
      (o o' a : Bytes)
      → (map_err bad_word (address o) >>= λ w. ok (checksum_address keccak o)) ≡ ok a
      → (map_err bad_word (address o') >>= λ w. ok (checksum_address keccak o')) ≡ ok a
      → address o ≡ address o'
  eoa_binds o o' a e e' =
      let (_, _, made) = bind_inversion (map_err bad_word (address o)) _ e in
      let (_, _, made') = bind_inversion (map_err bad_word (address o')) _ e' in
      sym (address-checksum_address keccak o)
      ∙ ap address (value_of (made ∙ sym made'))
      ∙ address-checksum_address keccak o'

  -- If the hash returns 32 bytes, two owners that derive one wallet address, under one signature type and the
  -- contracts of one chain, are one address, or the derivations for the two owners hash two different inputs, both the
  -- inputs of their salts or both those of CREATE2, whose hashes agree from the thirteenth byte on.
  pub derive_wallet_binds :
      (sig_type : ℕ) (c : Contracts) (o o' a : Bytes)
      → derive_wallet keccak sig_type o c ≡ ok a
      → derive_wallet keccak sig_type o' c ≡ ok a
      → (address o ≡ address o') ⊎ OwnersCollide keccak sig_type c o o'
  unfolding derive_wallet
  derive_wallet_binds sig_type c o o' a e e' =
      step (sig_type == sig_eoa) (sig_type == sig_poly_proxy) (sig_type == sig_poly_gnosis_safe)
        (sig_type == sig_eip1271) (==_iff _ _).0 (==_iff _ _).0 (==_iff _ _).0 e e'
    where
      derive : (Bool × Bool × Bool × Bool) → Bytes → Result WalletError Bytes
      derive (p, q, r, s) o =
          if p
          then (map_err bad_word (address o) >>= λ w. ok (checksum_address keccak o))
          else if q
          then derive_proxy_wallet keccak o c.proxy_factory
          else if r
          then derive_safe_wallet keccak o c.safe_factory
          else if s
          then derive_deposit_wallet keccak o c.deposit_wallet_factory c.deposit_wallet_beacon
          else err (unknown_signature_type sig_type)

      -- The collision at the signature type that the tests found.
      at :
          (n : ℕ)
          → sig_type ≡ n
          → (address o ≡ address o') ⊎ OwnersCollide keccak n c o o'
          → (address o ≡ address o') ⊎ OwnersCollide keccak sig_type c o o'
      at n same = subst (λ n. (address o ≡ address o') ⊎ OwnersCollide keccak n c o o') (sym same)

      step :
          (p q r s : Bool)
          → (q ≡ true → sig_type ≡ sig_poly_proxy)
          → (r ≡ true → sig_type ≡ sig_poly_gnosis_safe)
          → (s ≡ true → sig_type ≡ sig_eip1271)
          → derive (p, q, r, s) o ≡ ok a
          → derive (p, q, r, s) o' ≡ ok a
          → (address o ≡ address o') ⊎ OwnersCollide keccak sig_type c o o'
      step true q r s _ _ _ h h' = inl (eoa_binds o o' a h h')
      step false true r s is _ _ h h' = at sig_poly_proxy (is refl) (
          wallet_binds sig_poly_proxy c o o' c.proxy_factory a (proxy-Hashes keccak c o a h)
            (proxy-Hashes keccak c o' a h'))
      step false false true s _ is _ h h' = at sig_poly_gnosis_safe (is refl) (
          wallet_binds sig_poly_gnosis_safe c o o' c.safe_factory a (safe-Hashes keccak c o a h)
            (safe-Hashes keccak c o' a h'))
      step false false false true _ _ is h h' = at sig_eip1271 (is refl) (
          wallet_binds sig_eip1271 c o o' c.deposit_wallet_factory a (deposit-Hashes keccak c o a h)
            (deposit-Hashes keccak c o' a h'))
      step false false false false _ _ _ h h' = absurd (cc)
