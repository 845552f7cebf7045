-- ===== src/Wallet/Owners/Deployed.antt =====
-- The address that a factory deploys at is of one salt and one creation code.
use go_polymarket.Base.{
  ℕ, zero, suc, ◌≡◌, ◌≢◌, refl, sym, ap, ◌∙◌, subst, ◌⊎◌, inl, inr, false, [], ◌∷◌, ◌++◌, arith,
  Bool-cases, drop, length-drop, All, ok, map_err, bind_inversion, map_err-ok, value_of,
}
use go_polymarket.Base.Bytes.{Bytes, IsByte, bytes_eq, bytes_eq_iff, codes}
use go_polymarket.Base.Word.{zeros}
use go_polymarket.Eip712.{Word, keccak256, address, decode_hex_of}
use go_polymarket.Eip712.Words.{address-hex}
use go_polymarket.Eip712.Binding.{IsWide, append-eq}
use go_polymarket.Abi.{packed_address, create2, create2_deployer, hex_lower, bad_address}
use go_polymarket.Abi.Words.{hex_lower-encode_hex}
use go_polymarket.Signer.{checksum_address}
use go_polymarket.Signer.Checksum.{address-checksum_address}
use go_polymarket.Wallet.{bad_packing, deployed}

-- Two different inputs whose hashes agree from the thirteenth byte on.
abbrev pub Collides : (Bytes → Bytes) → Bytes → Bytes → Type 0
Collides keccak x y = (x ≢ y) × (drop 12 (keccak x) ≡ drop 12 (keccak y))

-- The bytes that CREATE2 hashes.
abbrev pub preimage : Bytes → Word → Word → Bytes
preimage a salt init_code_hash = 0xff ∷ a ++ (salt ++ (init_code_hash ++ []))

differ : (x y : Bytes) → bytes_eq x y ≡ false → x ≢ y
differ x y other same = let equal = (bytes_eq_iff x y).1 same in cc

All-drop : (n : ℕ) (b : Bytes) → All IsByte b → All IsByte (drop n b)
All-drop zero b h = h
All-drop (suc n) [] h = tt
All-drop (suc n) (x ∷ b) h = All-drop n b h.1

-- The word of an address is zeros behind which stand 20 bytes.
address-zeros : (s : Bytes) (w : Word) → address s ≡ ok w → w ≡ zeros 12 ++ drop 12 w
unfolding address
address-zeros s w e =
    let (b, _, made) = bind_inversion (decode_hex_of s 20) _ e in
    let same : zeros 12 ++ b ≡ w = value_of made in subst (λ w. w ≡ zeros 12 ++ drop 12 w) same refl

pub address-drop :
    (s t : Bytes) (v w : Word) → address s ≡ ok v → address t ≡ ok w → drop 12 v ≡ drop 12 w → v ≡ w
address-drop s t v w ev ew e =
    address-zeros s v ev ∙ ap (λ x. zeros 12 ++ x) e ∙ sym (address-zeros t w ew)

pub packed_address-ok :
    (s b : Bytes) → packed_address s ≡ ok b → (w : Word) × (address s ≡ ok w) × (b ≡ drop 12 w)
unfolding packed_address
packed_address-ok s b e =
    let (w, ew, made) = bind_inversion (map_err bad_address (address s)) _ e in
    (w, map_err-ok bad_address (address s) w ew, cc)

module _ (keccak : Bytes → Bytes) (width : (x : Bytes) → IsWide (keccak x))
    (bytes : (x : Bytes) → All IsByte (keccak x)) where
  short_same :
      (x y : Bytes) → drop 12 (keccak x) ≡ drop 12 (keccak y) → (x ≡ y) ⊎ Collides keccak x y
  short_same x y e = elim (Bool-cases (bytes_eq x y)) [
    | inl equal ↦ inl ((bytes_eq_iff x y).0 equal)
    | inr other ↦ inr (differ x y other, e)
  ]

  pub same_hash : (x y : Bytes) → keccak x ≡ keccak y → (x ≡ y) ⊎ Collides keccak x y
  same_hash x y e = short_same x y (ap (drop 12) e)

  deployed-ok :
      (f : Bytes) (salt code : Word) (a : Bytes)
      → deployed keccak f salt code ≡ ok a
      → (b : Bytes) × (packed_address f ≡ ok b)
        × (address a ≡ ok (zeros 12 ++ drop 12 (keccak (preimage b salt code))))
  unfolding deployed create2 keccak256
  deployed-ok f salt code a e =
      let (t, et, made) = bind_inversion (map_err bad_packing (create2 keccak f salt code)) _ e in
      let (b, eb, built) =
        bind_inversion (map_err create2_deployer (packed_address f)) _
          (map_err-ok bad_packing (create2 keccak f salt code) t et) in
      let tail = drop 12 (keccak (preimage b salt code)) in
      let shown : t ≡ codes "0x" ++ hex_lower tail = value_of (sym built) in
      let printed : a ≡ checksum_address keccak t = value_of (sym made) in
      let small = All-drop 12 (keccak (preimage b salt code)) (bytes _) in
      (
        b,
        map_err-ok create2_deployer (packed_address f) b eb,
        rw printed (
            address-checksum_address keccak t
            ∙ ap address (shown ∙ ap (λ x. codes "0x" ++ x) (hex_lower-encode_hex tail small))
            ∙ address-hex tail small (
                omega (
                  arith,
                  length-drop 12 (keccak (preimage b salt code)),
                  width (preimage b salt code),
                ))),
      )

  -- One address of a factory is of one salt, or the two inputs of CREATE2 collide.
  pub deployed_binds :
      (f a : Bytes) (salt salt' code code' : Word)
      → IsWide salt
      → IsWide salt'
      → deployed keccak f salt code ≡ ok a
      → deployed keccak f salt' code' ≡ ok a
      → (salt ≡ salt')
        ⊎ ((b : Bytes) × (packed_address f ≡ ok b)
            × Collides keccak (preimage b salt code) (preimage b salt' code'))
  deployed_binds f a salt salt' code code' ws ws' e e' =
      let (b, eb, ea) = deployed-ok f salt code a e in
      let (b', eb', ea') = deployed-ok f salt' code' a e' in
      let same_b : b' ≡ b = value_of (sym eb' ∙ eb) in
      let there =
        subst (λ b. address a ≡ ok (zeros 12 ++ drop 12 (keccak (preimage b salt' code')))) same_b
          ea' in
      let (_, tails) =
        append-eq (zeros 12) (drop 12 (keccak (preimage b salt code))) (zeros 12)
          (drop 12 (keccak (preimage b salt' code'))) refl (value_of (sym ea ∙ there)) in
      elim (short_same (preimage b salt code) (preimage b salt' code') tails) [
        | inr c ↦ inr (b, eb, c)
        | inl same ↦
            let (_, rest) =
              append-eq (0xff ∷ b) (salt ++ (code ++ [])) (0xff ∷ b) (salt' ++ (code' ++ [])) refl
                same in
            inl (append-eq salt (code ++ []) salt' (code' ++ []) (omega (arith, ws, ws')) rest).0
      ]
