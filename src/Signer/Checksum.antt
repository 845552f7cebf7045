-- ===== src/Signer/Checksum.antt =====
-- The checksum changes the case of letters and nothing else.
use go_polymarket.Base.{
  ℕ, suc, ◌≡◌, ◌≢◌, refl, ◌∙◌, subst, Option, none, some, [], ◌∷◌, ◌++◌, arith, ◌==◌, ==_iff,
  length, Bool-cases, Option-cases, inl, inr,
}
use go_polymarket.Base.Bytes.{Bytes, codes, lower, to_lower}
use go_polymarket.Base.Hex.{decode_hex, trim_0x, hex_value, hex_pair}
use go_polymarket.Eip712.{keccak256, address, decode_hex_of}
use go_polymarket.Signer.{checksum_char, checksum_chars, checksum_address}

hex_value-lower : (c : ℕ) → hex_value (lower c) ≡ hex_value c
unfolding hex_value lower
hex_value-lower c = ground arith

hex_value-checksum_char : (n c : ℕ) → hex_value (checksum_char n c) ≡ hex_value c
unfolding hex_value checksum_char
hex_value-checksum_char n c = ground arith

decode_hex-to_lower : (s : Bytes) → decode_hex (to_lower s) ≡ decode_hex s
unfolding decode_hex to_lower
decode_hex-to_lower [] = refl
decode_hex-to_lower (x ∷ []) = refl
decode_hex-to_lower (x ∷ y ∷ s) =
    rw (hex_value-lower x, hex_value-lower y, decode_hex-to_lower s) refl

decode_hex-checksum_chars :
    (hash : Bytes) (i : ℕ) (s : Bytes) → decode_hex (checksum_chars hash i s) ≡ decode_hex s
unfolding decode_hex checksum_chars
decode_hex-checksum_chars hash i [] = refl
decode_hex-checksum_chars hash i (x ∷ []) = refl
decode_hex-checksum_chars hash i (x ∷ y ∷ s) =
    rw
      (
        hex_value-checksum_char _ x,
        hex_value-checksum_char _ y,
        decode_hex-checksum_chars hash (suc (suc i)) s,
      )
      refl

no_x : (a : Option ℕ) (o : Option Bytes) (b : Bytes) → hex_pair a (hex_value 88) o ≢ some b
unfolding hex_value
no_x none o b e = cc
no_x (some a) none b e = cc
no_x (some a) (some c) b e = cc

-- Hex text does not begin with "0X".
trim-hex : (s b : Bytes) → decode_hex s ≡ some b → trim_0x (codes "0x" ++ s) ≡ s
unfolding trim_0x decode_hex hex_value
trim-hex [] b e = refl
trim-hex (x ∷ []) b e = ground arith
trim-hex (x ∷ y ∷ s) b e = elim (Bool-cases (y == 88)) [
  | inl bad ↦ absurd (
      no_x (hex_value x) (decode_hex s) b (
        subst (λ (t : ℕ). hex_pair (hex_value x) (hex_value t) (decode_hex s) ≡ some b)
          ((==_iff y 88).0 bad) e))
  | inr other ↦ ground (arith, other)
]

-- The address of an EIP-712 field is read alike from any text and from its checksummed form.
pub address-checksum_address :
    (keccak : Bytes → Bytes) (s : Bytes) → address (checksum_address keccak s) ≡ address s
unfolding address decode_hex_of checksum_address
address-checksum_address keccak s = elim (Bool-cases (length (trim_0x s) == 40)) [
  | inr short ↦ rw short refl
  | inl long ↦ elim (Option-cases (decode_hex (to_lower (trim_0x s)))) [
    | inl bad ↦ rw (long, bad) refl
    | inr (b, good) ↦
        let chars =
          checksum_chars (keccak256 keccak (to_lower (trim_0x s) ∷ [])) 0 (to_lower (trim_0x s)) in
        let same =
          decode_hex-checksum_chars (keccak256 keccak (to_lower (trim_0x s) ∷ [])) 0
            (to_lower (trim_0x s)) in
        rw (long, good)
          (rw (trim-hex chars b (same ∙ good)) (rw (same ∙ decode_hex-to_lower (trim_0x s)) refl))
  ]
]
