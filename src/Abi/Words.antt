-- ===== src/Abi/Words.antt =====
-- The fixed-width forms: what they hold, and when they are refused.
use go_polymarket.Base.{
  ℕ, zero, suc, ◌/◌, ◌%◌, ◌^◌, ◌≤◌, ◌<◌, ◌≡◌, ◌≢◌, refl, sym, ap, Bool-cases, inl, inr, [], ◌∷◌,
  ltb, ltb→lt, ltb→le, length, All, Result, ok, err, ◌↔◌, arith, get_or,
}
use native.Mathlib.Decide.{dec_le}
use go_polymarket.Base.Bytes.{Bytes, IsByte}
use go_polymarket.Base.Int.{ℤ, pos, negsuc}
use go_polymarket.Base.Hex.{encode_hex, hex_digit}
use go_polymarket.Base.Word.{
  int_bytes, be_bytes, be_bytes_pad, length-int_bytes, be_bytes-int_bytes, byte_len-le,
  fits_of_byte_len-le,
}
use go_polymarket.Abi.{
  AbiError, does_not_fit, uint64, uint64_loop, packed_uint, hex_lower, hex_digits,
}

digits :
    (v : ℕ)
    → (v / 65536 ≡ v / 256 / 256)
      × (v / 16777216 ≡ v / 256 / 256 / 256)
      × (v / 4294967296 ≡ v / 256 / 256 / 256 / 256)
      × (v / 1099511627776 ≡ v / 256 / 256 / 256 / 256 / 256)
      × (v / 281474976710656 ≡ v / 256 / 256 / 256 / 256 / 256 / 256)
      × (v / 72057594037927936 ≡ v / 256 / 256 / 256 / 256 / 256 / 256 / 256)
digits v = (omega arith, omega arith, omega arith, omega arith, omega arith, omega arith)

last_digit : (v : ℕ) → v / 1 ≡ v
last_digit v = omega arith

-- The loop over the eight low bytes writes the 32-byte big-endian form of a 64-bit number.
pub uint64-be_bytes : (v : ℕ) → v < 2 ^ 64 → uint64 v ≡ be_bytes 32 v
unfolding uint64 uint64_loop
uint64-be_bytes v h = rw (be_bytes_pad 24 8 v (omega (arith, h))) (
    unfold be_bytes in
    let (e₂, e₃, e₄, e₅, e₆, e₇) = digits v in rw (e₂, e₃, e₄, e₅, e₆, e₇, last_digit v) refl)

digit : (n : ℕ) → n < 16 → get_or hex_digits n 0 ≡ hex_digit n
unfolding hex_digit
digit zero h = refl
digit (suc zero) h = refl
digit (suc (suc zero)) h = refl
digit (suc (suc (suc zero))) h = refl
digit (suc (suc (suc (suc zero)))) h = refl
digit (suc (suc (suc (suc (suc zero))))) h = refl
digit (suc (suc (suc (suc (suc (suc zero)))))) h = refl
digit (suc (suc (suc (suc (suc (suc (suc zero))))))) h = refl
digit (suc (suc (suc (suc (suc (suc (suc (suc zero)))))))) h = refl
digit (suc (suc (suc (suc (suc (suc (suc (suc (suc zero))))))))) h = refl
digit (suc (suc (suc (suc (suc (suc (suc (suc (suc (suc zero)))))))))) h = refl
digit (suc (suc (suc (suc (suc (suc (suc (suc (suc (suc (suc zero))))))))))) h = refl
digit (suc (suc (suc (suc (suc (suc (suc (suc (suc (suc (suc (suc zero)))))))))))) h = refl
digit (suc (suc (suc (suc (suc (suc (suc (suc (suc (suc (suc (suc (suc zero))))))))))))) h = refl
digit (suc (suc (suc (suc (suc (suc (suc (suc (suc (suc (suc (suc (suc (suc zero)))))))))))))) h =
    refl
digit (suc (suc (suc (suc (suc (suc (suc (suc (suc (suc (suc (suc (suc (suc (suc zero)))))))))))))))
      h =
    refl
digit
      (suc
        (suc (suc (suc (suc (suc (suc (suc (suc (suc (suc (suc (suc (suc (suc (suc n))))))))))))))))
      h =
    absurd (omega arith)

-- `hexLower` writes what `hex.EncodeToString` writes.
pub hex_lower-encode_hex : (b : Bytes) → All IsByte b → hex_lower b ≡ encode_hex b
unfolding hex_lower encode_hex
hex_lower-encode_hex [] h = refl
hex_lower-encode_hex (c ∷ b) h =
    rw
      (
        digit (c / 16) (omega (arith, h.0)),
        digit (c % 16) (omega arith),
        hex_lower-encode_hex b h.1,
      )
      refl

fits : (n size : ℕ) → n < 256 ^ size → packed_uint (pos n) size ≡ ok (be_bytes size n)
unfolding packed_uint
fits n size h = elim (Bool-cases (ltb size (length (int_bytes n)))) [
  | inl long ↦ absurd (
      omega
        (arith, ltb→lt size (length (int_bytes n)) long, length-int_bytes n, byte_len-le n size h))
  | inr short ↦ rw short (ap ok (rw (length-int_bytes n) (sym (be_bytes-int_bytes size n h))))
]

too_long : (n size : ℕ) → 256 ^ size ≤ n → packed_uint (pos n) size ≡ err (does_not_fit size)
unfolding packed_uint
too_long n size h = elim (Bool-cases (ltb size (length (int_bytes n)))) [
  | inl long ↦ rw long refl
  | inr short ↦ absurd (
      omega (
        arith,
        fits_of_byte_len-le n size
            (omega (arith, ltb→le size (length (int_bytes n)) short, length-int_bytes n)),
      ))
]

clash : {r : Result AbiError Bytes} {b : Bytes} {e : AbiError} → r ≡ err e → r ≢ ok b
clash e o = cc

agree : {r : Result AbiError Bytes} {a b : Bytes} → r ≡ ok a → r ≡ ok b → b ≡ a
agree p q = cc

packed_uint-ok :
    (z : ℤ) (size : ℕ) (b : Bytes)
    → packed_uint z size ≡ ok b
    → (n : ℕ) × (z ≡ pos n) × (n < 256 ^ size) × (b ≡ be_bytes size n)
packed_uint-ok (negsuc k) size b e = absurd (unfold packed_uint in (cc))
packed_uint-ok (pos n) size b e = elim (dec_le (256 ^ size) n) [
  | yes long ↦ absurd (clash (too_long n size long) e)
  | no short ↦ (n, refl, omega (arith, short), agree (fits n size (omega (arith, short))) e)
]

-- `PackedUint` succeeds exactly on the integers from 0 to 256^size - 1, and writes them in `size` bytes,
-- big-endian.
pub packed_uint_exact :
    (z : ℤ) (size : ℕ) (b : Bytes)
    → (packed_uint z size ≡ ok b)
      ↔ ((n : ℕ) × (z ≡ pos n) × (n < 256 ^ size) × (b ≡ be_bytes size n))
packed_uint_exact z size b =
    (packed_uint-ok z size b, λ (n, e, h, eb). rw e (rw eb (fits n size h)))
