-- ===== src/Eip712/Words.antt =====
-- The words of single fields: always 32 bytes, and what they stand for.
use go_polymarket.Base.{
  ℕ, ◌^◌, ◌≤◌, ◌<◌, ◌≡◌, ◌≢◌, refl, sym, ap, ◌∙◌, subst, Bool, true, false, not, Option, none, some,
  [], ◌∷◌, ◌++◌, arith, ltb, ◌==◌, ==_refl, ==_iff, if◌then◌else◌, Bool-cases, inl, inr, length,
  Result, ok, err, bind_inversion, All, ◌↔◌, ltb→lt, ltb→le,
}
use Prim.Native.Nat.{◌%◌}
use native.Mathlib.Decide.{dec_le}
use go_polymarket.Base.Bytes.{Bytes, IsByte, codes}
use go_polymarket.Base.Word.{
  zeros, int_bytes, length-int_bytes, be_bytes, be_bytes-int_bytes, fits_of_byte_len-le,
  byte_len-le, length-be_bytes, be_bytes-IsByte, be_value, be_value-be_bytes,
}
use go_polymarket.Base.Int.{ℤ, pos, negsuc}
use go_polymarket.Base.Hex.{
  encode_hex, decode_hex, trim_0x, decode_hex-encode_hex, hex_digit, decode_hex-Decodes,
}
use go_polymarket.Eip712.{
  Error, overflow, bad_length, Word, uint, or_bad_hex, check_length, decode_hex_of, address,
  bytes32, hex,
}

pub uint_fits : (n : ℕ) → n < 2 ^ 256 → uint (pos n) ≡ ok (be_bytes 32 n)
unfolding uint
uint_fits n h = elim (Bool-cases (ltb 32 (length (int_bytes n)))) [
  | inl long ↦
      absurd (
        omega
          (arith, ltb→lt 32 (length (int_bytes n)) long, length-int_bytes n, byte_len-le n 32 h))
  | inr short ↦ rw short (ap ok (rw (length-int_bytes n) (sym (be_bytes-int_bytes 32 n h))))
]

pub uint_long : (n : ℕ) → 2 ^ 256 ≤ n → uint (pos n) ≡ err overflow
unfolding uint
uint_long n h = elim (Bool-cases (ltb 32 (length (int_bytes n)))) [
  | inl long ↦ rw long refl
  | inr short ↦ absurd (
      omega (
        arith,
        h,
        fits_of_byte_len-le n 32
            (omega (arith, ltb→le 32 (length (int_bytes n)) short, length-int_bytes n)),
      ))
]

not_both : {r : Result Error Word} {w : Word} {x : Error} → r ≡ err x → r ≢ ok w
not_both e o = cc

same_word : {r : Result Error Word} {v w : Word} → r ≡ ok v → r ≡ ok w → w ≡ v
same_word a b = cc

uint-ok :
    (z : ℤ) (w : Word) → uint z ≡ ok w → (n : ℕ) × (z ≡ pos n) × (n < 2 ^ 256) × (w ≡ be_bytes 32 n)
uint-ok (negsuc k) w e = absurd (unfold uint in cc)
uint-ok (pos n) w e = elim (dec_le (2 ^ 256) n) [
  | yes long ↦ absurd (not_both (uint_long n long) e)
  | no fits ↦ (n, refl, omega (arith, fits), same_word (uint_fits n (omega (arith, fits))) e)
]

-- `Uint` succeeds exactly on the integers from 0 to 2^256 - 1, and writes them in 32 bytes, big-endian.
pub uint_exact :
    (z : ℤ) (w : Word)
    → (uint z ≡ ok w) ↔ ((n : ℕ) × (z ≡ pos n) × (n < 2 ^ 256) × (w ≡ be_bytes 32 n))
uint_exact z w = (uint-ok z w, λ (n, e, fits, we). rw e (rw we (uint_fits n fits)))

pub uint-injective : (y z : ℤ) (w : Word) → uint y ≡ ok w → uint z ≡ ok w → y ≡ z
uint-injective y z w hy hz =
    let (n, ey, fn, wn) = (uint_exact y w).0 hy in
    let (m, ez, fm, wm) = (uint_exact z w).0 hz in
    ey
    ∙ ap pos (
        sym (be_value-be_bytes 32 n (omega (arith, fn)))
        ∙ ap be_value (sym wn ∙ wm)
        ∙ be_value-be_bytes 32 m (omega (arith, fm)))
    ∙ sym ez

-- A word: 32 bytes.
abbrev pub IsWord : Word → Type 0
IsWord w = All IsByte w × (length w ≡ 32)

passed :
    (t : Bool) (x : Error) (b c : Bytes)
    → Path (Result Error Bytes) (if not t then err x else ok b) (ok c)
    → (t ≡ true) × (b ≡ c)
passed true x b c e = (refl, cc)
passed false x b c e = cc

check_length-ok :
    (want : ℕ) (b c : Bytes) → check_length want b ≡ ok c → (b ≡ c) × (length b ≡ want)
check_length-ok want b c e =
    let (same, eq) = passed (length b == want) (bad_length (length b) want) b c e in
    (eq, (==_iff (length b) want).0 same)

or_bad_hex-ok : (o : Option Bytes) (b : Bytes) → or_bad_hex o ≡ ok b → o ≡ some b
or_bad_hex-ok none b e = cc
or_bad_hex-ok (some c) b e = cc

decode_hex_of-ok :
    (s : Bytes) (want : ℕ) (b : Bytes)
    → decode_hex_of s want ≡ ok b
    → All IsByte b × (length b ≡ want)
unfolding decode_hex_of
decode_hex_of-ok s want b e =
    let (c, dec, len) =
      bind_inversion (or_bad_hex (decode_hex (trim_0x s))) (check_length want) e in
    let (same, long) = check_length-ok want c b len in
    subst (λ t. All IsByte t × (length t ≡ want)) same
      ((decode_hex-Decodes (trim_0x s) c (or_bad_hex-ok (decode_hex (trim_0x s)) c dec)).0, long)

hex_digit_case : (n : ℕ) → n < 16 → (hex_digit n == 88) ≡ false
unfolding hex_digit
hex_digit_case n h = ground arith

pub trim_hex : (bs : Bytes) → trim_0x (codes "0x" ++ encode_hex bs) ≡ encode_hex bs
unfolding trim_0x encode_hex
trim_hex [] = refl
trim_hex (b ∷ bs) = ground (arith, hex_digit_case (b % 16) (omega arith))

decode_hex_of-hex :
    (b : Bytes) → All IsByte b → decode_hex_of (codes "0x" ++ encode_hex b) (length b) ≡ ok b
unfolding decode_hex_of
decode_hex_of-hex b h = rw (trim_hex b, decode_hex-encode_hex b h, ==_refl (length b)) refl

-- `Address` reads the "0x" text of 20 bytes as those bytes, behind 12 zero bytes.
pub address-hex :
    (b : Bytes)
    → All IsByte b
    → length b ≡ 20
    → address (codes "0x" ++ encode_hex b) ≡ ok (zeros 12 ++ b)
unfolding address
address-hex b h len = rw (sym len) (rw (decode_hex_of-hex b h) refl)

-- `Bytes32` reads back the text that `Hex` writes.
pub bytes32-hex : (w : Word) → IsWord w → bytes32 (hex w) ≡ ok w
unfolding bytes32 hex
bytes32-hex w (h, len) = rw (sym len) (decode_hex_of-hex w h)

padded : (b : Bytes) → All IsByte b → length b ≡ 20 → IsWord (zeros 12 ++ b)
padded b h len = (ground arith, omega (arith, len))

pub address-IsWord : (s : Bytes) (w : Word) → address s ≡ ok w → IsWord w
unfolding address
address-IsWord s w e =
    let (b, d, o) = bind_inversion (decode_hex_of s 20) (λ b. ok (zeros 12 ++ b)) e in
    let (bytes, len) = decode_hex_of-ok s 20 b d in
    rw (same_word {v = zeros 12 ++ b} refl o) (padded b bytes len)

pub uint-IsWord : (z : ℤ) (w : Word) → uint z ≡ ok w → IsWord w
uint-IsWord z w e =
    let (n, _, _, we) = uint-ok z w e in rw we (be_bytes-IsByte 32 n, length-be_bytes 32 n)

pub bytes32-IsWord : (s : Bytes) (w : Word) → bytes32 s ≡ ok w → IsWord w
unfolding bytes32
bytes32-IsWord s w e = decode_hex_of-ok s 32 w e
