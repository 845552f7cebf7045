-- ===== src/Base/Hex.antt =====
-- `encoding/hex`, and the "0x" prefix.
use Prim.Native.Nat.{ℕ, suc, ◌+◌, ◌-◌, ◌*◌, ◌/◌, ◌%◌, ◌<◌}
use mathlib.Core.Path.{◌≡◌, refl, subst}
use mathlib.Core.Bool.{◌&&◌}
use mathlib.Core.Option.{Option, none, some, some-injective}
use mathlib.Core.List.{[], ◌∷◌}
use native.Mathlib.Omega.{arith}
use go_polymarket.Base.Tests.{ltb, leb, if◌then◌else◌}
use go_polymarket.Base.Lists.{length, drop, All}
use go_polymarket.Base.Bytes.{Bytes, IsByte, codes, has_prefix}

unfoldable pub hex_digit : ℕ → ℕ
hex_digit n = if ltb n 10 then b'0' + n else b'a' + (n - 10)

-- `hex.EncodeToString(b)`
unfoldable pub encode_hex : Bytes → Bytes
unfolding hex_digit
encode_hex [] = []
encode_hex (b ∷ bs) = hex_digit (b / 16) ∷ hex_digit (b % 16) ∷ encode_hex bs

unfoldable pub hex_value : ℕ → Option ℕ
hex_value c =
    if leb b'0' c && leb c b'9'
    then some (c - b'0')
    else if leb b'a' c && leb c b'f'
    then some (c - b'a' + 10)
    else if leb b'A' c && leb c b'F'
    then some (c - b'A' + 10)
    else none

-- The byte of two digits, before the bytes of the rest.
abbrev pub hex_pair : Option ℕ → Option ℕ → Option Bytes → Option Bytes
hex_pair (some a) (some b) (some bs) = some ((a * 16 + b) ∷ bs)
hex_pair _ _ _ = none

-- `hex.DecodeString(s)`: `none` is an error.
unfoldable pub decode_hex : Bytes → Option Bytes
unfolding hex_value
decode_hex [] = some []
decode_hex (x ∷ []) = none
decode_hex (x ∷ y ∷ r) = hex_pair (hex_value x) (hex_value y) (decode_hex r)

-- `strings.TrimPrefix(strings.TrimPrefix(s, "0x"), "0X")`
unfoldable pub trim_0x : Bytes → Bytes
trim_0x s =
    let t = if has_prefix s (codes "0x") then drop 2 s else s in
    if has_prefix t (codes "0X") then drop 2 t else t

hex_value-hex_digit : (n : ℕ) → n < 16 → hex_value (hex_digit n) ≡ some n
unfolding hex_value hex_digit
hex_value-hex_digit n h = ground arith

-- Decoding undoes encoding.
pub decode_hex-encode_hex : (bs : Bytes) → All IsByte bs → decode_hex (encode_hex bs) ≡ some bs
unfolding decode_hex encode_hex
decode_hex-encode_hex [] h = refl
decode_hex-encode_hex (b ∷ bs) h = ground (
  arith,
  hex_value-hex_digit (b / 16) (omega (arith, h.0)),
  hex_value-hex_digit (b % 16) (omega arith),
  decode_hex-encode_hex bs h.1,
)

hex_value-lt : (c n : ℕ) → hex_value c ≡ some n → n < 16
unfolding hex_value
hex_value-lt c n e = ground arith

-- Bytes, one for two digits.
abbrev pub Decodes : ℕ → Bytes → Type 0
Decodes n bs = All IsByte bs × (n ≡ 2 * length bs)

hex_pair-Decodes :
    (n : ℕ) (a b : Option ℕ) (o : Option Bytes) (bs : Bytes)
    → ((v : ℕ) → a ≡ some v → v < 16)
    → ((v : ℕ) → b ≡ some v → v < 16)
    → ((r : Bytes) → o ≡ some r → Decodes n r)
    → hex_pair a b o ≡ some bs
    → Decodes (suc (suc n)) bs
hex_pair-Decodes n (some a) (some b) (some r) bs ha hb ho e =
    let (bytes, len) = ho r refl in
    subst (Decodes (suc (suc n))) (some-injective _ _ e)
      ((omega (arith, ha a refl, hb b refl), bytes), omega (arith, len))
hex_pair-Decodes n none b o bs ha hb ho e = cc
hex_pair-Decodes n (some a) none o bs ha hb ho e = cc
hex_pair-Decodes n (some a) (some b) none bs ha hb ho e = cc

-- What is decoded is bytes, one for two digits.
pub decode_hex-Decodes : (s bs : Bytes) → decode_hex s ≡ some bs → Decodes (length s) bs
unfolding decode_hex
decode_hex-Decodes [] bs e = subst (Decodes 0) (some-injective _ _ e) (tt, omega arith)
decode_hex-Decodes (x ∷ []) bs e = cc
decode_hex-Decodes (x ∷ y ∷ r) bs e =
    hex_pair-Decodes (length r) (hex_value x) (hex_value y) (decode_hex r) bs (hex_value-lt x)
      (hex_value-lt y) (decode_hex-Decodes r) e

pub length-encode_hex : (bs : Bytes) → length (encode_hex bs) ≡ 2 * length bs
unfolding encode_hex
length-encode_hex [] = omega arith
length-encode_hex (b ∷ bs) = omega (arith, length-encode_hex bs)
