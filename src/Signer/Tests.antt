-- ===== src/Signer/Tests.antt =====
-- A personal message, and the theorems at concrete inputs, with a library of the examples: its signature
-- is 27 and 64 times the digest's length, and it recovers one key.
use go_polymarket.Base.{◌≡◌, refl, Option, some, [], ◌∷◌, ◌++◌, length, replicate, ok}
use go_polymarket.Base.Bytes.{Bytes, codes}
use go_polymarket.Base.Decimal.{format_ℕ}
use go_polymarket.Eip712.{keccak256}
use go_polymarket.Signer.{personal_digest, address_from_public_key, sign_digest, verify_signature}
use go_polymarket.Signer.Verify.{verify-sign_digest}

abbrev echo : Bytes → Bytes
echo b = b

abbrev one_key : Bytes → Bytes → Option Bytes
one_key compact digest = some (4 ∷ replicate 64 9)

abbrev one_signature : Bytes → Bytes
one_signature digest = 27 ∷ replicate 64 (length digest)

-- The escape in the prefix is the line feed.
personal_hi :
    personal_digest echo (codes "hi") ≡ 0x19 ∷ codes "Ethereum Signed Message:" ++ 10 ∷ codes "2hi"
unfolding personal_digest keccak256 format_ℕ
personal_hi = refl

verify-sign_digest_example :
    (sig : Bytes) × (sign_digest echo one_signature (1 ∷ []) ≡ ok sig)
    × (length sig ≡ 65)
    × (verify_signature echo one_key
          (1 ∷ [])
          sig
          (address_from_public_key echo (4 ∷ replicate 64 9))
        ≡ ok tt)
verify-sign_digest_example =
    verify-sign_digest echo one_key one_signature (1 ∷ []) (4 ∷ replicate 64 9) refl refl
