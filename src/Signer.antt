-- ===== src/Signer.antt =====
-- signer.go: digests of personal messages, checksummed addresses, and signatures as r ‖ s ‖ v.
-- Keccak-256 is the parameter `keccak`, as in Eip712.antt. The secp256k1 library is two parameters:
-- `sign_compact`, the v ‖ r ‖ s signature of a key over a digest, and `recover`, the uncompressed public
-- key of a v ‖ r ‖ s signature over a digest, or `none` for an error.

pub mod Checksum
mod Tests
pub mod Verify
use go_polymarket.Base.{
  ℕ, zero, suc, ◌+◌, ◌-◌, ◌/◌, ◌%◌, Bool, true, false, not, ◌&&◌, Option, none, some, List, [], ◌∷◌,
  ◌++◌, ltb, leb, ◌==◌, if◌then◌else◌, length, take, drop, get_or, Result, ok, err,
}
use go_polymarket.Base.Bytes.{Bytes, codes, bytes_eq, to_lower}
use go_polymarket.Base.Hex.{encode_hex, decode_hex, trim_0x}
use go_polymarket.Base.Decimal.{format_ℕ}
use go_polymarket.Eip712.{keccak256}

pub data SignerError : Type 0 where
  bad_length : ℕ → SignerError
  not_recoverable no_signer : SignerError
  recovers_to : Bytes → Bytes → SignerError

-- `strings.EqualFold(a, b)`, on ASCII text.
unfoldable pub equal_fold : Bytes → Bytes → Bool
equal_fold a b = bytes_eq (to_lower a) (to_lower b)

-- The nibble of the hash that belongs to the character at `i`.
unfoldable pub nibble_at : Bytes → ℕ → ℕ
nibble_at hash i = if i % 2 == 1 then get_or hash (i / 2) 0 % 16 else get_or hash (i / 2) 0 / 16

unfoldable pub checksum_char : ℕ → ℕ → ℕ
checksum_char nibble c = if leb 8 nibble && leb b'a' c && leb c b'f' then c - 32 else c

-- The loop over the characters from `i` on.
unfoldable pub checksum_chars : Bytes → ℕ → Bytes → Bytes
checksum_chars hash i [] = []
checksum_chars hash i (c ∷ lower) =
    checksum_char (nibble_at hash i) c ∷ checksum_chars hash (suc i) lower

module _ (keccak : Bytes → Bytes) where
  unfoldable pub personal_digest : Bytes → Bytes
  personal_digest message =
      let prefix = 0x19 ∷ codes "Ethereum Signed Message:\n" ++ format_ℕ (length message) in
      keccak256 keccak (prefix ∷ message ∷ [])

  unfoldable pub checksum_address : Bytes → Bytes
  checksum_address address =
      let body = trim_0x address in
      if not (length body == 40)
      then address
      else (let lower = to_lower body in
          elim (decode_hex lower) [
            | none ↦ address
            | some b ↦ codes "0x" ++ checksum_chars (keccak256 keccak (lower ∷ [])) 0 lower
          ])

  -- `uncompressed` is the serialized public key.
  unfoldable pub address_from_public_key : Bytes → Bytes
  address_from_public_key uncompressed =
      let h = keccak256 keccak (drop 1 uncompressed ∷ []) in
      checksum_address (codes "0x" ++ encode_hex (drop 12 h))

  -- `k.SignDigest(digest)`, of the signature that the library returns for the key.
  unfoldable pub sign_digest : (Bytes → Bytes) → Bytes → Result SignerError Bytes
  sign_digest sign_compact digest =
      let compact = sign_compact digest in
      if not (length compact == 65)
      then err (bad_length (length compact))
      else ok (drop 1 compact ++ get_or compact 0 0 ∷ [])

  unfoldable pub verify_signature :
      (Bytes → Bytes → Option Bytes) → Bytes → Bytes → Bytes → Result SignerError (Unit {0})
  verify_signature recover digest sig address =
      if not (length sig == 65)
      then err (bad_length (length sig))
      else (let compact = get_or sig 64 0 ∷ take 64 sig in
          elim (recover compact digest) [
            | none ↦ err not_recoverable
            | some key ↦
                (let got = address_from_public_key key in
                  if not (equal_fold got address) then err (recovers_to got address) else ok tt)
          ])
