-- ===== src/Signer/Verify.antt =====
-- Signing and verification fit together.
use go_polymarket.Base.{
  ℕ, ◌≡◌, refl, sym, true, not, Option, some, [], ◌∷◌, ◌++◌, arith, ◌==◌, if◌then◌else◌, length,
  length-append, take, drop, get_or, take-length-append, Result, ok, err,
}
use go_polymarket.Base.Bytes.{Bytes, bytes_eq_refl, to_lower}
use go_polymarket.Signer.{
  SignerError, bad_length, equal_fold, address_from_public_key, sign_digest, verify_signature,
}

get_or-last : (xs : Bytes) (x d n : ℕ) → n ≡ length xs → get_or (xs ++ x ∷ []) n d ≡ x
get_or-last xs x d n e = rw e (go xs)
  where
    go : (ys : Bytes) → get_or (ys ++ x ∷ []) (length ys) d ≡ x
    go [] = refl
    go (y ∷ ys) = go ys

take-front : (xs ys : Bytes) (n : ℕ) → n ≡ length xs → take n (xs ++ ys) ≡ xs
take-front xs ys n e = rw e (take-length-append xs ys)

equal_fold_refl : (a : Bytes) → equal_fold a a ≡ true
unfolding equal_fold
equal_fold_refl a = bytes_eq_refl (to_lower a)

signature_len : (rest : Bytes) (v : ℕ) → length rest ≡ 64 → length (rest ++ v ∷ []) ≡ 65
signature_len rest v len = omega (arith, length-append rest (v ∷ []), len)

module _ (keccak : Bytes → Bytes) (recover : Bytes → Bytes → Option Bytes) where
  accepted :
      (digest key rest : Bytes) (v : ℕ)
      → length rest ≡ 64
      → recover (v ∷ rest) digest ≡ some key
      → verify_signature keccak recover digest (rest ++ v ∷ []) (address_from_public_key keccak key)
        ≡ ok tt
  unfolding verify_signature
  accepted digest key rest v len rec =
      rw
        (
          signature_len rest v len,
          get_or-last rest v 0 64 (sym len),
          take-front rest (v ∷ []) 64 (sym len),
          rec,
          equal_fold_refl (address_from_public_key keccak key),
        )
        refl

  -- If the library's signature has 65 bytes and recovers to the public key, `SignDigest` returns 65 bytes
  -- that `VerifySignature` accepts for the key's address.
  pub verify-sign_digest :
      (sign_compact : Bytes → Bytes) (digest key : Bytes)
      → length (sign_compact digest) ≡ 65
      → recover (sign_compact digest) digest ≡ some key
      → (sig : Bytes) × (sign_digest keccak sign_compact digest ≡ ok sig)
        × (length sig ≡ 65)
        × (verify_signature keccak recover digest sig (address_from_public_key keccak key) ≡ ok tt)
  unfolding sign_digest
  verify-sign_digest sign_compact digest key len rec = go (sign_compact digest) len rec
    where
      go :
          (c : Bytes)
          → length c ≡ 65
          → recover c digest ≡ some key
          → (sig : Bytes) × (Path
              (Result SignerError Bytes)
              (if not (length c == 65)
                then err (bad_length (length c))
                else ok (drop 1 c ++ get_or c 0 0 ∷ []))
              (ok sig))
            × (length sig ≡ 65)
            × (verify_signature keccak recover digest sig (address_from_public_key keccak key)
                ≡ ok tt)
      go [] l r = absurd (omega (arith, l))
      go (v ∷ rest) l r = (
        rest ++ v ∷ [],
        rw l refl,
        signature_len rest v (omega (arith, l)),
        accepted digest key rest v (omega (arith, l)) r,
      )
