-- ===== src/Onchain/Transaction/Raw.antt =====
-- What `SignTransaction` returns: the raw transaction holds the fields and a canonical signature over them,
-- and the hash is the hash of it.
use go_polymarket.Base.{
  ℕ, ◌^◌, ◌-◌, ◌<◌, ◌≡◌, refl, sym, ap, ◌∙◌, subst, Option, some, List, [], ◌∷◌, ◌++◌, map, arith,
  length, Result, ok, err, bind_inversion, map_err,
}
use go_polymarket.Base.Bytes.{Bytes, codes}
use go_polymarket.Base.Hex.{encode_hex}
use go_polymarket.Base.Word.{int_bytes}
use go_polymarket.Eip712.{keccak256}
use go_polymarket.Rlp.{uint64, list}
use go_polymarket.Rlp.Decode.{Kind, Item}
use go_polymarket.Rlp.Canonical.{Part, leaf, encode_part, item_of}
use go_polymarket.Signer.{SignerError, verify_signature}
use go_polymarket.Onchain.Transaction.{
  signing, Transaction, SignedTransaction, Signing, recipient, fields, signing_hash,
  split_signature, sign_transaction,
}
use go_polymarket.Onchain.Transaction.Signed.{
  ReadAs, parts, field_items, fields-parts, short-ReadAs, length-list-le, result_of,
}
use go_polymarket.Onchain.Transaction.Signature.{
  IsCanonical, v_of, r_of, s_of, split_items, split_signature_exact,
}

abbrev pub signature_parts : Bytes → List Part
signature_parts sig =
    leaf (int_bytes (v_of sig - 27))
    ∷ leaf (int_bytes (r_of sig))
    ∷ leaf (int_bytes (s_of sig))
    ∷ []

-- The parity bit, r and s.
abbrev pub signature_items : Bytes → List Item
signature_items sig =
    (Kind.str, int_bytes (v_of sig - 27))
    ∷ (Kind.str, int_bytes (r_of sig))
    ∷ (Kind.str, int_bytes (s_of sig))
    ∷ []

raw_parts :
    (t : Transaction) (to sig : Bytes) (fs : List Bytes) (items : Bytes × Bytes × Bytes)
    → fs ≡ map encode_part (parts t to)
    → items ≡ split_items sig
    → fs ++ items.0 ∷ items.1 ∷ items.2 ∷ [] ≡ map encode_part (parts t to ++ signature_parts sig)
unfolding uint64 encode_part
raw_parts t to sig fs items efs eq = rw (efs, eq) refl

no_err : (x : Unit {0}) (r : Result SignerError (Unit {0})) → map_err signing r ≡ ok x → r ≡ ok tt
no_err x (ok y) h = refl
no_err x (err e) h = absurd (cc)

read_raw :
    (t : Transaction) (to sig raw : Bytes) (items : List Bytes)
    → items ≡ map encode_part (parts t to ++ signature_parts sig)
    → raw ≡ 0x02 ∷ list items
    → length raw < 2 ^ 64
    → ReadAs (list items) (field_items t to ++ signature_items sig)
unfolding item_of
read_raw t to sig raw items e er h =
    let ps = parts t to ++ signature_parts sig in
    subst (λ xs. ReadAs (list xs) (field_items t to ++ signature_items sig)) (sym e)
      (short-ReadAs ps (
        omega (
          arith,
          h,
          ap length er,
          ap (λ xs. length (list xs)) e,
          length-list-le (map encode_part ps),
        )))

module _ (keccak : Bytes → Bytes) (recover : Bytes → Bytes → Option Bytes) (order : ℕ) where
  -- `digest` is what was signed, `sig` the signature, and `encoded` the raw bytes but the first.
  abbrev pub Raw : Signing → Transaction → SignedTransaction → Type 0
  Raw signer t s =
      (to : Bytes) × (digest : Bytes) × (sig : Bytes) × (encoded : Bytes) × (recipient t.to ≡ ok to)
      × (signing_hash keccak recover order t ≡ ok digest)
      × (verify_signature keccak recover digest sig signer.signer_address ≡ ok tt)
      × IsCanonical order sig
      × (s.raw ≡ 0x02 ∷ encoded)
      × ReadAs encoded (field_items t to ++ signature_items sig)
      × (s.hash ≡ codes "0x" ++ encode_hex (keccak256 keccak (s.raw ∷ [])))

  -- A transaction is signed only if the signature is canonical and recovers to the signer over the digest
  -- of the unsigned bytes. The raw bytes, if they are fewer than 2^64, are then the type byte and one RLP
  -- list of the nine fields, the parity bit, r and s, and the hash is the hex text of their hash.
  pub sign_transaction-Raw :
      (signer : Signing) (t : Transaction) (s : SignedTransaction)
      → sign_transaction keccak recover order (some signer) t ≡ ok s
      → length s.raw < 2 ^ 64
      → Raw signer t s
  unfolding sign_transaction item_of
  sign_transaction-Raw signer t s e h =
      let (fs, ef, e₁) = bind_inversion (fields t) _ e in
      let (digest, ed, e₂) = bind_inversion (signing_hash keccak recover order t) _ e₁ in
      let (sig, _, e₃) = bind_inversion (map_err signing (signer.sign digest)) _ e₂ in
      let (_, ev, e₄) =
        bind_inversion
          (map_err signing (verify_signature keccak recover digest sig signer.signer_address)) _
          e₃ in
      let (items, ei, e₅) = bind_inversion (split_signature order sig) _ e₄ in
      let (canonical, eq) = (split_signature_exact order sig items).0 ei in
      let (to, eto, efs) = fields-parts t fs ef in
      let es = result_of e₅ in
      let er : s.raw ≡ 0x02 ∷ list (fs ++ items.0 ∷ items.1 ∷ items.2 ∷ []) =
        ap (λ (x : SignedTransaction). x.raw) es in
      (
        to,
        digest,
        sig,
        list (fs ++ items.0 ∷ items.1 ∷ items.2 ∷ []),
        eto,
        ed,
        no_err _ (verify_signature keccak recover digest sig signer.signer_address) ev,
        canonical,
        er,
        read_raw t to sig s.raw _ (raw_parts t to sig fs items efs eq) er h,
        ap (λ (x : SignedTransaction). x.hash) es
            ∙ ap (λ b. codes "0x" ++ encode_hex (keccak256 keccak (b ∷ []))) (sym er),
      )
