-- ===== src/Relayer/Signatures.antt =====
-- The signature of a Safe: which ones are accepted, and what the Safe reads.
use go_polymarket.Base.{
  ℕ, ◌+◌, ◌≡◌, refl, ap, ◌∙◌, ◌⊎◌, inl, inr, ◌↔◌, [], ◌∷◌, ◌++◌, ◌==◌, ==_iff, Bool-cases, length,
  get_or, take, Result, ok, bind_inversion,
}
use go_polymarket.Base.Bytes.{Bytes, codes}
use go_polymarket.Base.Hex.{encode_hex}
use go_polymarket.Relayer.{RelayError, safe_v, safe_signature}

-- The Safe's reading of the last byte: above 30 the hash was prefixed as a personal message, and the parity is
-- that of v less 31.
abbrev pub SafeByte : ℕ → ℕ → Type 0
SafeByte v w =
    ((v ≡ 0) × (w ≡ 31)) ⊎ (((v ≡ 1) × (w ≡ 32)) ⊎ (((v ≡ 27) × (w ≡ 31)) ⊎ ((v ≡ 28) × (w ≡ 32))))

ok_v : {v w : ℕ} → Path (Result RelayError ℕ) (ok v) (ok w) → w ≡ v
ok_v e = cc

safe_v-ok : (v w : ℕ) → safe_v v ≡ ok w → SafeByte v w
unfolding safe_v
safe_v-ok v w e = elim (Bool-cases (v == 0)) [
  | inl a ↦ inl ((==_iff v 0).0 a, ok_v (simp (a) at e) ∙ ap (λ n. n + 31) ((==_iff v 0).0 a))
  | inr a ↦ elim (Bool-cases (v == 1)) [
    | inl b ↦
        inr (inl ((==_iff v 1).0 b, ok_v (simp (a, b) at e) ∙ ap (λ n. n + 31) ((==_iff v 1).0 b)))
    | inr b ↦ elim (Bool-cases (v == 27)) [
      | inl c ↦ inr (
          inr (
            inl (
              (==_iff v 27).0 c,
              ok_v (simp (a, b, c) at e) ∙ ap (λ n. n + 4) ((==_iff v 27).0 c),
            )))
      | inr c ↦ elim (Bool-cases (v == 28)) [
        | inl d ↦ inr (
            inr (
              inr (
                (==_iff v 28).0 d,
                ok_v (simp (a, b, c, d) at e) ∙ ap (λ n. n + 4) ((==_iff v 28).0 d),
              )))
        | inr d ↦ absurd (let stuck = simp (a, b, c, d) at e in cc)
      ]
    ]
  ]
]

safe_v-SafeByte : (v w : ℕ) → SafeByte v w → safe_v v ≡ ok w
unfolding safe_v
safe_v-SafeByte v w (inl (ev, ew)) = rw (ev, ew) refl
safe_v-SafeByte v w (inr (inl (ev, ew))) = rw (ev, ew) refl
safe_v-SafeByte v w (inr (inr (inl (ev, ew)))) = rw (ev, ew) refl
safe_v-SafeByte v w (inr (inr (inr (ev, ew)))) = rw (ev, ew) refl

-- What is packed: 65 bytes, of which the last is a byte that a Safe accepts for the one given.
abbrev pub IsPacked : Bytes → Bytes → Type 0
IsPacked sig text =
    (length sig ≡ 65)
    × ((w : ℕ) × SafeByte (get_or sig 64 0) w
        × (text ≡ codes "0x" ++ encode_hex (take 64 sig ++ w ∷ [])))

-- A signature is packed for a Safe exactly if it is 65 bytes long and its last byte is 0, 1, 27 or 28; the
-- text is then the hex of the first 64 bytes and of 31 for 0 and 27, or 32 for 1 and 28.
pub safe_signature_exact : (sig text : Bytes) → (safe_signature sig ≡ ok text) ↔ IsPacked sig text
unfolding safe_signature
safe_signature_exact sig text = elim (Bool-cases (length sig == 65)) [
  | inl long ↦ (
    λ e.
        let (w, ew, made) = bind_inversion (safe_v (get_or sig 64 0)) _ (simp (long) at e) in
        ((==_iff (length sig) 65).0 long, (w, safe_v-ok (get_or sig 64 0) w ew, cc)),
    λ (_, (w, byte, shown)). rw (long, safe_v-SafeByte (get_or sig 64 0) w byte, shown) refl,
  )
  | inr short ↦ (
    λ e. absurd (let stuck = simp (short) at e in cc),
    λ (long, _). absurd (let yes_long = (==_iff (length sig) 65).1 long in cc),
  )
]
