-- ===== src/Onchain/Transaction/Signature.antt =====
-- `splitSignature` takes exactly the canonical signatures.
use go_polymarket.Base.{
  ℕ, ◌-◌, ◌/◌, ◌≤◌, ◌<◌, ◌≡◌, refl, ◌⊎◌, ◌↔◌, true, not, ◌||◌, arith, leb, leb→le, ◌==◌, ==_iff,
  length, take, drop, get_or, Result, ok, guarded,
}
use go_polymarket.Base.Bytes.{Bytes}
use go_polymarket.Base.Word.{be_value, int_bytes}
use go_polymarket.Rlp.{uint, uint64, string}
use go_polymarket.Onchain.Transaction.{
  OnchainError, bad_signature_length, bad_v, not_canonical, zero_component, split_signature,
}

-- The last byte of a signature.
abbrev pub v_of : Bytes → ℕ
v_of sig = get_or sig 64 0

-- The numbers in its first and second 32 bytes.
abbrev pub r_of : Bytes → ℕ
r_of sig = be_value (take 32 sig)

abbrev pub s_of : Bytes → ℕ
s_of sig = be_value (take 32 (drop 32 sig))

abbrev pub IsCanonical : ℕ → Bytes → Type 0
IsCanonical order sig =
    (length sig ≡ 65)
    × ((v_of sig ≡ 27) ⊎ (v_of sig ≡ 28))
    × (0 < r_of sig)
    × (0 < s_of sig)
    × (s_of sig ≤ order / 2)

-- The three items: the parity as an integer, then r and s.
abbrev pub split_items : Bytes → Bytes × Bytes × Bytes
split_items sig =
    (uint64 (v_of sig - 27), string (int_bytes (r_of sig)), string (int_bytes (s_of sig)))

parity_iff : (v : ℕ) → (v == 27 || v == 28) ≡ true → (v ≡ 27) ⊎ (v ≡ 28)
parity_iff v e = ground arith

parity_test : (v : ℕ) → (v ≡ 27) ⊎ (v ≡ 28) → (v == 27 || v == 28) ≡ true
parity_test v e = ground arith

low_test : (a b : ℕ) → a ≤ b → leb a b ≡ true
low_test a b h = ground arith

full_test : (r s : ℕ) → 0 < r → 0 < s → not (r == 0 || s == 0) ≡ true
full_test r s hr hs = ground arith

full_iff : (r s : ℕ) → not (r == 0 || s == 0) ≡ true → (0 < r) × (0 < s)
full_iff r s e = ground arith

tests-IsCanonical :
    (order : ℕ) (sig : Bytes)
    → (length sig == 65) ≡ true
    → (v_of sig == 27 || v_of sig == 28) ≡ true
    → leb (s_of sig) (order / 2) ≡ true
    → not (r_of sig == 0 || s_of sig == 0) ≡ true
    → IsCanonical order sig
tests-IsCanonical order sig long parity low full =
    let (r, s) = full_iff (r_of sig) (s_of sig) full in
    (
      (==_iff (length sig) 65).0 long,
      parity_iff (v_of sig) parity,
      r,
      s,
      leb→le (s_of sig) (order / 2) low,
    )

result_of {ℓ} : {A : Type ℓ} {a b : A} → Path (Result OnchainError A) (ok a) (ok b) → b ≡ a
result_of e = cc

split_signature-ok :
    (order : ℕ) (sig : Bytes) (x : Bytes × Bytes × Bytes)
    → split_signature order sig ≡ ok x
    → IsCanonical order sig × (x ≡ split_items sig)
unfolding split_signature uint
split_signature-ok order sig x e =
    let (long, e₁) = guarded (length sig == 65) (bad_signature_length (length sig)) _ e in
    let (parity, e₂) = guarded (v_of sig == 27 || v_of sig == 28) (bad_v (v_of sig)) _ e₁ in
    let (low, e₃) = guarded (leb (s_of sig) (order / 2)) not_canonical _ e₂ in
    let (full, e₄) = guarded (not (r_of sig == 0 || s_of sig == 0)) zero_component _ e₃ in
    (tests-IsCanonical order sig long parity low full, result_of e₄)

canonical-split :
    (order : ℕ) (sig : Bytes)
    → IsCanonical order sig
    → split_signature order sig ≡ ok (split_items sig)
unfolding split_signature uint
canonical-split order sig (long, parity, r, s, low) =
    rw
      (
        (==_iff (length sig) 65).1 long,
        parity_test (v_of sig) parity,
        low_test (s_of sig) (order / 2) low,
        full_test (r_of sig) (s_of sig) r s,
      )
      refl

-- A signature is split exactly if it is 65 bytes long, its last byte is 27 or 28, r and s are not zero and s
-- is in the lower half of the order. The items are then the parity bit, r and s as RLP integers.
pub split_signature_exact :
    (order : ℕ) (sig : Bytes) (x : Bytes × Bytes × Bytes)
    → (split_signature order sig ≡ ok x) ↔ (IsCanonical order sig × (x ≡ split_items sig))
split_signature_exact order sig x =
    (split_signature-ok order sig x, λ (h, e). rw e (canonical-split order sig h))
