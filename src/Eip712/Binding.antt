-- ===== src/Eip712/Binding.antt =====
-- What a digest commits to. A hash function is not injective, so every statement names the way out: two
-- different inputs of `keccak` with one output.
use go_polymarket.Base.{
  ◌≡◌, ◌≢◌, refl, sym, ap, ◌∙◌, ◌⊎◌, inl, inr, false, List, [], ◌∷◌, ◌++◌, arith, Bool-cases,
  length, length-append, All, append-nil,
}
use go_polymarket.Base.Bytes.{Bytes, bytes_eq, bytes_eq_iff}
use go_polymarket.Eip712.{Word, joined, keccak256, struct_hash, digest}

-- Two different inputs with one hash.
abbrev pub Collision : (Bytes → Bytes) → Type 0
Collision keccak = (x : Bytes) × (y : Bytes) × (x ≢ y) × (keccak x ≡ keccak y)

tail_of {ℓ} : {A : Type ℓ} {x y : A} {xs ys : List A} → Path (List A) (x ∷ xs) (y ∷ ys) → xs ≡ ys
tail_of e = cc

head_of {ℓ} : {A : Type ℓ} {x y : A} {xs ys : List A} → Path (List A) (x ∷ xs) (y ∷ ys) → x ≡ y
head_of e = cc

-- Lists of equal length in front of others are read off.
pub append-eq {ℓ} :
    {A : Type ℓ} (a b c d : List A) → length a ≡ length c → a ++ b ≡ c ++ d → (a ≡ c) × (b ≡ d)
append-eq [] b [] d l e = (refl, e)
append-eq [] b (y ∷ c) d l e = absurd (omega (arith, l))
append-eq (x ∷ a) b [] d l e = absurd (omega (arith, l))
append-eq (x ∷ a) b (y ∷ c) d l e =
    let (h, t) = append-eq a b c d (omega (arith, l)) (tail_of e) in (rw (head_of e, h) refl, t)

pub snoc-eq {ℓ} :
    {A : Type ℓ} (a b : List A) (x y : A) → a ++ x ∷ [] ≡ b ++ y ∷ [] → (a ≡ b) × (x ≡ y)
snoc-eq a b x y e =
    let (h, t) =
      append-eq a (x ∷ []) b (y ∷ [])
        (omega (arith, length-append a (x ∷ []), length-append b (y ∷ []), ap length e)) e in
    (h, head_of t)

abbrev pub IsWide : Word → Type 0
IsWide w = length w ≡ 32

-- The words are read back from their concatenation.
pub joined-injective :
    (xs ys : List Word) → All IsWide xs → All IsWide ys → joined xs ≡ joined ys → xs ≡ ys
joined-injective [] [] hx hy e = refl
joined-injective [] (y ∷ ys) hx hy e =
    absurd (omega (arith, length-append y (joined ys), hy.0, ap length e))
joined-injective (x ∷ xs) [] hx hy e =
    absurd (omega (arith, length-append x (joined xs), hx.0, ap length e))
joined-injective (x ∷ xs) (y ∷ ys) hx hy e =
    let (h, t) = append-eq x (joined xs) y (joined ys) (omega (arith, hx.0, hy.0)) e in
    let r = joined-injective xs ys hx.1 hy.1 t in cc

differ : (x y : Bytes) → bytes_eq x y ≡ false → x ≢ y
differ x y other same = let equal = (bytes_eq_iff x y).1 same in cc

read_struct :
    (th th' : Word) (fs fs' : List Word)
    → IsWide th
    → IsWide th'
    → All IsWide fs
    → All IsWide fs'
    → (th ++ joined fs) ++ [] ≡ (th' ++ joined fs') ++ []
    → (th ≡ th') × (fs ≡ fs')
read_struct th th' fs fs' wt wt' w w' e =
    let (h, t) =
      append-eq th (joined fs) th' (joined fs') (omega (arith, wt, wt'))
        (sym (append-nil (th ++ joined fs)) ∙ e ∙ append-nil (th' ++ joined fs')) in
    (h, joined-injective fs fs' w w' t)

read_digest :
    (d d' h h' : Word)
    → IsWide d
    → IsWide d'
    → Path Bytes (0x19 ∷ 0x01 ∷ d ++ (h ++ [])) (0x19 ∷ 0x01 ∷ d' ++ (h' ++ []))
    → (d ≡ d') × (h ≡ h')
read_digest d d' h h' wd wd' e =
    let (same, rest) =
      append-eq d (h ++ []) d' (h' ++ []) (omega (arith, wd, wd')) (tail_of (tail_of e)) in
    (same, sym (append-nil h) ∙ rest ∙ append-nil h')

module _ (keccak : Bytes → Bytes) where
  -- Equal hashes have equal inputs, or are a collision.
  pub same_input : (x y : Bytes) → keccak x ≡ keccak y → (x ≡ y) ⊎ Collision keccak
  same_input x y e = elim (Bool-cases (bytes_eq x y)) [
    | inl same ↦ inl ((bytes_eq_iff x y).0 same)
    | inr other ↦ inr (x, y, differ x y other, e)
  ]

  -- Two struct hashes agree only if the type hashes and the fields do, in order and number.
  pub struct_hash_binds :
      (th th' : Word) (fs fs' : List Word)
      → IsWide th
      → IsWide th'
      → All IsWide fs
      → All IsWide fs'
      → struct_hash keccak th fs ≡ struct_hash keccak th' fs'
      → ((th ≡ th') × (fs ≡ fs')) ⊎ Collision keccak
  unfolding struct_hash keccak256
  struct_hash_binds th th' fs fs' wt wt' w w' e =
      elim (same_input ((th ++ joined fs) ++ []) ((th' ++ joined fs') ++ []) e) [
        | inr c ↦ inr c
        | inl same ↦ inl (read_struct th th' fs fs' wt wt' w w' same)
      ]

  -- Two digests agree only if the domain separators and the struct hashes do.
  pub digest_binds :
      (d d' h h' : Word)
      → IsWide d
      → IsWide d'
      → digest keccak d h ≡ digest keccak d' h'
      → ((d ≡ d') × (h ≡ h')) ⊎ Collision keccak
  unfolding digest keccak256
  digest_binds d d' h h' wd wd' e =
      elim (same_input (0x19 ∷ 0x01 ∷ d ++ (h ++ [])) (0x19 ∷ 0x01 ∷ d' ++ (h' ++ [])) e) [
        | inr c ↦ inr c
        | inl same ↦ inl (read_digest d d' h h' wd wd' same)
      ]
