-- ===== src/Eip712/Shape.antt =====
-- The shape of a domain: its type string and its words determine which fields it has, and their words.
use go_polymarket.Base.{
  ℕ, ◌≡◌, refl, ap, Bool, true, false, Option, none, some, List, [], ◌∷◌, ◌==◌, ◌||◌, length,
  Result, ok, All, All-append,
}
use go_polymarket.Base.Bytes.{Bytes, codes}
use go_polymarket.Base.Int.{ℤ}
use go_polymarket.Eip712.{Error, Word, uint, address, Parts, add_part, join_comma, domain_type}
use go_polymarket.Eip712.Words.{uint-IsWord, address-IsWord}
use go_polymarket.Eip712.Binding.{IsWide, snoc-eq}

-- A field that may be missing.
abbrev pub add_opt : Parts → Bytes → Option Word → Parts
add_opt p n none = p
add_opt p n (some w) = add_part p n w

abbrev pub no_parts : Parts
no_parts = record { names = []; fields = [] }

abbrev pub texts_of : Option Word → Option Word → Parts
texts_of a b = add_opt (add_opt no_parts (codes "string name") a) (codes "string version") b

abbrev pub chain_of : Option Word → Option Word → Option Word → Parts
chain_of a b c = add_opt (texts_of a b) (codes "uint256 chainId") c

abbrev pub parts_of : Option Word → Option Word → Option Word → Option Word → Parts
parts_of a b c d = add_opt (chain_of a b c) (codes "address verifyingContract") d

abbrev pub is_some : Option Word → Bool
is_some none = false
is_some (some w) = true

abbrev pub shape : Option Word → Option Word → Option Word → Option Word → List Bool
shape a b c d = is_some a ∷ is_some b ∷ is_some c ∷ is_some d ∷ []

-- Which fields a type string of this length declares.
abbrev pub declared : ℕ → List Bool
declared n =
    (n == 25 || n == 40 || n == 41 || n == 51 || n == 56 || n == 66 || n == 67 || n == 82)
    ∷ (n == 28 || n == 40 || n == 44 || n == 54 || n == 56 || n == 66 || n == 70 || n == 82)
    ∷ (n == 29 || n == 41 || n == 44 || n == 55 || n == 56 || n == 67 || n == 70 || n == 82)
    ∷ (n == 39 || n == 51 || n == 54 || n == 55 || n == 66 || n == 67 || n == 70 || n == 82)
    ∷ []

pub declared-shape :
    (a b c d : Option Word)
    → declared (length (domain_type (parts_of a b c d).names)) ≡ shape a b c d
unfolding join_comma
declared-shape none none none none = refl
declared-shape none none none (some z) = refl
declared-shape none none (some y) none = refl
declared-shape none none (some y) (some z) = refl
declared-shape none (some x) none none = refl
declared-shape none (some x) none (some z) = refl
declared-shape none (some x) (some y) none = refl
declared-shape none (some x) (some y) (some z) = refl
declared-shape (some w) none none none = refl
declared-shape (some w) none none (some z) = refl
declared-shape (some w) none (some y) none = refl
declared-shape (some w) none (some y) (some z) = refl
declared-shape (some w) (some x) none none = refl
declared-shape (some w) (some x) none (some z) = refl
declared-shape (some w) (some x) (some y) none = refl
declared-shape (some w) (some x) (some y) (some z) = refl

pub add_opt-eq :
    (p q : Parts) (n : Bytes) (v w : Option Word)
    → is_some v ≡ is_some w
    → (add_opt p n v).fields ≡ (add_opt q n w).fields
    → (p.fields ≡ q.fields) × (v ≡ w)
add_opt-eq p q n none none s e = (e, refl)
add_opt-eq p q n none (some w) s e = absurd cc
add_opt-eq p q n (some v) none s e = absurd cc
add_opt-eq p q n (some v) (some w) s e =
    let (front, last) = snoc-eq p.fields q.fields v w e in (front, ap some last)

abbrev pub Same4 :
    Option Word
    → Option Word
    → Option Word
    → Option Word
    → Option Word
    → Option Word
    → Option Word
    → Option Word
    → Type 0
Same4 a b c d a' b' c' d' = (a ≡ a') × (b ≡ b') × (c ≡ c') × (d ≡ d')

pub parts-eq :
    (a b c d a' b' c' d' : Option Word)
    → shape a b c d ≡ shape a' b' c' d'
    → (parts_of a b c d).fields ≡ (parts_of a' b' c' d').fields
    → Same4 a b c d a' b' c' d'
parts-eq a b c d a' b' c' d' s e =
    let (e₃, ed) =
      add_opt-eq (chain_of a b c) (chain_of a' b' c') (codes "address verifyingContract") d d' (cc)
        e in
    let (e₂, ec) =
      add_opt-eq (texts_of a b) (texts_of a' b') (codes "uint256 chainId") c c' (cc) e₃ in
    let (e₁, eb) =
      add_opt-eq (add_opt no_parts (codes "string name") a)
        (add_opt no_parts (codes "string name") a') (codes "string version") b b' (cc) e₂ in
    let (_, ea) = add_opt-eq no_parts no_parts (codes "string name") a a' (cc) e₁ in
    (ea, eb, ec, ed)

-- The word of an optional chain id or contract, where it has one.
abbrev pub ChainWord : Option ℤ → Option Word → Type 0
ChainWord none none = Unit
ChainWord (some z) (some w) = uint z ≡ ok w
ChainWord _ _ = ⊥

abbrev pub ContractWord : Bytes → Option Word → Type 0
ContractWord [] none = Unit
ContractWord (x ∷ c) (some w) = address (x ∷ c) ≡ ok w
ContractWord _ _ = ⊥

pub ok_same : {v w : Word} → Path (Result Error Word) (ok v) (ok w) → w ≡ v
ok_same e = cc

abbrev pub OptWide : Option Word → Type 0
OptWide none = Unit
OptWide (some w) = IsWide w

pub add_opt-IsWide :
    (p : Parts) (n : Bytes) (w : Option Word)
    → All IsWide p.fields
    → OptWide w
    → All IsWide (add_opt p n w).fields
add_opt-IsWide p n none h hw = h
add_opt-IsWide p n (some w) h hw = All-append IsWide p.fields (w ∷ []) h (hw, tt)

pub chain-wide : (z : Option ℤ) (w : Option Word) → ChainWord z w → OptWide w
chain-wide none none h = tt
chain-wide none (some w) h = absurd h
chain-wide (some z) none h = absurd h
chain-wide (some z) (some w) h = (uint-IsWord z w h).1

pub contract-wide : (c : Bytes) (w : Option Word) → ContractWord c w → OptWide w
contract-wide [] none h = tt
contract-wide [] (some w) h = absurd h
contract-wide (x ∷ c) none h = absurd h
contract-wide (x ∷ c) (some w) h = (address-IsWord (x ∷ c) w h).1
