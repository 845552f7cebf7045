-- ===== src/Eip712/Domains.antt =====
-- What a signed digest says of the domain: the separator determines the fields that are there, and
-- what they hold.
use go_polymarket.Base.{
  ◌≡◌, refl, sym, ap, ◌∙◌, ◌⊎◌, inl, inr, Option, none, some, List, [], ◌∷◌, ◌++◌, if◌then◌else◌,
  length, ok, ◌>>=◌, bind_inversion, All, append-nil,
}
use mathlib.Core.Option.{some-injective}
use go_polymarket.Base.Bytes.{Bytes, codes, is_empty}
use go_polymarket.Base.Int.{ℤ}
use go_polymarket.Eip712.{
  Word, uint, address, Domain, Parts, add_part, string, add_chain, add_contract, domain_parts,
  domain_type, separator, struct_hash, type_hash, digest, keccak256, joined,
}
use go_polymarket.Eip712.Words.{uint-injective}
use go_polymarket.Eip712.Binding.{Collision, IsWide, same_input, struct_hash_binds, digest_binds}
use go_polymarket.Eip712.Shape.{
  add_opt, no_parts, texts_of, parts_of, declared, declared-shape, Same4, parts-eq, ChainWord,
  ContractWord, ok_same, OptWide, add_opt-IsWide, chain-wide, contract-wide,
}

-- The same fields: equal texts and chain ids, and contracts that are both left out or are one address.
abbrev pub SameDomain : Domain → Domain → Type 0
SameDomain d e =
    (d.name ≡ e.name)
    × (d.version ≡ e.version)
    × (d.chain_id ≡ e.chain_id)
    × (is_empty d.verifying_contract ≡ is_empty e.verifying_contract)
    × (address d.verifying_contract ≡ address e.verifying_contract)

module _ (keccak : Bytes → Bytes) where
  abbrev text_word : Bytes → Option Word
  text_word [] = none
  text_word (x ∷ s) = some (string keccak (x ∷ s))

  add_chain-ok :
      (p q : Parts) (z : Option ℤ)
      → add_chain keccak p z ≡ ok q
      → (w : Option Word) × ChainWord z w × (q ≡ add_opt p (codes "uint256 chainId") w)
  unfolding add_chain
  add_chain-ok p q none e = (none, tt, cc)
  add_chain-ok p q (some z) e =
      let (w, u, o) =
        bind_inversion (uint z) (λ w. ok (add_part p (codes "uint256 chainId") w)) e in
      (some w, u, cc)

  add_contract-ok :
      (p q : Parts) (c : Bytes)
      → add_contract keccak p c ≡ ok q
      → (w : Option Word) × ContractWord c w × (q ≡ add_opt p (codes "address verifyingContract") w)
  unfolding add_contract
  add_contract-ok p q [] e = (none, tt, cc)
  add_contract-ok p q (x ∷ c) e =
      let (w, u, o) =
        bind_inversion (address (x ∷ c))
          (λ w. ok (add_part p (codes "address verifyingContract") w)) e in
      (some w, u, cc)

  abbrev Separated : Domain → Word → Option Word → Option Word → Type 0
  Separated d s c a =
      ChainWord d.chain_id c
      × ContractWord d.verifying_contract a
      × (s
          ≡ struct_hash keccak
              (type_hash keccak
                (domain_type (parts_of (text_word d.name) (text_word d.version) c a).names))
              (parts_of (text_word d.name) (text_word d.version) c a).fields)

  texts_eq :
      (n v : Bytes)
      → (if is_empty v
          then (if is_empty n
              then no_parts
              else add_part no_parts (codes "string name") (string keccak n))
          else add_part
              (if is_empty n
                then no_parts
                else add_part no_parts (codes "string name") (string keccak n))
              (codes "string version")
              (string keccak v))
        ≡ texts_of (text_word n) (text_word v)
  texts_eq [] [] = refl
  texts_eq [] (y ∷ v) = refl
  texts_eq (x ∷ n) [] = refl
  texts_eq (x ∷ n) (y ∷ v) = refl

  texts :
      (d : Domain) (p : Parts)
      → domain_parts keccak d ≡ ok p
      → add_chain keccak (texts_of (text_word d.name) (text_word d.version)) d.chain_id
          >>= (λ q. add_contract keccak q d.verifying_contract)
        ≡ ok p
  unfolding domain_parts
  texts d p e = rw (sym (texts_eq d.name d.version)) e

  separator-ok :
      (d : Domain) (s : Word)
      → separator keccak d ≡ ok s
      → (c : Option Word) × (a : Option Word) × Separated d s c a
  unfolding separator
  separator-ok d s e =
      let (p, dp, o) =
        bind_inversion (domain_parts keccak d)
          (λ p. ok (struct_hash keccak (type_hash keccak (domain_type p.names)) p.fields)) e in
      let start = texts_of (text_word d.name) (text_word d.version) in
      let (q, chain, rest) =
        bind_inversion (add_chain keccak start d.chain_id)
          (λ q. add_contract keccak q d.verifying_contract) (texts d p dp) in
      let (c, hc, ec) = add_chain-ok start q d.chain_id chain in
      let (a, ha, ea) = add_contract-ok q p d.verifying_contract rest in
      (
        c,
        a,
        (
          hc,
          ha,
          ok_same o
              ∙ ap
                  (λ (t : Parts).
                    struct_hash keccak (type_hash keccak (domain_type t.names)) t.fields)
                  (ea ∙ ap (λ (t : Parts). add_opt t (codes "address verifyingContract") a) ec),
        ),
      )

  text_word-eq : (s t : Bytes) → text_word s ≡ text_word t → (s ≡ t) ⊎ Collision keccak
  unfolding string keccak256
  text_word-eq [] [] e = inl refl
  text_word-eq [] (y ∷ t) e = absurd (cc)
  text_word-eq (x ∷ s) [] e = absurd (cc)
  text_word-eq (x ∷ s) (y ∷ t) e = elim (same_input keccak ((x ∷ s) ++ []) ((y ∷ t) ++ []) (cc)) [
    | inr c ↦ inr c
    | inl same ↦ inl (sym (append-nil (x ∷ s)) ∙ same ∙ append-nil (y ∷ t))
  ]

  chain-eq : (y z : Option ℤ) (v w : Option Word) → ChainWord y v → ChainWord z w → v ≡ w → y ≡ z
  chain-eq none none v w hy hz e = refl
  chain-eq none (some z) none none hy hz e = absurd hz
  chain-eq none (some z) none (some w) hy hz e = absurd (cc)
  chain-eq none (some z) (some v) w hy hz e = absurd hy
  chain-eq (some y) none none w hy hz e = absurd hy
  chain-eq (some y) none (some v) none hy hz e = absurd (cc)
  chain-eq (some y) none (some v) (some w) hy hz e = absurd hz
  chain-eq (some y) (some z) none w hy hz e = absurd hy
  chain-eq (some y) (some z) (some v) none hy hz e = absurd hz
  chain-eq (some y) (some z) (some v) (some w) hy hz e =
      ap some (uint-injective y z v hy (rw (some-injective v w e) hz))

  contract-eq :
      (c d : Bytes) (v w : Option Word)
      → ContractWord c v
      → ContractWord d w
      → v ≡ w
      → (is_empty c ≡ is_empty d) × (address c ≡ address d)
  contract-eq [] [] v w hc hd e = (refl, refl)
  contract-eq [] (y ∷ d) none none hc hd e = absurd hd
  contract-eq [] (y ∷ d) none (some w) hc hd e = absurd (cc)
  contract-eq [] (y ∷ d) (some v) w hc hd e = absurd hc
  contract-eq (x ∷ c) [] none w hc hd e = absurd hc
  contract-eq (x ∷ c) [] (some v) none hc hd e = absurd (cc)
  contract-eq (x ∷ c) [] (some v) (some w) hc hd e = absurd hd
  contract-eq (x ∷ c) (y ∷ d) none w hc hd e = absurd hc
  contract-eq (x ∷ c) (y ∷ d) (some v) none hc hd e = absurd hd
  contract-eq (x ∷ c) (y ∷ d) (some v) (some w) hc hd e =
      (refl, hc ∙ ap ok (some-injective v w e) ∙ sym hd)

  same_fields :
      (d e : Domain) (c a c' a' : Option Word)
      → ChainWord d.chain_id c
      → ContractWord d.verifying_contract a
      → ChainWord e.chain_id c'
      → ContractWord e.verifying_contract a'
      → Same4
          (text_word d.name)
          (text_word d.version)
          c
          a
          (text_word e.name)
          (text_word e.version)
          c'
          a'
      → SameDomain d e ⊎ Collision keccak
  same_fields d e c a c' a' hc ha hc' ha' (en, ev, ec, ea) = elim (text_word-eq d.name e.name en) [
    | inr x ↦ inr x
    | inl name ↦ elim (text_word-eq d.version e.version ev) [
      | inr x ↦ inr x
      | inl version ↦
          let (missing, same) =
            contract-eq d.verifying_contract e.verifying_contract a a' ha ha' ea in
          inl (name, version, chain-eq d.chain_id e.chain_id c c' hc hc' ec, missing, same)
    ]
  ]

  module _ (width : (x : Bytes) → IsWide (keccak x)) where
    text-wide : (s : Bytes) → OptWide (text_word s)
    unfolding string keccak256
    text-wide [] = tt
    text-wide (x ∷ s) = width ((x ∷ s) ++ [])

    parts-IsWide :
        (d : Domain) (c a : Option Word)
        → ChainWord d.chain_id c
        → ContractWord d.verifying_contract a
        → All IsWide (parts_of (text_word d.name) (text_word d.version) c a).fields
    parts-IsWide d c a hc ha =
        add_opt-IsWide _ (codes "address verifyingContract") a
          (add_opt-IsWide _ (codes "uint256 chainId") c
            (add_opt-IsWide _ (codes "string version") (text_word d.version)
              (add_opt-IsWide no_parts (codes "string name") (text_word d.name) tt
                (text-wide d.name))
              (text-wide d.version))
            (chain-wide d.chain_id c hc))
          (contract-wide d.verifying_contract a ha)

    same_type :
        (t t' : Bytes) → type_hash keccak t ≡ type_hash keccak t' → (t ≡ t') ⊎ Collision keccak
    unfolding type_hash keccak256
    same_type t t' e = elim (same_input keccak (t ++ []) (t' ++ []) e) [
      | inr c ↦ inr c
      | inl same ↦ inl (sym (append-nil t) ∙ same ∙ append-nil t')
    ]

    pub type-IsWide : (t : Bytes) → IsWide (type_hash keccak t)
    unfolding type_hash keccak256
    type-IsWide t = width (t ++ [])

    struct-IsWide : (th : Word) (fs : List Word) → IsWide (struct_hash keccak th fs)
    unfolding struct_hash keccak256
    struct-IsWide th fs = width ((th ++ joined fs) ++ [])

    -- Two domains with one separator have the same fields, or a collision of `keccak` is at hand.
    pub separator_binds :
        (d e : Domain) (s : Word)
        → separator keccak d ≡ ok s
        → separator keccak e ≡ ok s
        → SameDomain d e ⊎ Collision keccak
    separator_binds d e s hd he =
        let (c, a, (hc, ha, es)) = separator-ok d s hd in
        let (c', a', (hc', ha', es')) = separator-ok e s he in
        let p = parts_of (text_word d.name) (text_word d.version) c a in
        let q = parts_of (text_word e.name) (text_word e.version) c' a' in
        elim (struct_hash_binds keccak (type_hash keccak (domain_type p.names))
          (type_hash keccak (domain_type q.names)) p.fields q.fields (type-IsWide _) (type-IsWide _)
          (parts-IsWide d c a hc ha) (parts-IsWide e c' a' hc' ha') (sym es ∙ es')) [
            | inr x ↦ inr x
            | inl (types, fields) ↦
                elim (same_type (domain_type p.names) (domain_type q.names) types) [
                  | inr x ↦ inr x
                  | inl declares ↦ same_fields d e c a c' a' hc ha hc' ha' (
                      parts-eq (text_word d.name) (text_word d.version) c a (text_word e.name)
                        (text_word e.version) c' a'
                        (sym (declared-shape (text_word d.name) (text_word d.version) c a)
                          ∙ ap (λ t. declared (length t)) declares
                          ∙ declared-shape (text_word e.name) (text_word e.version) c' a')
                        fields)
                ]
          ]

    separator-IsWide : (d : Domain) (s : Word) → separator keccak d ≡ ok s → IsWide s
    separator-IsWide d s e =
        let (c, a, (hc, ha, es)) = separator-ok d s e in rw es (struct-IsWide _ _)

    -- What a signed digest says. If `keccak` returns 32 bytes and the fields are words, two typed values
    -- with one digest have the same domain, type hash and fields, or a collision of `keccak` is at hand.
    pub typed_data_binds :
        (d e : Domain) (s t th th' : Word) (fs fs' : List Word)
        → separator keccak d ≡ ok s
        → separator keccak e ≡ ok t
        → IsWide th
        → IsWide th'
        → All IsWide fs
        → All IsWide fs'
        → digest keccak s (struct_hash keccak th fs) ≡ digest keccak t (struct_hash keccak th' fs')
        → (SameDomain d e × (th ≡ th') × (fs ≡ fs')) ⊎ Collision keccak
    typed_data_binds d e s t th th' fs fs' hd he wt wt' w w' eq =
        elim (digest_binds keccak s t (struct_hash keccak th fs) (struct_hash keccak th' fs')
          (separator-IsWide d s hd) (separator-IsWide e t he) eq) [
            | inr x ↦ inr x
            | inl (domains, structs) ↦
                elim (struct_hash_binds keccak th th' fs fs' wt wt' w w' structs) [
                  | inr x ↦ inr x
                  | inl (types, fields) ↦
                      elim (separator_binds d e s hd (he ∙ ap ok (sym domains))) [
                        | inr x ↦ inr x
                        | inl domain ↦ inl (domain, types, fields)
                      ]
                ]
          ]
