-- ===== src/Onchain/Token/Missing.antt =====
-- Which approvals an account lacks, on a chain whose token contracts answer as their standards say.
use go_polymarket.Base.{
  ℕ, ◌^◌, is_ok, is_ok→ok, ◌<◌, ◌≡◌, refl, sym, ap, ◌∙◌, subst, Bool, true, false, not, Bool-cases,
  inl, inr, Option, none, some, List, [], ◌∷◌, ◌++◌, ◌==◌, append-nil, if◌then◌else◌, arith, take,
  take-length-append, All, All-append, map, err, Result, ok,
}
use go_polymarket.Base.Bytes.{Bytes, codes}
use go_polymarket.Base.Hex.{decode_hex, trim_0x}
use go_polymarket.Base.Int.{ℤ, pos, negsuc, ltb_ℤ}
use go_polymarket.Base.Word.{be_bytes, length-be_bytes, be_value-be_bytes}
use go_polymarket.Eip712.{Error, Word, address, decode_hex_of}
use go_polymarket.Abi.{encode_call}
use go_polymarket.Protocol.{
  Contracts, contracts_for, chain_polygon, chain_amoy, polygon_contracts, amoy_contracts,
}
use go_polymarket.Onchain.Token.{
  Approval, TokenStandard, erc20, erc1155, other_standard, allowance_sig, is_approved_for_all_sig,
  call_uint, allowance, is_approved_for_all, lacks, missing_from, required_approvals,
  missing_approvals,
}

take_word : (n : ℕ) → take 32 (be_bytes 32 n) ≡ be_bytes 32 n
take_word n =
    ap (λ b. take 32 b) (sym (append-nil (be_bytes 32 n)))
    ∙ subst (λ k. take k (be_bytes 32 n ++ []) ≡ be_bytes 32 n) (length-be_bytes 32 n)
        (take-length-append (be_bytes 32 n) [])

-- The elements that pass a test, in order.
abbrev pub filter {ℓ} : {A : Type ℓ} → (A → Bool) → List A → List A
filter test [] = []
filter test (x ∷ xs) = if test x then x ∷ filter test xs else filter test xs

-- The approval of a contract, by its name and address, for a token.
abbrev grant : TokenStandard → Bytes → Bytes × Bytes → Approval
grant standard token s = record {
  standard = standard;
  token = token;
  spender = s.1;
  spender_name = s.0;
}

-- The contracts that an account must approve.
abbrev pub spenders_of : Contracts → List (Bytes × Bytes)
spenders_of c =
    (codes "exchange", c.exchange)
    ∷ (codes "neg-risk exchange", c.neg_risk_exchange)
    ∷ (codes "exchange v2", c.exchange_v2)
    ∷ (codes "neg-risk exchange v2", c.neg_risk_exchange_v2)
    ∷ (codes "exchange v3", c.exchange_v3)
    ∷ (codes "neg-risk adapter", c.neg_risk_adapter)
    ∷ []

-- Each of them for the collateral, and then each for the outcome tokens.
abbrev pub all_approvals : Contracts → List Approval
all_approvals c =
    map (grant erc20 c.collateral) (spenders_of c)
    ++ map (grant erc1155 c.conditional_tokens) (spenders_of c)

-- On a chain that is known, all of them are required, and their spenders are addresses.
abbrev IsComplete : Contracts → Type 0
IsComplete c =
    (required_approvals c ≡ all_approvals c)
    × All (λ (s : Bytes × Bytes). is_ok (address s.1) ≡ true) (spenders_of c)

polygon-IsComplete : IsComplete polygon_contracts
unfolding required_approvals address decode_hex_of decode_hex trim_0x
polygon-IsComplete = (refl, (refl, (refl, (refl, (refl, (refl, (refl, tt)))))))

amoy-IsComplete : IsComplete amoy_contracts
unfolding required_approvals address decode_hex_of decode_hex trim_0x
amoy-IsComplete = (refl, (refl, (refl, (refl, (refl, (refl, (refl, tt)))))))

contracts_for-IsComplete :
    (chain_id : ℤ) (c : Contracts) → contracts_for chain_id ≡ some c → IsComplete c
unfolding contracts_for
contracts_for-IsComplete (negsuc n) c e = absurd (cc)
contracts_for-IsComplete (pos n) c e = elim (Bool-cases (n == chain_polygon)) [
  | inl polygon ↦
      let known : Path (Option Contracts) (some polygon_contracts) (some c) = simp polygon at e in
      subst IsComplete (same known) polygon-IsComplete
  | inr other ↦ elim (Bool-cases (n == chain_amoy)) [
    | inl amoy ↦
        let known : Path (Option Contracts) (some amoy_contracts) (some c) =
          simp (other, amoy) at e in
        subst IsComplete (same known) amoy-IsComplete
    | inr unknown ↦
        let known : Path (Option Contracts) none (some c) = simp (other, unknown) at e in
        absurd (cc)
  ]
]
  where
    same : {a b : Contracts} → Path (Option Contracts) (some a) (some b) → a ≡ b
    same e = cc

-- The word of an address; what is no address has none.
abbrev pub word_or_none : Result Error Word → Word
word_or_none (ok w) = w
word_or_none (err x) = []

module _ (keccak : Bytes → Bytes) {E : Type 0} (call : Bytes → Bytes → Result E Bytes)
    (c : Contracts) (allowed : Word → ℕ) (operator : Word → Bool) where
  -- What the two token contracts record for an owner and a spender's address is what they answer: the collateral an
  -- allowance below 2^256, the outcome tokens a flag, as words.
  abbrev pub Answers : Word → Type 0
  Answers o =
      (spender : Bytes) (s : Word)
      → address spender ≡ ok s
      → (call c.collateral (encode_call keccak allowance_sig (o ∷ s ∷ []))
          ≡ ok (be_bytes 32 (allowed s)))
        × (allowed s < 2 ^ 256)
        × (call c.conditional_tokens (encode_call keccak is_approved_for_all_sig (o ∷ s ∷ []))
            ≡ ok (be_bytes 32 (if operator s then 1 else 0)))

  -- An approval that has not been granted: no allowance if none is wanted, less than is wanted, or no flag.
  abbrev pub ungranted : Option ℤ → Approval → Bool
  ungranted want a = elim a.standard [
    | erc20 ↦ elim want [
      | none ↦ allowed (word_or_none (address a.spender)) == 0
      | some z ↦ ltb_ℤ (pos (allowed (word_or_none (address a.spender)))) z
    ]
    | erc1155 ↦ not (operator (word_or_none (address a.spender)))
    | other_standard n ↦ false
  ]

  call_uint-word :
      (to payload : Bytes) (n : ℕ)
      → n < 2 ^ 256
      → call to payload ≡ ok (be_bytes 32 n)
      → call_uint keccak call to payload ≡ ok n
  unfolding call_uint
  call_uint-word to payload n h e =
      rw (e, length-be_bytes 32 n, take_word n, be_value-be_bytes 32 n (omega (arith, h))) refl

  module _ (owner : Bytes) (o : Word) (eo : address owner ≡ ok o) (honest : Answers o) where
    allowance-word :
        (spender : Bytes) (s : Word)
        → address spender ≡ ok s
        → allowance keccak call c.collateral owner spender ≡ ok (allowed s)
    unfolding allowance
    allowance-word spender s es =
        let (answered, small, _) = honest spender s es in
        rw (eo, es)
          (call_uint-word c.collateral (encode_call keccak allowance_sig (o ∷ s ∷ [])) (allowed s)
            small answered)

    flag_not_zero : (b : Bool) → not ((if b then 1 else 0) == 0) ≡ b
    flag_not_zero true = refl
    flag_not_zero false = refl

    flag_small : (b : Bool) → (if b then 1 else 0) < 2 ^ 256
    flag_small true = omega arith
    flag_small false = omega arith

    is_approved_for_all-flag :
        (spender : Bytes) (s : Word)
        → address spender ≡ ok s
        → is_approved_for_all keccak call c.conditional_tokens owner spender ≡ ok (operator s)
    unfolding is_approved_for_all
    is_approved_for_all-flag spender s es =
        let (_, _, answered) = honest spender s es in
        rw
          (
            eo,
            es,
            call_uint-word c.conditional_tokens
                (encode_call keccak is_approved_for_all_sig (o ∷ s ∷ []))
                (if operator s then 1 else 0) (flag_small (operator s)) answered,
          )
          (ap ok (flag_not_zero (operator s)))

    -- What a round finds is what is recorded.
    abbrev IsRead : Option ℤ → Approval → Type 0
    IsRead want a = lacks keccak call owner want a ≡ ok (ungranted want a)

    grant-IsRead :
        (want : Option ℤ) (s : Bytes × Bytes)
        → is_ok (address s.1) ≡ true
        → IsRead want (grant erc20 c.collateral s)
          × IsRead want (grant erc1155 c.conditional_tokens s)
    unfolding lacks
    grant-IsRead none s h =
        let (w, e) = is_ok→ok (address s.1) h in
        (rw (allowance-word s.1 w e, e) refl, rw (is_approved_for_all-flag s.1 w e, e) refl)
    grant-IsRead (some z) s h =
        let (w, e) = is_ok→ok (address s.1) h in
        (rw (allowance-word s.1 w e, e) refl, rw (is_approved_for_all-flag s.1 w e, e) refl)

    grants-IsRead :
        (want : Option ℤ) (ss : List (Bytes × Bytes))
        → All (λ (s : Bytes × Bytes). is_ok (address s.1) ≡ true) ss
        → All (IsRead want) (map (grant erc20 c.collateral) ss)
          × All (IsRead want) (map (grant erc1155 c.conditional_tokens) ss)
    grants-IsRead want [] h = (tt, tt)
    grants-IsRead want (s ∷ ss) (h, hs) =
        let (a, b) = grant-IsRead want s h in
        let (as_, bs) = grants-IsRead want ss hs in ((a, as_), (b, bs))

    missing_from-filter :
        (want : Option ℤ) (approvals : List Approval)
        → All (IsRead want) approvals
        → missing_from keccak call owner want approvals ≡ ok (filter (ungranted want) approvals)
    unfolding missing_from
    missing_from-filter want [] h = refl
    missing_from-filter want (a ∷ approvals) (h, hs) =
        rw (h, missing_from-filter want approvals hs) refl

    -- On a chain that is known, if the owner is an address and the two token contracts answer what they record for an
    -- address, then `MissingApprovals` succeeds and returns, of the approvals of the six contracts for the collateral and then
    -- for the outcome tokens, those that have not been granted, in order.
    pub missing_approvals_exact :
        (chain_id : ℤ) (want : Option ℤ)
        → contracts_for chain_id ≡ some c
        → missing_approvals keccak call chain_id owner want
          ≡ ok (filter (ungranted want) (all_approvals c))
    unfolding missing_approvals
    missing_approvals_exact chain_id want e =
        let (complete, addressed) = contracts_for-IsComplete chain_id c e in
        let (erc20s, erc1155s) = grants-IsRead want (spenders_of c) addressed in
        rw (e, complete)
          (missing_from-filter want (all_approvals c) (
            All-append (IsRead want) (map (grant erc20 c.collateral) (spenders_of c))
              (map (grant erc1155 c.conditional_tokens) (spenders_of c)) erc20s erc1155s))
