-- ===== src/Onchain/Transaction/Binding.antt =====
-- The signed bytes of a transaction determine it.
use go_polymarket.Base.{
  ℕ, zero, suc, ◌^◌, ◌<◌, ◌≡◌, refl, sym, ap, ◌∙◌, subst, Option, none, some, List, [], ◌∷◌, length,
  ok,
}
use mathlib.Core.Option.{some-injective}
use go_polymarket.Base.Bytes.{Bytes}
use go_polymarket.Base.Int.{ℤ, pos, negsuc}
use go_polymarket.Base.Word.{int_bytes, be_value, be_value_from, be_value-int_bytes}
use go_polymarket.Rlp.Decode.{Item}
use go_polymarket.Onchain.Transaction.{Transaction, recipient, unsigned}
use go_polymarket.Onchain.Transaction.Signed.{int_part, ReadAs, field_items, unsigned_decodes}

-- The number that an integer field stands for; a missing one stands for zero, and a negative one is
-- refused.
abbrev pub number : Option ℤ → ℕ
number none = 0
number (some (pos n)) = n
number (some (negsuc n)) = 0

number-int_part : (x : Option ℤ) → number x ≡ be_value (int_part x)
number-int_part none = unfold be_value be_value_from in refl
number-int_part (some (pos n)) = sym (be_value-int_bytes n)
number-int_part (some (negsuc n)) = unfold be_value be_value_from in refl

ReadAs-unique :
    (bs : Bytes) (is js : List Item) → length is ≡ length js → ReadAs bs is → ReadAs bs js → is ≡ js
ReadAs-unique bs is js len (p, sp, ip) (q, sq, jq) =
    let payloads = ap (λ (o : Item × Bytes). o.0.1) (some-injective _ _ (sym sp ∙ sq)) in
    some-injective is js (sym ip ∙ rw (len, payloads) jq)

-- The same numbers, recipient and calldata.
abbrev pub SameTransaction : Transaction → Transaction → Type 0
SameTransaction t u =
    (number t.chain_id ≡ number u.chain_id)
    × (t.nonce ≡ u.nonce)
    × (number t.max_priority_fee_per_gas ≡ number u.max_priority_fee_per_gas)
    × (number t.max_fee_per_gas ≡ number u.max_fee_per_gas)
    × (t.gas ≡ u.gas)
    × (recipient t.to ≡ recipient u.to)
    × (number t.value ≡ number u.value)
    × (t.data_ ≡ u.data_)

same_number : (x y : Option ℤ) → int_part x ≡ int_part y → number x ≡ number y
same_number x y e = number-int_part x ∙ ap be_value e ∙ sym (number-int_part y)

abbrev payload_at : ℕ → List Item → Bytes
payload_at n [] = []
payload_at zero (i ∷ is) = i.1
payload_at (suc n) (i ∷ is) = payload_at n is

same_nat : (m n : ℕ) → int_bytes m ≡ int_bytes n → m ≡ n
same_nat m n e = sym (be_value-int_bytes m) ∙ ap be_value e ∙ be_value-int_bytes n

items-Same :
    (t u : Transaction) (to to' : Bytes)
    → recipient t.to ≡ ok to
    → recipient u.to ≡ ok to'
    → field_items t to ≡ field_items u to'
    → SameTransaction t u
items-Same t u to to' rt ru e = (
  same_number t.chain_id u.chain_id (ap (payload_at 0) e),
  same_nat t.nonce u.nonce (ap (payload_at 1) e),
  same_number t.max_priority_fee_per_gas u.max_priority_fee_per_gas (ap (payload_at 2) e),
  same_number t.max_fee_per_gas u.max_fee_per_gas (ap (payload_at 3) e),
  same_nat t.gas u.gas (ap (payload_at 4) e),
  rt ∙ ap ok (ap (payload_at 5) e) ∙ sym ru,
  same_number t.value u.value (ap (payload_at 6) e),
  ap (payload_at 7) e,
)

tail_of : {x : ℕ} {a b : Bytes} → Path Bytes (x ∷ a) (x ∷ b) → a ≡ b
tail_of e = cc

-- Two transactions whose signed bytes are equal, and fewer than 2^64, are the same transaction.
pub unsigned_binds :
    (t u : Transaction) (raw : Bytes)
    → unsigned t ≡ ok raw
    → unsigned u ≡ ok raw
    → length raw < 2 ^ 64
    → SameTransaction t u
unsigned_binds t u raw et eu h =
    let (to, bs, rt, eb, ra) = unsigned_decodes t raw et h in
    let (to', bs', rt', eb', ra') = unsigned_decodes u raw eu h in
    let same =
      ReadAs-unique bs (field_items t to) (field_items u to') refl ra
        (subst (λ b. ReadAs b (field_items u to')) (tail_of (sym eb' ∙ eb)) ra') in
    items-Same t u to to' rt rt' same
