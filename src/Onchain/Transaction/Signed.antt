-- ===== src/Onchain/Transaction/Signed.antt =====
-- What the signed bytes of a transaction say: an RLP reader gets the nine fields back from them.
use go_polymarket.Base.{
  suc, ◌^◌, ◌≤◌, ◌<◌, ◌≡◌, refl, sym, ap, ◌∙◌, subst, not, Option, none, some, List, [], ◌∷◌, map,
  arith, ◌==◌, length, length-append, All, append-nil, Result, ok, bind_inversion, guarded,
  Bool-cases, inl, inr,
}
use go_polymarket.Base.Bytes.{Bytes}
use go_polymarket.Base.Int.{ℤ, pos, negsuc}
use go_polymarket.Base.Word.{int_bytes}
use go_polymarket.Rlp.{
  uint, uint64, string, list, header, is_own_encoding, string_offset, string_long_offset,
  list_offset, list_long_offset,
}
use go_polymarket.Rlp.Decode.{Kind, Item, split, split_all}
use go_polymarket.Rlp.RoundTrip.{joined, split-list, append_items-joined}
use go_polymarket.Rlp.Canonical.{Part, leaf, branch, encode_part, item_of, Fits, split_all-joined}
use go_polymarket.Onchain.Transaction.{
  OnchainError, Transaction, item, recipient, check_fees, is_positive, fields, unsigned,
  no_chain_id, no_gas,
}

-- The shortest bytes of an integer that is there, and no bytes for one that is not.
abbrev pub int_part : Option ℤ → Bytes
int_part none = []
int_part (some (pos n)) = int_bytes n
int_part (some (negsuc n)) = []

abbrev pub parts : Transaction → Bytes → List Part
parts t to =
    leaf (int_part t.chain_id)
    ∷ leaf (int_bytes t.nonce)
    ∷ leaf (int_part t.max_priority_fee_per_gas)
    ∷ leaf (int_part t.max_fee_per_gas)
    ∷ leaf (int_bytes t.gas)
    ∷ leaf to
    ∷ leaf (int_part t.value)
    ∷ leaf t.data_
    ∷ branch []
    ∷ []

item-ok : (x : Option ℤ) (b : Bytes) → item x ≡ ok b → b ≡ string (int_part x)
unfolding uint
item-ok none b e = cc
item-ok (some (pos n)) b e = cc
item-ok (some (negsuc n)) b e = absurd (cc)

pub result_of {ℓ} : {A : Type ℓ} {a b : A} → Path (Result OnchainError A) (ok a) (ok b) → b ≡ a
result_of e = cc

items-parts :
    (t : Transaction) (to c p f v : Bytes)
    → c ≡ string (int_part t.chain_id)
    → p ≡ string (int_part t.max_priority_fee_per_gas)
    → f ≡ string (int_part t.max_fee_per_gas)
    → v ≡ string (int_part t.value)
    → (c ∷ uint64 t.nonce ∷ p ∷ f ∷ uint64 t.gas ∷ string to ∷ v ∷ string t.data_ ∷ list [] ∷ [])
      ≡ map encode_part (parts t to)
unfolding uint64 encode_part
items-parts t to c p f v ec ep ef ev = rw (ec, ep, ef, ev) refl

pub fields-parts :
    (t : Transaction) (fs : List Bytes)
    → fields t ≡ ok fs
    → (to : Bytes) × (recipient t.to ≡ ok to) × (fs ≡ map encode_part (parts t to))
unfolding fields
fields-parts t fs e =
    let (_, e₁) = guarded (is_positive t.chain_id) no_chain_id _ e in
    let (_, _, e₂) =
      bind_inversion (check_fees t.max_fee_per_gas t.max_priority_fee_per_gas) _ e₁ in
    let (_, e₃) = guarded (not (t.gas == 0)) no_gas _ e₂ in
    let (c, ec, e₄) = bind_inversion (item t.chain_id) _ e₃ in
    let (p, ep, e₅) = bind_inversion (item t.max_priority_fee_per_gas) _ e₄ in
    let (f, ef, e₆) = bind_inversion (item t.max_fee_per_gas) _ e₅ in
    let (v, ev, e₇) = bind_inversion (item t.value) _ e₆ in
    let (to, eto, e₈) = bind_inversion (recipient t.to) _ e₇ in
    (
      to,
      eto,
      result_of e₈
          ∙ items-parts t to c p f v (item-ok t.chain_id c ec)
              (item-ok t.max_priority_fee_per_gas p ep) (item-ok t.max_fee_per_gas f ef)
              (item-ok t.value v ev),
    )

-- The bytes that follow the type byte, read to the end: one list, and its items.
abbrev pub ReadAs : Bytes → List Item → Type 0
ReadAs bs items =
    (payload : Bytes) × (split bs ≡ some ((Kind.seq, payload), []))
    × (split_all (length items) payload ≡ some items)

length-map : (ps : List Part) → length (map item_of ps) ≡ length ps
length-map [] = refl
length-map (p ∷ ps) = ap suc (length-map ps)

list-ReadAs :
    (ps : List Part)
    → All Fits ps
    → length (joined (map encode_part ps)) < 2 ^ 64
    → ReadAs (list (map encode_part ps)) (map item_of ps)
list-ReadAs ps fit h = (
  joined (map encode_part ps),
  subst (λ bs. split bs ≡ some ((Kind.seq, joined (map encode_part ps)), []))
      (append-nil (list (map encode_part ps))) (split-list (map encode_part ps) [] h),
  rw (length-map ps) (split_all-joined ps fit),
)

length-string-le : (b : Bytes) → length b ≤ length (string b)
unfolding string
length-string-le b = elim (Bool-cases (is_own_encoding b)) [
  | inl own ↦ rw own (omega arith)
  | inr more ↦
      rw more (omega (arith, length-append (header (length b) string_offset string_long_offset) b))
]

pub length-list-le : (items : List Bytes) → length (joined items) ≤ length (list items)
unfolding list
length-list-le items = rw (append_items-joined [] items) (
    omega (
      arith,
      length-append (header (length (joined items)) list_offset list_long_offset) (joined items),
    ))

Fits-of_length : (p : Part) → length (encode_part p) < 2 ^ 64 → Fits p
unfolding encode_part
Fits-of_length (leaf b) h = omega (arith, h, length-string-le b)
Fits-of_length (branch items) h = omega (arith, h, length-list-le items)

-- Parts whose encoding is short are short.
Fits-joined : (ps : List Part) → length (joined (map encode_part ps)) < 2 ^ 64 → All Fits ps
Fits-joined [] h = tt
Fits-joined (p ∷ ps) h =
    let split_len = length-append (encode_part p) (joined (map encode_part ps)) in
    (Fits-of_length p (omega (arith, h, split_len)), Fits-joined ps (omega (arith, h, split_len)))

pub short-ReadAs :
    (ps : List Part)
    → length (joined (map encode_part ps)) < 2 ^ 64
    → ReadAs (list (map encode_part ps)) (map item_of ps)
short-ReadAs ps h = list-ReadAs ps (Fits-joined ps h) h

-- The items of a transaction's fields, in the order of the format.
abbrev pub field_items : Transaction → Bytes → List Item
field_items t to =
    (Kind.str, int_part t.chain_id)
    ∷ (Kind.str, int_bytes t.nonce)
    ∷ (Kind.str, int_part t.max_priority_fee_per_gas)
    ∷ (Kind.str, int_part t.max_fee_per_gas)
    ∷ (Kind.str, int_bytes t.gas)
    ∷ (Kind.str, to)
    ∷ (Kind.str, int_part t.value)
    ∷ (Kind.str, t.data_)
    ∷ (Kind.seq, [])
    ∷ []

-- The bytes that a signature covers, if they are fewer than 2^64, are the type byte and one RLP list. Its
-- items are the nine fields: each integer by its shortest bytes, the 20 bytes of the recipient or none,
-- the calldata, and an empty list.
pub unsigned_decodes :
    (t : Transaction) (raw : Bytes)
    → unsigned t ≡ ok raw
    → length raw < 2 ^ 64
    → (to : Bytes) × (encoded : Bytes) × (recipient t.to ≡ ok to)
      × (raw ≡ 0x02 ∷ encoded)
      × ReadAs encoded (field_items t to)
unfolding unsigned item_of
unsigned_decodes t raw e h =
    let (fs, ef, er) = bind_inversion (fields t) _ e in
    let (to, eto, eq) = fields-parts t fs ef in
    (
      to,
      list fs,
      eto,
      result_of er,
      subst (λ xs. ReadAs (list xs) (field_items t to)) (sym eq)
          (short-ReadAs (parts t to) (
            omega (
              arith,
              h,
              ap length (result_of er),
              ap (λ xs. length (list xs)) eq,
              length-list-le (map encode_part (parts t to)),
            ))),
    )
