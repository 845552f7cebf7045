-- ===== src/Rlp/Decode.antt =====
-- A reader of RLP, written from the format and not from the code: what an encoding is measured by.
use go_polymarket.Base.{
  ℕ, zero, suc, ◌-◌, Option, none, some, List, [], ◌∷◌, ltb, if◌then◌else◌, length, take, drop,
}
use go_polymarket.Base.Bytes.{Bytes}
use go_polymarket.Base.Word.{be_value}

pub data Kind : Type 0 where
  str seq : Kind

-- One item: its kind, its payload, and the bytes that follow.
abbrev pub Item : Type 0
Item = Kind × Bytes

-- A payload of `n` bytes.
unfoldable pub payload_of : Kind → ℕ → Bytes → Option (Item × Bytes)
payload_of k n bs = if ltb (length bs) n then none else some ((k, take n bs), drop n bs)

-- A payload whose length stands in the next `m` bytes.
unfoldable pub long_payload : Kind → ℕ → Bytes → Option (Item × Bytes)
unfolding payload_of
long_payload k m bs =
    if ltb (length bs) m then none else payload_of k (be_value (take m bs)) (drop m bs)

unfoldable pub split : Bytes → Option (Item × Bytes)
split [] = none
split (p ∷ bs) =
    if ltb p 0x80
    then some ((Kind.str, p ∷ []), bs)
    else if ltb p 0xb8
    then payload_of Kind.str (p - 0x80) bs
    else if ltb p 0xc0
    then long_payload Kind.str (p - 0xb7) bs
    else if ltb p 0xf8
    then payload_of Kind.seq (p - 0xc0) bs
    else long_payload Kind.seq (p - 0xf7) bs

-- The items of a payload, with fuel for one round each.
unfoldable pub split_all : ℕ → Bytes → Option (List Item)
split_all f [] = some []
split_all zero (b ∷ bs) = none
split_all (suc f) (b ∷ bs) = elim (split (b ∷ bs)) [
  | none ↦ none
  | some (item, rest) ↦ elim (split_all f rest) [ none ↦ none | some items ↦ some (item ∷ items) ]
]
