-- ===== src/Rlp/Canonical.antt =====
-- Sequences of items, and the shortest form of integers.
use go_polymarket.Base.{
  ℕ, suc, ◌^◌, ◌<◌, ◌≡◌, ◌≢◌, refl, some, List, [], ◌∷◌, ◌++◌, map, arith, length, ok, All,
}
use go_polymarket.Base.Bytes.{Bytes}
use go_polymarket.Base.Word.{
  be_value, int_bytes, byte_len-le, length-int_bytes, be_value-int_bytes, head-int_bytes,
}
use go_polymarket.Base.Int.{pos}
use go_polymarket.Rlp.{string, list, uint}
use go_polymarket.Rlp.Decode.{Kind, Item, split, split_all}
use go_polymarket.Rlp.RoundTrip.{split-string, split-list, joined}

-- What one call of the encoder is given: a byte string, or the encoded items of a list.
pub data Part : Type 0 where
  leaf : Bytes → Part
  branch : List Bytes → Part

unfoldable pub encode_part : Part → Bytes
encode_part (leaf b) = string b
encode_part (branch items) = list items

unfoldable pub item_of : Part → Item
item_of (leaf b) = (Kind.str, b)
item_of (branch items) = (Kind.seq, joined items)

-- The payload has fewer than 2^64 bytes.
abbrev pub Fits : Part → Type 0
Fits (leaf b) = length b < 2 ^ 64
Fits (branch items) = length (joined items) < 2 ^ 64

split-encode_part :
    (p : Part) (rest : Bytes) → Fits p → split (encode_part p ++ rest) ≡ some (item_of p, rest)
unfolding encode_part item_of
split-encode_part (leaf b) rest h = split-string b rest h
split-encode_part (branch items) rest h = split-list items rest h

split_all_step :
    (f : ℕ) (bs rest : Bytes) (item : Item) (items : List Item)
    → split bs ≡ some (item, rest)
    → split_all f rest ≡ some items
    → split_all (suc f) bs ≡ some (item ∷ items)
split_all_step f [] rest item items e h = unfold split in cc
split_all_step f (b ∷ bs) rest item items e h = unfold split_all in ground arith

-- The payload of a list determines its items: reading the encodings of any parts, one after the
-- other, gives the kind and content of each part, in order and with nothing left over.
pub split_all-joined :
    (ps : List Part)
    → All Fits ps
    → split_all (length ps) (joined (map encode_part ps)) ≡ some (map item_of ps)
split_all-joined [] h = unfold split_all in refl
split_all-joined (p ∷ ps) h =
    split_all_step (length ps) _ (joined (map encode_part ps)) (item_of p) (map item_of ps)
      (split-encode_part p (joined (map encode_part ps)) h.0) (split_all-joined ps h.1)

abbrev pub NoLeadingZero : Bytes → Type 0
NoLeadingZero [] = Unit
NoLeadingZero (b ∷ bs) = b ≢ 0

no_leading_zero :
    (payload : Bytes) → ((b : ℕ) (bs : Bytes) → payload ≡ b ∷ bs → b ≢ 0) → NoLeadingZero payload
no_leading_zero [] h = tt
no_leading_zero (b ∷ bs) h = h b bs refl

-- Integers below 2^512 have encodings whose payload is the shortest big-endian form: it stands for
-- the integer, and no zero byte leads it. A negative integer is an error.
pub uint_canonical :
    (n : ℕ) (rest : Bytes)
    → n < 2 ^ 512
    → (e : Bytes) × (uint (some (pos n)) ≡ ok e)
      × (payload : Bytes) × (split (e ++ rest) ≡ some ((Kind.str, payload), rest))
      × (be_value payload ≡ n)
      × NoLeadingZero payload
unfolding uint
uint_canonical n rest h = (
  string (int_bytes n),
  refl,
  int_bytes n,
  split-string (int_bytes n) rest (omega (arith, length-int_bytes n, byte_len-le n 64 h)),
  be_value-int_bytes n,
  no_leading_zero (int_bytes n) (head-int_bytes n),
)
