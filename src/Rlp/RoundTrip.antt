-- ===== src/Rlp/RoundTrip.antt =====
-- What `string` and `list` write is read back, with whatever follows it left over.
use go_polymarket.Base.{
  ℕ, zero, suc, ◌+◌, ◌%◌, ◌^◌, ◌≤◌, ◌<◌, ◌≡◌, sym, ◌∙◌, inl, inr, some, List, [], ◌∷◌, ◌++◌,
  append_assoc, append-nil, arith, ltb, leb, le→ltb, Bool-cases, length, length-append,
  take-length-append, drop-length-append,
}
use go_polymarket.Base.Bytes.{Bytes}
use go_polymarket.Base.Word.{
  int_bytes, byte_len, byte_len-le, byte_len-fits, length-int_bytes, be_value-int_bytes,
}
use go_polymarket.Rlp.{header, string, list, append_items}
use go_polymarket.Rlp.Decode.{Kind, payload_of, long_payload, split}

payload_of-append :
    (k : Kind) (p rest : Bytes) → payload_of k (length p) (p ++ rest) ≡ some ((k, p), rest)
unfolding payload_of
payload_of-append k p rest = rw (
  le→ltb (length (p ++ rest)) (length p) (omega (arith, length-append p rest)),
  take-length-append p rest,
  drop-length-append p rest,
)

long_payload-append :
    (k : Kind) (p rest : Bytes)
    → long_payload k (length (int_bytes (length p))) (int_bytes (length p) ++ (p ++ rest))
      ≡ some ((k, p), rest)
unfolding long_payload
long_payload-append k p rest =
    let size = int_bytes (length p) in
    rw
      (
        le→ltb (length (size ++ (p ++ rest))) (length size)
            (omega (arith, length-append size (p ++ rest))),
        take-length-append size (p ++ rest),
        drop-length-append size (p ++ rest),
        be_value-int_bytes (length p),
      )
      (payload_of-append k p rest)

-- What the first byte says, for each of the four forms with a prefix.
module _ (n : ℕ) (bs : Bytes) where
  short_str : n ≤ 55 → split (((0x80 + n) % 256) ∷ bs) ≡ payload_of Kind.str n bs
  unfolding split
  short_str h = ground arith

  short_seq : n ≤ 55 → split (((0xc0 + n) % 256) ∷ bs) ≡ payload_of Kind.seq n bs
  unfolding split
  short_seq h = ground arith

  long_str : 1 ≤ n → n ≤ 8 → split (((0xb7 + n) % 256) ∷ bs) ≡ long_payload Kind.str n bs
  unfolding split
  long_str h k = ground arith

  long_seq : 1 ≤ n → n ≤ 8 → split (((0xf7 + n) % 256) ∷ bs) ≡ long_payload Kind.seq n bs
  unfolding split
  long_seq h k = ground arith

-- A length that takes more than the prefix byte takes one to eight bytes.
size_bounds :
    (n : ℕ) → 55 < n → n < 2 ^ 64 → (1 ≤ length (int_bytes n)) × (length (int_bytes n) ≤ 8)
size_bounds n h k =
    rw length-int_bytes (positive (byte_len n) (byte_len-fits n), byte_len-le n 8 (omega arith))
  where
    positive : (l : ℕ) → n < 256 ^ l → 1 ≤ l
    positive zero e = absurd (omega arith)
    positive (suc l) e = omega arith

module _ (p rest : Bytes) (fits : length p < 2 ^ 64) where
  split-header_str : split ((header (length p) 0x80 0xb7 ++ p) ++ rest) ≡ some ((Kind.str, p), rest)
  unfolding header
  split-header_str = rw append_assoc (elim (Bool-cases (leb (length p) 55)) [
    | inl short ↦
        rw short
          (short_str (length p) (p ++ rest) (ground arith) ∙ payload_of-append Kind.str p rest)
    | inr long ↦
        let b = size_bounds (length p) (ground arith) fits in
        rw long (long_str _ _ b.0 b.1 ∙ long_payload-append Kind.str p rest)
  ])

  split-header_seq : split ((header (length p) 0xc0 0xf7 ++ p) ++ rest) ≡ some ((Kind.seq, p), rest)
  unfolding header
  split-header_seq = rw append_assoc (elim (Bool-cases (leb (length p) 55)) [
    | inl short ↦
        rw short
          (short_seq (length p) (p ++ rest) (ground arith) ∙ payload_of-append Kind.seq p rest)
    | inr long ↦
        let b = size_bounds (length p) (ground arith) fits in
        rw long (long_seq _ _ b.0 b.1 ∙ long_payload-append Kind.seq p rest)
  ])

-- A byte string of fewer than 2^64 bytes is read back from its encoding, and what follows the
-- encoding is left over.
pub split-string :
    (b rest : Bytes) → length b < 2 ^ 64 → split (string b ++ rest) ≡ some ((Kind.str, b), rest)
unfolding string
split-string [] rest h = split-header_str [] rest h
split-string (x ∷ []) rest h = elim (Bool-cases (ltb x 0x80)) [
  | inl own ↦ rw own (unfold split in ground arith)
  | inr more ↦ rw more (split-header_str (x ∷ []) rest h)
]
split-string (x ∷ y ∷ r) rest h = split-header_str (x ∷ y ∷ r) rest h

-- The bytes of the items of a list, one after the other.
abbrev pub joined : List Bytes → Bytes
joined [] = []
joined (b ∷ bs) = b ++ joined bs

pub append_items-joined :
    (acc : Bytes) (items : List Bytes) → append_items acc items ≡ acc ++ joined items
append_items-joined acc [] = sym (append-nil acc)
append_items-joined acc (b ∷ bs) =
    append_items-joined (acc ++ b) bs ∙ append_assoc acc b (joined bs)

-- A list whose items take fewer than 2^64 bytes is read back as one item whose payload is the items,
-- one after the other, and what follows the encoding is left over.
pub split-list :
    (items : List Bytes) (rest : Bytes)
    → length (joined items) < 2 ^ 64
    → split (list items ++ rest) ≡ some ((Kind.seq, joined items), rest)
unfolding list
split-list items rest h = rw (append_items-joined [] items) (split-header_seq (joined items) rest h)
