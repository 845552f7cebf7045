-- ===== src/Abi/Layout.antt =====
-- The layout of an argument list: a static argument is in the head, a dynamic one is where its offset
-- says, counted from the start of the list.
use go_polymarket.Base.{
  ℕ, ◌+◌, ◌^◌, ◌≤◌, ◌<◌, ◌≡◌, refl, sym, ap, ◌∙◌, Bool, true, List, [], ◌∷◌, ◌++◌, arith,
  if◌then◌else◌, Bool-cases, inl, inr, length, length-append, take, drop, take-length-append,
  drop-length-append, append_assoc, append-nil,
}
use go_polymarket.Base.Bytes.{Bytes}
use go_polymarket.Base.Word.{be_value, be_value-be_bytes}
use go_polymarket.Abi.{Arg, uint64, uint64_loop, head_size, lay_out, assemble}
use go_polymarket.Abi.Words.{uint64-be_bytes}

-- The bytes that an argument takes in the head.
abbrev pub width : Arg → ℕ
width a = if a.dynamic then 32 else length a.head

abbrev pub widths : List Arg → ℕ
widths [] = 0
widths (a ∷ args) = width a + widths args

-- What it adds to the tail.
abbrev pub tail_of : Arg → Bytes
tail_of a = if a.dynamic then a.tail else []

abbrev pub tails : List Arg → Bytes
tails [] = []
tails (a ∷ args) = tail_of a ++ tails args

-- What it writes into the head, at a given offset.
abbrev slot : ℕ → Arg → Bytes
slot off a = if a.dynamic then uint64 off else a.head

abbrev slots : ℕ → List Arg → Bytes
slots off [] = []
slots off (a ∷ args) = slot off a ++ slots (off + length (tail_of a)) args

head_size-widths : (n : ℕ) (args : List Arg) → head_size n args ≡ n + widths args
unfolding head_size
head_size-widths n [] = omega arith
head_size-widths n (a ∷ args) = elim (Bool-cases a.dynamic) [
  | inl dyn ↦ rw dyn (omega (arith, head_size-widths (n + 32) args))
  | inr sta ↦ rw sta (omega (arith, head_size-widths (n + length a.head) args))
]

same_pair : {a b c d : Bytes} → a ≡ b → c ≡ d → Path (Bytes × Bytes) (a, c) (b, d)
same_pair p q = rw (p, q) refl

lay_out-slots :
    (size : ℕ) (head tail : Bytes) (args : List Arg)
    → lay_out size head tail args ≡ (head ++ slots (size + length tail) args, tail ++ tails args)
unfolding lay_out
lay_out-slots size head tail [] = rw (append-nil head, append-nil tail) refl
lay_out-slots size head tail (a ∷ args) = elim (Bool-cases a.dynamic) [
  | inl dyn ↦ rw dyn (
      rw (lay_out-slots size (head ++ uint64 (size + length tail)) (tail ++ a.tail) args) (
        same_pair
          (append_assoc head (uint64 (size + length tail)) _
            ∙ ap (λ (n : ℕ). head ++ (uint64 (size + length tail) ++ slots n args))
                {x = size + length (tail ++ a.tail)} {y = size + length tail + length a.tail}
                (omega (arith, length-append tail a.tail)))
          (append_assoc tail a.tail (tails args))))
  | inr sta ↦ rw sta (
      rw (lay_out-slots size (head ++ a.head) tail args) (
        same_pair
          (append_assoc head a.head _
            ∙ ap (λ (n : ℕ). head ++ (a.head ++ slots n args)) {x = size + length tail}
                {y = size + length tail + 0} (omega arith))
          refl))
]

assemble-slots : (args : List Arg) → assemble args ≡ slots (widths args) args ++ tails args
unfolding assemble
assemble-slots args = rw (head_size-widths 0 args) (
    rw (lay_out-slots (0 + widths args) [] [] args) (
      ap (λ (n : ℕ). slots n args ++ tails args) {x = 0 + widths args + 0} {y = widths args}
        (omega arith)))

length-uint64 : (v : ℕ) → length (uint64 v) ≡ 32
unfolding uint64 uint64_loop
length-uint64 v = refl

length-slot : (off : ℕ) (a : Arg) → length (slot off a) ≡ width a
length-slot off a = elim (Bool-cases a.dynamic) [
  | inl dyn ↦ rw dyn (length-uint64 off)
  | inr sta ↦ rw sta refl
]

length-slots : (off : ℕ) (args : List Arg) → length (slots off args) ≡ widths args
length-slots off [] = refl
length-slots off (a ∷ args) =
    length-append (slot off a) (slots (off + length (tail_of a)) args)
    ∙ omega (arith, length-slot off a, length-slots (off + length (tail_of a)) args)

slots-append :
    (off : ℕ) (xs ys : List Arg)
    → slots off (xs ++ ys) ≡ slots off xs ++ slots (off + length (tails xs)) ys
slots-append off [] ys = ap (λ (n : ℕ). slots n ys) {x = off} {y = off + 0} (omega arith)
slots-append off (a ∷ xs) ys = rw (slots-append (off + length (tail_of a)) xs ys) (
    sym (append_assoc (slot off a) (slots (off + length (tail_of a)) xs) _)
    ∙ ap (λ (n : ℕ). slot off a ++ slots (off + length (tail_of a)) xs ++ slots n ys)
        {x = off + length (tail_of a) + length (tails xs)}
        {y = off + length (tail_of a ++ tails xs)}
        (omega (arith, length-append (tail_of a) (tails xs))))

tails-append : (xs ys : List Arg) → tails (xs ++ ys) ≡ tails xs ++ tails ys
tails-append [] ys = refl
tails-append (a ∷ xs) ys =
    rw (tails-append xs ys) (sym (append_assoc (tail_of a) (tails xs) (tails ys)))

-- The `n` bytes from `pos` on.
abbrev pub slice : Bytes → ℕ → ℕ → Bytes
slice bs pos n = take n (drop pos bs)

slice_middle :
    (xs ys zs : Bytes) (pos n : ℕ)
    → pos ≡ length xs
    → n ≡ length ys
    → slice (xs ++ (ys ++ zs)) pos n ≡ ys
slice_middle xs ys zs pos n p e =
    rw (p, e) (rw (drop-length-append xs (ys ++ zs)) (take-length-append ys zs))

-- How a reader gets at an argument of `n` bytes whose place in the head is `pos`.
unfoldable pub read_at : Bytes → ℕ → Bool → ℕ → Bytes
read_at out pos dynamic n =
    if dynamic then slice out (be_value (slice out pos 32)) n else slice out pos n

-- The bytes that the argument stands for.
abbrev pub value : Arg → Bytes
value a = if a.dynamic then a.tail else a.head

-- Where the tail of an argument starts.
abbrev start : List Arg → Arg → List Arg → ℕ
start before a after = widths (before ++ a ∷ after) + length (tails before)

in_head :
    (before after : List Arg) (a : Arg)
    → (rest : Bytes) × (assemble (before ++ a ∷ after)
        ≡ slots (widths (before ++ a ∷ after)) before ++ (slot (start before a after) a ++ rest))
in_head before after a =
    let size = widths (before ++ a ∷ after) in
    let later = slots (start before a after + length (tail_of a)) after in
    (
      later ++ tails (before ++ a ∷ after),
      assemble-slots (before ++ a ∷ after)
          ∙ rw (slots-append size before (a ∷ after)) (
              append_assoc (slots size before) (slot (start before a after) a ++ later) _
              ∙ ap (λ t. slots size before ++ t)
                  (append_assoc (slot (start before a after) a) later _)),
    )

in_tail :
    (before after : List Arg) (a : Arg)
    → assemble (before ++ a ∷ after)
      ≡ (slots (widths (before ++ a ∷ after)) (before ++ a ∷ after) ++ tails before)
        ++ (tail_of a ++ tails after)
in_tail before after a =
    assemble-slots (before ++ a ∷ after)
    ∙ rw (tails-append before (a ∷ after))
        (sym (append_assoc _ (tails before) (tail_of a ++ tails after)))

start-le :
    (before after : List Arg) (a : Arg)
    → start before a after ≤ length (assemble (before ++ a ∷ after))
start-le before after a = rw (in_tail before after a) (
    omega (
      arith,
      length-append (slots (widths (before ++ a ∷ after)) (before ++ a ∷ after) ++ tails before)
          (tail_of a ++ tails after),
      length-append (slots (widths (before ++ a ∷ after)) (before ++ a ∷ after)) (tails before),
      length-slots (widths (before ++ a ∷ after)) (before ++ a ∷ after),
    ))

slice-head :
    (before after : List Arg) (a : Arg)
    → slice (assemble (before ++ a ∷ after)) (widths before) (width a)
      ≡ slot (start before a after) a
slice-head before after a =
    let (rest, e) = in_head before after a in
    rw e (
      slice_middle (slots (widths (before ++ a ∷ after)) before) (slot (start before a after) a)
        rest (widths before) (width a) (sym (length-slots _ before)) (sym (length-slot _ a)))

slice-tail :
    (before after : List Arg) (a : Arg) (n : ℕ)
    → n ≡ length (tail_of a)
    → slice (assemble (before ++ a ∷ after)) (start before a after) n ≡ tail_of a
slice-tail before after a n e = rw (in_tail before after a) (
    slice_middle (slots (widths (before ++ a ∷ after)) (before ++ a ∷ after) ++ tails before)
      (tail_of a) (tails after) (start before a after) n
      (omega (
        arith,
        length-append (slots (widths (before ++ a ∷ after)) (before ++ a ∷ after)) (tails before),
        length-slots (widths (before ++ a ∷ after)) (before ++ a ∷ after),
      ))
      e)

offset_at :
    (before after : List Arg) (a : Arg)
    → a.dynamic ≡ true
    → slice (assemble (before ++ a ∷ after)) (widths before) 32 ≡ uint64 (start before a after)
offset_at before after a dyn =
    ap (λ (n : ℕ). slice (assemble (before ++ a ∷ after)) (widths before) n) {x = 32} {y = width a}
      (rw dyn refl)
    ∙ slice-head before after a
    ∙ rw dyn refl

be_value-uint64 : (v : ℕ) → v < 2 ^ 64 → be_value (uint64 v) ≡ v
be_value-uint64 v h = rw (uint64-be_bytes v h) (be_value-be_bytes 32 v (omega (arith, h)))

-- In the encoding of a list of arguments of less than 2^64 bytes, each argument is read back from its
-- place: a static one in the head, a dynamic one where its 32-byte offset points, from the list's start.
pub assemble_layout :
    (before after : List Arg) (a : Arg)
    → length (assemble (before ++ a ∷ after)) < 2 ^ 64
    → read_at (assemble (before ++ a ∷ after)) (widths before) a.dynamic (length (value a))
      ≡ value a
unfolding read_at
assemble_layout before after a h = elim (Bool-cases a.dynamic) [
  | inl dyn ↦
      let out = assemble (before ++ a ∷ after) in
      simp dyn (
        ap (λ s. slice out (be_value s) (length a.tail)) (offset_at before after a dyn)
        ∙ ap (λ (n : ℕ). slice out n (length a.tail))
            (be_value-uint64 (start before a after) (omega (arith, h, start-le before after a)))
        ∙ slice-tail before after a (length a.tail) (rw dyn refl)
        ∙ rw dyn refl)
  | inr sta ↦
      let out = assemble (before ++ a ∷ after) in
      simp sta (
        ap (λ (n : ℕ). slice out (widths before) n) {x = length a.head} {y = width a} (rw sta refl)
        ∙ slice-head before after a
        ∙ rw sta refl)
]
