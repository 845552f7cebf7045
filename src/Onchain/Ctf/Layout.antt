-- ===== src/Onchain/Ctf/Layout.antt =====
-- The calldata of the conditional-token framework, word by word as the contract's ABI lays it out.
use go_polymarket.Base.{
  ℕ, suc, arith, ◌^◌, Bool, true, false, none, some, if◌then◌else◌, ltb, ltb→lt, ltb→le, Bool-cases,
  inl, inr, sym, ◌≡◌, refl, ap, ◌∙◌, not, Option, List, [], ◌∷◌, ◌++◌, ◌==◌, length, Result, ok,
  err, ◌>>=◌, ◌>>◌, map_err, map_err-ok, bind_congr, bind_congr_ok, bind_inversion, guard,
}
use go_polymarket.Base.Bytes.{Bytes}
use go_polymarket.Base.Int.{ℤ, pos, negsuc, ltb_ℤ}
use go_polymarket.Base.Word.{zeros, int_bytes, be_bytes}
use go_polymarket.Eip712.{Error, overflow, Word, uint, address, bytes32, joined}
use go_polymarket.Eip712.Words.{uint_fits, uint_long, address-IsWord, bytes32-IsWord, uint-IsWord}
use go_polymarket.Abi.{
  AbiError, nil_integer, negative, does_not_fit, element, Arg, dynamic_arg, word32, uint64,
  uint_word, uint_items, uint_array, list, selector, encode_args_call,
}
use go_polymarket.Abi.Static.{
  static_words, length-static_words, assemble-static_words, assembled_five, assembled_four,
}
use go_polymarket.Onchain.Ctf.{
  CtfError, not_positive, in_word, in_list, empty_list, positive, amount_word, top_collection,
  split_sig, merge_sig, redeem_sig, ctf_position_args, split_position_data, merge_positions_data,
  redeem_positions_data, sized_call,
}

-- The word of an integer of an array: it is there, is not negative, and is below 2^256.
abbrev pub word_at : Option ℤ → Result AbiError Word
word_at none = err nil_integer
word_at (some (negsuc n)) = err negative
word_at (some (pos n)) = if ltb n (2 ^ 256) then ok (be_bytes 32 n) else err (does_not_fit 32)

-- `uintWord` is `Uint` with an error of its own.
abbrev refit : Result Error Word → Result AbiError Word
refit (ok w) = ok w
refit (err x) = err (does_not_fit 32)

uint_word-uint : (n : ℕ) → uint_word (some (pos n)) ≡ refit (uint (pos n))
unfolding uint_word uint
uint_word-uint n = elim (Bool-cases (ltb 32 (length (int_bytes n)))) [
  | inl long ↦ rw long refl
  | inr short ↦ rw short refl
]

-- `Uint` of a natural number.
uint_limit : (n : ℕ) → uint (pos n) ≡ (if ltb n (2 ^ 256) then ok (be_bytes 32 n) else err overflow)
uint_limit n = elim (Bool-cases (ltb n (2 ^ 256))) [
  | inl fits ↦ rw fits (uint_fits n (ltb→lt n (2 ^ 256) fits))
  | inr long ↦ rw long (uint_long n (ltb→le n (2 ^ 256) long))
]

above_zero : (n : ℕ) → ltb_ℤ (pos 0) (pos n) ≡ not (n == 0)
above_zero n = ground arith

below_zero : (n : ℕ) → ltb_ℤ (pos 0) (negsuc n) ≡ false
below_zero n = ground arith

uint_word-word_at : (v : Option ℤ) → uint_word v ≡ word_at v
uint_word-word_at none = unfold uint_word in refl
uint_word-word_at (some (negsuc n)) = unfold uint_word in refl
uint_word-word_at (some (pos n)) =
    uint_word-uint n ∙ ap refit (uint_limit n) ∙ fitted (ltb n (2 ^ 256))
  where
    fitted :
        (b : Bool)
        → refit (if b then ok (be_bytes 32 n) else err overflow)
          ≡ (if b then ok (be_bytes 32 n) else err (does_not_fit 32))
    fitted true = refl
    fitted false = refl

-- The words of integers from index `i` on, or the first that has none.
abbrev pub set_words : ℕ → List (Option ℤ) → Result AbiError (List Word)
set_words i [] = ok []
set_words i (v ∷ values) =
    map_err (element i) (word_at v) >>= λ w. set_words (suc i) values >>= λ ws. ok (w ∷ ws)

-- An array of words: how many, and they.
abbrev pub array_of : List Word → Bytes
array_of ws = uint64 (length ws) ++ joined ws

uint_items-static_words :
    (i : ℕ) (values : List (Option ℤ))
    → uint_items i values ≡ (set_words i values >>= λ ws. ok (static_words ws))
unfolding uint_items
uint_items-static_words i [] = refl
uint_items-static_words i (v ∷ values) =
    rw (uint_items-static_words (suc i) values, uint_word-word_at v)
      (both (map_err (element i) (word_at v)) (set_words (suc i) values))
  where
    both :
        (r : Result AbiError Word) (s : Result AbiError (List Word))
        → (r >>= λ w. (s >>= λ ws. ok (static_words ws)) >>= λ rest. ok (word32 w ∷ rest))
          ≡ ((r >>= λ w. s >>= λ ws. ok (w ∷ ws)) >>= λ ws. ok (static_words ws))
    both (err x) s = refl
    both (ok w) (err x) = refl
    both (ok w) (ok ws) = refl

uint_array-words :
    (values : List (Option ℤ))
    → uint_array values ≡ (set_words 0 values >>= λ ws. ok (dynamic_arg (array_of ws)))
unfolding uint_array list
uint_array-words values = rw (uint_items-static_words 0 values) (made (set_words 0 values))
  where
    made :
        (s : Result AbiError (List Word))
        → ((s >>= λ ws. ok (static_words ws)) >>= λ items. ok (list items))
          ≡ (s >>= λ ws. ok (dynamic_arg (array_of ws)))
    made (err x) = refl
    made (ok ws) = rw (length-static_words ws, assemble-static_words ws) refl

-- The four arguments that the calls share.
abbrev four_args : Word → Word → List Word → List Arg
four_args t c ws = word32 t ∷ word32 top_collection ∷ word32 c ∷ dynamic_arg (array_of ws) ∷ []

module _ {E : Type 0} where
  -- The word of an amount: it is there, is above zero, and is below 2^256.
  abbrev pub amount_at : Option ℤ → Result (CtfError E) Word
  amount_at none = err not_positive
  amount_at (some (negsuc n)) = err not_positive
  amount_at (some (pos n)) =
      if n == 0
      then err not_positive
      else if ltb n (2 ^ 256)
      then ok (be_bytes 32 n)
      else err (in_word overflow)

  amount_word-amount_at :
      (v : Option ℤ) → Path (Result (CtfError E) Word) (amount_word v) (amount_at v)
  unfolding amount_word
  amount_word-amount_at none = refl
  amount_word-amount_at (some (negsuc n)) = rw (below_zero n) refl
  amount_word-amount_at (some (pos n)) = elim (Bool-cases (n == 0)) [
    | inl nothing ↦ rw (above_zero n, nothing) refl
    | inr some_ ↦
        rw (above_zero n, some_) (ap (map_err in_word) (uint_limit n) ∙ limited (ltb n (2 ^ 256)))
  ]
    where
      limited :
          (b : Bool)
          → Path
              (Result (CtfError E) Word)
              (map_err in_word (if b then ok (be_bytes 32 n) else err overflow))
              (if b then ok (be_bytes 32 n) else err (in_word overflow))
      limited true = refl
      limited false = refl

  -- What the three calls read first, in order: the collateral, the condition, and the sets, of which there is one at least.
  abbrev pub with_position :
      Bytes
      → Bytes
      → List (Option ℤ)
      → (Word → Word → List Word → Result (CtfError E) Bytes)
      → Result (CtfError E) Bytes
  with_position collateral condition_id sets k = map_err in_word (address collateral) >>= λ t.
      map_err in_word (bytes32 condition_id) >>= λ c.
      guard (not (length sets == 0)) empty_list
      >> (map_err in_list (set_words 0 sets) >>= λ ws. k t c ws)

  position_args-bind :
      (r s : Result (CtfError E) Word) (g : Result (CtfError E) (Unit {0}))
      (ws : Result AbiError (List Word)) (k : List Arg → Result (CtfError E) Bytes)
      → ((r >>= λ t. s >>= λ c.
            (g >>= λ _. map_err in_list (ws >>= λ l. ok (dynamic_arg (array_of l)))) >>= λ items.
            ok (word32 t ∷ word32 top_collection ∷ word32 c ∷ items ∷ []))
          >>= k)
        ≡ (r >>= λ t. s >>= λ c. g >> (map_err in_list ws >>= λ l. k (four_args t c l)))
  position_args-bind (err x) s g ws k = refl
  position_args-bind (ok t) (err x) g ws k = refl
  position_args-bind (ok t) (ok c) (err x) ws k = refl
  position_args-bind (ok t) (ok c) (ok u) (err x) k = refl
  position_args-bind (ok t) (ok c) (ok u) (ok ws) k = refl

  -- The code that goes on with the arguments goes on with words of 32 bytes.
  ctf_position_args-with :
      (collateral condition_id : Bytes) (sets : List (Option ℤ))
      (k : List Arg → Result (CtfError E) Bytes)
      (k' : Word → Word → List Word → Result (CtfError E) Bytes)
      → ((t c : Word) (ws : List Word)
          → length t ≡ 32
          → length c ≡ 32
          → k (four_args t c ws) ≡ k' t c ws)
      → (ctf_position_args collateral condition_id sets >>= k)
        ≡ with_position collateral condition_id sets k'
  unfolding ctf_position_args
  ctf_position_args-with collateral condition_id sets k k' same = rw (uint_array-words sets) (
      position_args-bind (map_err in_word (address collateral))
        (map_err in_word (bytes32 condition_id)) (guard (not (length sets == 0)) empty_list)
        (set_words 0 sets) k
      ∙ bind_congr_ok (map_err in_word (address collateral)) _ _ (λ t et.
        bind_congr_ok (map_err in_word (bytes32 condition_id)) _ _ (λ c ec.
          bind_congr (guard (not (length sets == 0)) empty_list) _ _ (λ u.
            bind_congr (map_err in_list (set_words 0 sets)) _ _ (λ ws.
              same t c ws
                (address-IsWord collateral t
                  (map_err-ok {F = CtfError E} in_word (address collateral) t et)).1
                (bytes32-IsWord condition_id c
                  (map_err-ok {F = CtfError E} in_word (bytes32 condition_id) c ec)).1)))))

  amount_word-length :
      (amount : Option ℤ) (w : Word)
      → Path (Result (CtfError E) Word) (amount_word amount) (ok w)
      → length w ≡ 32
  unfolding amount_word
  amount_word-length amount w e =
      let (z, _, ew) = bind_inversion (positive {E = E} amount) _ e in
      (uint-IsWord z w (map_err-ok {F = CtfError E} in_word (uint z) w ew)).1

  module _ (keccak : Bytes → Bytes) where
    -- The selector and six words: token, parent, condition, the array's offset, the amount, then the array.
    abbrev pub sized_layout : Bytes → Option ℤ → Word → Word → List Word → Result (CtfError E) Bytes
    sized_layout sig amount t c ws = amount_at amount >>= λ v.
        ok (selector keccak sig ++ (t ++ (zeros 32 ++ (c ++ (uint64 160 ++ (v ++ array_of ws))))))

    sized_call-layout :
        (sig collateral condition_id : Bytes) (sets : List (Option ℤ)) (amount : Option ℤ)
        → sized_call keccak sig collateral condition_id sets amount
          ≡ with_position collateral condition_id sets (sized_layout sig amount)
    unfolding encode_args_call
    sized_call-layout sig collateral condition_id sets amount =
        ctf_position_args-with collateral condition_id sets _ (sized_layout sig amount)
          (λ t c ws wt wc. rw (sym (amount_word-amount_at amount)) (
            bind_congr_ok (amount_word amount) _ _ (λ v ev.
              ap (λ b. ok (selector keccak sig ++ b))
                (assembled_five t top_collection c v (array_of ws) wt refl wc
                  (amount_word-length amount v ev)))))

    -- The calldata of a split and of a merge is the selector, the collateral, a zero word, the condition, 160, the amount, and
    -- the number of the sets and the sets; that of a redemption lacks the amount, and has 128. What is not
    -- an address, a condition, a list with an element, a 256-bit integer or a positive amount is refused,
    -- in this order.
    pub position_calls_layout :
        (collateral condition_id : Bytes) (sets : List (Option ℤ)) (amount : Option ℤ)
        → (split_position_data keccak collateral condition_id sets amount
            ≡ with_position collateral condition_id sets (sized_layout split_sig amount))
          × (merge_positions_data keccak collateral condition_id sets amount
              ≡ with_position collateral condition_id sets (sized_layout merge_sig amount))
          × (redeem_positions_data keccak collateral condition_id sets
              ≡ with_position collateral condition_id sets (λ t c ws. ok (
                  selector keccak redeem_sig
                  ++ (t ++ (zeros 32 ++ (c ++ (uint64 128 ++ array_of ws)))))))
    unfolding split_position_data merge_positions_data redeem_positions_data encode_args_call
    position_calls_layout collateral condition_id sets amount = (
      sized_call-layout split_sig collateral condition_id sets amount,
      sized_call-layout merge_sig collateral condition_id sets amount,
      ctf_position_args-with collateral condition_id sets _ _ (λ t c ws wt wc.
          ap (λ b. ok (selector keccak redeem_sig ++ b))
            (assembled_four t top_collection c (array_of ws) wt refl wc)),
    )
