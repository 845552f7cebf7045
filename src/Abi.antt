-- ===== src/Abi.antt =====
-- internal/abi/abi.go and internal/abi/dynamic.go: calldata, packed forms, CREATE2 addresses, and the
-- head and tail of an argument list. A word is a list of 32 bytes, a 64-bit integer a number that
-- `byte(v >> (8 * i))` reads by division. Keccak-256 is the parameter `keccak`, as in Eip712.antt.
pub mod Words
mod Tests
pub mod Layout
pub mod Static
use go_polymarket.Base.{
  ℕ, zero, suc, ◌+◌, ◌-◌, ◌*◌, ◌/◌, ◌%◌, ◌^◌, Bool, true, false, not, Option, none, some, List, [],
  ◌∷◌, ◌++◌, map, ltb, ◌==◌, if◌then◌else◌, length, set, take, drop, get_or, Result, ok, err, ◌>>=◌,
  map_err,
}
use go_polymarket.Base.Bytes.{Bytes, codes}
use go_polymarket.Base.Word.{zeros, int_bytes}
use go_polymarket.Base.Int.{ℤ, pos, negsuc}
use go_polymarket.Eip712.{Error, keccak256, address, left_pad, joined}

pub data AbiError : Type 0 where
  nil_integer negative : AbiError
  does_not_fit : ℕ → AbiError
  bad_address : Error → AbiError
  create2_deployer : AbiError → AbiError
  element : ℕ → AbiError → AbiError

unfoldable pub encode : List Bytes → Bytes
encode words = joined words

-- The first `n` rounds of `w[31-i] = byte(v >> (8 * i))`.
unfoldable pub uint64_loop : ℕ → ℕ → Bytes → Bytes
uint64_loop zero v w = w
uint64_loop (suc i) v w = set (uint64_loop i v w) (31 - i) (v / 2 ^ (8 * i) % 256)

unfoldable pub uint64 : ℕ → Bytes
unfolding uint64_loop
uint64 v = uint64_loop 8 v (zeros 32)

-- `if pad := n % 32; pad != 0 { …, make([]byte, 32-pad)... }`
abbrev pub padding : ℕ → Bytes
padding n = if n % 32 == 0 then [] else zeros (32 - n % 32)

unfoldable pub packed_uint : ℤ → ℕ → Result AbiError Bytes
packed_uint (negsuc n) size = err negative
packed_uint (pos n) size =
    let b = int_bytes n in
    if ltb size (length b) then err (does_not_fit size) else ok (zeros (size - length b) ++ b)

unfoldable pub packed_address : Bytes → Result AbiError Bytes
packed_address s = do w ← map_err bad_address (address s); ok (drop 12 w)

abbrev pub hex_digits : Bytes
hex_digits = codes "0123456789abcdef"

unfoldable pub hex_lower : Bytes → Bytes
hex_lower [] = []
hex_lower (c ∷ b) = get_or hex_digits (c / 16) 0 ∷ get_or hex_digits (c % 16) 0 ∷ hex_lower b

pub record Arg : Type 0 where
  pub head : Bytes
  pub tail : Bytes
  pub dynamic : Bool

abbrev pub static_arg : Bytes → Arg
static_arg b = record { head = b; tail = []; dynamic = false }

abbrev pub dynamic_arg : Bytes → Arg
dynamic_arg b = record { head = []; tail = b; dynamic = true }

unfoldable pub word32 : Bytes → Arg
word32 w = static_arg w

unfoldable pub any_dynamic : List Arg → Bool
any_dynamic [] = false
any_dynamic (a ∷ args) = if a.dynamic then true else any_dynamic args

-- The first loop of `assemble`.
unfoldable pub head_size : ℕ → List Arg → ℕ
head_size n [] = n
head_size n (a ∷ args) = head_size (if a.dynamic then n + 32 else n + length a.head) args

-- The second loop, with the head and the tail that it has built so far.
unfoldable pub lay_out : ℕ → Bytes → Bytes → List Arg → Bytes × Bytes
lay_out size head tail [] = (head, tail)
lay_out size head tail (a ∷ args) =
    if a.dynamic
    then lay_out size (head ++ uint64 (size + length tail)) (tail ++ a.tail) args
    else lay_out size (head ++ a.head) tail args

unfoldable pub assemble : List Arg → Bytes
assemble args = let (head, tail) = lay_out (head_size 0 args) [] [] args in head ++ tail

unfoldable pub byte_string : Bytes → Arg
byte_string b = dynamic_arg (uint64 (length b) ++ b ++ padding (length b))

-- The loop of `Tuple` over members that are all static.
abbrev pub heads : List Arg → Bytes
heads [] = []
heads (m ∷ members) = m.head ++ heads members

unfoldable pub tuple : List Arg → Arg
tuple members =
    if not (any_dynamic members) then static_arg (heads members) else dynamic_arg (assemble members)

unfoldable pub list : List Arg → Arg
list items = dynamic_arg (uint64 (length items) ++ assemble items)

unfoldable pub uint_word : Option ℤ → Result AbiError Bytes
uint_word none = err nil_integer
uint_word (some (negsuc n)) = err negative
uint_word (some (pos n)) =
    let b = int_bytes n in if ltb 32 (length b) then err (does_not_fit 32) else ok (left_pad b)

-- The items of `UintArray` from index `i` on.
unfoldable pub uint_items : ℕ → List (Option ℤ) → Result AbiError (List Arg)
uint_items i [] = ok []
uint_items i (v ∷ values) = do
  w ← map_err (element i) (uint_word v)
  rest ← uint_items (suc i) values
  ok (word32 w ∷ rest)

unfoldable pub uint_array : List (Option ℤ) → Result AbiError Arg
uint_array values = do items ← uint_items 0 values; ok (list items)

unfoldable pub encode_args : List Arg → Bytes
encode_args args = assemble args

module _ (keccak : Bytes → Bytes) where
  unfoldable pub selector : Bytes → Bytes
  selector signature = take 4 (keccak256 keccak (signature ∷ []))

  unfoldable pub encode_call : Bytes → List Bytes → Bytes
  encode_call signature args = selector signature ++ encode args

  unfoldable pub encode_bytes_call : Bytes → Bytes → Bytes
  encode_bytes_call signature payload =
      selector signature
      ++ uint64 32
      ++ uint64 (length payload)
      ++ payload
      ++ padding (length payload)

  unfoldable pub encode_args_call : Bytes → List Arg → Bytes
  encode_args_call signature args = selector signature ++ assemble args

  unfoldable pub create2 : Bytes → Bytes → Bytes → Result AbiError Bytes
  create2 deployer salt init_code_hash = do
    a ← map_err create2_deployer (packed_address deployer)
    ok (
        codes "0x"
        ++ hex_lower (drop 12 (keccak256 keccak ((0xff ∷ []) ∷ a ∷ salt ∷ init_code_hash ∷ []))))
