-- ===== src/TypedData/Values.antt =====
-- typeddata.go: the values of a message, and the word of each.
use go_polymarket.Base.{
  ℕ, suc, ◌*◌, ◌%◌, ◌^◌, Bool, not, ◌||◌, Option, none, some, List, [], ◌∷◌, leb, ◌==◌,
  if◌then◌else◌, Result, ok, err, ◌>>=◌, map_err,
}
use go_polymarket.Base.Bytes.{Bytes, codes, bytes_eq}
use go_polymarket.Base.Int.{ℤ, abs, quo_ℤ}
use go_polymarket.Base.Rat.{Rat}
use go_polymarket.Base.Decimal.{parse_ℤ}
use go_polymarket.Eip712.{
  Word, uint, uint8, address, bytes32, hex_bytes, string, bytes, array, digest, separator,
  type_hash, Encoder, new_encoder, append, encoder_struct_hash,
}
use go_polymarket.TypedData.Types.{
  TypedDataField, Types, TypedDataDomain, eip712_domain, lookup, array_element, is_struct,
  or_no_type, encode_type, TypedError, no_field, unsupported_type, not_decimal, want_list,
  want_message, want_string, want_bool, want_unsigned, not_an_integer, exceeds_exact_range,
  in_field, in_element, word,
}

-- A float64.
pub data Float : Type 0 where
  finite : Rat → Float
  infinite nan : Float

-- What `any` holds in a message: an integer is an int, int64, uint64, uint8 or big.Int, and `other` a value of
-- any type that no case names.
mutual
  pub data Value : Type 0 where
    text json_number : Bytes → Value
    integer : ℤ → Value
    float : Float → Value
    boolean : Bool → Value
    items : Items → Value
    message : Message → Value
    other : Value

  pub data Items : Type 0 where
    no_items : Items
    item : Value → Items → Items

  pub data Message : Type 0 where
    no_entries : Message
    entry : Bytes → Value → Message → Message

unfoldable pub typed_string : Value → Result TypedError Bytes
typed_string (text s) = ok s
typed_string v = err want_string

abbrev pub or_not_decimal : Bytes → Option ℤ → Result TypedError ℤ
or_not_decimal s none = err (not_decimal s)
or_not_decimal s (some n) = ok n

unfoldable pub float_uint : Float → Result TypedError ℤ
float_uint nan = err not_an_integer
float_uint infinite = err exceeds_exact_range
float_uint (finite x) =
    if not (abs x.num % x.den == 0)
    then err not_an_integer
    else if leb (2 ^ 53 * x.den) (abs x.num)
    then err exceeds_exact_range
    else ok (quo_ℤ x.num x.den)

unfoldable pub typed_uint : Value → Result TypedError ℤ
unfolding float_uint
typed_uint (text s) = or_not_decimal s (parse_ℤ s)
typed_uint (json_number s) = or_not_decimal s (parse_ℤ s)
typed_uint (integer n) = ok n
typed_uint (float x) = float_uint x
typed_uint v = err want_unsigned

unfoldable pub typed_bool : Value → Result TypedError Bool
typed_bool (boolean b) = ok b
typed_bool v = err want_bool

abbrev pub is_uint : Bytes → Bool
is_uint t =
    bytes_eq t (codes "uint8")
    || bytes_eq t (codes "uint16")
    || bytes_eq t (codes "uint32")
    || bytes_eq t (codes "uint64")
    || bytes_eq t (codes "uint128")
    || bytes_eq t (codes "uint256")

pub record TypedData : Type 0 where
  pub types : Types
  pub primary_type : Bytes
  pub domain : TypedDataDomain
  pub content : Message

module _ (keccak : Bytes → Bytes) where
  unfoldable pub encode_typed_value : Bytes → Value → Result TypedError Word
  unfolding typed_string typed_uint typed_bool
  encode_typed_value t v =
      if bytes_eq t (codes "address")
      then (typed_string v >>= λ s. map_err word (address s))
      else if bytes_eq t (codes "bytes32")
      then (typed_string v >>= λ s. map_err word (bytes32 s))
      else if bytes_eq t (codes "string")
      then (typed_string v >>= λ s. ok (string keccak s))
      else if bytes_eq t (codes "bytes")
      then (typed_string v >>= λ s. map_err word (hex_bytes s) >>= λ b. ok (bytes keccak b))
      else if bytes_eq t (codes "bool")
      then (typed_bool v >>= λ b. ok (if b then uint8 1 else uint8 0))
      else if is_uint t
      then (typed_uint v >>= λ n. map_err word (uint n))
      else err (unsupported_type t)

  -- `message[name]`, as the function that encodes the value there at a type.
  abbrev pub Reader : Type 0
  Reader = Bytes → Option (Bytes → Result TypedError Word)

  abbrev pub or_no_field :
      Bytes
      → Option (Bytes → Result TypedError Word)
      → Result TypedError (Bytes → Result TypedError Word)
  or_no_field name none = err (no_field name)
  or_no_field name (some encode) = ok encode

  -- The loop of `hashStruct`.
  unfoldable pub hash_fields : Reader → List TypedDataField → Encoder → Result TypedError Encoder
  hash_fields read [] enc = ok enc
  hash_fields read (f ∷ fields) enc = do
    encode ← or_no_field f.name (read f.name)
    w ← map_err (in_field f.name) (encode f.kind)
    hash_fields read fields (append enc f.name (ok w))

  unfoldable pub hash_struct : Types → Bytes → Reader → Result TypedError Word
  unfolding hash_fields
  hash_struct types name read = do
    fields ← or_no_type name (lookup name types)
    type_string ← encode_type types name
    enc ← hash_fields read fields new_encoder
    map_err word (encoder_struct_hash keccak enc (type_hash keccak type_string))

  -- The three cases of `encodeValue`: an array of an element type, a struct, and what is left.
  unfoldable pub by_type :
      Types
      → Bytes
      → (Bytes → Result TypedError Word)
      → Result TypedError Word
      → Result TypedError Word
      → Result TypedError Word
  by_type types t as_array as_struct atomic = elim (array_element t) [
    | some element ↦ as_array element
    | none ↦ if is_struct types t then as_struct else atomic
  ]

  unfoldable mutual
    unfolding by_type hash_struct encode_typed_value

    pub encode_value : Types → Value → Bytes → Result TypedError Word
    encode_value types (items vs) t =
        by_type types t
          (λ element. encode_items types vs element 0 >>= λ words. ok (array keccak words))
          (err want_message) (encode_typed_value t (items vs))
    encode_value types (message m) t =
        by_type types t (λ element. err want_list)
          (hash_struct types t (λ name. read_entry types m name)) (encode_typed_value t (message m))
    encode_value types (text s) t =
        by_type types t (λ element. err want_list) (err want_message)
          (encode_typed_value t (text s))
    encode_value types (json_number s) t =
        by_type types t (λ element. err want_list) (err want_message)
          (encode_typed_value t (json_number s))
    encode_value types (integer n) t =
        by_type types t (λ element. err want_list) (err want_message)
          (encode_typed_value t (integer n))
    encode_value types (float x) t =
        by_type types t (λ element. err want_list) (err want_message)
          (encode_typed_value t (float x))
    encode_value types (boolean b) t =
        by_type types t (λ element. err want_list) (err want_message)
          (encode_typed_value t (boolean b))
    encode_value types other t =
        by_type types t (λ element. err want_list) (err want_message) (encode_typed_value t other)

    -- The items from index `i` on.
    pub encode_items : Types → Items → Bytes → ℕ → Result TypedError (List Word)
    encode_items types no_items t i = ok []
    encode_items types (item v vs) t i = do
      w ← map_err (in_element i) (encode_value types v t)
      words ← encode_items types vs t (suc i)
      ok (w ∷ words)

    pub read_entry : Types → Message → Reader
    read_entry types no_entries name = none
    read_entry types (entry key v m) name =
        if bytes_eq key name then some (λ t. encode_value types v t) else read_entry types m name

  unfoldable pub domain_separator : TypedDataDomain → Result TypedError Word
  domain_separator d = map_err word (separator keccak (eip712_domain d))

  unfoldable pub typed_struct_hash : TypedData → Result TypedError Word
  unfolding encode_value
  typed_struct_hash td = hash_struct td.types td.primary_type (read_entry td.types td.content)

  unfoldable pub typed_digest : TypedData → Result TypedError Word
  unfolding domain_separator typed_struct_hash
  typed_digest td = do
    s ← domain_separator td.domain
    h ← typed_struct_hash td
    ok (digest keccak s h)
