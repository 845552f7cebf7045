-- ===== src/Eip712.antt =====
-- internal/eip712/eip712.go: the words of a struct, its hash, the domain separator and the digest.
-- A `Word` is a list of 32 bytes. The Keccak-256 of golang.org/x/crypto is not code of the
-- repository: it is the parameter `keccak`, a function of the bytes that are written to it.
pub mod Words
mod Tests
pub mod Binding
mod Shape
pub mod Domains
pub mod Fields
use go_polymarket.Base.{
  ℕ, zero, suc, ◌+◌, ◌-◌, Bool, true, false, not, Option, none, some, List, [], ◌∷◌, ◌++◌, ltb,
  ◌==◌, if◌then◌else◌, length, Result, ok, err, ◌>>=◌,
}
use go_polymarket.Base.Bytes.{Bytes, codes, is_empty}
use go_polymarket.Base.Word.{zeros, int_bytes}
use go_polymarket.Base.Int.{ℤ, pos, negsuc}
use go_polymarket.Base.Hex.{encode_hex, decode_hex, trim_0x}
use go_polymarket.Base.Decimal.{parse_ℤ}

pub data Error : Type 0 where
  negative overflow bad_decimal bad_hex : Error
  bad_length : ℕ → ℕ → Error
  field : Bytes → Error → Error

abbrev pub Word : Type 0
Word = Bytes

-- `copy(w[32-len(b):], b)` in a word of zeros.
abbrev pub left_pad : Bytes → Word
left_pad b = zeros (32 - length b) ++ b

unfoldable pub uint : ℤ → Result Error Word
uint (negsuc n) = err negative
uint (pos n) = let b = int_bytes n in if ltb 32 (length b) then err overflow else ok (left_pad b)

-- The value of `SetString`, with `ok` false as an error.
abbrev pub or_bad_decimal : Option ℤ → Result Error ℤ
or_bad_decimal none = err bad_decimal
or_bad_decimal (some z) = ok z

unfoldable pub uint_string : Bytes → Result Error Word
uint_string s = do x ← or_bad_decimal (parse_ℤ s); uint x

unfoldable pub uint8 : ℕ → Word
uint8 v = zeros 31 ++ v ∷ []

abbrev pub or_bad_hex : Option Bytes → Result Error Bytes
or_bad_hex none = err bad_hex
or_bad_hex (some b) = ok b

abbrev pub check_length : ℕ → Bytes → Result Error Bytes
check_length want b = if not (length b == want) then err (bad_length (length b) want) else ok b

unfoldable pub decode_hex_of : Bytes → ℕ → Result Error Bytes
decode_hex_of s want = do b ← or_bad_hex (decode_hex (trim_0x s)); check_length want b

unfoldable pub address : Bytes → Result Error Word
address s = do b ← decode_hex_of s 20; ok (zeros 12 ++ b)

-- The copy fills the whole word.
unfoldable pub bytes32 : Bytes → Result Error Word
bytes32 s = decode_hex_of s 32

unfoldable pub hex_bytes : Bytes → Result Error Bytes
hex_bytes s = or_bad_hex (decode_hex (trim_0x s))

-- The bytes of the parts, in order.
abbrev pub joined : List Bytes → Bytes
joined [] = []
joined (b ∷ bs) = b ++ joined bs

unfoldable pub hex : Word → Bytes
hex w = codes "0x" ++ encode_hex w

pub record Encoder : Type 0 where
  pub words : List Word
  pub failure : Option Error

abbrev pub new_encoder : Encoder
new_encoder = record { words = []; failure = none }

-- The unexported `append`: a failed field leaves the words as they are, and only the first is kept.
unfoldable pub append : Encoder → Bytes → Result Error Word → Encoder
append e name (ok w) = record e { words = e.words ++ w ∷ [] }
append e name (err x) = elim e.failure [
  | none ↦ record e { failure = some (field name x) }
  | some first ↦ e
]

pub record Domain : Type 0 where
  pub name : Bytes
  pub version : Bytes
  pub chain_id : Option ℤ
  pub verifying_contract : Bytes

-- The field declarations of a domain and their words, as `Separator` collects them.
pub record Parts : Type 0 where
  pub names : List Bytes
  pub fields : List Word

abbrev pub add_part : Parts → Bytes → Word → Parts
add_part p name w = record { names = p.names ++ name ∷ []; fields = p.fields ++ w ∷ [] }

-- `strings.Join(names, ",")`
unfoldable pub join_comma : List Bytes → Bytes
join_comma [] = []
join_comma (x ∷ []) = x
join_comma (x ∷ y ∷ r) = x ++ codes "," ++ join_comma (y ∷ r)

-- The type string of the fields that a domain has.
abbrev pub domain_type : List Bytes → Bytes
domain_type names = codes "EIP712Domain(" ++ join_comma names ++ codes ")"

module _ (keccak : Bytes → Bytes) where
  unfoldable pub keccak256 : List Bytes → Word
  keccak256 parts = keccak (joined parts)

  unfoldable pub type_hash : Bytes → Word
  unfolding keccak256
  type_hash s = keccak256 (s ∷ [])

  unfoldable pub string : Bytes → Word
  unfolding keccak256
  string s = keccak256 (s ∷ [])

  unfoldable pub bytes : Bytes → Word
  unfolding keccak256
  bytes b = keccak256 (b ∷ [])

  unfoldable pub array : List Word → Word
  unfolding keccak256
  array elements = keccak256 (joined elements ∷ [])

  unfoldable pub struct_hash : Word → List Word → Word
  unfolding keccak256
  struct_hash th fields = keccak256 ((th ++ joined fields) ∷ [])

  unfoldable pub encoder_struct_hash : Encoder → Word → Result Error Word
  encoder_struct_hash e th = elim e.failure [ some x ↦ err x | none ↦ ok (struct_hash th e.words) ]

  unfoldable pub add_chain : Parts → Option ℤ → Result Error Parts
  add_chain p none = ok p
  add_chain p (some z) = do w ← uint z; ok (add_part p (codes "uint256 chainId") w)

  unfoldable pub add_contract : Parts → Bytes → Result Error Parts
  add_contract p c =
      if is_empty c
      then ok p
      else (do w ← address c; ok (add_part p (codes "address verifyingContract") w))

  unfoldable pub domain_parts : Domain → Result Error Parts
  unfolding add_chain add_contract string
  domain_parts d =
      let p₀ : Parts = record { names = []; fields = [] } in
      let p₁ = if is_empty d.name then p₀ else add_part p₀ (codes "string name") (string d.name) in
      let p₂ =
        if is_empty d.version
        then p₁
        else add_part p₁ (codes "string version") (string d.version) in
      add_chain p₂ d.chain_id >>= λ p₃. add_contract p₃ d.verifying_contract

  unfoldable pub separator : Domain → Result Error Word
  unfolding domain_parts struct_hash type_hash
  separator d = do p ← domain_parts d; ok (struct_hash (type_hash (domain_type p.names)) p.fields)

  unfoldable pub digest : Word → Word → Word
  unfolding keccak256
  digest domain_separator hash = keccak256 ((0x19 ∷ 0x01 ∷ []) ∷ domain_separator ∷ hash ∷ [])
