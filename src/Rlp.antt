-- ===== src/Rlp.antt =====
-- internal/rlp/rlp.go: the recursive-length prefix form of byte strings, lists and integers.
-- A byte slice is the list of its bytes; `byte(x)` is `x % 256`.
pub mod Decode
mod Tests
pub mod RoundTrip
pub mod Canonical
use go_polymarket.Base.{
  ℕ, zero, suc, ◌+◌, ◌%◌, Bool, true, false, ◌&&◌, Option, none, some, List, [], ◌∷◌, ◌++◌, ltb,
  leb, ◌==◌, if◌then◌else◌, length, Result, ok, err, ◌>>=◌,
}
use go_polymarket.Base.Bytes.{Bytes}
use go_polymarket.Base.Word.{int_bytes}
use go_polymarket.Base.Int.{ℤ, pos, negsuc}

abbrev pub string_offset : ℕ
string_offset = 0x80

abbrev pub string_long_offset : ℕ
string_long_offset = 0xb7

abbrev pub list_offset : ℕ
list_offset = 0xc0

abbrev pub list_long_offset : ℕ
list_long_offset = 0xf7

-- The largest payload whose length fits in the prefix byte.
abbrev pub short_limit : ℕ
short_limit = 55

-- The prefix of a payload of `n` bytes.
unfoldable pub header : ℕ → ℕ → ℕ → Bytes
header n short long =
    if leb n short_limit
    then ((short + n) % 256) ∷ []
    else (let size = int_bytes n in ((long + length size) % 256) ∷ size)

-- `len(b) == 1 && b[0] < stringOffset`
abbrev pub is_own_encoding : Bytes → Bool
is_own_encoding [] = false
is_own_encoding (x ∷ []) = ltb x string_offset
is_own_encoding (x ∷ y ∷ r) = false

unfoldable pub string : Bytes → Bytes
string b = if is_own_encoding b then b else header (length b) string_offset string_long_offset ++ b

-- The loop that appends each item to the payload.
abbrev pub append_items : Bytes → List Bytes → Bytes
append_items payload [] = payload
append_items payload (item ∷ items) = append_items (payload ++ item) items

unfoldable pub list : List Bytes → Bytes
list items =
    let payload = append_items [] items in
    header (length payload) list_offset list_long_offset ++ payload

pub data Error : Type 0 where
  negative : Error

-- `none` is a nil `*big.Int`.
unfoldable pub uint : Option ℤ → Result Error Bytes
uint none = ok (string [])
uint (some (pos n)) = ok (string (int_bytes n))
uint (some (negsuc n)) = err negative

unfoldable pub uint64 : ℕ → Bytes
uint64 v = string (int_bytes v)
