-- ===== src/TypedData/Types.antt =====
-- typeddata.go: the struct types of a payload, and the type string of one, which names the structs that it
-- reaches in order.
use go_polymarket.Base.{
  ℕ, zero, suc, Bool, true, false, not, ◌&&◌, ◌||◌, Option, none, some, List, [], ◌∷◌, ◌++◌, ltb,
  ◌==◌, if◌then◌else◌, length, Result, ok, err, ◌>>=◌,
}
use go_polymarket.Base.Bytes.{Bytes, codes, bytes_eq, is_empty}
use go_polymarket.Base.Int.{ℤ}
use go_polymarket.Eip712.{Error, Domain}

pub record TypedDataField : Type 0 where
  pub name : Bytes
  pub kind : Bytes

abbrev pub typed_field : Bytes → Bytes → TypedDataField
typed_field n t = record { name = n; kind = t }

abbrev pub Types : Type 0
Types = List (Bytes × List TypedDataField)

-- `v, ok := m[key]`
abbrev pub lookup {ℓ} : {A : Type ℓ} → Bytes → List (Bytes × A) → Option A
lookup key [] = none
lookup key ((k, v) ∷ m) = if bytes_eq k key then some v else lookup key m

pub data TypedError : Type 0 where
  no_type no_field unsupported_type not_decimal : Bytes → TypedError
  want_list want_message want_string want_bool want_unsigned : TypedError
  not_an_integer exceeds_exact_range : TypedError
  in_field : Bytes → TypedError → TypedError
  in_element : ℕ → TypedError → TypedError
  word : Error → TypedError
  out_of_fuel : TypedError

pub record TypedDataDomain : Type 0 where
  pub name : Bytes
  pub version : Bytes
  pub chain_id : ℤ
  pub verifying_contract : Bytes

unfoldable pub domain_type : TypedDataDomain → List TypedDataField
domain_type d =
    let f₁ = if is_empty d.name then [] else typed_field (codes "name") (codes "string") ∷ [] in
    let f₂ =
      if is_empty d.version
      then f₁
      else f₁ ++ typed_field (codes "version") (codes "string") ∷ [] in
    let f₃ = f₂ ++ typed_field (codes "chainId") (codes "uint256") ∷ [] in
    if is_empty d.verifying_contract
    then f₃
    else f₃ ++ typed_field (codes "verifyingContract") (codes "address") ∷ []

unfoldable pub eip712_domain : TypedDataDomain → Domain
eip712_domain d = record {
  name = d.name;
  version = d.version;
  chain_id = some d.chain_id;
  verifying_contract = d.verifying_contract;
}

-- `strings.HasSuffix(s, c)` for one byte `c`.
abbrev pub ends_with : ℕ → Bytes → Bool
ends_with c [] = false
ends_with c (x ∷ []) = x == c
ends_with c (x ∷ y ∷ s) = ends_with c (y ∷ s)

-- `s[:strings.LastIndexByte(s, c)]`, or `none` if the byte is not there.
abbrev pub before_last : ℕ → Bytes → Option Bytes
before_last c [] = none
before_last c (x ∷ s) = elim (before_last c s) [
  | some t ↦ some (x ∷ t)
  | none ↦ if x == c then some [] else none
]

-- The element type of an array type, `none` for a type of another form.
unfoldable pub array_element : Bytes → Option Bytes
array_element t = if not (ends_with b']' t) then none else before_last b'[' t

-- The loop of `elementType`, on fuel that the length of the type bounds.
unfoldable pub strip_arrays : ℕ → Bytes → Bytes
strip_arrays zero t = t
strip_arrays (suc fuel) t = elim (array_element t) [ none ↦ t | some base ↦ strip_arrays fuel base ]

unfoldable pub element_type : Bytes → Bytes
unfolding strip_arrays
element_type t = strip_arrays (length t) t

-- The loop of `typeSegment`, from field `i` on, with the text so far.
unfoldable pub segment_from : Bytes → ℕ → List TypedDataField → Bytes
segment_from s i [] = s
segment_from s i (f ∷ fields) =
    segment_from ((if ltb 0 i then s ++ codes "," else s) ++ (f.kind ++ codes " " ++ f.name))
      (suc i) fields

abbrev pub or_no_type :
    Bytes → Option (List TypedDataField) → Result TypedError (List TypedDataField)
or_no_type name none = err (no_type name)
or_no_type name (some fields) = ok fields

unfoldable pub type_segment : Types → Bytes → Result TypedError Bytes
unfolding segment_from
type_segment types name = do
  fields ← or_no_type name (lookup name types)
  ok (segment_from (name ++ codes "(") 0 fields ++ codes ")")

-- `found[name]`
abbrev pub member : Bytes → List Bytes → Bool
member name [] = false
member name (x ∷ found) = bytes_eq x name || member name found

abbrev pub is_struct : Types → Bytes → Bool
is_struct types name = elim (lookup name types) [ none ↦ false | some fields ↦ true ]

-- The loop of `collectTypes` over the fields of a struct; `visit` is the call of `collectTypes`.
unfoldable pub collect_fields :
    Types
    → (Bytes → List Bytes → Result TypedError (List Bytes))
    → List TypedDataField
    → List Bytes
    → Result TypedError (List Bytes)
collect_fields types visit [] found = ok found
collect_fields types visit (f ∷ fields) found =
    let base = element_type f.kind in
    (if is_struct types base then visit base found else ok found) >>= λ found'.
    collect_fields types visit fields found'

-- The names marked in the map `found`, the last first.
unfoldable pub collect_types : Types → ℕ → Bytes → List Bytes → Result TypedError (List Bytes)
unfolding collect_fields
collect_types types zero name found = err out_of_fuel
collect_types types (suc fuel) name found =
    if member name found
    then ok found
    else (or_no_type name (lookup name types) >>= λ fields.
        collect_fields types (collect_types types fuel) fields (name ∷ found))

-- `delete(referenced, name)`
abbrev pub delete : Bytes → List Bytes → List Bytes
delete name [] = []
delete name (x ∷ found) = if bytes_eq x name then delete name found else x ∷ delete name found

-- `a <= b` on strings, and `sort.Strings`.
abbrev pub leb_bytes : Bytes → Bytes → Bool
leb_bytes [] b = true
leb_bytes (x ∷ a) [] = false
leb_bytes (x ∷ a) (y ∷ b) = ltb x y || (x == y && leb_bytes a b)

abbrev pub insert_sorted : Bytes → List Bytes → List Bytes
insert_sorted a [] = a ∷ []
insert_sorted a (b ∷ names) = if leb_bytes a b then a ∷ b ∷ names else b ∷ insert_sorted a names

abbrev pub sort_strings : List Bytes → List Bytes
sort_strings [] = []
sort_strings (a ∷ names) = insert_sorted a (sort_strings names)

-- The last loop of `encodeType`.
unfoldable pub add_segments : Types → Bytes → List Bytes → Result TypedError Bytes
add_segments types s [] = ok s
add_segments types s (n ∷ names) =
    type_segment types n >>= λ segment. add_segments types (s ++ segment) names

-- The calls of `collectTypes` nest at most once more than there are types.
unfoldable pub encode_type : Types → Bytes → Result TypedError Bytes
unfolding collect_types type_segment add_segments
encode_type types name = do
  referenced ← collect_types types (suc (length types)) name []
  s ← type_segment types name
  add_segments types s (sort_strings (delete name referenced))
