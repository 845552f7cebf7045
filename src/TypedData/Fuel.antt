-- ===== src/TypedData/Fuel.antt =====
-- The walks over types end: the fuel of `encode_type` and of `element_type` is enough.
use go_polymarket.Base.{
  ℕ, zero, suc, ◌≤◌, ◌<◌, ◌≡◌, ◌≢◌, refl, sym, ap, subst, Bool, true, false, Option, none, some,
  List, [], ◌∷◌, ◌++◌, arith, ◌==◌, if◌then◌else◌, Bool-cases, inl, inr, length, Result, ok, err,
  ◌>>=◌,
}
use go_polymarket.Base.Bytes.{Bytes, bytes_eq, bytes_eq_iff}
use go_polymarket.TypedData.Types.{
  TypedDataField, Types, TypedError, out_of_fuel, lookup, member, is_struct, or_no_type,
  collect_fields, collect_types, element_type, strip_arrays, array_element, ends_with, before_last,
  type_segment, add_segments, encode_type, delete, sort_strings,
}

-- The types whose name is not marked.
abbrev left : Types → List Bytes → ℕ
left [] found = 0
left ((k, fields) ∷ types) found =
    if member k found then left types found else suc (left types found)

left-le :
    (types : Types) (n : Bytes) (found : List Bytes) → left types (n ∷ found) ≤ left types found
left-le [] n found = omega arith
left-le ((k, fields) ∷ types) n found = ground (arith, left-le types n found)

left-lt :
    (types : Types) (n : Bytes) (found : List Bytes) (fs : List TypedDataField)
    → member n found ≡ false
    → lookup n types ≡ some fs
    → left types (n ∷ found) < left types found
left-lt [] n found fs new here = cc
left-lt ((k, fields) ∷ types) n found fs new here = elim (Bool-cases (bytes_eq k n)) [
  | inl same ↦
      let eq = (bytes_eq_iff k n).0 same in
      let again : bytes_eq n k ≡ true = (bytes_eq_iff n k).1 (sym eq) in
      let unmarked : member k found ≡ false = subst (λ x. member x found ≡ false) (sym eq) new in
      let smaller = left-le types n found in simp (again, unmarked) (omega (arith, smaller))
  | inr other ↦
      let deeper = left-lt types n found fs new (simp (other) at here) in
      let before = left-le types n found in ground (arith)
]

-- What a walk returns: names with at most `n` types left, or an error of the source.
Ends : Types → ℕ → Result TypedError (List Bytes) → Type 0
Ends types n (ok found) = left types found ≤ n
Ends types n (err out_of_fuel) = ⊥
Ends types n (err why) = Unit

Ends-le :
    (types : Types) (m n : ℕ) (r : Result TypedError (List Bytes))
    → m ≤ n
    → Ends types m r
    → Ends types n r
unfolding Ends
Ends-le types m n (ok found) h e = omega (arith, h, e)
Ends-le types m n (err out_of_fuel) h e = absurd e
Ends-le types m n (err why) h e = tt

Ends-bind :
    (types : Types) (m n : ℕ) (r : Result TypedError (List Bytes))
    (rest : List Bytes → Result TypedError (List Bytes))
    → Ends types m r
    → ((found : List Bytes) → left types found ≤ m → Ends types n (rest found))
    → Ends types n (r >>= rest)
unfolding Ends
Ends-bind types m n (ok found) rest e h = h found e
Ends-bind types m n (err out_of_fuel) rest e h = absurd e
Ends-bind types m n (err why) rest e h = tt

module _ (types : Types) where
  collect_fields-Ends :
      (visit : Bytes → List Bytes → Result TypedError (List Bytes)) (k : ℕ)
      → ((name : Bytes) (found : List Bytes)
          → left types found ≤ k
          → Ends types (left types found) (visit name found))
      → (fields : List TypedDataField) (found : List Bytes) → left types found ≤ k
      → Ends types (left types found) (collect_fields types visit fields found)
  unfolding collect_fields Ends
  collect_fields-Ends visit k walk [] found h = omega arith
  collect_fields-Ends visit k walk (f ∷ fields) found h =
      Ends-bind types (left types found) (left types found) _ _
        (step (is_struct types (element_type f.kind)))
        (λ found' fewer.
          Ends-le types (left types found') (left types found) _ fewer
            (collect_fields-Ends visit k walk fields found' (omega (arith, fewer, h))))
    where
      step :
          (b : Bool)
          → Ends types
              (left types found)
              (if b then visit (element_type f.kind) found else ok found)
      step true = walk (element_type f.kind) found h
      step false = omega arith

  collect_types-Ends :
      (fuel : ℕ) (name : Bytes) (found : List Bytes)
      → left types found < fuel
      → Ends types (left types found) (collect_types types fuel name found)
  unfolding collect_types Ends
  collect_types-Ends zero name found h = absurd (omega (arith, h))
  collect_types-Ends (suc fuel) name found h =
      step (member name found) refl (lookup name types) refl (collect_types-Ends fuel)
    where
      step :
          (b : Bool)
          → member name found ≡ b
          → (o : Option (List TypedDataField)) → lookup name types ≡ o
          → ((name : Bytes) (found : List Bytes)
              → left types found < fuel
              → Ends types (left types found) (collect_types types fuel name found))
          → Ends types (left types found) (
              if b
              then ok found
              else (or_no_type name o >>= λ fields.
                  collect_fields types (collect_types types fuel) fields (name ∷ found)))
      step true e o eo walk = omega arith
      step false e none eo walk = tt
      step false e (some fields) eo walk =
          let fewer = left-lt types name found fields e eo in
          Ends-le types (left types (name ∷ found)) (left types found) _ (omega (arith, fewer)) (
            collect_fields-Ends (collect_types types fuel) (left types (name ∷ found))
              (λ n fs small. walk n fs (omega (arith, small, fewer, h))) fields (name ∷ found)
              (omega arith))

left-nil : (types : Types) → left types [] ≤ length types
left-nil [] = omega arith
left-nil ((k, fields) ∷ types) = omega (arith, left-nil types)

collect_types_ends :
    (types : Types) (name : Bytes)
    → collect_types types (suc (length types)) name [] ≢ err out_of_fuel
unfolding Ends
collect_types_ends types name e =
    subst (Ends types (left types [])) e
      (collect_types-Ends types (suc (length types)) name [] (omega (arith, left-nil types)))

-- A chain fails with an error only if one of its steps does.
bind_ne {ℓ κ} :
    {A : Type ℓ} {B : Type κ} (r : Result TypedError A) (rest : A → Result TypedError B)
    → r ≢ err out_of_fuel
    → ((a : A) → rest a ≢ err out_of_fuel)
    → (r >>= rest) ≢ err out_of_fuel
bind_ne (ok a) rest h g e = g a e
bind_ne (err why) rest h g e = let same : why ≡ out_of_fuel = cc in h (ap err same)

or_no_type_ne :
    (name : Bytes) (o : Option (List TypedDataField)) → or_no_type name o ≢ err out_of_fuel
or_no_type_ne name none e = cc
or_no_type_ne name (some fields) e = cc

ok_ne {ℓ} : {A : Type ℓ} (a : A) → ok a ≢ err out_of_fuel
ok_ne a e = cc

type_segment_ends : (types : Types) (name : Bytes) → type_segment types name ≢ err out_of_fuel
unfolding type_segment
type_segment_ends types name =
    bind_ne (or_no_type name (lookup name types)) _ (or_no_type_ne name (lookup name types))
      (λ fields. ok_ne _)

add_segments_ends :
    (types : Types) (s : Bytes) (names : List Bytes) → add_segments types s names ≢ err out_of_fuel
unfolding add_segments
add_segments_ends types s [] = ok_ne s
add_segments_ends types s (n ∷ names) =
    bind_ne (type_segment types n) _ (type_segment_ends types n)
      (λ segment. add_segments_ends types (s ++ segment) names)

encode_type_ne : (types : Types) (name : Bytes) → encode_type types name ≢ err out_of_fuel
unfolding encode_type
encode_type_ne types name =
    bind_ne (collect_types types (suc (length types)) name []) _ (collect_types_ends types name)
      (λ found.
        bind_ne (type_segment types name) _ (type_segment_ends types name)
          (λ s. add_segments_ends types s (sort_strings (delete name found))))

before_last-lt : (c : ℕ) (t base : Bytes) → before_last c t ≡ some base → length base < length t
before_last-lt c [] base e = cc
before_last-lt c (x ∷ t) base e = step (before_last c t) (before_last-lt c t) e
  where
    step :
        (o : Option Bytes)
        → ((u : Bytes) → o ≡ some u → length u < length t)
        → elim o [ some u ↦ some (x ∷ u) | none ↦ if x == c then some [] else none ] ≡ some base
        → length base < length (x ∷ t)
    step (some u) ih h = let same : x ∷ u ≡ base = cc in omega (arith, ih u refl, ap length same)
    step none ih h = ground arith

array_element-lt : (t base : Bytes) → array_element t ≡ some base → length base < length t
unfolding array_element
array_element-lt t base e = elim (Bool-cases (ends_with b']' t)) [
  | inl array ↦ before_last-lt b'[' t base (simp (array) at e)
  | inr plain ↦ absurd (let stuck = simp (plain) at e in cc)
]

strip_arrays_ends :
    (fuel : ℕ) (t : Bytes) → length t ≤ fuel → array_element (strip_arrays fuel t) ≡ none
unfolding strip_arrays
strip_arrays_ends zero [] h = unfold array_element in refl
strip_arrays_ends zero (c ∷ t) h = absurd (omega (arith, h))
strip_arrays_ends (suc fuel) t h =
    step (array_element t) refl (array_element-lt t) (strip_arrays_ends fuel)
  where
    step :
        (o : Option Bytes)
        → array_element t ≡ o
        → ((base : Bytes) → o ≡ some base → length base < length t)
        → ((u : Bytes) → length u ≤ fuel → array_element (strip_arrays fuel u) ≡ none)
        → array_element (elim o [ none ↦ t | some base ↦ strip_arrays fuel base ]) ≡ none
    step none e shorter ih = e
    step (some base) e shorter ih = ih base (omega (arith, h, shorter base refl))

-- For every schema and name, `encodeType` returns: the fuel of its walk never runs out, so it gives the type
-- string or one of the errors of the source. And `elementType` strips every array suffix of a type.
pub encode_type_ends :
    (types : Types) (name t : Bytes)
    → (encode_type types name ≢ err out_of_fuel) × (array_element (element_type t) ≡ none)
unfolding element_type
encode_type_ends types name t =
    (encode_type_ne types name, strip_arrays_ends (length t) t (omega arith))
