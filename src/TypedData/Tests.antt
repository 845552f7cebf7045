-- ===== src/TypedData/Tests.antt =====
-- A schema with a nested struct, a list and a type that refers to itself.
use go_polymarket.Base.{◌≡◌, ◌≢◌, refl, none, [], ◌∷◌, ok, err, ◌>>=◌}
use go_polymarket.Base.Bytes.{codes}
use go_polymarket.Samples.{short_hash}
use go_polymarket.Eip712.{struct_hash, type_hash}
use go_polymarket.TypedData.Types.{
  Types, typed_field, lookup, or_no_type, encode_type, element_type, array_element, out_of_fuel,
  collect_types, collect_fields, type_segment, segment_from, add_segments, strip_arrays,
}
use go_polymarket.TypedData.Values.{
  Message, no_entries, entry, text, items, item, no_items, message, hash_struct, read_entry,
}
use go_polymarket.TypedData.Hash.{all_words, hash_struct_lem}
use go_polymarket.TypedData.Fuel.{encode_type_ends}

abbrev mail_types : Types
mail_types =
    (
      codes "Mail",
      typed_field (codes "to") (codes "Person[]") ∷ typed_field (codes "body") (codes "Body") ∷ [],
    )
    ∷ (codes "Person", typed_field (codes "name") (codes "string") ∷ [])
    ∷ (
      codes "Body",
      typed_field (codes "text") (codes "string")
          ∷ typed_field (codes "quoted") (codes "Body[2][]")
          ∷ [],
    )
    ∷ []

-- The structs that are reached follow in order of their names.
encode_type_mail :
    encode_type mail_types (codes "Mail")
    ≡ ok (codes "Mail(Person[] to,Body body)Body(string text,Body[2][] quoted)Person(string name)")
unfolding encode_type collect_types collect_fields type_segment segment_from add_segments
    element_type strip_arrays array_element
encode_type_mail = refl

encode_type_ends_example :
    (encode_type mail_types (codes "Mail") ≢ err out_of_fuel)
    × (array_element (element_type (codes "Body[2][]")) ≡ none)
encode_type_ends_example = encode_type_ends mail_types (codes "Mail") (codes "Body[2][]")

abbrev mail : Message
mail =
    entry (codes "to")
      (items (item (message (entry (codes "name") (text (codes "Ann")) no_entries)) no_items))
      (entry (codes "body")
        (message (
          entry (codes "quoted") (items no_items)
            (entry (codes "text") (text (codes "hi")) no_entries)))
        no_entries)

hash_struct_lem_example :
    hash_struct short_hash mail_types (codes "Mail") (read_entry short_hash mail_types mail) ≡ (
      or_no_type (codes "Mail") (lookup (codes "Mail") mail_types) >>= λ fields.
      encode_type mail_types (codes "Mail") >>= λ type_string.
      all_words short_hash (read_entry short_hash mail_types mail) fields >>= λ words.
      ok (struct_hash short_hash (type_hash short_hash type_string) words))
hash_struct_lem_example =
    hash_struct_lem short_hash mail_types (codes "Mail") (read_entry short_hash mail_types mail)
