-- ===== src/TypedData/Hash.antt =====
-- The struct hash of a payload is that of the words of the declared fields, in the order of the type.
use go_polymarket.Base.{
  ◌≡◌, refl, sym, ap, ◌∙◌, none, List, [], ◌∷◌, ◌++◌, append_assoc, append-nil, Result, ok, err,
  ◌>>=◌, map_err, bind_congr, bind_assoc,
}
use go_polymarket.Base.Bytes.{Bytes}
use go_polymarket.Eip712.{Word, Encoder, append, struct_hash, type_hash, encoder_struct_hash}
use go_polymarket.TypedData.Types.{
  TypedDataField, Types, TypedError, in_field, word, lookup, or_no_type, encode_type,
}
use go_polymarket.TypedData.Values.{Reader, or_no_field, hash_fields, hash_struct}

module _ (keccak : Bytes → Bytes) where
  -- The word of a declared field.
  abbrev pub word_at : Reader keccak → TypedDataField → Result TypedError Word
  word_at read f = or_no_field keccak f.name (read f.name) >>= λ encode.
      map_err (in_field f.name) (encode f.kind)

  -- The words of the fields in order, or the first error.
  abbrev pub all_words : Reader keccak → List TypedDataField → Result TypedError (List Word)
  all_words read [] = ok []
  all_words read (f ∷ fields) = word_at read f >>= λ w. all_words read fields >>= λ ws. ok (w ∷ ws)

  abbrev with_words : List Word → Encoder
  with_words ws = record { words = ws; failure = none }

  words_snoc :
      (ws : List Word) (w : Word) (r : Result TypedError (List Word))
      → (r >>= λ vs. ok (with_words ((ws ++ w ∷ []) ++ vs)))
        ≡ (r >>= (λ vs. ok (w ∷ vs)) >>= λ vs. ok (with_words (ws ++ vs)))
  words_snoc ws w (err x) = refl
  words_snoc ws w (ok vs) = ap (λ t. ok (with_words t)) (append_assoc ws (w ∷ []) vs)

  hash_fields-words :
      (read : Reader keccak) (fields : List TypedDataField) (ws : List Word)
      → hash_fields keccak read fields (with_words ws)
        ≡ (all_words read fields >>= λ vs. ok (with_words (ws ++ vs)))
  unfolding hash_fields append
  hash_fields-words read [] ws = ap (λ t. ok (with_words t)) (sym (append-nil ws))
  hash_fields-words read (f ∷ fields) ws =
      bind_congr (or_no_field keccak f.name (read f.name)) _ _ (λ encode.
        bind_congr (map_err (in_field f.name) (encode f.kind)) _ _ (λ w.
          hash_fields-words read fields (ws ++ w ∷ []) ∙ words_snoc ws w (all_words read fields)))
      ∙ sym (
          bind_assoc (word_at read f) (λ w. all_words read fields >>= λ vs. ok (w ∷ vs))
            (λ vs. ok (with_words (ws ++ vs)))
          ∙ bind_assoc (or_no_field keccak f.name (read f.name))
              (λ encode. map_err (in_field f.name) (encode f.kind))
              (λ w.
                all_words read fields >>= (λ vs. ok (w ∷ vs)) >>= λ vs. ok (with_words (ws ++ vs))))

  -- `hashStruct` is the struct hash of the words of the declared fields, in the order of the type, whatever
  -- order the message has; it fails with the first error of the type string or of a field.
  pub hash_struct_lem :
      (types : Types) (name : Bytes) (read : Reader keccak)
      → hash_struct keccak types name read ≡ (
          or_no_type name (lookup name types) >>= λ fields.
          encode_type types name >>= λ type_string. all_words read fields >>= λ words.
          ok (struct_hash keccak (type_hash keccak type_string) words))
  unfolding hash_struct encoder_struct_hash
  hash_struct_lem types name read = bind_congr (or_no_type name (lookup name types)) _ _ (λ fields.
      bind_congr (encode_type types name) _ _ (λ type_string.
        rw (hash_fields-words read fields []) (
          bind_assoc (all_words read fields) (λ vs. ok (with_words vs))
            (λ enc. map_err word (encoder_struct_hash keccak enc (type_hash keccak type_string))))))
