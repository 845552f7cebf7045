-- ===== src/Eip712/Fields.antt =====
-- The encoder: fields appended one after the other hash like the list of their words.
use go_polymarket.Base.{
  ◌≡◌, refl, sym, ap, ◌∙◌, none, some, List, [], ◌∷◌, ◌++◌, append_assoc, append-nil, Result, ok,
  err, ◌>>=◌,
}
use go_polymarket.Base.Bytes.{Bytes}
use go_polymarket.Eip712.{
  Error, field, Word, Encoder, new_encoder, append, struct_hash, encoder_struct_hash,
}

-- A field: its name, and what its encoding returned.
abbrev pub Field : Type 0
Field = Bytes × Result Error Word

abbrev pub append_all : Encoder → List Field → Encoder
append_all e [] = e
append_all e (f ∷ fs) = append_all (append e f.0 f.1) fs

-- The words of all the fields, or the error of the first field that has none.
abbrev pub collect : List Field → Result Error (List Word)
collect [] = ok []
collect ((name, ok w) ∷ fs) = do ws ← collect fs; ok (w ∷ ws)
collect ((name, err x) ∷ fs) = err (field name x)

module _ (keccak : Bytes → Bytes) (th : Word) where
  failed :
      (ws : List Word) (x : Error) (fs : List Field)
      → encoder_struct_hash keccak (append_all (record { words = ws; failure = some x }) fs) th
        ≡ err x
  unfolding encoder_struct_hash append
  failed ws x [] = refl
  failed ws x ((name, ok w) ∷ fs) = failed (ws ++ w ∷ []) x fs
  failed ws x ((name, err y) ∷ fs) = failed ws x fs

  abbrev hashed : List Word → Result Error (List Word) → Result Error Word
  hashed ws r = do vs ← r; ok (struct_hash keccak th (ws ++ vs))

  hashed-snoc :
      (ws : List Word) (w : Word) (r : Result Error (List Word))
      → hashed (ws ++ w ∷ []) r ≡ hashed ws (r >>= λ vs. ok (w ∷ vs))
  hashed-snoc ws w (ok vs) = ap (λ t. ok (struct_hash keccak th t)) (append_assoc ws (w ∷ []) vs)
  hashed-snoc ws w (err x) = refl

  going :
      (ws : List Word) (fs : List Field)
      → encoder_struct_hash keccak (append_all (record { words = ws; failure = none }) fs) th
        ≡ hashed ws (collect fs)
  unfolding encoder_struct_hash append
  going ws [] = ap (λ t. ok (struct_hash keccak th t)) (sym (append-nil ws))
  going ws ((name, ok w) ∷ fs) = going (ws ++ w ∷ []) fs ∙ hashed-snoc ws w (collect fs)
  going ws ((name, err x) ∷ fs) = failed ws (field name x) fs

  -- Appending fields to the empty encoder and asking for the hash gives the struct hash of all their words
  -- in order, or, if some field failed, the first failure under its field's name.
  pub encoder_struct_hash-append_all :
      (fs : List Field)
      → encoder_struct_hash keccak (append_all new_encoder fs) th
        ≡ (collect fs >>= λ ws. ok (struct_hash keccak th ws))
  encoder_struct_hash-append_all fs = going [] fs
