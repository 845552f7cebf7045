-- ===== src/Auth/Level1.antt =====
-- What the level-1 digest commits to: the address, the chain, the timestamp and the nonce.
use go_polymarket.Base.{
  ◌≡◌, refl, sym, ap, ◌∙◌, ◌⊎◌, inl, inr, some, List, [], ◌∷◌, ◌++◌, Result, ok, ◌>>=◌, map_err,
  bind_congr, bind_assoc, bind_inversion, map_err-ok, append-nil, value_of,
}
use go_polymarket.Base.Bytes.{Bytes, codes}
use go_polymarket.Base.Int.{ℤ}
use go_polymarket.Eip712.{
  Word, Domain, uint, address, string, keccak256, separator, struct_hash, digest, type_hash,
}
use go_polymarket.Eip712.Words.{uint-injective}
use go_polymarket.Eip712.Binding.{Collision, IsWide, same_input}
use go_polymarket.Eip712.Domains.{SameDomain, typed_data_binds, type-IsWide}
use go_polymarket.Protocol.{
  clob_auth_domain_name, clob_auth_domain_version, clob_auth_message, clob_auth_type_string,
}
use go_polymarket.TypedData.Types.{
  Types, TypedError, word, eip712_domain, domain_type, encode_type, collect_types, collect_fields,
  type_segment, segment_from, add_segments, element_type, strip_arrays, array_element,
}
use go_polymarket.TypedData.Values.{
  Message, entry, text, integer, no_entries, typed_digest, typed_struct_hash, domain_separator,
  encode_value, by_type, encode_typed_value, typed_string, typed_uint, read_entry, hash_struct,
}
use go_polymarket.TypedData.Hash.{all_words, hash_struct_lem}
use go_polymarket.TypedData.Named.{
  named_words, results, all_ok, named_words-ok, uint-wide, address-wide, all_ok-IsWide, BothAre,
  all_agree, agree_word,
}
use go_polymarket.Order.Payload.{
  clob_auth_digest, clob_auth_typed_data, clob_auth_struct_fields, clob_auth_domain,
}

-- The types of the payload and its content.
abbrev auth_types : ℤ → Types
auth_types chain_id =
    (codes "EIP712Domain", domain_type (clob_auth_domain chain_id))
    ∷ (codes "ClobAuth", clob_auth_struct_fields)
    ∷ []

abbrev auth_content : Bytes → Bytes → ℤ → Message
auth_content a timestamp nonce = entry (codes "address") (text a) (
    entry (codes "timestamp") (text timestamp) (
      entry (codes "nonce") (integer nonce)
        (entry (codes "message") (text clob_auth_message) no_entries)))

-- The domain, which has no contract.
abbrev auth_domain : ℤ → Domain
auth_domain chain_id = record {
  name = clob_auth_domain_name;
  version = clob_auth_domain_version;
  chain_id = some chain_id;
  verifying_contract = [];
}

module _ (keccak : Bytes → Bytes) where
  -- The signed fields, each with its word: the timestamp is hashed as a text, the nonce is a number.
  abbrev auth_words : Bytes → Bytes → ℤ → List (Bytes × Result TypedError Word)
  auth_words a timestamp nonce =
      (codes "address", map_err word (address a))
      ∷ (codes "timestamp", ok (string keccak timestamp))
      ∷ (codes "nonce", map_err word (uint nonce))
      ∷ (codes "message", ok (string keccak clob_auth_message))
      ∷ []

  auth_type : (c : ℤ) → encode_type (auth_types c) (codes "ClobAuth") ≡ ok clob_auth_type_string
  unfolding clob_auth_struct_fields encode_type collect_types collect_fields type_segment
      segment_from add_segments element_type strip_arrays array_element
  auth_type c = refl

  auth_fields :
      (a t : Bytes) (c n : ℤ)
      → all_words keccak
          (read_entry keccak (auth_types c) (auth_content a t n))
          clob_auth_struct_fields
        ≡ named_words (auth_words a t n)
  unfolding clob_auth_struct_fields encode_value by_type encode_typed_value typed_string typed_uint
      array_element
  auth_fields a t c n = refl

  auth_struct_hash :
      (a t : Bytes) (c n : ℤ)
      → hash_struct keccak
          (auth_types c)
          (codes "ClobAuth")
          (read_entry keccak (auth_types c) (auth_content a t n))
        ≡ (named_words (auth_words a t n) >>= λ words.
            ok (struct_hash keccak (type_hash keccak clob_auth_type_string) words))
  auth_struct_hash a t c n =
      hash_struct_lem keccak (auth_types c) (codes "ClobAuth")
        (read_entry keccak (auth_types c) (auth_content a t n))
      ∙ rw (auth_type c) (rw (auth_fields a t c n) refl)

  -- The digest is that of the domain and of four words behind the hash of the type string of protocol.go.
  pub clob_auth_digest_lem :
      (a t : Bytes) (c n : ℤ)
      → clob_auth_digest keccak a c t n ≡ (
          map_err word (separator keccak (auth_domain c)) >>= λ s.
          named_words (auth_words a t n) >>= λ words.
          ok (digest keccak s (struct_hash keccak (type_hash keccak clob_auth_type_string) words)))
  unfolding clob_auth_digest clob_auth_typed_data typed_digest typed_struct_hash domain_separator
      eip712_domain
  clob_auth_digest_lem a t c n =
      bind_congr (map_err word (separator keccak (auth_domain c))) _ _ (λ s.
        rw (auth_struct_hash a t c n)
          (bind_assoc (named_words (auth_words a t n)) _ (λ h. ok (digest keccak s h))))

  abbrev Digested : Bytes → Bytes → ℤ → ℤ → Word → Type 0
  Digested a t c n h =
      (s : Word) × (ws : List Word) × (separator keccak (auth_domain c) ≡ ok s)
      × (named_words (auth_words a t n) ≡ ok ws)
      × (h ≡ digest keccak s (struct_hash keccak (type_hash keccak clob_auth_type_string) ws))

  digested :
      (a t : Bytes) (c n : ℤ) (h : Word)
      → clob_auth_digest keccak a c t n ≡ ok h
      → Digested a t c n h
  digested a t c n h e =
      let (s, sep, rest) =
        bind_inversion (map_err word (separator keccak (auth_domain c))) _
          (sym (clob_auth_digest_lem a t c n) ∙ e) in
      let (ws, words, made) = bind_inversion (named_words (auth_words a t n)) _ rest in
      (s, ws, map_err-ok word (separator keccak (auth_domain c)) s sep, words, value_of (sym made))

  same_chain : (c c' : ℤ) → SameDomain (auth_domain c) (auth_domain c') → c ≡ c'
  same_chain c c' (_, _, same, _, _) = cc

  same_nonce : (n n' : ℤ) → BothAre (map_err word (uint n)) (map_err word (uint n')) → n ≡ n'
  same_nonce n n' (w, e, e') =
      uint-injective n n' w (map_err-ok word (uint n) w e) (map_err-ok word (uint n') w e')

  same_text :
      (t t' : Bytes)
      → BothAre (ok (string keccak t)) (ok (string keccak t'))
      → (t ≡ t') ⊎ Collision keccak
  unfolding string keccak256
  same_text t t' (w, e, e') =
      elim (same_input keccak (t ++ []) (t' ++ []) (value_of (e ∙ sym e'))) [
        | inl same ↦ inl (sym (append-nil t) ∙ same ∙ append-nil t')
        | inr x ↦ inr x
      ]

  -- If the hash returns 32 bytes, two level-1 payloads with one digest are for the same address and the same chain,
  -- and have the same timestamp text and the same nonce, or a collision of `keccak` is at hand.
  pub clob_auth_digest_binds :
      (width : (x : Bytes) → IsWide (keccak x)) (a a' t t' : Bytes) (c c' n n' : ℤ) (h : Word)
      → clob_auth_digest keccak a c t n ≡ ok h
      → clob_auth_digest keccak a' c' t' n' ≡ ok h
      → ((address a ≡ address a') × (c ≡ c') × (t ≡ t') × (n ≡ n')) ⊎ Collision keccak
  unfolding string keccak256
  clob_auth_digest_binds width a a' t t' c c' n n' h e e' =
      let (s, ws, es, ew, eh) = digested a t c n h e in
      let (s', ws', es', ew', eh') = digested a' t' c' n' h e' in
      let words = named_words-ok (auth_words a t n) ws ew in
      let words' = named_words-ok (auth_words a' t' n') ws' ew' in
      let th = type_hash keccak clob_auth_type_string in
      let wide = type-IsWide keccak width clob_auth_type_string in
      elim (typed_data_binds keccak width (auth_domain c) (auth_domain c') s s' th th ws ws' es es'
        wide wide
        (all_ok-IsWide (results (auth_words a t n)) ws words
          (address-wide a, (width _, (uint-wide n, (width _, tt)))))
        (all_ok-IsWide (results (auth_words a' t' n')) ws' words'
          (address-wide a', (width _, (uint-wide n', (width _, tt)))))
        (sym eh ∙ eh')) [
          | inr x ↦ inr x
          | inl (domains, _, fields) ↦
              let (first, (second, (third, _))) =
                all_agree (results (auth_words a t n)) (results (auth_words a' t' n')) ws words
                  (words' ∙ ap all_ok (sym fields)) in
              elim (same_text t t' second) [
                | inr x ↦ inr x
                | inl times ↦ inl (
                  agree_word (address a) (address a') first,
                  same_chain c c' domains,
                  times,
                  same_nonce n n' third,
                )
              ]
        ]
