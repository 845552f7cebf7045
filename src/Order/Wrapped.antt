-- ===== src/Order/Wrapped.antt =====
-- The layout of a contract wallet's signature: the wallet reads it backwards, from the length of the type
-- string at the end.
use go_polymarket.Base.{
  ℕ, suc, ◌+◌, ◌-◌, ◌*◌, ◌/◌, ◌%◌, ◌<◌, ◌≡◌, refl, sym, ap, ◌∙◌, subst, some, List, [], ◌∷◌, ◌++◌,
  arith, length, length-append, take, drop, get_or, piece, append_assoc, All, All-append, Result,
  ok, map_err, bind_inversion, map_err-ok,
}
use go_polymarket.Base.Bytes.{Bytes, IsByte, codes}
use go_polymarket.Base.Int.{ℤ}
use go_polymarket.Base.Hex.{encode_hex, decode_hex, trim_0x, decode_hex-encode_hex}
use go_polymarket.Eip712.{Error, Word, Domain, separator, domain_parts, struct_hash, keccak256}
use go_polymarket.Eip712.Words.{trim_hex}
use go_polymarket.Eip712.Binding.{IsWide}
use go_polymarket.Protocol.{order_type_string}
use go_polymarket.TypedData.Types.{TypedError, or_no_type, lookup, encode_type}
use go_polymarket.TypedData.Values.{
  typed_digest, domain_separator, TypedData, typed_struct_hash, read_entry,
}
use go_polymarket.TypedData.Hash.{all_words, hash_struct_lem}
use go_polymarket.Order.{Order, OrderOptions, bad_domain, payload, order_domain, version_of}
use go_polymarket.Order.Payload.{order_typed_data, order_digest}
use go_polymarket.Order.Binding.{Digested, order_digest-ok}
use go_polymarket.Order.Sign.{wrap_order_signature}

-- What the wallet finds.
pub record Wrapped : Type 0 where
  pub inner : Bytes
  pub app_separator : Word
  pub contents : Word
  pub type_string : Bytes

-- The wallet's reading: two bytes of length at the end, the type string before them, and two words before it.
abbrev pub read_length : Bytes → ℕ
read_length b = get_or b (length b - 2) 0 * 256 + get_or b (length b - 1) 0

abbrev pub unwrap : Bytes → Wrapped
unwrap b =
    let rest = length b - (2 + read_length b) in
    record {
      inner = take (rest - 64) b;
      app_separator = take 32 (drop (rest - 64) b);
      contents = take 32 (drop (rest - 32) b);
      type_string = take (read_length b) (drop rest b);
    }

get_or-append {ℓ} :
    {A : Type ℓ} (xs ys : List A) (i : ℕ) (d : A)
    → get_or (xs ++ ys) (length xs + i) d ≡ get_or ys i d
get_or-append [] ys i d = ap (λ k. get_or ys k d) {x = 0 + i} {y = i} (omega arith)
get_or-append (x ∷ xs) ys i d =
    ap (λ k. get_or (x ∷ xs ++ ys) k d) {x = suc (length xs) + i} {y = suc (length xs + i)}
      (omega arith)
    ∙ get_or-append xs ys i d

abbrev laid : Bytes → Word → Word → Bytes → Bytes
laid inner s contents t =
    inner ++ (s ++ (contents ++ (t ++ length t / 256 % 256 ∷ length t % 256 ∷ [])))

length-laid :
    (inner s contents t : Bytes)
    → IsWide s
    → IsWide contents
    → length (laid inner s contents t) ≡ length inner + 64 + length t + 2
length-laid inner s contents t ws wc = omega (
  arith,
  length-append inner (s ++ (contents ++ (t ++ length t / 256 % 256 ∷ length t % 256 ∷ []))),
  length-append s (contents ++ (t ++ length t / 256 % 256 ∷ length t % 256 ∷ [])),
  length-append contents (t ++ length t / 256 % 256 ∷ length t % 256 ∷ []),
  length-append t (length t / 256 % 256 ∷ length t % 256 ∷ []),
  ws,
  wc,
)

-- The bytes before the length.
laid-front :
    (inner s contents t : Bytes)
    → laid inner s contents t
      ≡ (inner ++ (s ++ (contents ++ t))) ++ length t / 256 % 256 ∷ length t % 256 ∷ []
laid-front inner s contents t = simp (append_assoc)

front-length :
    (inner s contents t : Bytes)
    → IsWide s
    → IsWide contents
    → length (inner ++ (s ++ (contents ++ t))) ≡ length inner + 64 + length t
front-length inner s contents t ws wc = omega (
  arith,
  length-append inner (s ++ (contents ++ t)),
  length-append s (contents ++ t),
  length-append contents t,
  ws,
  wc,
)

read_length-laid :
    (inner s contents t : Bytes)
    → IsWide s
    → IsWide contents
    → length t < 65536
    → read_length (laid inner s contents t) ≡ length t
read_length-laid inner s contents t ws wc short =
    let front = inner ++ (s ++ (contents ++ t)) in
    let high = length t / 256 % 256 in
    let low = length t % 256 in
    let len = length-laid inner s contents t ws wc in
    let flen = front-length inner s contents t ws wc in
    let whole = laid-front inner s contents t in
    let at : (i j : ℕ)
        → i ≡ length front + j
        → get_or (laid inner s contents t) i 0 ≡ get_or (high ∷ low ∷ []) j 0 =
      λ i j e. rw (whole, e) (get_or-append front (high ∷ low ∷ []) j 0) in
    let a = at (length (laid inner s contents t) - 2) 0 (omega (arith, len, flen)) in
    let b = at (length (laid inner s contents t) - 1) 1 (omega (arith, len, flen)) in
    rw (a, b) (omega (arith, short))

middle :
    (inner s contents t tail : Bytes)
    → (inner ++ (s ++ contents)) ++ (t ++ tail) ≡ inner ++ (s ++ (contents ++ (t ++ tail)))
middle inner s contents t tail = simp (append_assoc)

unwrap-laid :
    (inner s contents t : Bytes)
    → IsWide s
    → IsWide contents
    → length t < 65536
    → unwrap (laid inner s contents t)
      ≡ record { inner = inner; app_separator = s; contents = contents; type_string = t }
unwrap-laid inner s contents t ws wc short =
    let b = laid inner s contents t in
    let tail = length t / 256 % 256 ∷ length t % 256 ∷ [] in
    let len = length-laid inner s contents t ws wc in
    let read = read_length-laid inner s contents t ws wc short in
    let p₀ : take (length b - (2 + read_length b) - 64) b ≡ inner =
      piece [] inner (s ++ (contents ++ (t ++ tail))) 0 _ refl (omega (arith, len, read)) in
    let p₁ : take 32 (drop (length b - (2 + read_length b) - 64) b) ≡ s =
      piece inner s (contents ++ (t ++ tail)) _ 32 (omega (arith, len, read)) (sym ws) in
    let p₂ : take 32 (drop (length b - (2 + read_length b) - 32) b) ≡ contents =
      subst (λ x. take 32 (drop (length b - (2 + read_length b) - 32) x) ≡ contents)
        (append_assoc inner s (contents ++ (t ++ tail)))
        (piece (inner ++ s) contents (t ++ tail) _ 32
          (omega (arith, len, read, length-append inner s, ws)) (sym wc)) in
    let p₃ : take (read_length b) (drop (length b - (2 + read_length b)) b) ≡ t =
      subst (λ x. take (read_length b) (drop (length b - (2 + read_length b)) x) ≡ t)
        (middle inner s contents t tail)
        (piece (inner ++ (s ++ contents)) t tail _ _
          (omega (
            arith,
            len,
            read,
            length-append inner (s ++ contents),
            length-append s contents,
            ws,
            wc,
          ))
          read) in
    cc

module _ (keccak : Bytes → Bytes) where
  hash_of :
      (x w : Bytes)
      → Path (Result TypedError Bytes) (ok (keccak x)) (ok w)
      → (y : Bytes) × (w ≡ keccak y)
  hash_of x w e = (x, cc)

  domain_hash_of :
      (x w : Bytes)
      → Path (Result Error Bytes) (ok (keccak x)) (ok w)
      → (y : Bytes) × (w ≡ keccak y)
  domain_hash_of x w e = (x, cc)

  struct-hashed :
      (td : TypedData) (w : Word)
      → typed_struct_hash keccak td ≡ ok w
      → (x : Bytes) × (w ≡ keccak x)
  unfolding typed_struct_hash struct_hash keccak256
  struct-hashed td w e =
      let read = read_entry keccak td.types td.content in
      let (fields, _, e₁) =
        bind_inversion (or_no_type td.primary_type (lookup td.primary_type td.types)) _
          (sym (hash_struct_lem keccak td.types td.primary_type read) ∙ e) in
      let (ts, _, e₂) = bind_inversion (encode_type td.types td.primary_type) _ e₁ in
      let (ws, _, e₃) = bind_inversion (all_words keccak read fields) _ e₂ in hash_of _ w e₃

  separator-hashed :
      (d : Domain) (w : Word) → separator keccak d ≡ ok w → (x : Bytes) × (w ≡ keccak x)
  unfolding separator struct_hash keccak256
  separator-hashed d w e =
      let (p, _, made) = bind_inversion (domain_parts keccak d) _ e in domain_hash_of _ w made

  -- What the wallet must find: the separator of the exchange's domain and the hash of the order.
  abbrev pub Delivers : Order → ℤ → OrderOptions → Bytes → Bytes → Type 0
  Delivers o chain_id opts inner b =
      (d : Domain) × (td : TypedData) × (s : Word) × (contents : Word) × (order_domain chain_id
          (version_of opts) opts.neg_risk
        ≡ ok d)
      × (order_typed_data o chain_id opts ≡ ok td)
      × (separator keccak d ≡ ok s)
      × (typed_struct_hash keccak td ≡ ok contents)
      × (unwrap b ≡ record {
        inner = inner;
        app_separator = s;
        contents = contents;
        type_string = order_type_string;
      })

  -- If the hash returns 32 bytes, a wrapped signature is the hex text of bytes in which a wallet, which
  -- reads backwards from the length at the end, finds the inner signature, the separator of the
  -- exchange's domain, the struct hash of the order and the type string of the order.
  pub unwrap-wrap_order_signature :
      (width : (x : Bytes) → IsWide (keccak x)) (bytes : (x : Bytes) → All IsByte (keccak x))
      (inner : Bytes) (o : Order) (chain_id : ℤ) (opts : OrderOptions) (out : Bytes)
      → All IsByte inner
      → wrap_order_signature keccak inner o chain_id opts ≡ ok out
      → (b : Bytes) × (decode_hex (trim_0x out) ≡ some b) × Delivers o chain_id opts inner b
  unfolding wrap_order_signature
  unwrap-wrap_order_signature width bytes inner o chain_id opts out hi e =
      let (d, ed, e₁) =
        bind_inversion (order_domain chain_id (version_of opts) opts.neg_risk) _ e in
      let (s, es, e₂) = bind_inversion (map_err bad_domain (separator keccak d)) _ e₁ in
      let (td, et, e₃) = bind_inversion (order_typed_data o chain_id opts) _ e₂ in
      let (contents, ec, e₄) =
        bind_inversion (map_err payload (typed_struct_hash keccak td)) _ e₃ in
      let es' = map_err-ok bad_domain (separator keccak d) s es in
      let ec' = map_err-ok payload (typed_struct_hash keccak td) contents ec in
      let (x, ex) = separator-hashed d s es' in
      let (y, ey) = struct-hashed td contents ec' in
      let b = laid inner s contents order_type_string in
      let all_bytes : All IsByte b = All-append IsByte inner _ hi (
        All-append IsByte s _ (subst (All IsByte) (sym ex) (bytes x))
          (All-append IsByte contents _ (subst (All IsByte) (sym ey) (bytes y)) (ground arith))) in
      let text : out ≡ codes "0x" ++ encode_hex b = cc in
      (
        b,
        rw (text, trim_hex b) (decode_hex-encode_hex b all_bytes),
        (
          d,
          td,
          s,
          contents,
          ed,
          et,
          es',
          ec',
          unwrap-laid inner s contents order_type_string (subst IsWide (sym ex) (width x))
              (subst IsWide (sym ey) (width y)) (ground arith),
        ),
      )

  -- An order that has a digest can be wrapped, whatever the inner signature.
  pub wrap_order_signature-digested :
      (inner : Bytes) (o : Order) (chain_id : ℤ) (opts : OrderOptions) (h : Word)
      → order_digest keccak o chain_id opts ≡ ok h
      → (out : Bytes) × (wrap_order_signature keccak inner o chain_id opts ≡ ok out)
  unfolding wrap_order_signature order_digest typed_digest Digested
  wrap_order_signature-digested inner o chain_id opts h e =
      let (d, s, _, ed, es, _, _) = order_digest-ok keccak o chain_id opts h e in
      let (td, et, hashed) = bind_inversion (order_typed_data o chain_id opts) _ e in
      let (_, _, e₁) =
        bind_inversion (domain_separator keccak td.domain) _
          (map_err-ok payload (typed_digest keccak td) h hashed) in
      let (contents, ec, _) = bind_inversion (typed_struct_hash keccak td) _ e₁ in
      (codes "0x" ++ encode_hex (laid inner s contents order_type_string), rw (ed, es, et, ec) refl)
