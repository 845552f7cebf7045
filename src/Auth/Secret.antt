-- ===== src/Auth/Secret.antt =====
-- The padding of a secret: `decodeSecret` tolerates that it is missing.
use go_polymarket.Base.{
  ℕ, zero, suc, ◌+◌, ◌%◌, ◌≤◌, ◌≡◌, refl, sym, ap, ◌∙◌, Option, none, some, [], ◌∷◌, ◌++◌, arith,
  length, replicate, length-append, length-replicate, append-nil, Result, ok, err, ◌>>=◌,
}
use go_polymarket.Base.Bytes.{Bytes}
use go_polymarket.Auth.{
  AuthError, bad_secret, L2Headers, trim_padding, pad_base64, decode_secret, sign_hmac,
  build_l2_headers,
}

-- The padding of a text.
abbrev pub padding : ℕ → Bytes
padding p = replicate p b'='

pad_base64-padded : (s : Bytes) → length s % 4 ≡ 0 → pad_base64 s ≡ s
unfolding pad_base64
pad_base64-padded s h = rw h refl

pad_base64-stripped :
    (t : Bytes) (p : ℕ) → p ≤ 3 → (length t + p) % 4 ≡ 0 → pad_base64 t ≡ t ++ padding p
unfolding pad_base64
pad_base64-stripped t zero b h =
    let m : length t % 4 ≡ 0 = omega (arith, h) in rw m (sym (append-nil t))
pad_base64-stripped t (suc zero) b h = let m : length t % 4 ≡ 3 = omega (arith, h) in rw m refl
pad_base64-stripped t (suc (suc zero)) b h =
    let m : length t % 4 ≡ 2 = omega (arith, h) in rw m refl
pad_base64-stripped t (suc (suc (suc zero))) b h =
    let m : length t % 4 ≡ 1 = omega (arith, h) in rw m refl
pad_base64-stripped t (suc (suc (suc (suc p)))) b h = absurd (omega (arith, b))

trim_padding-only : (p : ℕ) → trim_padding (padding p) ≡ []
unfolding trim_padding
trim_padding-only zero = refl
trim_padding-only (suc p) = rw (trim_padding-only p) refl

trim_padding-append : (t : Bytes) (p : ℕ) → trim_padding (t ++ padding p) ≡ trim_padding t
unfolding trim_padding
trim_padding-append [] p = trim_padding-only p
trim_padding-append (c ∷ t) p = rw (trim_padding-append t p) refl

length-padded : (t : Bytes) (p : ℕ) → (length t + p) % 4 ≡ 0 → length (t ++ padding p) % 4 ≡ 0
length-padded t p h =
    ap (λ n. n % 4) (length-append t (padding p) ∙ ap (λ n. length t + n) (length-replicate p b'='))
    ∙ h

module _ (url_decode raw_url_decode std_decode : Bytes → Option Bytes) where
  -- The three attempts, on a padded and a stripped text.
  abbrev attempts : Bytes → Bytes → Option Bytes
  attempts s r = elim (url_decode s) [
    | some b ↦ some b
    | none ↦ elim (raw_url_decode r) [ some b ↦ some b | none ↦ std_decode s ]
  ]

  decode_secret-padding :
      (t : Bytes) (p : ℕ)
      → p ≤ 3
      → (length t + p) % 4 ≡ 0
      → decode_secret url_decode raw_url_decode std_decode t
        ≡ decode_secret url_decode raw_url_decode std_decode (t ++ padding p)
  unfolding decode_secret
  decode_secret-padding t p b h =
      ap (λ s. attempts s (trim_padding t))
        (pad_base64-stripped t p b h
          ∙ sym (pad_base64-padded (t ++ padding p) (length-padded t p h)))
      ∙ ap (attempts (pad_base64 (t ++ padding p))) (sym (trim_padding-append t p))

module _ (hmac_sha256 : Bytes → Bytes → Bytes) (url_encode : Bytes → Bytes)
    (url_decode raw_url_decode std_decode : Bytes → Option Bytes) where
  -- A secret that lacks its padding, of at most three characters to a multiple of four, signs a request alike: the
  -- headers of level 2 are those of the padded secret, or both fail, whatever the decoders and the HMAC are.
  pub build_l2_headers-padding :
      (key t passphrase address timestamp method request_path body : Bytes) (p : ℕ)
      → p ≤ 3
      → (length t + p) % 4 ≡ 0
      → build_l2_headers hmac_sha256 url_encode url_decode raw_url_decode std_decode
          (record { key = key; secret = t; passphrase = passphrase })
          address
          timestamp
          method
          request_path
          body
        ≡ build_l2_headers hmac_sha256 url_encode url_decode raw_url_decode std_decode
            (record { key = key; secret = t ++ padding p; passphrase = passphrase })
            address
            timestamp
            method
            request_path
            body
  unfolding build_l2_headers sign_hmac
  build_l2_headers-padding key t passphrase address timestamp method request_path body p b h =
      ap headers (decode_secret-padding url_decode raw_url_decode std_decode t p b h)
    where
      headers : Option Bytes → Result AuthError L2Headers
      headers o =
          elim o [
            | none ↦ err bad_secret
            | some k ↦
                ok (url_encode (hmac_sha256 k (timestamp ++ (method ++ (request_path ++ body)))))
          ]
          >>= λ sig. ok (record {
            l2_address = address;
            l2_signature = sig;
            api_key = key;
            l2_passphrase = passphrase;
            l2_timestamp = timestamp;
          })
