-- ===== src/Auth.antt =====
-- auth.go: the headers of level 1, which sign a payload, and of level 2, which authenticate a request by
-- HMAC. The HMAC-SHA256 and the three base64 decoders are the standard library's, so they are
-- parameters; a decoder returns `none` for its error.
mod Tests
pub mod Level1
pub mod Secret
use go_polymarket.Base.{
  ℕ, ◌%◌, Option, none, some, List, [], ◌∷◌, ◌++◌, ◌==◌, ◌&&◌, if◌then◌else◌, length, drop, Result,
  ok, err, ◌>>=◌, map_err,
}
use go_polymarket.Base.Bytes.{Bytes, codes, is_empty}
use go_polymarket.Base.Hex.{encode_hex}
use go_polymarket.Base.Int.{ℤ}
use go_polymarket.Base.Decimal.{format_ℤ}
use go_polymarket.Order.{OrderError}
use go_polymarket.Order.Payload.{clob_auth_typed_data}
use go_polymarket.Order.Sign.{PayloadSigner, sign_payload}

pub record ApiCreds : Type 0 where
  pub key : Bytes
  pub secret : Bytes
  pub passphrase : Bytes

pub record L1Headers : Type 0 where
  pub l1_address : Bytes
  pub l1_signature : Bytes
  pub l1_timestamp : Bytes
  pub nonce : Bytes

pub record L2Headers : Type 0 where
  pub l2_address : Bytes
  pub l2_signature : Bytes
  pub api_key : Bytes
  pub l2_passphrase : Bytes
  pub l2_timestamp : Bytes

pub data AuthError : Type 0 where
  needs_signer bad_secret : AuthError
  level1 : OrderError → AuthError
  unset : List Bytes → AuthError

-- The names of the variables that are empty.
abbrev pub missing : List (Bytes × Bytes) → List Bytes
missing [] = []
missing ((name, value) ∷ vars) = if is_empty value then name ∷ missing vars else missing vars

-- `CredentialsFromEnv()`, of the environment.
unfoldable pub credentials_from_env : (Bytes → Bytes) → Result AuthError ApiCreds
credentials_from_env getenv =
    let creds : ApiCreds = record {
      key = getenv (codes "POLYMARKET_API_KEY");
      secret = getenv (codes "POLYMARKET_API_SECRET");
      passphrase = getenv (codes "POLYMARKET_API_PASSPHRASE");
    } in
    elim (missing (
      (codes "POLYMARKET_API_KEY", creds.key)
      ∷ (codes "POLYMARKET_API_SECRET", creds.secret)
      ∷ (codes "POLYMARKET_API_PASSPHRASE", creds.passphrase)
      ∷ [])) [ [] ↦ ok creds | name ∷ names ↦ err (unset (name ∷ names)) ]

-- `strings.TrimRight(s, "=")`
unfoldable pub trim_padding : Bytes → Bytes
trim_padding [] = []
trim_padding (c ∷ s) = let t = trim_padding s in if is_empty t && c == b'=' then [] else c ∷ t

unfoldable pub pad_base64 : Bytes → Bytes
pad_base64 s = if length s % 4 == 0 then s else s ++ drop (length s % 4) (codes "====")

module _ (url_decode raw_url_decode std_decode : Bytes → Option Bytes) where
  unfoldable pub decode_secret : Bytes → Option Bytes
  decode_secret s = elim (url_decode (pad_base64 s)) [
    | some b ↦ some b
    | none ↦ elim (raw_url_decode (trim_padding s)) [
      | some b ↦ some b
      | none ↦ std_decode (pad_base64 s)
    ]
  ]

module _ (hmac_sha256 : Bytes → Bytes → Bytes) (url_encode : Bytes → Bytes)
    (url_decode raw_url_decode std_decode : Bytes → Option Bytes) where
  unfoldable pub sign_hmac : Bytes → Bytes → Bytes → Bytes → Bytes → Result AuthError Bytes
  unfolding decode_secret
  sign_hmac secret timestamp method request_path body =
      elim (decode_secret url_decode raw_url_decode std_decode secret) [
        | none ↦ err bad_secret
        | some key ↦
            ok (url_encode (hmac_sha256 key (timestamp ++ (method ++ (request_path ++ body)))))
      ]

  unfoldable pub build_l2_headers :
      ApiCreds → Bytes → Bytes → Bytes → Bytes → Bytes → Result AuthError L2Headers
  unfolding sign_hmac
  build_l2_headers creds address timestamp method request_path body = do
    sig ← sign_hmac creds.secret timestamp method request_path body
    ok (record {
      l2_address = address;
      l2_signature = sig;
      api_key = creds.key;
      l2_passphrase = creds.passphrase;
      l2_timestamp = timestamp;
    })

module _ (keccak : Bytes → Bytes) (recover : Bytes → Bytes → Option Bytes) where
  -- `none` is the nil signer.
  unfoldable pub build_l1_headers :
      Option PayloadSigner → ℤ → Bytes → ℤ → Result AuthError L1Headers
  build_l1_headers none chain_id timestamp nonce = err needs_signer
  build_l1_headers (some s) chain_id timestamp nonce = do
    sig ← map_err level1 (
        sign_payload keccak recover s (clob_auth_typed_data s.own_address chain_id timestamp nonce))
    ok (record {
      l1_address = s.own_address;
      l1_signature = codes "0x" ++ encode_hex sig;
      l1_timestamp = timestamp;
      nonce = format_ℤ nonce;
    })

abbrev pub l1_header : L1Headers → List (Bytes × Bytes)
l1_header h =
    (codes "POLY_ADDRESS", h.l1_address)
    ∷ (codes "POLY_SIGNATURE", h.l1_signature)
    ∷ (codes "POLY_TIMESTAMP", h.l1_timestamp)
    ∷ (codes "POLY_NONCE", h.nonce)
    ∷ []

abbrev pub l2_header : L2Headers → List (Bytes × Bytes)
l2_header h =
    (codes "POLY_ADDRESS", h.l2_address)
    ∷ (codes "POLY_SIGNATURE", h.l2_signature)
    ∷ (codes "POLY_API_KEY", h.api_key)
    ∷ (codes "POLY_PASSPHRASE", h.l2_passphrase)
    ∷ (codes "POLY_TIMESTAMP", h.l2_timestamp)
    ∷ []
