-- ===== src/Auth/Tests.antt =====
-- A level-1 payload in two spellings of the address, and the secrets of level 2.
use go_polymarket.Base.{
  ◌≡◌, refl, sym, ◌∙◌, ◌⊎◌, ok, is_ok→ok, Option, none, some, [], ◌++◌, ◌%◌, ◌==◌, if◌then◌else◌,
  length, arith,
}
use go_polymarket.Base.Bytes.{Bytes, codes}
use go_polymarket.Base.Hex.{decode_hex, trim_0x}
use go_polymarket.Base.Int.{pos}
use go_polymarket.Samples.{short_hash, length-short_hash}
use go_polymarket.Base.Word.{int_bytes}
use go_polymarket.TypedData.Types.{eip712_domain, encode_type, element_type, array_element}
use go_polymarket.TypedData.Values.{typed_digest}
use go_polymarket.Eip712.{
  Word, address, decode_hex_of, separator, uint, encoder_struct_hash, append,
}
use go_polymarket.Eip712.Binding.{Collision}
use go_polymarket.Order.Payload.{clob_auth_digest, clob_auth_typed_data, clob_auth_struct_fields}
use go_polymarket.Auth.{trim_padding, pad_base64, ApiCreds, build_l2_headers}
use go_polymarket.Auth.Secret.{build_l2_headers-padding}
use go_polymarket.Auth.Level1.{clob_auth_digest_lem, clob_auth_digest_binds}

trim_padding_test : trim_padding (codes "a=b==") ≡ codes "a=b"
unfolding trim_padding
trim_padding_test = refl

pad_base64_test : pad_base64 (codes "abcdef") ≡ codes "abcdef=="
unfolding pad_base64
pad_base64_test = refl

abbrev key_holder : Bytes
key_holder = codes "0xaB11111111111111111111111111111111111111"

abbrev same_holder : Bytes
same_holder = codes "0xab11111111111111111111111111111111111111"

login :
    (h : Word) × (clob_auth_digest short_hash key_holder (pos 137) (codes "1700000000") (pos 7)
      ≡ ok h)
unfolding address decode_hex_of decode_hex trim_0x clob_auth_digest typed_digest separator
    eip712_domain uint clob_auth_typed_data int_bytes encode_type clob_auth_struct_fields
    element_type array_element encoder_struct_hash append
login =
    is_ok→ok (clob_auth_digest short_hash key_holder (pos 137) (codes "1700000000") (pos 7)) refl

same_login :
    clob_auth_digest short_hash same_holder (pos 137) (codes "1700000000") (pos 7)
    ≡ clob_auth_digest short_hash key_holder (pos 137) (codes "1700000000") (pos 7)
unfolding address decode_hex_of decode_hex trim_0x
same_login =
    clob_auth_digest_lem short_hash same_holder (codes "1700000000") (pos 137) (pos 7)
    ∙ sym (clob_auth_digest_lem short_hash key_holder (codes "1700000000") (pos 137) (pos 7))

clob_auth_digest_binds_example :
    ((address key_holder ≡ address same_holder)
      × (pos 137 ≡ pos 137)
      × (codes "1700000000" ≡ codes "1700000000")
      × (pos 7 ≡ pos 7))
    ⊎ Collision short_hash
clob_auth_digest_binds_example =
    clob_auth_digest_binds short_hash length-short_hash key_holder same_holder (codes "1700000000")
      (codes "1700000000") (pos 137) (pos 137) (pos 7) (pos 7) login.0 login.1
      (same_login ∙ login.1)

-- Decoders that read a text of the length that they expect, and a hash that keeps both parts.
abbrev padded_only : Bytes → Option Bytes
padded_only s = if length s % 4 == 0 then some s else none

abbrev joined_hash : Bytes → Bytes → Bytes
joined_hash k m = k ++ m

abbrev plain : Bytes → Bytes
plain b = b

abbrev bare_creds : ApiCreds
bare_creds = record { key = codes "k"; secret = codes "abcdef"; passphrase = codes "p" }

abbrev padded_creds : ApiCreds
padded_creds = record { key = codes "k"; secret = codes "abcdef=="; passphrase = codes "p" }

build_l2_headers-padding_example :
    build_l2_headers joined_hash plain padded_only some padded_only bare_creds key_holder
      (codes "1700000000")
      (codes "GET")
      (codes "/orders")
      []
    ≡ build_l2_headers joined_hash plain padded_only some padded_only padded_creds key_holder
        (codes "1700000000")
        (codes "GET")
        (codes "/orders")
        []
build_l2_headers-padding_example =
    build_l2_headers-padding joined_hash plain padded_only some padded_only (codes "k")
      (codes "abcdef") (codes "p") key_holder (codes "1700000000") (codes "GET") (codes "/orders")
      [] 2 (omega arith) refl
