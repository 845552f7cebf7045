-- ===== src/Relayer/Tests.antt =====
-- Two calls, packed and encoded, and a signature for a Safe.
use go_polymarket.Base.{◌≡◌, refl, ◌↔◌, [], ◌∷◌, ◌++◌, replicate, length, ok, ◌>>=◌}
use go_polymarket.Base.Bytes.{Bytes, codes}
use go_polymarket.Base.Hex.{encode_hex, decode_hex, trim_0x}
use go_polymarket.Base.Word.{int_bytes}
use go_polymarket.Base.Decimal.{parse_ℤ}
use go_polymarket.Eip712.{address, decode_hex_of, hex_bytes}
use go_polymarket.Samples.{short_hash}
use go_polymarket.Abi.{encode_args_call, list, packed_address, packed_uint}
use go_polymarket.Relayer.{Call, decode, safe_signature}
use go_polymarket.Relayer.Safe.{pack_multisend}
use go_polymarket.Relayer.Proxy.{encode_proxy_calls}
use go_polymarket.Relayer.Calldata.{tuples_of, proxy_signature, encode_proxy_calls-list}
use go_polymarket.Relayer.Multisend.{AreEntries, walk, walk-pack_multisend}
use go_polymarket.Relayer.Signatures.{IsPacked, safe_signature_exact}

abbrev transfer : Call
transfer = record {
  to = codes "0x1111111111111111111111111111111111111111";
  value = codes "7";
  calldata = [];
  operation = 0;
}

abbrev approve : Call
approve = record {
  to = codes "0x2222222222222222222222222222222222222222";
  value = [];
  calldata = codes "0xaabbcc";
  operation = 0;
}

abbrev packed : Bytes
packed =
    0 ∷ replicate 20 0x11
    ++ (replicate 31 0
        ++ (7 ∷ replicate 32 0
            ++ (0 ∷ replicate 20 0x22
                ++ (replicate 32 0 ++ (replicate 31 0 ++ 3 ∷ 0xaa ∷ 0xbb ∷ 0xcc ∷ [])))))

pack_multisend_two : pack_multisend (transfer ∷ approve ∷ []) ≡ ok packed
unfolding pack_multisend decode address decode_hex_of decode_hex trim_0x parse_ℤ packed_address
    packed_uint int_bytes hex_bytes
pack_multisend_two = refl

walk-pack_multisend_example : AreEntries (transfer ∷ approve ∷ []) (walk (length packed) packed)
walk-pack_multisend_example =
    walk-pack_multisend (transfer ∷ approve ∷ []) packed pack_multisend_two

encode_proxy_calls-list_example : encode_proxy_calls short_hash (transfer ∷ approve ∷ []) ≡ (
    tuples_of 0 (transfer ∷ approve ∷ []) >>= λ ts.
    ok (encode_args_call short_hash proxy_signature (list ts ∷ [])))
encode_proxy_calls-list_example = encode_proxy_calls-list short_hash transfer (approve ∷ [])

abbrev sample_signature : Bytes
sample_signature = replicate 64 7 ++ 27 ∷ []

abbrev sample_text : Bytes
sample_text = codes "0x" ++ encode_hex (replicate 64 7 ++ 31 ∷ [])

safe_signature_exact_example :
    (safe_signature sample_signature ≡ ok sample_text) ↔ IsPacked sample_signature sample_text
safe_signature_exact_example = safe_signature_exact sample_signature sample_text
