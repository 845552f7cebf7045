-- ===== src/Onchain/Ctf/Tests.antt =====
-- A chain on which everything is approved once, a split of a binary market, and the theorems at them.
use go_polymarket.Base.{
  [], ◌%◌, ltb, drop, err, if◌then◌else◌, ℕ, ◌≡◌, refl, some, ◌++◌, length, replicate, Result, ok,
  arith,
}
use go_polymarket.Base.Bytes.{Bytes, codes, bytes_eq}
use go_polymarket.Base.Hex.{decode_hex, trim_0x}
use go_polymarket.Base.Int.{pos}
use go_polymarket.Base.Word.{zeros, be_bytes, be_value}
use go_polymarket.Samples.{short_hash}
use go_polymarket.Protocol.{contracts_for, polygon_contracts, zero_bytes32}
use go_polymarket.Eip712.{keccak256, address, decode_hex_of}
use go_polymarket.Abi.{encode_call, encode, selector, uint64}
use go_polymarket.Onchain.Token.{missing_approvals}
use go_polymarket.Onchain.Token.Missing.{
  filter, ungranted, Answers, all_approvals, missing_approvals_exact,
}
use go_polymarket.Onchain.Ctf.{
  binary_partition, split_sig, merge_sig, redeem_sig, split_position_data, merge_positions_data,
  redeem_positions_data,
}
use go_polymarket.Onchain.Ctf.Layout.{with_position, array_of, sized_layout, position_calls_layout}

abbrev owner : Bytes
owner = codes "0x1111111111111111111111111111111111111111"

owner_word : address owner ≡ ok (zeros 12 ++ replicate 20 17)
unfolding address decode_hex_of decode_hex trim_0x
owner_word = refl

-- Of a call's data, the number that ends in the spender's word, at most six.
abbrev marked : Bytes → ℕ
marked w = be_value (w ++ []) % 7

-- A node of a chain on which the spender's address decides the allowance and the flag; other contracts do not answer.
abbrev by_spender : Bytes → Bytes → Result ℕ Bytes
by_spender to payload =
    if bytes_eq to polygon_contracts.collateral
    then ok (be_bytes 32 (be_value (drop 36 payload) % 7))
    else if bytes_eq to polygon_contracts.conditional_tokens
    then ok (be_bytes 32 (if ltb 3 (be_value (drop 36 payload) % 7) then 1 else 0))
    else err 7

by_spender-Answers :
    Answers short_hash by_spender polygon_contracts marked
      (λ w. ltb 3 (marked w))
      (zeros 12 ++ replicate 20 17)
unfolding encode_call selector encode keccak256
by_spender-Answers spender s e = (refl, omega arith, refl)

missing_approvals_exact_example :
    missing_approvals short_hash by_spender (pos 137) owner (some (pos 5))
    ≡ ok (
        filter
          (ungranted short_hash by_spender polygon_contracts marked
            (λ w. ltb 3 (marked w))
            (some (pos 5)))
          (all_approvals polygon_contracts))
unfolding contracts_for
missing_approvals_exact_example =
    missing_approvals_exact short_hash by_spender polygon_contracts marked (λ w. ltb 3 (marked w))
      owner (zeros 12 ++ replicate 20 17) owner_word by_spender-Answers (pos 137) (some (pos 5))
      refl

-- Neither all nor none are missing.
missing_some :
    length (
      filter
        (ungranted short_hash by_spender polygon_contracts marked
          (λ w. ltb 3 (marked w))
          (some (pos 5)))
        (all_approvals polygon_contracts))
    ≡ 7
unfolding be_value address decode_hex_of decode_hex trim_0x
missing_some = refl

abbrev condition : Bytes
condition = zero_bytes32

position_calls_layout_example :
    (split_position_data {E = ℕ} short_hash owner condition binary_partition (some (pos 5))
      ≡ with_position owner condition binary_partition
          (sized_layout short_hash split_sig (some (pos 5))))
    × (merge_positions_data {E = ℕ} short_hash owner condition binary_partition (some (pos 5))
        ≡ with_position owner condition binary_partition
            (sized_layout short_hash merge_sig (some (pos 5))))
    × (redeem_positions_data {E = ℕ} short_hash owner condition binary_partition
        ≡ with_position owner condition binary_partition (λ t c ws. ok (
            selector short_hash redeem_sig
            ++ (t ++ (zeros 32 ++ (c ++ (uint64 128 ++ array_of ws)))))))
position_calls_layout_example =
    position_calls_layout short_hash owner condition binary_partition (some (pos 5))
