-- ===== src/Onchain/Ctf.antt =====
-- onchain/ctf.go: calldata of the conditional-token framework and of the neg-risk adapter. What is read from them is
-- in Onchain/Ctf/Reads.antt.
pub mod Reads
pub mod Layout
mod Tests
use go_polymarket.Base.{
  ℕ, Bool, true, false, not, Option, none, some, List, [], ◌∷◌, ◌++◌, ltb, ◌==◌, if◌then◌else◌,
  length, take, Result, ok, err, ◌>>=◌, map_err, guard,
}
use go_polymarket.Base.Bytes.{Bytes, codes, bytes_eq, is_empty}
use go_polymarket.Base.Hex.{encode_hex}
use go_polymarket.Base.Int.{ℤ, pos, ltb_ℤ}
use go_polymarket.Base.Word.{zeros}
use go_polymarket.Eip712.{Error, Word, uint, uint8, address, bytes32}
use go_polymarket.Abi.{AbiError, Arg, word32, uint_array, encode_call, encode_args_call}
use go_polymarket.Protocol.{Contracts, contracts_for}
use go_polymarket.Onchain.Transaction.{Transaction}
use go_polymarket.Onchain.Token.{TokenError, transaction_to, call_uint}

abbrev pub split_sig : Bytes
split_sig = codes "splitPosition(address,bytes32,bytes32,uint256[],uint256)"

abbrev pub merge_sig : Bytes
merge_sig = codes "mergePositions(address,bytes32,bytes32,uint256[],uint256)"

abbrev pub redeem_sig : Bytes
redeem_sig = codes "redeemPositions(address,bytes32,bytes32,uint256[])"

abbrev pub neg_risk_split_sig : Bytes
neg_risk_split_sig = codes "splitPosition(bytes32,uint256)"

abbrev pub neg_risk_merge_sig : Bytes
neg_risk_merge_sig = codes "mergePositions(bytes32,uint256)"

abbrev pub neg_risk_redeem_sig : Bytes
neg_risk_redeem_sig = codes "redeemPositions(bytes32,uint256[])"

abbrev pub neg_risk_convert_sig : Bytes
neg_risk_convert_sig = codes "convertPositions(bytes32,uint256,uint256)"

-- The zero word.
abbrev pub top_collection : Word
top_collection = zeros 32

abbrev pub binary_partition : List (Option ℤ)
binary_partition = some (pos 1) ∷ some (pos 2) ∷ []

pub data CtfError (E : Type 0) : Type 0 where
  not_positive empty_list empty_index_set no_adapter : CtfError E
  unknown_chain : ℤ → CtfError E
  in_word : Error → CtfError E
  in_list : AbiError → CtfError E
  request : E → CtfError E
  short_answer : ℕ → CtfError E
  reading : TokenError E → CtfError E

module _ {E : Type 0} where
  abbrev pub word_of : Result Error Word → Result (CtfError E) Word
  word_of r = map_err in_word r

  -- `amount == nil || amount.Sign() <= 0`
  abbrev pub positive : Option ℤ → Result (CtfError E) ℤ
  positive none = err not_positive
  positive (some z) = if ltb_ℤ (pos 0) z then ok z else err not_positive

  unfoldable pub amount_word : Option ℤ → Result (CtfError E) Word
  amount_word amount = do z ← positive amount; word_of (uint z)

  -- `UintArray` of a list that must not be empty.
  abbrev pub list_of : List (Option ℤ) → Result (CtfError E) Arg
  list_of sets = do _ ← guard (not (length sets == 0)) empty_list; map_err in_list (uint_array sets)

  unfoldable pub ctf_position_args :
      Bytes → Bytes → List (Option ℤ) → Result (CtfError E) (List Arg)
  ctf_position_args collateral condition_id sets = do
    token ← word_of (address collateral)
    condition ← word_of (bytes32 condition_id)
    items ← list_of sets
    ok (word32 token ∷ word32 top_collection ∷ word32 condition ∷ items ∷ [])

  module _ (keccak : Bytes → Bytes) where
    -- `SplitPositionData` and `MergePositionsData` differ in the signature alone.
    abbrev pub sized_call :
        Bytes → Bytes → Bytes → List (Option ℤ) → Option ℤ → Result (CtfError E) Bytes
    sized_call sig collateral condition_id partition amount = do
      args ← ctf_position_args collateral condition_id partition
      value ← amount_word amount
      ok (encode_args_call keccak sig (args ++ word32 value ∷ []))

    unfoldable pub split_position_data :
        Bytes → Bytes → List (Option ℤ) → Option ℤ → Result (CtfError E) Bytes
    unfolding ctf_position_args amount_word
    split_position_data collateral condition_id partition amount =
        sized_call split_sig collateral condition_id partition amount

    unfoldable pub merge_positions_data :
        Bytes → Bytes → List (Option ℤ) → Option ℤ → Result (CtfError E) Bytes
    unfolding ctf_position_args amount_word
    merge_positions_data collateral condition_id partition amount =
        sized_call merge_sig collateral condition_id partition amount

    unfoldable pub redeem_positions_data :
        Bytes → Bytes → List (Option ℤ) → Result (CtfError E) Bytes
    unfolding ctf_position_args
    redeem_positions_data collateral condition_id sets = do
      args ← ctf_position_args collateral condition_id sets
      ok (encode_args_call keccak redeem_sig args)

    -- `NegRiskSplitPositionData` and `NegRiskMergePositionsData` differ in the signature alone.
    abbrev pub neg_risk_call : Bytes → Bytes → Option ℤ → Result (CtfError E) Bytes
    neg_risk_call sig condition_id amount = do
      condition ← word_of (bytes32 condition_id)
      value ← amount_word amount
      ok (encode_args_call keccak sig (word32 condition ∷ word32 value ∷ []))

    unfoldable pub neg_risk_split_position_data : Bytes → Option ℤ → Result (CtfError E) Bytes
    unfolding amount_word
    neg_risk_split_position_data condition_id amount =
        neg_risk_call neg_risk_split_sig condition_id amount

    unfoldable pub neg_risk_merge_positions_data : Bytes → Option ℤ → Result (CtfError E) Bytes
    unfolding amount_word
    neg_risk_merge_positions_data condition_id amount =
        neg_risk_call neg_risk_merge_sig condition_id amount

    unfoldable pub neg_risk_redeem_positions_data :
        Bytes → List (Option ℤ) → Result (CtfError E) Bytes
    neg_risk_redeem_positions_data condition_id amounts = do
      condition ← word_of (bytes32 condition_id)
      items ← list_of amounts
      ok (encode_args_call keccak neg_risk_redeem_sig (word32 condition ∷ items ∷ []))

    unfoldable pub neg_risk_convert_positions_data :
        Bytes → Option ℤ → Option ℤ → Result (CtfError E) Bytes
    unfolding amount_word
    neg_risk_convert_positions_data market_id index_set amount = do
      market ← word_of (bytes32 market_id)
      set_ ← amount_word index_set
      _ ← guard (not (bytes_eq set_ (zeros 32))) empty_index_set
      value ← amount_word amount
      ok (
          encode_args_call keccak neg_risk_convert_sig
            (word32 market ∷ word32 set_ ∷ word32 value ∷ []))

  -- `c.Contracts()`
  abbrev pub known : ℤ → Option Contracts → Result (CtfError E) Contracts
  known chain_id none = err (unknown_chain chain_id)
  known chain_id (some c) = ok c

  unfoldable pub ctf_transaction : ℤ → Bytes → Result (CtfError E) Transaction
  ctf_transaction chain_id payload = do
    c ← known chain_id (contracts_for chain_id)
    ok (transaction_to c.conditional_tokens payload)

  unfoldable pub neg_risk_transaction : ℤ → Bytes → Result (CtfError E) Transaction
  neg_risk_transaction chain_id payload = do
    c ← known chain_id (contracts_for chain_id)
    _ ← guard (not (is_empty c.neg_risk_adapter)) no_adapter
    ok (transaction_to c.neg_risk_adapter payload)
