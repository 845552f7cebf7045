-- ===== src/Onchain/Ctf/Reads.antt =====
-- onchain/ctf.go: what is read from the conditional-token framework and from the neg-risk adapter. `call` is the node's
-- contract call, as in Onchain/Token.antt.
use go_polymarket.Base.{
  ℕ, Bool, not, Option, [], ◌∷◌, ◌++◌, ltb, ◌==◌, if◌then◌else◌, length, take, Result, ok, ◌>>=◌,
  map_err, guard,
}
use go_polymarket.Base.Bytes.{Bytes, codes}
use go_polymarket.Base.Hex.{encode_hex}
use go_polymarket.Base.Int.{ℤ}
use go_polymarket.Eip712.{Word, uint8, address, bytes32}
use go_polymarket.Abi.{encode_call}
use go_polymarket.Protocol.{contracts_for}
use go_polymarket.Onchain.Token.{call_uint}
use go_polymarket.Onchain.Ctf.{
  CtfError, request, short_answer, reading, word_of, amount_word, known, top_collection,
}

abbrev pub condition_id_sig : Bytes
condition_id_sig = codes "getConditionId(address,bytes32,uint256)"

abbrev pub collection_id_sig : Bytes
collection_id_sig = codes "getCollectionId(bytes32,bytes32,uint256)"

abbrev pub position_id_sig : Bytes
position_id_sig = codes "getPositionId(address,bytes32)"

abbrev pub payout_denominator_sig : Bytes
payout_denominator_sig = codes "payoutDenominator(bytes32)"

abbrev pub neg_risk_condition_id_sig : Bytes
neg_risk_condition_id_sig = codes "getConditionId(bytes32)"

abbrev pub neg_risk_position_id_sig : Bytes
neg_risk_position_id_sig = codes "getPositionId(bytes32,bool)"

module _ {E : Type 0} (keccak : Bytes → Bytes) (call : Bytes → Bytes → Result E Bytes)
    (chain_id : ℤ) where
  -- The first word of an answer.
  unfoldable pub call_word : Bytes → Bytes → Result (CtfError E) Word
  call_word to payload = do
    out ← map_err request (call to payload)
    _ ← guard (not (ltb (length out) 32)) (short_answer (length out))
    ok (take 32 out)

  abbrev pub read_uint : Bytes → Bytes → Result (CtfError E) ℕ
  read_uint to payload = map_err reading (call_uint keccak call to payload)

  abbrev pub hex_data : Bytes → Bytes
  hex_data b = codes "0x" ++ encode_hex b

  unfoldable pub condition_id : Bytes → Bytes → Option ℤ → Result (CtfError E) Bytes
  unfolding amount_word call_word
  condition_id oracle question_id outcome_slots = do
    c ← known chain_id (contracts_for chain_id)
    o ← word_of (address oracle)
    question ← word_of (bytes32 question_id)
    slots ← amount_word outcome_slots
    w ←
        call_word c.conditional_tokens
          (encode_call keccak condition_id_sig (o ∷ question ∷ slots ∷ []))
    ok (hex_data w)

  unfoldable pub position_id : Bytes → Option ℤ → Result (CtfError E) ℕ
  unfolding amount_word call_word
  position_id condition index_set = do
    c ← known chain_id (contracts_for chain_id)
    condition_word ← word_of (bytes32 condition)
    set_ ← amount_word index_set
    collection ←
        call_word c.conditional_tokens
          (encode_call keccak collection_id_sig (top_collection ∷ condition_word ∷ set_ ∷ []))
    token ← word_of (address c.collateral)
    read_uint c.conditional_tokens (encode_call keccak position_id_sig (token ∷ collection ∷ []))

  unfoldable pub payout_denominator : Bytes → Result (CtfError E) ℕ
  payout_denominator condition = do
    c ← known chain_id (contracts_for chain_id)
    w ← word_of (bytes32 condition)
    read_uint c.conditional_tokens (encode_call keccak payout_denominator_sig (w ∷ []))

  unfoldable pub resolved : Bytes → Result (CtfError E) Bool
  unfolding payout_denominator
  resolved condition = do d ← payout_denominator condition; ok (not (d == 0))

  unfoldable pub neg_risk_condition_id : Bytes → Result (CtfError E) Bytes
  unfolding call_word
  neg_risk_condition_id question_id = do
    c ← known chain_id (contracts_for chain_id)
    question ← word_of (bytes32 question_id)
    w ← call_word c.neg_risk_adapter (encode_call keccak neg_risk_condition_id_sig (question ∷ []))
    ok (hex_data w)

  unfoldable pub neg_risk_position_id : Bytes → Bool → Result (CtfError E) ℕ
  neg_risk_position_id question_id is_yes = do
    c ← known chain_id (contracts_for chain_id)
    question ← word_of (bytes32 question_id)
    read_uint c.neg_risk_adapter (
        encode_call keccak neg_risk_position_id_sig
          (question ∷ uint8 (if is_yes then 1 else 0) ∷ []))
