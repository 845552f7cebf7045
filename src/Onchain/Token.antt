-- ===== src/Onchain/Token.antt =====
-- onchain/token.go: approvals, what they permit, and which of them an account lacks. `call to data` is the bytes that the
-- node's contract call returns, as `Call` of onchain/rpc.go; an error of the node is a value of the parameter `E`.
pub mod Missing
use go_polymarket.Base.{
  ℕ, ◌-◌, ◌^◌, Bool, true, false, not, ◌||◌, Option, none, some, List, [], ◌∷◌, ◌++◌, ltb, ◌==◌,
  if◌then◌else◌, length, take, Result, ok, err, ◌>>=◌, map_err, guard,
}
use go_polymarket.Base.Bytes.{Bytes, codes, is_empty}
use go_polymarket.Base.Int.{ℤ, pos, negsuc, ltb_ℤ, eqb_ℤ}
use go_polymarket.Base.Word.{be_value}
use go_polymarket.Eip712.{Error, Word, uint, uint8, uint_string, address}
use go_polymarket.Abi.{encode_call}
use go_polymarket.Protocol.{Contracts, contracts_for}
use go_polymarket.Onchain.Transaction.{Transaction}

abbrev pub approve_sig : Bytes
approve_sig = codes "approve(address,uint256)"

abbrev pub allowance_sig : Bytes
allowance_sig = codes "allowance(address,address)"

abbrev pub erc20_balance_sig : Bytes
erc20_balance_sig = codes "balanceOf(address)"

abbrev pub set_approval_for_all_sig : Bytes
set_approval_for_all_sig = codes "setApprovalForAll(address,bool)"

abbrev pub is_approved_for_all_sig : Bytes
is_approved_for_all_sig = codes "isApprovedForAll(address,address)"

abbrev pub erc1155_balance_sig : Bytes
erc1155_balance_sig = codes "balanceOf(address,uint256)"

unfoldable pub max_uint256 : ℤ
max_uint256 = pos (2 ^ 256 - 1)

pub data TokenError (E : Type 0) : Type 0 where
  bad_approval_amount : TokenError E
  bad_word : Error → TokenError E
  unknown_standard unknown_chain : ℤ → TokenError E
  request : E → TokenError E
  short_answer : ℕ → TokenError E

-- `TokenStandard` is an integer, of which two are named.
pub data TokenStandard : Type 0 where
  erc20 erc1155 : TokenStandard
  other_standard : ℤ → TokenStandard

pub record Approval : Type 0 where
  pub standard : TokenStandard
  pub token : Bytes
  pub spender : Bytes
  pub spender_name : Bytes

-- A transaction to a contract, with the zero values of the fields that it leaves out.
abbrev pub transaction_to : Bytes → Bytes → Transaction
transaction_to to payload = record {
  chain_id = none;
  nonce = 0;
  max_priority_fee_per_gas = none;
  max_fee_per_gas = none;
  gas = 0;
  to = to;
  value = none;
  data_ = payload;
}

abbrev flag_of : Bool → ℕ
flag_of approved = if approved then 1 else 0

module _ (keccak : Bytes → Bytes) {E : Type 0} where
  abbrev word_of : Result Error Word → Result (TokenError E) Word
  word_of r = map_err bad_word r

  -- An amount that is nil or negative is refused.
  abbrev pub checked : Option ℤ → Result (TokenError E) ℤ
  checked none = err bad_approval_amount
  checked (some z) = if ltb_ℤ z (pos 0) then err bad_approval_amount else ok z

  unfoldable pub approve_data : Bytes → Option ℤ → Result (TokenError E) Bytes
  approve_data spender amount = do
    z ← checked amount
    to ← word_of (address spender)
    value ← word_of (uint z)
    ok (encode_call keccak approve_sig (to ∷ value ∷ []))

  unfoldable pub set_approval_for_all_data : Bytes → Bool → Result (TokenError E) Bytes
  set_approval_for_all_data operator approved = do
    to ← word_of (address operator)
    ok (encode_call keccak set_approval_for_all_sig (to ∷ uint8 (flag_of approved) ∷ []))

  -- `Approval.Data`
  unfoldable pub approval_data : Approval → Option ℤ → Result (TokenError E) Bytes
  unfolding approve_data set_approval_for_all_data
  approval_data a amount = elim a.standard [
    | erc20 ↦ approve_data a.spender amount
    | erc1155 ↦ set_approval_for_all_data a.spender true
    | other_standard n ↦ err (unknown_standard n)
  ]

  -- `Approval.RevokeData`
  unfoldable pub revoke_data : Approval → Result (TokenError E) Bytes
  unfolding approve_data set_approval_for_all_data
  revoke_data a = elim a.standard [
    | erc20 ↦ approve_data a.spender (some (pos 0))
    | erc1155 ↦ set_approval_for_all_data a.spender false
    | other_standard n ↦ err (unknown_standard n)
  ]

  -- `Approval.Transaction`
  unfoldable pub approval_transaction : Approval → Option ℤ → Result (TokenError E) Transaction
  unfolding approval_data
  approval_transaction a amount = do
    payload ← approval_data a amount
    ok (transaction_to a.token payload)

  module _ (call : Bytes → Bytes → Result E Bytes) where
    unfoldable pub call_uint : Bytes → Bytes → Result (TokenError E) ℕ
    call_uint to payload = do
      out ← map_err request (call to payload)
      _ ← guard (not (ltb (length out) 32)) (short_answer (length out))
      ok (be_value (take 32 out))

    unfoldable pub allowance : Bytes → Bytes → Bytes → Result (TokenError E) ℕ
    allowance token owner spender = do
      o ← word_of (address owner)
      s ← word_of (address spender)
      call_uint token (encode_call keccak allowance_sig (o ∷ s ∷ []))

    unfoldable pub token_balance : Bytes → Bytes → Result (TokenError E) ℕ
    token_balance token owner = do
      o ← word_of (address owner)
      call_uint token (encode_call keccak erc20_balance_sig (o ∷ []))

    unfoldable pub is_approved_for_all : Bytes → Bytes → Bytes → Result (TokenError E) Bool
    is_approved_for_all token owner operator = do
      o ← word_of (address owner)
      p ← word_of (address operator)
      v ← call_uint token (encode_call keccak is_approved_for_all_sig (o ∷ p ∷ []))
      ok (not (v == 0))

    unfoldable pub outcome_balance : Bytes → Bytes → Bytes → Result (TokenError E) ℕ
    outcome_balance token owner token_id = do
      o ← word_of (address owner)
      i ← word_of (uint_string token_id)
      call_uint token (encode_call keccak erc1155_balance_sig (o ∷ i ∷ []))

    -- An allowance is too small: zero if none is wanted, else less than wanted.
    abbrev pub falls_short : Option ℤ → ℕ → Bool
    falls_short none have = have == 0
    falls_short (some want) have = ltb_ℤ (pos have) want

    -- What one round of `MissingApprovals` finds: whether the approval is missing.
    unfoldable pub lacks : Bytes → Option ℤ → Approval → Result (TokenError E) Bool
    unfolding allowance is_approved_for_all
    lacks owner want a = elim a.standard [
      | erc20 ↦ (do have ← allowance a.token owner a.spender; ok (falls_short want have))
      | erc1155 ↦ (do approved ← is_approved_for_all a.token owner a.spender; ok (not approved))
      | other_standard n ↦ ok false
    ]

    unfoldable pub missing_from :
        Bytes → Option ℤ → List Approval → Result (TokenError E) (List Approval)
    missing_from owner want [] = ok []
    missing_from owner want (a ∷ approvals) = do
      lacking ← lacks owner want a
      rest ← missing_from owner want approvals
      ok (if lacking then a ∷ rest else rest)

abbrev pub ApprovalSpender : Type 0
ApprovalSpender = Bytes × Bytes

unfoldable pub spenders : Contracts → List ApprovalSpender
spenders c =
    (codes "exchange", c.exchange)
    ∷ (codes "neg-risk exchange", c.neg_risk_exchange)
    ∷ (codes "exchange v2", c.exchange_v2)
    ∷ (codes "neg-risk exchange v2", c.neg_risk_exchange_v2)
    ∷ (codes "exchange v3", c.exchange_v3)
    ∷ (codes "neg-risk adapter", c.neg_risk_adapter)
    ∷ []

-- One loop over the spenders, for one standard and its token contract.
unfoldable pub approvals_for : TokenStandard → Bytes → List ApprovalSpender → List Approval
approvals_for standard token [] = []
approvals_for standard token (s ∷ rest) =
    let more = approvals_for standard token rest in
    if is_empty s.1 || is_empty token
    then more
    else record { standard = standard; token = token; spender = s.1; spender_name = s.0 } ∷ more

unfoldable pub required_approvals : Contracts → List Approval
unfolding spenders approvals_for
required_approvals c =
    approvals_for erc20 c.collateral (spenders c)
    ++ approvals_for erc1155 c.conditional_tokens (spenders c)

module _ (keccak : Bytes → Bytes) {E : Type 0} (call : Bytes → Bytes → Result E Bytes) where
  abbrev pub missing_of :
      Bytes → Option ℤ → ℤ → Option Contracts → Result (TokenError E) (List Approval)
  missing_of owner want chain_id none = err (unknown_chain chain_id)
  missing_of owner want chain_id (some c) =
      missing_from keccak call owner want (required_approvals c)

  unfoldable pub missing_approvals : ℤ → Bytes → Option ℤ → Result (TokenError E) (List Approval)
  unfolding missing_from
  missing_approvals chain_id owner want = missing_of owner want chain_id (contracts_for chain_id)
