-- ===== src/Onchain/Sending.antt =====
-- onchain/transaction.go: `Fill` completes a transaction from what a node says, `Send` signs and
-- broadcasts it. The node's answers are the fields of `Node`, each a value or an error.
use go_polymarket.Base.{
  ℕ, ◌+◌, ◌/◌, ◌%◌, ◌^◌, Bool, true, false, not, ◌||◌, Option, none, some, ◌==◌, if◌then◌else◌,
  Result, ok, err, ◌>>=◌,
}
use go_polymarket.Base.Bytes.{Bytes}
use go_polymarket.Base.Int.{ℤ, pos}
use go_polymarket.Signer.{no_signer}
use go_polymarket.Onchain.Transaction.{
  OnchainError, signing, other_hash, Transaction, SignedTransaction, Signing, sign_transaction,
  equal_hex,
}

pub record CallMsg : Type 0 where
  pub call_from : Bytes
  pub call_to : Bytes
  pub call_gas : ℕ
  pub call_value : Option ℤ
  pub call_data : Bytes

pub record Fees : Type 0 where
  pub base_fee : Option ℤ
  pub fee_tip : Option ℤ
  pub fee_cap : Option ℤ

-- What a client asks of its node.
pub record Node : Type 0 where
  pub node_chain_id : ℤ
  pub nonce_of : Bytes → Result OnchainError ℕ
  pub suggest_fees : Result OnchainError Fees
  pub estimate_gas : CallMsg → Result OnchainError ℕ
  pub send_raw : Bytes → Result OnchainError Bytes

abbrev pub or_else : Option ℤ → Option ℤ → Option ℤ
or_else none y = y
or_else (some x) y = some x

abbrev pub is_nil : Option ℤ → Bool
is_nil none = true
is_nil (some x) = false

-- Go's pair of the transaction so far and an error.
abbrev pub Filled : Type 0
Filled = Transaction × Option OnchainError

-- `if err != nil { return t, err }`
abbrev pub then_fill : Filled → (Transaction → Filled) → Filled
then_fill (t, some e) k = (t, some e)
then_fill (t, none) k = k t

-- A request's answer put into the transaction, which an error leaves as it is.
abbrev pub answer {ℓ} :
    {A : Type ℓ} → Transaction → Result OnchainError A → (A → Transaction) → Filled
answer t (ok a) put = (put a, none)
answer t (err e) put = (t, some e)

unfoldable pub fill_nonce : Node → Bytes → Transaction → Filled
fill_nonce c from t =
    if t.nonce == 0 then answer t (c.nonce_of from) (λ n. record t { nonce = n }) else (t, none)

unfoldable pub fill_fees : Node → Transaction → Filled
fill_fees c t =
    if is_nil t.max_fee_per_gas || is_nil t.max_priority_fee_per_gas
    then answer t c.suggest_fees (λ fees. record t {
      max_priority_fee_per_gas = or_else t.max_priority_fee_per_gas fees.fee_tip;
      max_fee_per_gas = or_else t.max_fee_per_gas fees.fee_cap;
    })
    else (t, none)

unfoldable pub fill_gas : Node → Bytes → Transaction → Filled
fill_gas c from t =
    if t.gas == 0
    then answer t
        (c.estimate_gas (record {
          call_from = from;
          call_to = t.to;
          call_gas = 0;
          call_value = t.value;
          call_data = t.data_;
        }))
        (λ (estimate : ℕ). record t { gas = (estimate + estimate / 4) % 2 ^ 64 })
    else (t, none)

unfoldable pub fill : Node → Bytes → Transaction → Filled
fill c from t =
    let t₀ : Transaction = record t {
      chain_id = or_else t.chain_id (some c.node_chain_id);
      value = or_else t.value (some (pos 0));
    } in
    then_fill (then_fill (fill_nonce c from t₀) (λ t₁. fill_fees c t₁)) (λ t₂. fill_gas c from t₂)

-- The transaction that `Fill` leaves is dropped with an error.
abbrev pub filled_or : Filled → Result OnchainError Transaction
filled_or (t, some e) = err e
filled_or (t, none) = ok t

module _ (keccak : Bytes → Bytes) (recover : Bytes → Bytes → Option Bytes) (order : ℕ) where
  unfoldable pub send : Node → Option Signing → Transaction → Result OnchainError SignedTransaction
  send c none t = err (signing no_signer)
  send c (some signer) t = do
    filled ← filled_or (fill c signer.signer_address t)
    signed ← sign_transaction keccak recover order (some signer) filled
    hash ← c.send_raw signed.raw
    if not (equal_hex hash signed.hash) then err (other_hash hash signed) else ok signed
