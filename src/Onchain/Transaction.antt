-- ===== src/Onchain/Transaction.antt =====
-- onchain/transaction.go, and the hex helpers of onchain/rpc.go that it uses: the nine fields of a type-2
-- transaction, what is signed, and the encoding that is broadcast. The requests to a node, the signer
-- and the curve's order are parameters; Keccak-256 and the recovery of a key are as in Signer.antt.

pub mod Signed
pub mod Binding
pub mod Signature
pub mod Raw
use go_polymarket.Base.{
  ℕ, zero, suc, ◌+◌, ◌-◌, ◌/◌, ◌%◌, ◌^◌, Bool, true, false, not, ◌&&◌, ◌||◌, Option, none, some,
  List, [], ◌∷◌, ◌++◌, ltb, leb, ◌==◌, if◌then◌else◌, length, take, drop, get_or, Result, ok, err,
  ◌>>=◌, ◌>>◌, guard, map_err,
}
use go_polymarket.Base.Bytes.{Bytes, codes, bytes_eq, to_lower, is_empty}
use go_polymarket.Base.Int.{ℤ, pos, negsuc, ltb_ℤ}
use go_polymarket.Base.Word.{be_value}
use go_polymarket.Base.Hex.{encode_hex, decode_hex, trim_0x}
use go_polymarket.Eip712.{keccak256}
use go_polymarket.Signer.{SignerError, no_signer, verify_signature}
use go_polymarket.Rlp.{uint, uint64, string, list}
use go_polymarket.Rlp

abbrev pub tx_type_eip1559 : ℕ
tx_type_eip1559 = 0x02

-- `none` is a nil `*big.Int`.
pub record Transaction : Type 0 where
  pub chain_id : Option ℤ
  pub nonce : ℕ
  pub max_priority_fee_per_gas : Option ℤ
  pub max_fee_per_gas : Option ℤ
  pub gas : ℕ
  pub to : Bytes
  pub value : Option ℤ
  pub data_ : Bytes

pub record SignedTransaction : Type 0 where
  pub transaction : Transaction
  pub from : Bytes
  pub hash : Bytes
  pub raw : Bytes

pub data OnchainError : Type 0 where
  no_chain_id no_fees fee_below_tip no_gas bad_address bad_recipient : OnchainError
  bad_field : Rlp.Error → OnchainError
  bad_signature_length bad_v : ℕ → OnchainError
  not_canonical zero_component : OnchainError
  signing : SignerError → OnchainError
  node : Bytes → OnchainError
  other_hash : Bytes → SignedTransaction → OnchainError

-- Text that is not ASCII is refused by the decoder whatever `ToLower` makes of it.
unfoldable pub normalize_address : Bytes → Result OnchainError Bytes
normalize_address address =
    let body = trim_0x address in
    if not (length body == 40) then err bad_address else elim (decode_hex (to_lower body)) [
      | none ↦ err bad_address
      | some b ↦ ok (codes "0x" ++ encode_hex b)
    ]

-- `t.ChainID == nil || t.ChainID.Sign() <= 0`
abbrev pub is_positive : Option ℤ → Bool
is_positive none = false
is_positive (some (pos zero)) = false
is_positive (some (pos (suc n))) = true
is_positive (some (negsuc n)) = false

-- `MaxFeePerGas.Cmp(MaxPriorityFeePerGas) < 0`, after both are known to be there.
unfoldable pub check_fees : Option ℤ → Option ℤ → Result OnchainError (Unit {0})
check_fees none tip = err no_fees
check_fees (some fee) none = err no_fees
check_fees (some fee) (some tip) = if ltb_ℤ fee tip then err fee_below_tip else ok tt

abbrev pub item : Option ℤ → Result OnchainError Bytes
item x = map_err bad_field (uint x)

unfoldable pub recipient : Bytes → Result OnchainError Bytes
recipient to = if is_empty to then ok [] else (do
  address ← normalize_address to
  elim (decode_hex (drop 2 address)) [ none ↦ err bad_recipient | some raw ↦ ok raw ])

unfoldable pub fields : Transaction → Result OnchainError (List Bytes)
fields t =
    guard (is_positive t.chain_id) no_chain_id
    >> (check_fees t.max_fee_per_gas t.max_priority_fee_per_gas
        >> (guard (not (t.gas == 0)) no_gas >> (do
          chain_id ← item t.chain_id
          tip ← item t.max_priority_fee_per_gas
          max_fee ← item t.max_fee_per_gas
          value ← item t.value
          to ← recipient t.to
          ok (
              chain_id
              ∷ uint64 t.nonce
              ∷ tip
              ∷ max_fee
              ∷ uint64 t.gas
              ∷ string to
              ∷ value
              ∷ string t.data_
              ∷ list []
              ∷ []))))

unfoldable pub unsigned : Transaction → Result OnchainError Bytes
unsigned t = do fs ← fields t; ok (tx_type_eip1559 ∷ list fs)

-- `order` is the order of the secp256k1 group.
unfoldable pub split_signature : ℕ → Bytes → Result OnchainError (Bytes × Bytes × Bytes)
split_signature order sig =
    let v = get_or sig 64 0 in
    let rv = be_value (take 32 sig) in
    let sv = be_value (take 32 (drop 32 sig)) in
    guard (length sig == 65) (bad_signature_length (length sig))
    >> (guard (v == 27 || v == 28) (bad_v v)
        >> (guard (leb sv (order / 2)) not_canonical
            >> (guard (not (rv == 0 || sv == 0)) zero_component >> (do
              r ← item (some (pos rv))
              s ← item (some (pos sv))
              ok (uint64 (v - 27), r, s)))))

unfoldable pub raw_hex : SignedTransaction → Bytes
raw_hex s = codes "0x" ++ encode_hex s.raw

unfoldable pub lower_hex : Bytes → Bytes
lower_hex [] = []
lower_hex (c ∷ b) = (if leb b'A' c && leb c b'F' then c + 32 else c) ∷ lower_hex b

unfoldable pub normalize_hex : Bytes → Bytes
unfolding lower_hex
normalize_hex s =
    let n = length s in
    let body =
      if leb 2 n && (bytes_eq (take 2 s) (codes "0x") || bytes_eq (take 2 s) (codes "0X"))
      then drop 2 s
      else s in
    lower_hex body

unfoldable pub equal_hex : Bytes → Bytes → Bool
unfolding normalize_hex
equal_hex a b = bytes_eq (normalize_hex a) (normalize_hex b)

-- A signer: its address, and the signature of a digest.
pub record Signing : Type 0 where
  pub signer_address : Bytes
  pub sign : Bytes → Result SignerError Bytes

module _ (keccak : Bytes → Bytes) (recover : Bytes → Bytes → Option Bytes) (order : ℕ) where
  unfoldable pub signing_hash : Transaction → Result OnchainError Bytes
  signing_hash t = do bs ← unsigned t; ok (keccak256 keccak (bs ∷ []))

  unfoldable pub sign_transaction :
      Option Signing → Transaction → Result OnchainError SignedTransaction
  sign_transaction none t = err (signing no_signer)
  sign_transaction (some signer) t = do
    fs ← fields t
    digest ← signing_hash t
    sig ← map_err signing (signer.sign digest)
    _ ← map_err signing (verify_signature keccak recover digest sig signer.signer_address)
    (y_parity, r, s) ← split_signature order sig
    let raw = tx_type_eip1559 ∷ list (fs ++ y_parity ∷ r ∷ s ∷ [])
    ok (record {
      transaction = t;
      from = signer.signer_address;
      hash = codes "0x" ++ encode_hex (keccak256 keccak (raw ∷ []));
      raw = raw;
    })
