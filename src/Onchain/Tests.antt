-- ===== src/Onchain/Tests.antt =====
-- A transaction and a signature, and the theorems at concrete inputs.
use go_polymarket.Base.{Option, ◌≡◌, refl, ◌↔◌, none, some, [], ◌∷◌, ◌++◌, replicate, arith, ok}
use go_polymarket.Base.Bytes.{Bytes, codes, to_lower, lower}
use go_polymarket.Base.Int.{pos}
use go_polymarket.Base.Word.{be_value, int_bytes, byte_len, byte_len_fuel, be_bytes}
use go_polymarket.Base.Hex.{encode_hex, trim_0x}
use go_polymarket.Rlp.{uint, uint64, string, list, header}
use go_polymarket.Signer.{address_from_public_key, verify_signature, equal_fold, checksum_address}
use go_polymarket.Eip712.{keccak256}
use go_polymarket.Onchain.Transaction.Raw.{Raw, sign_transaction-Raw}
use go_polymarket.Onchain.Transaction.{
  Signing, SignedTransaction, sign_transaction, signing_hash, Transaction, recipient, fields,
  check_fees, unsigned, split_signature,
}
use go_polymarket.Onchain.Transaction.Signed.{ReadAs, field_items, unsigned_decodes}
use go_polymarket.Onchain.Transaction.Binding.{SameTransaction, unsigned_binds}
use go_polymarket.Onchain.Transaction.Signature.{IsCanonical, split_items, split_signature_exact}

-- A contract is deployed on chain 137 with one byte of code.
abbrev deploy : Transaction
deploy = record {
  chain_id = some (pos 137);
  nonce = 0;
  max_priority_fee_per_gas = some (pos 1);
  max_fee_per_gas = some (pos 300);
  gas = 21000;
  to = [];
  value = none;
  data_ = 0 ∷ [];
}

abbrev deploy_bytes : Bytes
deploy_bytes =
    0x02 ∷ 0xce ∷ 0x81 ∷ 137 ∷ 0x80 ∷ 1 ∷ 0x82 ∷ 1 ∷ 44 ∷ 0x82 ∷ 82 ∷ 8 ∷ 0x80 ∷ 0x80 ∷ 0 ∷ 0xc0
    ∷ []

unsigned-deploy : unsigned deploy ≡ ok deploy_bytes
unfolding unsigned fields check_fees recipient uint uint64 string list header int_bytes byte_len
    byte_len_fuel be_bytes
unsigned-deploy = refl

unsigned_decodes_example :
    (to : Bytes) × (encoded : Bytes) × (recipient deploy.to ≡ ok to)
    × (deploy_bytes ≡ 0x02 ∷ encoded)
    × ReadAs encoded (field_items deploy to)
unsigned_decodes_example = unsigned_decodes deploy deploy_bytes unsigned-deploy (omega arith)

unsigned_binds_example : SameTransaction deploy deploy
unsigned_binds_example =
    unsigned_binds deploy deploy deploy_bytes unsigned-deploy unsigned-deploy (omega arith)

abbrev echo : Bytes → Bytes
echo b = b

abbrev one_key : Bytes → Bytes → Option Bytes
one_key compact digest = some (4 ∷ replicate 64 9)

abbrev one_one : Bytes
one_one = replicate 31 0 ++ 1 ∷ replicate 31 0 ++ 1 ∷ 28 ∷ []

split_signature_exact_example :
    (split_signature 100 one_one ≡ ok (split_items one_one))
    ↔ (IsCanonical 100 one_one × (split_items one_one ≡ split_items one_one))
split_signature_exact_example = split_signature_exact 100 one_one (split_items one_one)

-- The examples' signer signs everything with one signature, which their recovery accepts.
abbrev nobody : Bytes
nobody = address_from_public_key echo (4 ∷ replicate 64 9)

abbrev one_signer : Signing
one_signer = record { signer_address = nobody; sign = λ digest. ok one_one }

-- The nine fields, then the parity 1 and r = s = 1.
abbrev raw_deploy : Bytes
raw_deploy =
    0x02 ∷ 0xd1 ∷ 0x81 ∷ 137 ∷ 0x80 ∷ 1 ∷ 0x82 ∷ 1 ∷ 44 ∷ 0x82 ∷ 82 ∷ 8 ∷ 0x80 ∷ 0x80 ∷ 0 ∷ 0xc0 ∷ 1
    ∷ 1 ∷ 1 ∷ []

abbrev signed_deploy : SignedTransaction
signed_deploy = record {
  transaction = deploy;
  from = nobody;
  hash = codes "0x" ++ encode_hex raw_deploy;
  raw = raw_deploy;
}

sign_transaction-deploy :
    sign_transaction echo one_key 100 (some one_signer) deploy ≡ ok signed_deploy
unfolding sign_transaction signing_hash unsigned fields check_fees recipient uint uint64 string list
    header int_bytes byte_len byte_len_fuel be_bytes split_signature verify_signature equal_fold
    to_lower address_from_public_key checksum_address trim_0x encode_hex keccak256 lower be_value
sign_transaction-deploy = refl

sign_transaction-Raw_example : Raw echo one_key 100 one_signer deploy signed_deploy
sign_transaction-Raw_example =
    sign_transaction-Raw echo one_key 100 one_signer deploy signed_deploy sign_transaction-deploy
      (omega arith)
