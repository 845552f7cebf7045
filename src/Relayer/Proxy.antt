-- ===== src/Relayer/Proxy.antt =====
-- relayer/transaction.go: transactions of a legacy proxy wallet, and the factory's calldata for a list of calls.
use go_polymarket.Base.{
  ℕ, suc, ◌+◌, ◌*◌, ◌||◌, Option, none, some, List, [], ◌∷◌, ◌++◌, length, Result, ok, err, ◌>>=◌,
  map_err, guard, not,
}
use go_polymarket.Base.Bytes.{Bytes, codes, is_empty}
use go_polymarket.Base.Hex.{encode_hex}
use go_polymarket.Base.Int.{ℤ}
use go_polymarket.Eip712.{Word, keccak256, address, uint, uint8}
use go_polymarket.Abi.{packed_address, selector, encode, uint64, padding}
use go_polymarket.Protocol.{Contracts}
use go_polymarket.Signer.{no_signer, personal_digest}
use go_polymarket.Order.{or_default}
use go_polymarket.Order.Sign.{PayloadSigner}
use go_polymarket.Wallet.{derive_proxy_wallet}
use go_polymarket.Relayer.{
  Call, RelayError, decode, proxy_code, no_calls, no_nonce, no_proxy_factory, in_call, bad_packing,
  bad_word, wallet, signer, packed_decimal, SubmitRequest, no_params, proxy_transaction,
}

pub record ProxyParams : Type 0 where
  pub owner : Bytes
  pub nonce : Bytes
  pub calls : List Call
  pub proxy_relay : Bytes
  pub proxy_gas_price : Bytes
  pub proxy_gas_limit : Bytes
  pub chain_id : ℤ
  pub proxy_metadata : Bytes

abbrev pub default_proxy_gas_limit : Bytes
default_proxy_gas_limit = codes "10000000"

-- One element of the array: four words of head, then the calldata behind its length.
unfoldable pub proxy_element : ℕ → Call → Result RelayError Bytes
proxy_element i call = do
  d ← map_err (in_call i) (decode call)
  a ← map_err bad_word (address d.target)
  amount ← map_err (in_call i) (map_err bad_word (uint d.amount))
  ok (
      encode (uint8 (proxy_code call.operation) ∷ a ∷ amount ∷ uint64 128 ∷ [])
      ++ (uint64 (length d.payload) ++ (d.payload ++ padding (length d.payload))))

-- The elements of the calls from `i` on.
unfoldable pub proxy_elements : ℕ → List Call → Result RelayError (List Bytes)
unfolding proxy_element
proxy_elements i [] = ok []
proxy_elements i (call ∷ calls) = do
  element ← proxy_element i call
  rest ← proxy_elements (suc i) calls
  ok (element ∷ rest)

-- The loop over the elements, with the offset, the head and the body so far.
unfoldable pub proxy_heads : ℕ → Bytes → Bytes → List Bytes → Bytes × Bytes
proxy_heads offset head body [] = (head, body)
proxy_heads offset head body (element ∷ elements) =
    proxy_heads (offset + length element) (head ++ uint64 offset) (body ++ element) elements

module _ (keccak : Bytes → Bytes) where
  unfoldable pub encode_proxy_calls : List Call → Result RelayError Bytes
  unfolding proxy_elements proxy_heads
  encode_proxy_calls [] = err no_calls
  encode_proxy_calls (call ∷ calls) = do
    elements ← proxy_elements 0 (call ∷ calls)
    let (head, body) = proxy_heads (32 * length elements) [] [] elements
    ok (
        selector keccak (codes "proxy((uint8,address,uint256,bytes)[])")
        ++ (uint64 32 ++ (uint64 (length (call ∷ calls)) ++ (head ++ body))))

  unfoldable pub proxy_relay_hash : ProxyParams → Contracts → Result RelayError Word
  unfolding encode_proxy_calls
  proxy_relay_hash p c = do
    _ ← guard (not (is_empty c.proxy_factory || is_empty c.relay_hub)) no_proxy_factory
    _ ← guard (not (is_empty p.nonce)) no_nonce
    payload ← encode_proxy_calls p.calls
    from ← map_err bad_packing (packed_address p.owner)
    to ← map_err bad_packing (packed_address c.proxy_factory)
    hub ← map_err bad_packing (packed_address c.relay_hub)
    relay ← map_err bad_packing (packed_address p.proxy_relay)
    fee ← packed_decimal (codes "0") 32
    gas_price ← packed_decimal (or_default p.proxy_gas_price (codes "0")) 32
    gas_limit ← packed_decimal (or_default p.proxy_gas_limit default_proxy_gas_limit) 32
    nonce ← packed_decimal p.nonce 32
    ok (
        keccak256 keccak (
          codes "rlx:"
          ∷ from
          ∷ to
          ∷ payload
          ∷ fee
          ∷ gas_price
          ∷ gas_limit
          ∷ nonce
          ∷ hub
          ∷ relay
          ∷ []))

  unfoldable pub build_proxy_transaction :
      Option PayloadSigner → ProxyParams → Contracts → Result RelayError SubmitRequest
  unfolding proxy_relay_hash
  build_proxy_transaction none p c = err (signer no_signer)
  build_proxy_transaction (some s) p c = do
    proxy ← map_err wallet (derive_proxy_wallet keccak p.owner c.proxy_factory)
    payload ← encode_proxy_calls p.calls
    hash ← proxy_relay_hash p c
    sig ← map_err signer (s.sign_hash (personal_digest keccak hash))
    ok (record {
      kind = proxy_transaction;
      from = p.owner;
      request_to = c.proxy_factory;
      proxy_wallet = proxy;
      request_data = codes "0x" ++ encode_hex payload;
      request_nonce = p.nonce;
      signature = codes "0x" ++ encode_hex sig;
      signature_params = some (record no_params {
        gas_price = or_default p.proxy_gas_price (codes "0");
        gas_limit = or_default p.proxy_gas_limit default_proxy_gas_limit;
        relayer_fee = codes "0";
        relay_hub = c.relay_hub;
        relay = p.proxy_relay;
      });
      metadata = p.proxy_metadata;
      deposit = none;
    })
