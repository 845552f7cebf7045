-- ===== src/Lib.antt =====
-- A model of go-polymarket, a Go client of the Polymarket exchange, and what is proved of it.
--
-- The client sizes orders in exact rationals, hashes and signs them as EIP-712 typed data, signs
-- transactions of the chain, derives smart-contract wallets, asks a relayer to act for them, and paces its
-- requests to the exchange's published limits. The files here model the parts that compute; HTTP, JSON
-- and the web sockets are not modelled.
--
-- Base: text and bytes as lists of numbers, integers and rationals over the native numbers, results, hex and
--   decimal text. It models no file of the repository; the standard library's functions that the code
--   calls (`hex.DecodeString`, `big.Int.Bytes`, `strings.TrimPrefix`) are written out there.
-- Protocol: protocol.go, the contracts of the chains, the domain names and the type strings.
-- TypedData: typeddata.go, for any schema. TypedData/Types.antt has the type strings, TypedData/Values.antt the words and
--   hashes of values. A Go map is a list of keys and values. `collectTypes` runs on fuel, one more than the number of types,
--   and `elementType` on the length of the type; the words of nested values are recursion on the value. In the hash of a
--   struct, the lookup of a field in the message gives the function that encodes the value there.
-- Order: order.go, erc7739.go and the signing of payloads in signer.go. `BuildOrder` and `BuildMarketOrder` take the reader of
--   `big.Rat.SetString`, the drawn number and the clock as parameters; Order/Payload.antt has `OrderTypedData`,
--   `ClobAuthTypedData` and the digests, Order/Sign.antt `SignOrder` and the wrapped signature of contract wallets.
-- Auth: auth.go, the headers of both levels; HMAC-SHA256 and the base64 codecs are parameters, and Auth/Level1.antt is
--   about the level-1 digest.
-- Wallet: wallet.go, the CREATE2 addresses of the smart-contract wallets.
-- Relayer: relayer/transaction.go, without `Submit`: calls in Relayer.antt, then Relayer/Safe.antt, Relayer/Proxy.antt and
--   Relayer/Batch.antt for the three kinds of wallet.
-- Amount: internal/amount/amount.go. `round`, `converge`, `limit`, `market` and `fixed` are `round`, `converge`,
--   `Limit`, `Market` and `Fixed`; a `big.Rat` is a numerator and a denominator, not reduced. The loop of
--   `decimalPlaces` has its bound as fuel.
-- RateLimit: ratelimit.go. RateLimit/Window.antt has the sliding window, whose methods return the new window;
--   RateLimit/Window/History.antt runs any sequence of them, which is what the limiter's lock makes of
--   concurrent callers. RateLimit/Rules.antt has the published tables and `match`, RateLimit/Bucket.antt the token
--   bucket, over any floating-point numbers (the record `Floats`), RateLimit/Limiter.antt `NewLimiter` and `Wait`, and
--   RateLimit/Limiter/Observe.antt `Observe`: `begin_wait` is `Wait` up to the sleep, `give_up` what it does when the context ends first.
--   RateLimit/Limiter/Trace.antt runs any sequence of waits, cancellations and responses.
-- Clob: clob/market.go in Clob/Book.antt (`marketPrice`; Clob/Book/Walk.antt says in terms of depth where its walk stops) and
--   Clob/Pages.antt (`Pages`, whose consumer is a function of a state of its own), and clob/trading.go in Clob/Trading.antt, from the market's facts to the bodies of a submission. The answers
--   of the exchange are the fields of the record `Exchange`. The fuel of `pages_from` is the number of requests.
-- Rlp: internal/rlp/rlp.go. Rlp/Decode.antt is a reader of the format, which the code does not have.
-- Eip712: internal/eip712/eip712.go, with Keccak-256 as the parameter `keccak`. Collisions of the hash are
--   named in the statements, since no hash function excludes them.
-- Abi: internal/abi/abi.go and internal/abi/dynamic.go. `assemble` keeps the two loops of the code.
-- Signer: signer.go, with the secp256k1 library as the parameters `sign_compact` and `recover`.
-- Onchain: onchain/transaction.go and the address helpers of onchain/rpc.go. Onchain/Transaction.antt builds
--   and signs, Onchain/Sending.antt asks the node, whose answers are the fields of the record `Node`.
--   Onchain/Token.antt is onchain/token.go; Onchain/Ctf.antt and Onchain/Ctf/Reads.antt are onchain/ctf.go, the calldata and
--   what is read, over the node's contract call as the parameter `call`.
-- Session: session.go, the retries of `send`. The HTTP client's answers and the state of the context are functions
--   of the attempt; the loop's fuel is the number of attempts allowed, and each round uses one.
-- Samples: a hash and a reader of decimals that stand for the parameters in the examples, and two orders.
--
-- Eip712 gives its words to Abi, TypedData and Signer; Rlp, Eip712 and Signer meet in Onchain; Amount, Protocol and TypedData
-- meet in Order, and Order in Clob; Abi, Signer and Protocol in Wallet; all of these in Relayer. Loops are recursion on
-- lists or on a bound that the code has; byte counts of numbers run on the number itself as fuel,
-- which is enough because each round divides it by 256. Machine integers keep their wrap-around where the code counts
-- (`seq` of a window, the gas that `Fill` adds); lengths are below 2^64, which is stated where it matters.
-- The other requests of the order book, the clients of the metadata, data, bridge and relayer hosts, the sign-in message and the
-- rest of the session are not modelled: they are requests and JSON, or come down to a library's hash. Fees compute in
-- floating point.
pub mod Base
pub mod Rlp
pub mod RateLimit
pub mod Amount
pub mod Eip712
pub mod Abi
pub mod Signer
pub mod Onchain
pub mod Session
pub mod Protocol
pub mod TypedData
pub mod Order
pub mod Wallet
pub mod Relayer
pub mod Samples
pub mod Auth
pub mod Clob
