-- ===== src/Clob/Trading.antt =====
-- clob/trading.go: orders resolved, priced, signed and rendered for submission, and the keys of an account. What the
-- exchange answers is the record `Exchange`; an error of a request is a value of its parameter `E`.
pub mod Submission
pub mod Orders
use go_polymarket.Base.{
  ℕ, zero, suc, ◌+◌, Bool, true, false, not, ◌&&◌, ◌||◌, Option, none, some, List, [], ◌∷◌, ◌==◌,
  if◌then◌else◌, Result, ok, err, ◌>>=◌, map_err, guard,
}
use go_polymarket.Base.Bytes.{Bytes, codes, bytes_eq, is_empty}
use go_polymarket.Base.Int.{ℤ, pos}
use go_polymarket.Base.Rat.{Rat}
use go_polymarket.Base.Decimal.{parse_int64}
use go_polymarket.Order.{
  Side, UserOrder, MarketOrder, OrderOptions, Order, OrderError, build_order, build_market_order,
}
use go_polymarket.Order.Sign.{PayloadSigner, SignedOrder, sign_order}
use go_polymarket.Auth.{ApiCreds}
use go_polymarket.Clob.Book.{OrderBook, BookError, market_price, fok, fak}

-- `strings.Contains(s, ".")`
abbrev pub has_point : Bytes → Bool
has_point [] = false
has_point (c ∷ s) = c == b'.' || has_point s

-- `strings.TrimRight(s, "0")`
unfoldable pub trim_zeros : Bytes → Bytes
trim_zeros [] = []
trim_zeros (c ∷ s) = let t = trim_zeros s in if is_empty t && c == b'0' then [] else c ∷ t

-- `strings.TrimSuffix(s, ".")`
unfoldable pub trim_point : Bytes → Bytes
trim_point [] = []
trim_point (c ∷ []) = if c == b'.' then [] else c ∷ []
trim_point (c ∷ d ∷ s) = c ∷ trim_point (d ∷ s)

unfoldable pub canonical_tick : Bytes → Bytes
unfolding trim_zeros trim_point
canonical_tick s = if has_point s then trim_point (trim_zeros s) else s

pub record WireOrder : Type 0 where
  pub salt : ℤ
  pub maker : Bytes
  pub signer : Bytes
  pub taker : Bytes
  pub token_id : Bytes
  pub maker_amount : Bytes
  pub taker_amount : Bytes
  pub side : Side
  pub signature_type : ℕ
  pub timestamp : Bytes
  pub expiration : Bytes
  pub metadata : Bytes
  pub builder : Bytes
  pub signature : Bytes

pub record PostOrderRequest : Type 0 where
  pub defer_exec : Bool
  pub post_only : Bool
  pub wire_order : WireOrder
  pub owner : Bytes
  pub order_type : Bytes

pub record SubmitOptions : Type 0 where
  pub post_only : Bool
  pub defer_exec : Bool

pub record OrderSubmission : Type 0 where
  pub signed : SignedOrder
  pub time_in_force : Bytes

pub data SubmitError : Type 0 where
  post_only_market_order not_signed no_orders : SubmitError
  bad_salt : Bytes → SubmitError
  order_at : ℕ → SubmitError → SubmitError

abbrev pub or_bad_salt : Bytes → Option ℤ → Result SubmitError ℤ
or_bad_salt s none = err (bad_salt s)
or_bad_salt s (some n) = ok n

abbrev pub takes : Bytes → Bool
takes order_type = bytes_eq order_type fok || bytes_eq order_type fak

abbrev pub wire_of : SignedOrder → ℤ → WireOrder
wire_of s salt = record {
  salt = salt;
  maker = s.order.maker;
  signer = s.order.signer;
  taker = s.order.taker;
  token_id = s.order.token_id;
  maker_amount = s.order.maker_amount;
  taker_amount = s.order.taker_amount;
  side = s.order.side;
  signature_type = s.order.signature_type;
  timestamp = s.order.timestamp;
  expiration = s.order.expiration;
  metadata = s.order.metadata;
  builder = s.order.builder;
  signature = s.signature;
}

unfoldable pub submission_body :
    SignedOrder → Bytes → Bytes → SubmitOptions → Result SubmitError PostOrderRequest
submission_body o order_type owner opts = do
  _ ← guard (not (opts.post_only && takes order_type)) post_only_market_order
  _ ← guard (not (is_empty o.signature)) not_signed
  salt ← or_bad_salt o.order.salt (parse_int64 o.order.salt)
  ok (record {
    defer_exec = opts.defer_exec;
    post_only = opts.post_only;
    wire_order = wire_of o salt;
    owner = owner;
    order_type = order_type;
  })

-- The loop of `PostOrders`, from index `i` on.
unfoldable pub submission_bodies :
    ℕ → List OrderSubmission → Bytes → SubmitOptions → Result SubmitError (List PostOrderRequest)
unfolding submission_body
submission_bodies i [] owner opts = ok []
submission_bodies i (s ∷ orders) owner opts = do
  body ← map_err (order_at i) (submission_body s.signed s.time_in_force owner opts)
  bodies ← submission_bodies (i + 1) orders owner opts
  ok (body ∷ bodies)

-- The body that `PostOrders` sends.
unfoldable pub post_orders_body :
    List OrderSubmission → Bytes → SubmitOptions → Result SubmitError (List PostOrderRequest)
unfolding submission_bodies
post_orders_body [] owner opts = err no_orders
post_orders_body (s ∷ orders) owner opts = submission_bodies 0 (s ∷ orders) owner opts

pub record Exchange (E : Type 0) : Type 0 where
  pub tick_size_of : Bytes → Result E Bytes
  pub neg_risk_of : Bytes → Result E Bool
  pub book_of : Bytes → Result E OrderBook

pub data TradeError (E : Type 0) : Type 0 where
  no_signer : TradeError E
  resolving_tick resolving_neg_risk pricing_request : E → TradeError E
  pricing : BookError → TradeError E
  building : OrderError → TradeError E

module _ {E : Type 0} (x : Exchange E) where
  -- `TickSize` reads the wire's text into the form that the table is keyed on.
  unfoldable pub tick_size : Bytes → Result E Bytes
  unfolding canonical_tick
  tick_size token_id = do t ← x.tick_size_of token_id; ok (canonical_tick t)

  abbrev pub resolve_tick : Bytes → Bytes → Result (TradeError E) Bytes
  resolve_tick token_id tick =
      if is_empty tick then map_err resolving_tick (tick_size token_id) else ok tick

  abbrev pub resolve_risk : Bytes → Bool → Result (TradeError E) Bool
  resolve_risk token_id risk =
      if not risk then map_err resolving_neg_risk (x.neg_risk_of token_id) else ok risk

  unfoldable pub resolve_market : Bytes → OrderOptions → Result (TradeError E) OrderOptions
  unfolding tick_size
  resolve_market token_id opts = do
    tick ← resolve_tick token_id opts.tick_size
    risk ← resolve_risk token_id opts.neg_risk
    ok (record opts { tick_size = tick; neg_risk = risk })

  -- The price of the book for the whole amount, if the order names none.
  abbrev pub resolve_price : (Bytes → Option Rat) → MarketOrder → Result (TradeError E) Bytes
  resolve_price parse_rat m =
      if is_empty m.price
      then (do
        book ← map_err pricing_request (x.book_of m.token_id)
        map_err pricing (market_price parse_rat book m.side m.amount fok))
      else ok m.price

  module _ (parse_rat : Bytes → Option Rat) (draw : Option ℕ) (now : ℤ) (keccak : Bytes → Bytes)
      (recover : Bytes → Bytes → Option Bytes) (chain_id : ℤ) where
    -- `none` is a client without a signer.
    unfoldable pub create_order :
        Option PayloadSigner → UserOrder → OrderOptions → Result (TradeError E) SignedOrder
    unfolding resolve_market
    create_order none u opts = err no_signer
    create_order (some s) u opts = do
      resolved ← resolve_market u.token_id opts
      o ← map_err building (build_order parse_rat draw now u s.own_address resolved)
      map_err building (sign_order keccak recover o chain_id resolved (some s))

    unfoldable pub create_market_order :
        Option PayloadSigner → MarketOrder → OrderOptions → Result (TradeError E) SignedOrder
    unfolding resolve_market
    create_market_order none m opts = err no_signer
    create_market_order (some s) m opts = do
      resolved ← resolve_market m.token_id opts
      price ← resolve_price parse_rat m
      o ← map_err building (
          build_market_order parse_rat draw now (record m { price = price }) s.own_address resolved)
      map_err building (sign_order keccak recover o chain_id resolved (some s))

-- `CreateOrDeriveAPIKey`, of the answers to the two requests: the credentials, and the error of creating and of deriving
-- if both failed.
pub data KeyError (E : Type 0) : Type 0 where
  creating : E → Option E → KeyError E
  no_derived_key : Option E → KeyError E

module _ {E : Type 0} where
  abbrev pub error_of : Result E ApiCreds → Option E
  error_of (err e) = some e
  error_of (ok c) = none

  -- The credentials, if they have a key.
  abbrev pub usable : Result E ApiCreds → Option ApiCreds
  usable (err e) = none
  usable (ok c) = if is_empty c.key then none else some c

  abbrev pub key_error : Option E → Option E → KeyError E
  key_error (some e) derived = creating e derived
  key_error none derived = no_derived_key derived

  unfoldable pub create_or_derive_api_key :
      Result E ApiCreds → Result E ApiCreds → Result (KeyError E) ApiCreds
  create_or_derive_api_key created derived = elim (usable created) [
    | some c ↦ ok c
    | none ↦ elim (usable derived) [
      | some c ↦ ok c
      | none ↦ err (key_error (error_of created) (error_of derived))
    ]
  ]
