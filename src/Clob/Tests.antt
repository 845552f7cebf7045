-- ===== src/Clob/Tests.antt =====
-- A book of three bids, a listing of two pages, and orders made and priced at them.
use go_polymarket.Base.{
  ◌+◌, ◌<◌, ◌⊎◌, subst, value_of, ℕ, ◌≡◌, refl, inl, inr, Bool, false, true, if◌then◌else◌, Option,
  none, some, List, [], ◌∷◌, ◌++◌, arith, Result, ok, err,
}
use mathlib.Core.List.{reverse}
use go_polymarket.Base.Bytes.{Bytes, codes, bytes_eq, is_empty}
use go_polymarket.Base.Int.{pos}
use go_polymarket.Base.Rat.{Rat}
use go_polymarket.Base.Decimal.{parse_ℕ}
use go_polymarket.Samples.{short_hash, plain_decimal}
use go_polymarket.Samples.Orders.{
  signer_address, user, options, built, market_user, market_built, build_order-user,
  build_market_order-user, digested, market_digested,
}
use go_polymarket.Base.Hex.{encode_hex}
use go_polymarket.Auth.{ApiCreds}
use go_polymarket.Amount.{Config, Raw, by_tick_size, market}
use go_polymarket.Order.Build.{Carries}
use go_polymarket.Order.{MarketOrder, Order, OrderOptions, buy, sell, parse_decimal}
use go_polymarket.Order.Sign.{PayloadSigner, SignedOrder, sign_order}
use go_polymarket.Clob.Book.{OrderSummary, OrderBook, fok, fak, zero_rat, levels_of, market_price}
use go_polymarket.Clob.Book.Walk.{Reaches}
use go_polymarket.Clob.Book.Depth.{Outcome, market_price-Outcome}
use go_polymarket.Clob.Pages.{Page, pages}
use go_polymarket.Clob.Pages.Ends.{Stops, Serves, handed, pages_end}
use go_polymarket.Clob.Trading.{
  Exchange, resolve_price, resolve_tick, no_derived_key, SubmitOptions, create_order,
  create_market_order, canonical_tick, resolve_market, create_or_derive_api_key, KeyError,
}
use go_polymarket.Clob.Trading.Submission.{sign_order-digested, Submitted, create_order-Submitted}
use go_polymarket.Clob.Trading.Orders.{create_market_order_clears}

abbrev level : Bytes → Bytes → OrderSummary
level price size = record { price = price; size = size }

-- The worst bid first.
abbrev book : OrderBook
book = record {
  bids =
      level (codes "0.40") (codes "100.0")
      ∷ level (codes "0.52") (codes "6.0")
      ∷ level (codes "0.55") (codes "5.0")
      ∷ [];
  asks = [];
}

sale : market_price plain_decimal book sell (codes "10.0") fok ≡ ok (codes "0.52")
unfolding market_price parse_decimal parse_ℕ
sale = refl

sale_beyond : market_price plain_decimal book sell (codes "500.0") fak ≡ ok (codes "0.40")
unfolding market_price parse_decimal parse_ℕ
sale_beyond = refl

market_price-Outcome_example :
    Outcome plain_decimal book sell
      (codes "10.0")
      fok
      (market_price plain_decimal book sell (codes "10.0") fok)
market_price-Outcome_example = market_price-Outcome plain_decimal book sell (codes "10.0") fok

tick_of_wire : canonical_tick (codes "0.0100") ≡ codes "0.01"
unfolding canonical_tick
tick_of_wire = refl

-- Two pages of two items and of one.
abbrev listing : Bytes → Result ℕ (Page ℕ)
listing cursor =
    if is_empty cursor
    then ok (record { items = 1 ∷ 2 ∷ []; next_cursor = codes "Mg==" })
    else ok (record { items = 3 ∷ []; next_cursor = codes "LTE=" })

-- A consumer that keeps everything.
abbrev keep : List ℕ → Result ℕ ℕ → List ℕ × Bool
keep seen (ok n) = (seen ++ n ∷ [], true)
keep seen (err e) = (seen, true)

-- What a cursor leaves of the listing: the second page, or nothing behind it.
abbrev left : Bytes → ℕ
left cursor = if is_empty cursor then 1 else 0

listing-advances :
    (cursor : Bytes) (page : Page ℕ)
    → listing cursor ≡ ok page
    → Stops cursor page.next_cursor ⊎ (left page.next_cursor < left cursor)
listing-advances [] page e =
    subst (λ (p : Page ℕ). Stops [] p.next_cursor ⊎ (left p.next_cursor < 1)) (value_of e)
      (inr (omega arith))
listing-advances (c ∷ cursor) page e =
    subst (λ (p : Page ℕ). Stops (c ∷ cursor) p.next_cursor ⊎ (left p.next_cursor < 0)) (value_of e)
      (inl (inl refl))

pages_end_example :
    (items : List ℕ) × (end : Option ℕ) × Serves listing keep (1 + 1) [] items end
    × (pages listing keep 5 [] ≡ some (handed listing keep [] items end))
pages_end_example = pages_end listing keep left listing-advances 5 [] (omega arith)

abbrev exchange : Exchange ℕ
exchange = record {
  tick_size_of = λ t. ok (codes "0.0100");
  neg_risk_of = λ t. ok false;
  book_of = λ t. ok book;
}

abbrev signer : PayloadSigner
signer = record {
  own_address = signer_address;
  sign_hash = λ digest. ok (1 ∷ 2 ∷ []);
  sign_typed_data = none;
}

abbrev no_key : Bytes → Bytes → Option Bytes
no_key compact digest = none

-- Without a tick size.
abbrev blank : OrderOptions
blank = record options { tick_size = [] }

abbrev signed : Order → SignedOrder
signed o = record { order = o; signature = codes "0x0102" }

resolved : resolve_market exchange (codes "71") blank ≡ ok options
unfolding resolve_market canonical_tick
resolved = refl

sign_user : sign_order short_hash no_key built (pos 137) options (some signer) ≡ ok (signed built)
unfolding encode_hex
sign_user =
    sign_order-digested short_hash no_key built (pos 137) options signer digested.0 (1 ∷ 2 ∷ [])
      refl refl digested.1 refl

sign_sale :
    sign_order short_hash no_key market_built (pos 137) options (some signer)
    ≡ ok (signed market_built)
unfolding encode_hex
sign_sale =
    sign_order-digested short_hash no_key market_built (pos 137) options signer market_digested.0
      (1 ∷ 2 ∷ []) refl refl market_digested.1 refl

create_order-user :
    create_order exchange plain_decimal
      (some 3)
      (pos 1)
      short_hash
      no_key
      (pos 137)
      (some signer)
      user
      blank
    ≡ ok (signed built)
unfolding create_order
create_order-user = rw (build_order-user, sign_user) refl

abbrev at_once : SubmitOptions
at_once = record { post_only = false; defer_exec = true }

create_order-Submitted_example : Submitted (signed built) fok (codes "owner") at_once
create_order-Submitted_example =
    create_order-Submitted exchange plain_decimal (some 3) (pos 1) short_hash no_key (pos 137)
      signer user blank (signed built) fok (codes "owner") at_once (omega arith) (omega arith)
      create_order-user refl

-- The sale without a price of its own.
abbrev at_market : MarketOrder
at_market = record market_user { price = [] }

market_priced : resolve_price exchange plain_decimal at_market ≡ ok (codes "0.52")
market_priced = rw sale refl

create_market_order-user :
    create_market_order exchange plain_decimal
      (some 3)
      (pos 1)
      short_hash
      no_key
      (pos 137)
      (some signer)
      at_market
      blank
    ≡ ok (signed market_built)
unfolding create_market_order
create_market_order-user = rw (sale, build_market_order-user, sign_sale) refl

create_market_order_clears_example :
    (asked : OrderBook) × (price_level : Bytes) × (tick : Bytes) × (cfg : Config) × (price : Rat)
    × (amt : Rat) × (raw : Raw) × (exchange.book_of (codes "71") ≡ ok asked)
    × Reaches plain_decimal sell amt zero_rat (reverse (levels_of asked sell)) price_level
    × (plain_decimal (codes "10.0") ≡ some amt)
    × (plain_decimal price_level ≡ some price)
    × (resolve_tick exchange (codes "71") [] ≡ ok tick)
    × (by_tick_size tick ≡ some cfg)
    × (market (bytes_eq sell buy) amt price cfg ≡ ok raw)
    × (sell ≡ sell)
    × Carries market_built raw
create_market_order_clears_example =
    create_market_order_clears exchange plain_decimal (some 3) (pos 1) short_hash no_key (pos 137)
      signer at_market blank (signed market_built) refl create_market_order-user

-- Two answers without a key and without an error make an error that wraps none.
abbrev keyless : ApiCreds
keyless = record { key = []; secret = []; passphrase = [] }

no_key_no_error :
    Path
      (Result (KeyError ℕ) ApiCreds)
      (create_or_derive_api_key (ok keyless) (ok keyless))
      (err (no_derived_key none))
unfolding create_or_derive_api_key
no_key_no_error = refl
