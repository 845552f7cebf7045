-- ===== src/RateLimit/Rules.antt =====
-- ratelimit.go: the published limits, and which of them a request falls under. `bestLen` starts at
-- -1, so it is an integer here.
pub mod Match
use go_polymarket.Base.{
  ℕ, suc, ◌+◌, ◌*◌, Bool, true, false, not, ◌&&◌, ◌||◌, Option, none, some, List, [], ◌∷◌,
  if◌then◌else◌, length,
}
use go_polymarket.Base.Bytes.{Bytes, codes, bytes_eq, has_prefix, is_empty}
use go_polymarket.Base.Int.{ℤ, pos, negsuc, ltb_ℤ}
use go_polymarket.RateLimit.Window.{RateLimit}

pub record Rule : Type 0 where
  pub method : Bytes
  pub prefix : Bytes
  pub limit : RateLimit

abbrev pub second : ℕ
second = 1_000_000_000

-- A rule of the tables: so many requests every `n` seconds.
abbrev rule : Bytes → Bytes → ℕ → ℕ → Rule
rule method prefix requests n = record {
  method = method;
  prefix = prefix;
  limit = record { requests = pos requests; window = n * second };
}

abbrev pub clob_rate_limits : List Rule
clob_rate_limits =
    rule [] (codes "/") 9000 10
    ∷ rule [] (codes "/ok") 100 10
    ∷ rule [] (codes "/book") 1500 10
    ∷ rule [] (codes "/books") 500 10
    ∷ rule [] (codes "/price") 1500 10
    ∷ rule [] (codes "/prices") 500 10
    ∷ rule [] (codes "/prices-history") 1000 10
    ∷ rule [] (codes "/midpoint") 1500 10
    ∷ rule [] (codes "/midpoints") 500 10
    ∷ rule [] (codes "/tick-size") 200 10
    ∷ rule (codes "GET") (codes "/balance-allowance") 200 10
    ∷ rule [] (codes "/balance-allowance/update") 50 10
    ∷ rule [] (codes "/data/orders") 500 10
    ∷ rule [] (codes "/data/trades") 500 10
    ∷ rule [] (codes "/notifications") 125 10
    ∷ rule [] (codes "/auth/") 100 10
    ∷ rule (codes "POST") (codes "/order") 5000 10
    ∷ rule (codes "DELETE") (codes "/order") 5000 10
    ∷ rule (codes "POST") (codes "/orders") 2000 10
    ∷ rule (codes "DELETE") (codes "/orders") 2000 10
    ∷ rule [] (codes "/cancel-all") 250 10
    ∷ rule [] (codes "/cancel-market-orders") 1500 10
    ∷ []

abbrev pub gamma_rate_limits : List Rule
gamma_rate_limits =
    rule [] (codes "/") 4000 10
    ∷ rule [] (codes "/events") 500 10
    ∷ rule [] (codes "/markets") 300 10
    ∷ rule [] (codes "/comments") 200 10
    ∷ rule [] (codes "/tags") 200 10
    ∷ rule [] (codes "/public-search") 350 10
    ∷ []

abbrev pub data_rate_limits : List Rule
data_rate_limits =
    rule [] (codes "/") 1000 10
    ∷ rule [] (codes "/ok") 100 10
    ∷ rule [] (codes "/trades") 200 10
    ∷ rule [] (codes "/positions") 150 10
    ∷ rule [] (codes "/closed-positions") 150 10
    ∷ []

abbrev pub bridge_rate_limits : List Rule
bridge_rate_limits = rule [] (codes "/") 50 10 ∷ []

abbrev pub relayer_rate_limits : List Rule
relayer_rate_limits = rule [] (codes "/submit") 25 60 ∷ []

abbrev pub default_host : Bytes
default_host = codes "https://clob.polymarket.com"

abbrev pub gamma_host : Bytes
gamma_host = codes "https://gamma-api.polymarket.com"

abbrev pub data_host : Bytes
data_host = codes "https://data-api.polymarket.com"

abbrev pub bridge_host : Bytes
bridge_host = codes "https://bridge.polymarket.com"

abbrev pub relayer_host : Bytes
relayer_host = codes "https://relayer-v2.polymarket.com"

-- `strings.TrimSuffix(s, "/")`
unfoldable pub trim_slash : Bytes → Bytes
trim_slash [] = []
trim_slash (x ∷ []) = if bytes_eq (x ∷ []) (codes "/") then [] else x ∷ []
trim_slash (x ∷ y ∷ r) = x ∷ trim_slash (y ∷ r)

-- `none` is the answer that no limits are known.
unfoldable pub rate_limits_for : Bytes → Option (List Rule)
unfolding trim_slash
rate_limits_for host =
    let h = trim_slash host in
    if bytes_eq h default_host
    then some clob_rate_limits
    else if bytes_eq h gamma_host
    then some gamma_rate_limits
    else if bytes_eq h data_host
    then some data_rate_limits
    else if bytes_eq h bridge_host
    then some bridge_rate_limits
    else if bytes_eq h relayer_host
    then some relayer_rate_limits
    else none

-- The two `continue` tests of the loop.
abbrev pub applies : Bytes → Bytes → Rule → Bool
applies method path r = (is_empty r.method || bytes_eq r.method method) && has_prefix path r.prefix

abbrev pub score : Rule → ℕ
score r = if is_empty r.method then length r.prefix * 2 else length r.prefix * 2 + 1

pub record Best : Type 0 where
  pub best : ℕ
  pub best_len : ℤ
  pub found : Bool

-- `best, bestLen, found := 0, -1, false`
abbrev pub no_best : Best
no_best = record { best = 0; best_len = negsuc 0; found = false }

-- One round of the loop, at the rule with index `i`.
unfoldable pub consider : Bytes → Bytes → ℕ → Rule → Best → Best
consider method path i r b =
    if applies method path r && ltb_ℤ b.best_len (pos (score r))
    then record { best = i; best_len = pos (score r); found = true }
    else b

unfoldable pub match_loop : Bytes → Bytes → List Rule → ℕ → Best → Best
unfolding consider
match_loop method path [] i b = b
match_loop method path (r ∷ rules) i b =
    match_loop method path rules (i + 1) (consider method path i r b)

unfoldable pub match : Bytes → Bytes → List Rule → ℕ × Bool
unfolding match_loop
match method path rules = let b = match_loop method path rules 0 no_best in (b.best, b.found)

-- The per-signer buckets.
pub data Which : Type 0 where
  order cancel : Which

unfoldable pub bucket_for : Bytes → Bytes → Option Which
bucket_for method path =
    let one_order = bytes_eq path (codes "/order") || bytes_eq path (codes "/orders") in
    let many =
      bytes_eq path (codes "/cancel-all") || bytes_eq path (codes "/cancel-market-orders") in
    if bytes_eq method (codes "POST") && one_order
    then some order
    else if bytes_eq method (codes "DELETE") && (one_order || many)
    then some cancel
    else none
