-- ===== src/RateLimit/Limiter/Observe.antt =====
-- ratelimit.go: `StandardLimiter.Observe`. `parse_time` and `parse_float` are `http.ParseTime` and
-- `strconv.ParseFloat`.
use go_polymarket.Base.{ℕ, ◌+◌, Bool, true, false, not, Option, none, some, if◌then◌else◌, ◌==◌}
use go_polymarket.Base.Bytes.{Bytes, codes, bytes_eq, is_empty}
use go_polymarket.RateLimit.Window.{freeze}
use go_polymarket.RateLimit.Rules.{match, Which, bucket_for}
use go_polymarket.RateLimit.Bucket.{Floats, adopt, freeze_bucket}
use go_polymarket.RateLimit.Limiter.{
  Header, Request, StandardLimiter, retry_after, set_tokens, set_window, tokens_of, window_for,
}

module _ (parse_time : Bytes → Option ℕ) (fl : Floats) (parse_float : Bytes → Option (fl.F64)) where
  abbrev pub adopt_in : StandardLimiter fl → Option Which → Option fl.F64 → ℕ → StandardLimiter fl
  adopt_in l (some k) (some x) now = set_tokens fl l k (adopt fl (tokens_of fl l k) x now)
  adopt_in l _ _ now = l

  abbrev pub adopt_remaining : StandardLimiter fl → Request → Header → ℕ → StandardLimiter fl
  adopt_remaining l r header now =
      let v = header (codes "Poly-RateLimit-Remaining") in
      if is_empty v then l else adopt_in l (bucket_for r.method r.path) (parse_float v) now

  abbrev pub freeze_matched : StandardLimiter fl → ℕ × Bool → ℕ → StandardLimiter fl
  freeze_matched l (i, false) until = l
  freeze_matched l (i, true) until = set_window fl l i (freeze (window_for fl l i) until)

  abbrev pub freeze_tokens : StandardLimiter fl → Option Which → ℕ → StandardLimiter fl
  freeze_tokens l none until = l
  freeze_tokens l (some k) until = set_tokens fl l k (freeze_bucket fl (tokens_of fl l k) until)

  abbrev pub freeze_both : StandardLimiter fl → Request → ℕ → StandardLimiter fl
  freeze_both l r until =
      freeze_tokens (freeze_matched l (match r.method r.path l.rules) until)
        (bucket_for r.method r.path) until

  abbrev pub count_warning : StandardLimiter fl → Header → StandardLimiter fl
  count_warning l header =
      if bytes_eq (header (codes "Poly-RateLimit-Warning")) (codes "true")
      then record l { warnings = l.warnings + 1 }
      else l

  abbrev pub apply_refusal : StandardLimiter fl → Request → Option ℕ → StandardLimiter fl
  apply_refusal l r none = l
  apply_refusal l r (some until) = freeze_both l r until

  -- The deadline of a refusal.
  unfoldable pub refused_until : ℕ → Header → ℕ → Option ℕ
  unfolding retry_after
  refused_until status header now =
      if not (status == 429) then none else retry_after parse_time now header

  -- `Observe`. The clock is read for the balance and again for the deadline.
  unfoldable pub observe : StandardLimiter fl → Request → ℕ → Header → ℕ → ℕ → StandardLimiter fl
  unfolding refused_until
  observe l r status header balance_now now =
      let told = adopt_remaining (count_warning l header) r header balance_now in
      apply_refusal told r (refused_until status header now)
