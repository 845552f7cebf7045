-- ===== src/RateLimit/Tests.antt =====
-- Runs of the windows and of the rules, and the theorems at concrete inputs.
use go_polymarket.Base.{◌≡◌, arith, refl, List, [], ◌∷◌}
use go_polymarket.Base.Bytes.{codes}
use go_polymarket.Base.Int.{pos}
use go_polymarket.RateLimit.Window.{RateLimit, SlidingWindow, time_after, reserve, pick, claim_slot}
use go_polymarket.RateLimit.Window.History.{Event, reserve_at, abandon, freeze_until}
use go_polymarket.RateLimit.Window.Choice.{Reserved, reserve_earliest}
use go_polymarket.RateLimit.Rules.{clob_rate_limits, match}
use go_polymarket.RateLimit.Rules.Match.{IsMatch, match_best}

abbrev two_per_ten : RateLimit
two_per_ten = record { requests = pos 2; window = 10 }

abbrev busy : List Event
busy = reserve_at 1 ∷ reserve_at 2 ∷ reserve_at 3 ∷ abandon 2 ∷ freeze_until 20 ∷ reserve_at 4 ∷ []

abbrev half_used : SlidingWindow
half_used = record {
  limit = two_per_ten;
  slots = (record { when = 7; seq = 1 }) ∷ (record { when = 4; seq = 2 }) ∷ [];
  seq = 2;
  frozen_till = 9;
}

-- Both slots are taken: the one that was used at 4 is free again at 14.
third_send : (reserve half_used 8).0 ≡ 14
unfolding reserve pick claim_slot time_after
third_send = refl

reserve_earliest_example : Reserved half_used 8 (reserve half_used 8)
reserve_earliest_example = reserve_earliest half_used 8 (omega arith)

match_best_example :
    IsMatch
      (codes "POST")
      (codes "/order")
      clob_rate_limits
      (match (codes "POST") (codes "/order") clob_rate_limits)
match_best_example = match_best (codes "POST") (codes "/order") clob_rate_limits
