-- ===== src/RateLimit/Limiter/Trace.antt =====
-- What a limiter goes through: the locked sections of any number of callers of `Wait`, and the responses that
-- `Observe` reads, in any order. Seen from one rule, this is a history of the rule's window.
use go_polymarket.Base.{
  ℕ, Bool, true, false, ◌&&◌, Option, none, some, List, [], ◌∷◌, ◌++◌, ◌==◌, if◌then◌else◌,
}
use go_polymarket.Base.Bytes.{Bytes}
use go_polymarket.RateLimit.Window.History.{Claim, Event, reserve_at, abandon, freeze_until}
use go_polymarket.RateLimit.Rules.{Rule, match, Which}
use go_polymarket.RateLimit.Bucket.{Floats}
use go_polymarket.RateLimit.Limiter.{
  Request, Header, StandardLimiter, Place, Ticket, begin_wait, give_up, leave_bucket,
}
use go_polymarket.RateLimit.Limiter.Observe.{observe, refused_until}

module _ (parse_time : Bytes → Option ℕ) (fl : Floats) (parse_float : Bytes → Option (fl.F64)) where
  -- `leave` is the end of a `Wait` that gives up, named by its rule and the number of its reservation; a
  -- request that no rule paces gives back to its bucket alone.
  pub data Action : Type 0 where
    wait_at : ℕ → Request → Action
    leave : ℕ → ℕ → Action
    leave_unpaced : Option Which → fl.F64 → Action
    observe_at : Request → ℕ → Header → ℕ → ℕ → Action

  -- The limiter, and the tickets that are not given up.
  pub record Pacing : Type 0 where
    pub limiter : StandardLimiter fl
    pub tickets : List (Ticket fl)

  abbrev pub is_place : ℕ → ℕ → Option Place → Bool
  is_place i k none = false
  is_place i k (some p) = p.rule == i && p.res.seq == k

  unfoldable pub take_ticket : ℕ → ℕ → List (Ticket fl) → Option (Ticket fl × List (Ticket fl))
  take_ticket i k [] = none
  take_ticket i k (t ∷ ts) = elim (is_place i k t.place) [
    | true ↦ some (t, ts)
    | false ↦ elim (take_ticket i k ts) [ none ↦ none | some (u, rest) ↦ some (u, t ∷ rest) ]
  ]

  -- The end of a `Wait` whose ticket is found.
  abbrev pub left_with : Pacing → Option (Ticket fl × List (Ticket fl)) → Pacing
  left_with s none = s
  left_with s (some (t, rest)) = record { limiter = give_up fl s.limiter t; tickets = rest }

  unfoldable pub pace : Action → Pacing → Pacing
  pace (wait_at now r) s =
      let got = begin_wait fl s.limiter now r in
      record { limiter = got.1; tickets = got.0 ∷ s.tickets }
  pace (leave i k) s = left_with s (take_ticket i k s.tickets)
  pace (leave_unpaced k cost) s = record s { limiter = leave_bucket fl s.limiter k cost }
  pace (observe_at r status header balance_now now) s = record s {
    limiter = observe parse_time fl parse_float s.limiter r status header balance_now now;
  }

  unfoldable pub pace_all : List Action → Pacing → Pacing
  pace_all [] s = s
  pace_all (a ∷ acts) s = pace_all acts (pace a s)

  -- The places of one rule, as claims of its window.
  abbrev pub claim_of : ℕ → Option Place → List Claim → List Claim
  claim_of i none l = l
  claim_of i (some p) l = if p.rule == i then (record { when = p.at; res = p.res }) ∷ l else l

  abbrev pub claims_at : ℕ → List (Ticket fl) → List Claim
  claims_at i [] = []
  claims_at i (t ∷ ts) = claim_of i t.place (claims_at i ts)

  -- The events of one rule's window.
  abbrev pub if_matched : ℕ × Bool → ℕ → Event → List Event
  if_matched (j, false) i e = []
  if_matched (j, true) i e = if j == i then e ∷ [] else []

  abbrev pub refusal_events : ℕ × Bool → ℕ → Option ℕ → List Event
  refusal_events found i none = []
  refusal_events found i (some until) = if_matched found i (freeze_until until)

  unfoldable pub events_of : List Rule → ℕ → Action → List Event
  events_of rules i (wait_at now r) = if_matched (match r.method r.path rules) i (reserve_at now)
  events_of rules i (leave j k) = if j == i then abandon k ∷ [] else []
  events_of rules i (leave_unpaced k cost) = []
  events_of rules i (observe_at r status header balance_now now) =
      refusal_events (match r.method r.path rules) i
        (refused_until parse_time fl parse_float status header now)

  unfoldable pub all_events : List Rule → ℕ → List Action → List Event
  unfolding events_of
  all_events rules i [] = []
  all_events rules i (a ∷ acts) = events_of rules i a ++ all_events rules i acts
