-- ===== src/RateLimit/Window/History.antt =====
-- What a window goes through: any sequence of reservations, refunds and freezes, with the sends that
-- are scheduled and not abandoned kept beside it. `Wait` reserves under the limiter's lock and
-- refunds under it, so every interleaving of callers is such a sequence.
use go_polymarket.Base.{
  ℕ, ◌+◌, ◌<◌, true, false, ◌&&◌, Option, none, some, List, [], ◌∷◌, leb, ltb, ◌==◌, if◌then◌else◌,
}
use go_polymarket.RateLimit.Window.{WindowReservation, SlidingWindow, reserve, release, freeze}

-- A send that is scheduled and not abandoned.
pub record Claim : Type 0 where
  pub when : ℕ
  pub res : WindowReservation

pub data Event : Type 0 where
  reserve_at : ℕ → Event
  abandon : ℕ → Event
  freeze_until : ℕ → Event

pub record History : Type 0 where
  pub window : SlidingWindow
  pub live : List Claim

-- The claim with number `k`, and the others.
unfoldable pub take_claim : ℕ → List Claim → Option (Claim × List Claim)
take_claim k [] = none
take_claim k (c ∷ l) = elim (c.res.seq == k) [
  | true ↦ some (c, l)
  | false ↦ elim (take_claim k l) [ none ↦ none | some (d, r) ↦ some (d, c ∷ r) ]
]

-- A refund of the claim that is found.
abbrev pub refunded : History → Option (Claim × List Claim) → History
refunded h none = h
refunded h (some (c, rest)) = record { window = release h.window c.res; live = rest }

unfoldable pub step : Event → History → History
unfolding reserve release freeze
step (reserve_at now) h =
    let (t, res, w) = reserve h.window now in
    record { window = w; live = (record { when = t; res = res }) ∷ h.live }
step (abandon k) h = refunded h (take_claim k h.live)
step (freeze_until t) h = record h { window = freeze h.window t }

unfoldable pub run : List Event → History → History
unfolding step take_claim
run [] h = h
run (e ∷ es) h = run es (step e h)

-- The sends scheduled in the `width` nanoseconds from `t` on.
unfoldable pub within : ℕ → ℕ → List Claim → List Claim
within t width [] = []
within t width (c ∷ l) =
    if leb t c.when && ltb c.when (t + width) then c ∷ within t width l else within t width l

-- The clock does not show the zero time.
abbrev pub IsReal : Event → Type 0
IsReal (reserve_at now) = 0 < now
IsReal (abandon k) = Unit
IsReal (freeze_until t) = Unit
