-- ===== src/RateLimit/Window.antt =====
-- ratelimit.go, the sliding window of one endpoint: `slidingWindow` and its methods. A method that
-- changes the window returns the new one.
pub mod History
pub mod Invariant
pub mod Refund
pub mod Bound
pub mod Choice
use go_polymarket.Base.{
  ℕ, zero, suc, ◌+◌, ◌%◌, ◌^◌, Bool, not, ◌&&◌, ◌||◌, List, [], ◌∷◌, ltb, ◌==◌, if◌then◌else◌, set,
  get_or, replicate,
}
use go_polymarket.Base.Int.{ℤ, pos, ltb_ℤ, abs}

pub record RateLimit : Type 0 where
  pub requests : ℤ
  pub window : ℕ

-- A zero `when` is a free slot.
pub record WindowSlot : Type 0 where
  pub when : ℕ
  pub seq : ℕ

pub record WindowReservation : Type 0 where
  pub slot : ℕ
  pub seq : ℕ
  pub prev : WindowSlot

pub record SlidingWindow : Type 0 where
  pub limit : RateLimit
  pub slots : List WindowSlot
  pub seq : ℕ
  pub frozen_till : ℕ

abbrev pub free_slot : WindowSlot
free_slot = record { when = 0; seq = 0 }

unfoldable pub new_sliding_window : RateLimit → SlidingWindow
new_sliding_window limit =
    let n = if ltb_ℤ limit.requests (pos 1) then pos 1 else limit.requests in
    record {
      limit = record limit { requests = n };
      slots = replicate (abs n) free_slot;
      seq = 0;
      frozen_till = 0;
    }

-- `w.slots[i]`
abbrev pub slot_at : List WindowSlot → ℕ → WindowSlot
slot_at slots i = get_or slots i free_slot

-- The scan of `reserve`: `rest` is what `range w.slots` has not reached, `i` its first index.
unfoldable pub pick : List WindowSlot → List WindowSlot → ℕ → ℕ → ℕ
pick slots [] i at = at
pick slots (s ∷ rest) i at =
    let go_on = pick slots rest (i + 1) (if ltb s.when (slot_at slots at).when then i else at) in
    if s.when == 0 then i else go_on

-- When a send may go that takes a slot last used at `oldest`.
unfoldable pub time_after : SlidingWindow → ℕ → ℕ → ℕ
time_after w now oldest =
    let t = oldest + w.limit.window in
    let free = if not (oldest == 0) && ltb now t then t else now in
    if ltb free w.frozen_till then w.frozen_till else free

-- The rest of `reserve`, for the slot `at` that the scan found.
unfoldable pub claim_slot : SlidingWindow → ℕ → ℕ → ℕ × WindowReservation × SlidingWindow
claim_slot w now at =
    let when = time_after w now (slot_at w.slots at).when in
    let seq' = (w.seq + 1) % 2 ^ 64 in
    (
      when,
      record { slot = at; seq = seq'; prev = slot_at w.slots at },
      record w { slots = set w.slots at (record { when = when; seq = seq' }); seq = seq' },
    )

unfoldable pub reserve : SlidingWindow → ℕ → ℕ × WindowReservation × SlidingWindow
reserve w now = claim_slot w now (pick w.slots w.slots 0 0)

unfoldable pub release : SlidingWindow → WindowReservation → SlidingWindow
release w res =
    if res.seq == 0 || not ((slot_at w.slots res.slot).seq == res.seq)
    then w
    else record w { slots = set w.slots res.slot res.prev }

unfoldable pub freeze : SlidingWindow → ℕ → SlidingWindow
freeze w t = if ltb w.frozen_till t then record w { frozen_till = t } else w
