-- ===== src/RateLimit/Window/Choice.antt =====
-- Which slot `reserve` takes, and that a refund at once leaves no trace.
use go_polymarket.Base.{
  ℕ, zero, suc, ◌+◌, ◌%◌, ◌^◌, ◌≤◌, ◌<◌, ◌≡◌, refl, ap, ◌∙◌, List, [], ◌∷◌, arith, ltb, ◌==◌,
  if◌then◌else◌, Bool-cases, length, set, get_or-set_self, max, ltb→lt, ==_iff, inl, inr, All,
  All-of_get_or,
}
use native.Mathlib.Decide.{ℕ_discrete}
use go_polymarket.RateLimit.Window.{
  WindowSlot, WindowReservation, SlidingWindow, free_slot, slot_at, pick, time_after, claim_slot,
  reserve, release,
}
use go_polymarket.RateLimit.Window.Invariant.{pick-lt}

-- The index that the scan carries after it has seen the slot at `i`.
better : (slots : List WindowSlot) (s : WindowSlot) (i at : ℕ) → ℕ
better slots s i at = if ltb s.when (slot_at slots at).when then i else at

better_least :
    (slots : List WindowSlot) (s : WindowSlot) (i at : ℕ)
    → slot_at slots i ≡ s
    → ((j : ℕ) → j < i → (slot_at slots at).when ≤ (slot_at slots j).when)
    → (j : ℕ) → j < i + 1
    → (slot_at slots (better slots s i at)).when ≤ (slot_at slots j).when
unfolding better
better_least slots s i at here least j lt = elim (ℕ_discrete j i) [
  | yes e ↦
      rw (e, here)
        (elim (Bool-cases (ltb s.when (slot_at slots at).when)) [
          | inl less ↦ rw (less, here) (omega arith)
          | inr more ↦ rw more (ground arith)
        ])
  | no e ↦ elim (Bool-cases (ltb s.when (slot_at slots at).when)) [
    | inl less ↦ rw (less, here) (omega (arith, ltb→lt _ _ less, least j (omega arith)))
    | inr more ↦ rw more (least j (omega arith))
  ]
]

pick_least :
    (slots rest : List WindowSlot) (i at : ℕ)
    → ((k : ℕ) → slot_at slots (i + k) ≡ slot_at rest k)
    → ((j : ℕ) → j < i → (slot_at slots at).when ≤ (slot_at slots j).when)
    → (j : ℕ) → j < i + length rest
    → (slot_at slots (pick slots rest i at)).when ≤ (slot_at slots j).when
unfolding pick better
pick_least slots [] i at same least j h = least j (omega arith)
pick_least slots (s ∷ rest) i at same least j h =
    let here : slot_at slots i ≡ s =
      ap (slot_at slots) {x = i} {y = i + 0} (omega arith) ∙ same 0 in
    elim (Bool-cases (s.when == 0)) [
      | inl free ↦ rw (free, here) (omega (arith, (==_iff _ _).0 free))
      | inr used ↦ rw used (
          pick_least slots rest (i + 1) (better slots s i at)
            (λ k. ap (slot_at slots) {x = i + 1 + k} {y = i + suc k} (omega arith) ∙ same (suc k))
            (better_least slots s i at here least) j (omega arith))
    ]

pick-le :
    (slots : List WindowSlot) (j : ℕ)
    → j < length slots
    → (slot_at slots (pick slots slots 0 0)).when ≤ (slot_at slots j).when
pick-le slots j h =
    pick_least slots slots 0 0 (λ k. ap (slot_at slots) {x = 0 + k} {y = k} (omega arith))
      (λ j lt. absurd (omega arith)) j (omega arith)

-- When a slot lets the next send go: at once if it is free, else one window after its own.
abbrev pub opens : ℕ → WindowSlot → ℕ
opens window s = if s.when == 0 then 0 else s.when + window

opens_mono : (window : ℕ) (s t : WindowSlot) → s.when ≤ t.when → opens window s ≤ opens window t
opens_mono window s t h = ground arith

time_after-opens :
    (w : SlidingWindow) (now : ℕ) (s : WindowSlot)
    → time_after w now s.when ≡ max (max now (opens w.limit.window s)) w.frozen_till
unfolding time_after
time_after-opens w now s = ground arith

-- What a reservation is: the slot taken is one of the window's and lets its send go no later than any other; the
-- send is scheduled exactly when the slot, the clock and the freeze all allow it; and the slot, which the reservation
-- names and of which it keeps the old value, is the only one that changes.
abbrev pub Reserved : SlidingWindow → ℕ → ℕ × WindowReservation × SlidingWindow → Type 0
Reserved w now (when, res, w') =
    (res.slot < length w.slots)
    × (res.prev ≡ slot_at w.slots res.slot)
    × All (λ s. opens w.limit.window res.prev ≤ opens w.limit.window s) w.slots
    × (when ≡ max (max now (opens w.limit.window res.prev)) w.frozen_till)
    × (w'.slots ≡ set w.slots res.slot (record { when = when; seq = res.seq }))
    × (res.seq ≡ (w.seq + 1) % 2 ^ 64)
    × (w'.seq ≡ res.seq)
    × (w'.limit ≡ w.limit)
    × (w'.frozen_till ≡ w.frozen_till)

-- A reservation in a window that has a slot takes the slot that lets the send go first, at exactly the time at which the
-- slot, the clock and the freeze all allow it, which it records in that slot and in no other.
pub reserve_earliest :
    (w : SlidingWindow) (now : ℕ) → 0 < length w.slots → Reserved w now (reserve w now)
unfolding reserve claim_slot
reserve_earliest w now room =
    let at = pick w.slots w.slots 0 0 in
    (
      pick-lt w.slots room,
      refl,
      All-of_get_or
          (λ (s : WindowSlot). opens w.limit.window (slot_at w.slots at) ≤ opens w.limit.window s)
          w.slots free_slot
          (λ j h.
            opens_mono w.limit.window (slot_at w.slots at) (slot_at w.slots j)
              (pick-le w.slots j h)),
      time_after-opens w now (slot_at w.slots at),
      refl,
      refl,
      refl,
      refl,
      refl,
    )

-- A send waits for the clock and for the end of a freeze.
pub reserve_waits :
    (w : SlidingWindow) (now : ℕ) → (now ≤ (reserve w now).0) × (w.frozen_till ≤ (reserve w now).0)
unfolding reserve claim_slot
reserve_waits w now = (unfold time_after in ground arith, unfold time_after in ground arith)

set_twice :
    (slots : List WindowSlot) (i : ℕ) (v : WindowSlot)
    → set (set slots i v) i (slot_at slots i) ≡ slots
set_twice [] i v = refl
set_twice (x ∷ xs) zero v = refl
set_twice (x ∷ xs) (suc i) v = ap (λ t. x ∷ t) (set_twice xs i v)

release-claim_slot :
    (w : SlidingWindow) (now at : ℕ)
    → at < length w.slots
    → w.seq + 1 < 2 ^ 64
    → release (claim_slot w now at).2 (claim_slot w now at).1 ≡ record w { seq = w.seq + 1 }
unfolding claim_slot release
release-claim_slot w now at room few =
    let when = time_after w now (slot_at w.slots at).when in
    let e : (w.seq + 1) % 2 ^ 64 ≡ w.seq + 1 = omega arith in
    rw e (
      ground (
        arith,
        get_or-set_self w.slots at (record { when = when; seq = w.seq + 1 }) free_slot room,
        set_twice w.slots at (record { when = when; seq = w.seq + 1 }),
      ))

-- Releasing the reservation that was made last puts every slot back as it was before, and leaves the
-- freeze and the limit as they are; only the number of the last reservation remains.
pub release-reserve :
    (w : SlidingWindow) (now : ℕ)
    → 0 < length w.slots
    → w.seq + 1 < 2 ^ 64
    → release (reserve w now).2 (reserve w now).1 ≡ record w { seq = w.seq + 1 }
unfolding reserve
release-reserve w now room few = release-claim_slot w now _ (pick-lt w.slots room) few
