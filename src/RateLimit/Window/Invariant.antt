-- ===== src/RateLimit/Window/Invariant.antt =====
-- The invariant that relates a window to the sends that are live, and that a reservation keeps it.
use go_polymarket.Base.{
  ℕ, ◌+◌, ◌^◌, ◌≤◌, ◌<◌, ◌≡◌, ◌≢◌, refl, sym, ap, ◌∙◌, subst, List, [], ◌∷◌, arith, ltb,
  if◌then◌else◌, length, length-set, get_or-set_self, get_or-set_ne, All,
}
use native.Mathlib.Decide.{ℕ_discrete}
use go_polymarket.RateLimit.Window.{
  WindowSlot, WindowReservation, SlidingWindow, free_slot, slot_at, pick, time_after, claim_slot,
  reserve,
}
use go_polymarket.RateLimit.Window.History.{Claim, reserve_at, History, step}

pick_bounds :
    (slots rest : List WindowSlot) (i at n : ℕ)
    → at < n
    → i + length rest ≤ n
    → pick slots rest i at < n
unfolding pick
pick_bounds slots [] i at n h k = h
pick_bounds slots (s ∷ rest) i at n h k =
    ground (
      arith,
      pick_bounds slots rest (i + 1) (if ltb s.when (slot_at slots at).when then i else at) n,
    )

pub pick-lt : (slots : List WindowSlot) → 0 < length slots → pick slots slots 0 0 < length slots
pick-lt slots h = pick_bounds slots slots 0 0 (length slots) h (omega arith)

-- The slot that a live claim holds remembers a send that is no earlier.
pub record Held (w : SlidingWindow) (c : Claim) : Type 0 where
  pub in_range : c.res.slot < length w.slots
  pub real : 0 < c.when
  pub issued : c.res.seq ≤ w.seq
  pub newest : c.res.seq ≤ (slot_at w.slots c.res.slot).seq
  pub latest : c.when ≤ (slot_at w.slots c.res.slot).when

-- Of two claims on one slot the later displaced the earlier, or one that is later than it.
pub record After (width : ℕ) (c d : Claim) : Type 0 where
  pub order : d.res.seq < c.res.seq
  pub seq_kept : c.res.slot ≡ d.res.slot → d.res.seq ≤ c.res.prev.seq
  pub when_kept : c.res.slot ≡ d.res.slot → d.when ≤ c.res.prev.when
  pub spaced : c.res.slot ≡ d.res.slot → d.when + width ≤ c.when

unfoldable pub Chain : ℕ → List Claim → Type 0
Chain width [] = Unit
Chain width (c ∷ l) = All (After width c) l × Chain width l

pub record Inv (h : History) : Type 0 where
  pub held : All (Held h.window) h.live
  pub chain : Chain h.window.limit.window h.live

time_after-ge : (w : SlidingWindow) (now oldest : ℕ) → now ≤ time_after w now oldest
unfolding time_after
time_after-ge w now oldest = ground arith

time_after_spaced :
    (w : SlidingWindow) (now oldest : ℕ)
    → 0 < oldest
    → oldest + w.limit.window ≤ time_after w now oldest
unfolding time_after
time_after_spaced w now oldest h = ground arith

module _ (w : SlidingWindow) (now at : ℕ) (real : 0 < now) (room : at < length w.slots)
    (few : w.seq + 1 < 2 ^ 64) where
  abbrev claimed : ℕ × WindowReservation × SlidingWindow
  claimed = claim_slot w now at

  abbrev claim : Claim
  claim = record { when = claimed.0; res = claimed.1 }

  abbrev new_slot : WindowSlot
  new_slot = record { when = claimed.0; seq = claimed.1.seq }

  slot_taken : slot_at claimed.2.slots at ≡ new_slot
  unfolding claim_slot
  slot_taken = get_or-set_self w.slots at _ free_slot room

  slot_kept : (j : ℕ) → at ≢ j → slot_at claimed.2.slots j ≡ slot_at w.slots j
  unfolding claim_slot
  slot_kept j ne = get_or-set_ne w.slots at j _ free_slot ne

  length-claimed : length claimed.2.slots ≡ length w.slots
  unfolding claim_slot
  length-claimed = length-set w.slots at _

  claimed_seq : (claimed.1.seq ≡ w.seq + 1) × (claimed.2.seq ≡ w.seq + 1) × (claimed.1.slot ≡ at)
  unfolding claim_slot
  claimed_seq = (omega arith, omega arith, refl)

  claimed_prev : claimed.1.prev ≡ slot_at w.slots at
  unfolding claim_slot
  claimed_prev = refl

  claimed_time :
      (now ≤ claimed.0)
      × (0 < (slot_at w.slots at).when → (slot_at w.slots at).when + w.limit.window ≤ claimed.0)
  unfolding claim_slot
  claimed_time = (time_after-ge w now _, time_after_spaced w now _)

  claim_slot-Held : Held claimed.2 claim
  claim_slot-Held =
      let (same, kept, slot) = claimed_seq in
      let here : slot_at claimed.2.slots claimed.1.slot ≡ new_slot =
        ap (slot_at claimed.2.slots) slot ∙ slot_taken in
      record {
        in_range = omega (arith, slot, length-claimed);
        real = omega (arith, claimed_time.0);
        issued = omega (arith, claimed_seq);
        newest = omega (arith, ap (λ (s : WindowSlot). s.seq) here);
        latest = omega (arith, ap (λ (s : WindowSlot). s.when) here);
      }

  -- What the old slot of `d` says, read at `at`.
  module _ (d : Claim) (h : Held w d) where
    at_slot :
        at ≡ d.res.slot
        → (d.res.seq ≤ (slot_at w.slots at).seq) × (d.when ≤ (slot_at w.slots at).when)
    at_slot e =
        subst
          (λ (j : ℕ). (d.res.seq ≤ (slot_at w.slots j).seq) × (d.when ≤ (slot_at w.slots j).when))
          (sym e) (h.newest, h.latest)

    after_old : at ≡ d.res.slot → d.when + w.limit.window ≤ claimed.0
    after_old e = omega (arith, at_slot e, claimed_time.1 (omega (arith, at_slot e, h.real)))

    claim_slot-After : After w.limit.window claim d
    claim_slot-After =
        let (same, kept, slot) = claimed_seq in
        record {
          order = omega (arith, same, h.issued);
          seq_kept = λ e. rw claimed_prev (at_slot (sym slot ∙ e)).0;
          when_kept = λ e. rw claimed_prev (at_slot (sym slot ∙ e)).1;
          spaced = λ e. after_old (sym slot ∙ e);
        }

    kept_slot :
        (d.res.seq ≤ (slot_at claimed.2.slots d.res.slot).seq)
        × (d.when ≤ (slot_at claimed.2.slots d.res.slot).when)
    kept_slot = elim (ℕ_discrete at d.res.slot) [
      | yes e ↦ (
        rw (← e, slot_taken) (omega (arith, claimed_seq, h.issued)),
        rw (← e, slot_taken) (omega (arith, after_old e)),
      )
      | no e ↦ (rw (slot_kept _ e) h.newest, rw (slot_kept _ e) h.latest)
    ]

    claim_slot-Held_other : Held claimed.2 d
    claim_slot-Held_other = record {
      in_range = omega (arith, h.in_range, length-claimed);
      real = h.real;
      issued = omega (arith, h.issued, claimed_seq);
      newest = kept_slot.0;
      latest = kept_slot.1;
    }

pub All-map {ℓ} :
    {P Q : Claim → Type ℓ} (l : List Claim) → ((c : Claim) → P c → Q c) → All P l → All Q l
All-map [] f h = h
All-map (c ∷ l) f h = (f c h.0, All-map l f h.1)

-- Every reservation keeps the invariant.
pub reserve-Inv :
    (now : ℕ) (h : History)
    → Inv h
    → 0 < now
    → 0 < length h.window.slots
    → h.window.seq + 1 < 2 ^ 64
    → Inv (step (reserve_at now) h)
unfolding step reserve Chain claim_slot
reserve-Inv now h inv real room few =
    let at = pick h.window.slots h.window.slots 0 0 in
    let r = pick-lt h.window.slots room in
    record {
      held = (
        claim_slot-Held h.window now at real r few,
        All-map h.live (claim_slot-Held_other h.window now at real r few) inv.held,
      );
      chain = (All-map h.live (claim_slot-After h.window now at real r few) inv.held, inv.chain);
    }
