-- ===== src/RateLimit/Window/Bound.antt =====
-- How many sends a window lets through.
use go_polymarket.Base.{
  ℕ, suc, ◌+◌, ◌^◌, ◌≤◌, ◌<◌, ◌≡◌, ◌≢◌, refl, sym, ap, ◌∙◌, subst, inl, inr, ◌&&◌, List, [], ◌∷◌,
  arith, leb, ltb, if◌then◌else◌, Bool-cases, Option-cases, length, length-set, All, Distinct,
  length-le_of_Distinct, length-replicate,
}
use go_polymarket.RateLimit.Window.{
  RateLimit, SlidingWindow, free_slot, new_sliding_window, claim_slot, reserve, release, freeze,
}
use go_polymarket.RateLimit.Window.History.{
  Claim, Event, reserve_at, abandon, freeze_until, History, take_claim, step, run, within, IsReal,
}
use go_polymarket.RateLimit.Window.Invariant.{Held, After, Chain, Inv, All-map, reserve-Inv}
use go_polymarket.RateLimit.Window.Refund.{
  Taken, take_claim-Taken, Taken-All, Taken-Chain, release-All, release_kept,
}
use go_polymarket.Base.Int.{pos, ltb_ℤ, abs}

-- What holds between two steps, with `n` events still to come.
pub record Good (limit : RateLimit) (size n : ℕ) (h : History) : Type 0 where
  pub inv : Inv h
  pub limited : h.window.limit ≡ limit
  pub sized : length h.window.slots ≡ size
  pub few : h.window.seq + n < 2 ^ 64

module _ (limit : RateLimit) (size n : ℕ) where
  wait : (h : History) → Good limit size (suc n) h → Good limit size n h
  wait h good = record {
    inv = good.inv;
    limited = good.limited;
    sized = good.sized;
    few = omega arith;
  }

  reserve-Good :
      (now : ℕ) (h : History)
      → 0 < size
      → 0 < now
      → Good limit size (suc n) h
      → Good limit size n (step (reserve_at now) h)
  unfolding step reserve claim_slot
  reserve-Good now h room real good = record {
    inv = reserve-Inv now h good.inv real (omega arith) (omega arith);
    limited = good.limited;
    sized = length-set h.window.slots _ _ ∙ good.sized;
    few = omega arith;
  }

  release-Good :
      (h : History) (c : Claim) (rest : List Claim)
      → Taken c h.live rest
      → Good limit size (suc n) h
      → Good limit size n (record { window = release h.window c.res; live = rest })
  release-Good h c rest t good =
      let (hc, others) = Taken-All (Held h.window) t good.inv.held in
      let (chain, apart) = Taken-Chain h.window.limit.window t good.inv.chain in
      let (lim, seq, len) = release_kept h.window c.res in
      record {
        inv = record { held = release-All h.window c rest hc others apart; chain = rw lim chain };
        limited = lim ∙ good.limited;
        sized = len ∙ good.sized;
        few = omega (arith, seq, good.few);
      }

  freeze-Good :
      (t : ℕ) (h : History)
      → Good limit size (suc n) h
      → Good limit size n (step (freeze_until t) h)
  unfolding step freeze
  freeze-Good t h good = elim (Bool-cases (ltb h.window.frozen_till t)) [
    | inl longer ↦ rw longer (record {
      inv = record { held = All-map h.live refreeze good.inv.held; chain = good.inv.chain };
      limited = good.limited;
      sized = good.sized;
      few = omega arith;
    })
    | inr shorter ↦ rw shorter (wait h good)
  ]
    where
      refreeze : (c : Claim) → Held h.window c → Held (record h.window { frozen_till = t }) c
      refreeze c hc = record {
        in_range = hc.in_range;
        real = hc.real;
        issued = hc.issued;
        newest = hc.newest;
        latest = hc.latest;
      }

  abandon-Good :
      (k : ℕ) (h : History) → Good limit size (suc n) h → Good limit size n (step (abandon k) h)
  unfolding step
  abandon-Good k h good = elim (Option-cases (take_claim k h.live)) [
    | inl gone ↦ rw (gone, step) (wait h good)
    | inr ((c, rest), found) ↦
        rw (found, step) (release-Good h c rest (take_claim-Taken k h.live found) good)
  ]

  step-Good :
      (e : Event) (h : History)
      → 0 < size
      → IsReal e
      → Good limit size (suc n) h
      → Good limit size n (step e h)
  step-Good (reserve_at now) h room real good = reserve-Good now h room real good
  step-Good (abandon k) h room real good = abandon-Good k h good
  step-Good (freeze_until t) h room real good = freeze-Good t h good

run-Good :
    (limit : RateLimit) (size : ℕ) (es : List Event) (h : History)
    → 0 < size
    → All IsReal es
    → Good limit size (length es) h
    → Good limit size 0 (run es h)
unfolding run
run-Good limit size [] h room real good = good
run-Good limit size (e ∷ es) h room real good =
    run-Good limit size es (step e h) room real.1
      (step-Good limit size (length es) e h room real.0 good)

-- Claims close to each other in time hold different slots.
abbrev slots_of : List Claim → List ℕ
slots_of [] = []
slots_of (c ∷ l) = c.res.slot ∷ slots_of l

module _ (t width : ℕ) where
  within-All {ℓ} : (P : Claim → Type ℓ) (l : List Claim) → All P l → All P (within t width l)
  unfolding within
  within-All P [] h = tt
  within-All P (c ∷ l) h = elim (Bool-cases (leb t c.when && ltb c.when (t + width))) [
    | inl here ↦ rw here (h.0, within-All P l h.1)
    | inr away ↦ rw away (within-All P l h.1)
  ]

  abbrev IsWithin : Claim → Type 0
  IsWithin c = (t ≤ c.when) × (c.when < t + width)

  IsWithin-within : (l : List Claim) → All IsWithin (within t width l)
  unfolding within
  IsWithin-within [] = tt
  IsWithin-within (c ∷ l) = elim (Bool-cases (leb t c.when && ltb c.when (t + width))) [
    | inl here ↦ rw here ((ground arith, ground arith), IsWithin-within l)
    | inr away ↦ rw away (IsWithin-within l)
  ]

  fresh_slot :
      (c : Claim) (l : List Claim)
      → IsWithin c
      → All IsWithin l
      → All (After width c) l
      → All (λ j. j ≢ c.res.slot) (slots_of l)
  fresh_slot c [] hc hl h = tt
  fresh_slot c (d ∷ l) hc hl h =
      (λ e. omega (arith, h.0.spaced (sym e), hc, hl.0), fresh_slot c l hc hl.1 h.1)

  slots_of-Distinct : (l : List Claim) → All IsWithin l → Chain width l → Distinct (slots_of l)
  unfolding Chain
  slots_of-Distinct [] hl h = tt
  slots_of-Distinct (c ∷ l) hl h = (fresh_slot c l hl.0 hl.1 h.0, slots_of-Distinct l hl.1 h.1)

  within-Chain : (l : List Claim) → Chain width l → Chain width (within t width l)
  unfolding within Chain
  within-Chain [] h = tt
  within-Chain (c ∷ l) h = elim (Bool-cases (leb t c.when && ltb c.when (t + width))) [
    | inl here ↦ rw here (within-All (After width c) l h.0, within-Chain l h.1)
    | inr away ↦ rw away (within-Chain l h.1)
  ]

slots_of-lt :
    (w : SlidingWindow) (l : List Claim)
    → All (Held w) l
    → All (λ j. j < length w.slots) (slots_of l)
slots_of-lt w [] h = tt
slots_of-lt w (c ∷ l) h = (h.0.in_range, slots_of-lt w l h.1)

length-slots_of : (l : List Claim) → length (slots_of l) ≡ length l
length-slots_of [] = refl
length-slots_of (c ∷ l) = ap suc (length-slots_of l)

-- The size of the window that `newSlidingWindow` makes: a limit below one counts as one.
abbrev pub capacity : RateLimit → ℕ
capacity limit = abs (if ltb_ℤ limit.requests (pos 1) then pos 1 else limit.requests)

abbrev pub opened : RateLimit → History
opened limit = record { window = new_sliding_window limit; live = [] }

opened-Good :
    (limit : RateLimit) (n : ℕ)
    → n < 2 ^ 64
    → Good (new_sliding_window limit).limit (capacity limit) n (opened limit)
unfolding new_sliding_window Chain
opened-Good limit n h = record {
  inv = record { held = tt; chain = tt };
  limited = refl;
  sized = length-replicate (capacity limit) free_slot;
  few = omega arith;
}

opened_window : (limit : RateLimit) → (new_sliding_window limit).limit.window ≡ limit.window
unfolding new_sliding_window
opened_window limit = refl

capacity_pos : (limit : RateLimit) → 0 < capacity limit
capacity_pos limit = ground arith

-- Over any sequence of fewer than 2^64 reservations, refunds and freezes from a new window, whose
-- clock never shows the zero time: in any stretch of time of the window's length, at most as many
-- sends are scheduled and not abandoned as the limit allows (a limit below one counts as one).
pub window_bound :
    (limit : RateLimit) (events : List Event) (t : ℕ)
    → All IsReal events
    → length events < 2 ^ 64
    → length (within t limit.window (run events (opened limit)).live) ≤ capacity limit
window_bound limit events t real few =
    let good =
      run-Good _ (capacity limit) events (opened limit) (capacity_pos limit) real
        (opened-Good limit (length events) few) in
    let h = run events (opened limit) in
    let near = within t limit.window h.live in
    let width : h.window.limit.window ≡ limit.window =
      ap (λ (l : RateLimit). l.window) good.limited ∙ opened_window limit in
    let chain = subst (λ (w : ℕ). Chain w h.live) width good.inv.chain in
    let lt =
      slots_of-lt h.window near (within-All t limit.window (Held h.window) h.live good.inv.held) in
    rw (← length-slots_of near) (
      length-le_of_Distinct (capacity limit) (slots_of near)
        (slots_of-Distinct t limit.window near (IsWithin-within t limit.window h.live)
          (within-Chain t limit.window h.live chain))
        (subst (λ (n : ℕ). All (λ (j : ℕ). j < n) (slots_of near)) good.sized lt))
