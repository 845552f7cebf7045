-- ===== src/RateLimit/Window/Refund.antt =====
-- A refund of `release` keeps the invariant.
use go_polymarket.Base.{
  ℕ, ◌≤◌, ◌≡◌, ap, subst, ◌⊎◌, inl, inr, ◌||◌, not, some, List, [], ◌∷◌, arith, ◌==◌, Bool-cases,
  Option-cases, length, length-set, set, get_or-set_self, get_or-set_ne, All,
}
use mathlib.Core.Option.{some-injective}
use native.Mathlib.Decide.{ℕ_discrete}
use go_polymarket.RateLimit.Window.{WindowReservation, SlidingWindow, free_slot, slot_at, release}
use go_polymarket.RateLimit.Window.History.{Claim, take_claim}
use go_polymarket.RateLimit.Window.Invariant.{Held, After, Chain, All-map}

-- Taking a claim out leaves the others, each before it or after it.
pub data Taken (c : Claim) : List Claim → List Claim → Type 0 where
  head : (l : List Claim) → Taken c (c ∷ l) l
  tail : (d : Claim) {l r : List Claim} → Taken c l r → Taken c (d ∷ l) (d ∷ r)

pub take_claim-Taken :
    (k : ℕ) (l : List Claim) {p : Claim × List Claim} → take_claim k l ≡ some p → Taken p.0 l p.1
unfolding take_claim
take_claim-Taken k [] e = cc
take_claim-Taken k (d ∷ l) e = elim (Bool-cases (d.res.seq == k)) [
  | inl this ↦
      subst (λ q. Taken q.0 (d ∷ l) q.1) (some-injective _ _ (rw (this, take_claim) at e)) (head l)
  | inr other ↦ elim (Option-cases (take_claim k l)) [
    | inl gone ↦ cc (rw (other, gone, take_claim) at e)
    | inr ((x, r), found) ↦
        subst (λ q. Taken q.0 (d ∷ l) q.1) (some-injective _ _ (rw (other, found, take_claim) at e))
          (tail d (take_claim-Taken k l found))
  ]
]

pub Taken-All {ℓ} :
    (P : Claim → Type ℓ) {c : Claim} {l r : List Claim} → Taken c l r → All P l → P c × All P r
Taken-All P (head l) h = h
Taken-All P (tail d t) h = let (p, q) = Taken-All P t h.1 in (p, (h.0, q))

abbrev pub Apart : ℕ → Claim → Claim → Type 0
Apart width c d = After width c d ⊎ After width d c

pub Taken-Chain :
    (width : ℕ) {c : Claim} {l r : List Claim}
    → Taken c l r
    → Chain width l
    → Chain width r × All (Apart width c) r
unfolding Chain
Taken-Chain width (head l) h = (h.1, All-map l (λ d. inl) h.0)
Taken-Chain width (tail d t) h =
    let (p, q) = Taken-Chain width t h.1 in
    let (late, others) = Taken-All (After width d) t h.0 in ((others, p), (inr late, q))

-- A refund keeps what the other claims rely on: it puts back what the claim displaced.
module _ (w : SlidingWindow) (c d : Claim) (hc : Held w c) (hd : Held w d) where
  -- A claim whose number the slot no longer bears has nothing later on its slot.
  displaced :
      Apart w.limit.window c d
      → (slot_at w.slots c.res.slot).seq ≡ c.res.seq
      → c.res.slot ≡ d.res.slot
      → (d.res.seq ≤ c.res.prev.seq) × (d.when ≤ c.res.prev.when)
  displaced (inl a) top e = (a.seq_kept e, a.when_kept e)
  displaced (inr b) top e =
      absurd (omega (arith, ap (λ (j : ℕ). (slot_at w.slots j).seq) e, b.order, hd.newest, top))

  abbrev restored : SlidingWindow
  restored = record w { slots = set w.slots c.res.slot c.res.prev }

  restored_slot :
      Apart w.limit.window c d
      → (slot_at w.slots c.res.slot).seq ≡ c.res.seq
      → (d.res.seq ≤ (slot_at restored.slots d.res.slot).seq)
        × (d.when ≤ (slot_at restored.slots d.res.slot).when)
  restored_slot apart top = elim (ℕ_discrete c.res.slot d.res.slot) [
    | yes e ↦
        rw (← e, get_or-set_self w.slots c.res.slot c.res.prev free_slot hc.in_range)
          (displaced apart top e)
    | no e ↦ rw (get_or-set_ne w.slots _ _ c.res.prev free_slot e) (hd.newest, hd.latest)
  ]

  restored-Held :
      Apart w.limit.window c d → (slot_at w.slots c.res.slot).seq ≡ c.res.seq → Held restored d
  restored-Held apart top =
      let (newest, latest) = restored_slot apart top in
      record {
        in_range = omega (arith, hd.in_range, length-set w.slots c.res.slot c.res.prev);
        real = hd.real;
        issued = hd.issued;
        newest = newest;
        latest = latest;
      }

  pub release-Held : Apart w.limit.window c d → Held (release w c.res) d
  unfolding release
  release-Held apart =
      elim (Bool-cases (c.res.seq == 0 || not ((slot_at w.slots c.res.slot).seq == c.res.seq))) [
        | inl stale ↦ rw stale hd
        | inr current ↦ rw current (restored-Held apart (ground arith))
      ]

pub release-All :
    (w : SlidingWindow) (c : Claim) (l : List Claim)
    → Held w c
    → All (Held w) l
    → All (Apart w.limit.window c) l
    → All (Held (release w c.res)) l
release-All w c [] hc h a = tt
release-All w c (d ∷ l) hc h a = (release-Held w c d hc h.0 a.0, release-All w c l hc h.1 a.1)

module _ (w : SlidingWindow) (res : WindowReservation) where
  pub release_kept :
      ((release w res).limit ≡ w.limit)
      × ((release w res).seq ≡ w.seq)
      × (length (release w res).slots ≡ length w.slots)
  unfolding release
  release_kept = ground (arith, length-set w.slots res.slot res.prev)
