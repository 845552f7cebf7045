-- ===== src/Clob/Pages/Ends.antt =====
-- clob/market.go: what `Pages` offers its consumer, on a listing that comes to an end.
use go_polymarket.Base.{
  ℕ, zero, suc, ◌+◌, ◌<◌, ◌≤◌, ◌≡◌, refl, sym, ap, ◌∙◌, ◌⊎◌, inl, inr, Bool, true, false, not, ◌||◌,
  Option, none, some, List, [], ◌∷◌, ◌++◌, append-nil, arith, if◌then◌else◌, Bool-cases, Result, ok,
  err,
}
use go_polymarket.Base.Bytes.{Bytes, codes, bytes_eq, bytes_eq_iff, is_empty}
use go_polymarket.Clob.Pages.{cursor_end, Page, is_last, offer, pages_from, pages}

-- The next cursor of a page that ends the listing: the final one, none at all, or the one that was asked for.
abbrev pub Stops : Bytes → Bytes → Type 0
Stops cursor next = (next ≡ codes "LTE=") ⊎ ((next ≡ []) ⊎ (next ≡ cursor))

empty_iff : (s : Bytes) → is_empty s ≡ true → s ≡ []
empty_iff [] h = refl
empty_iff (c ∷ s) h = absurd (cc)

three : (a b c : Bool) → (a || b || c) ≡ true → (a ≡ true) ⊎ ((b ≡ true) ⊎ (c ≡ true))
three true b c h = inl refl
three false true c h = inr (inl refl)
three false false c h = inr (inr h)

is_last-Stops : (cursor next : Bytes) → is_last cursor next ≡ true → Stops cursor next
is_last-Stops cursor next h =
    elim (three (bytes_eq next cursor_end) (is_empty next) (bytes_eq next cursor) h) [
      | inl final ↦ inl ((bytes_eq_iff next cursor_end).0 final)
      | inr (inl blank) ↦ inr (inl (empty_iff next blank))
      | inr (inr same) ↦ inr (inr ((bytes_eq_iff next cursor).0 same))
    ]

one_of : (a b c : Bool) → (a ≡ true) ⊎ ((b ≡ true) ⊎ (c ≡ true)) → (a || b || c) ≡ true
one_of true b c h = refl
one_of false true c h = refl
one_of false false true h = refl
one_of false false false (inl e) = cc
one_of false false false (inr (inl e)) = cc
one_of false false false (inr (inr e)) = cc

not_both : {b : Bool} → b ≡ true → b ≡ false → ⊥
not_both t f = absurd (cc)

Stops-is_last : (cursor next : Bytes) → Stops cursor next → is_last cursor next ≡ true
Stops-is_last cursor next h =
    one_of (bytes_eq next cursor_end) (is_empty next) (bytes_eq next cursor) (elim h [
      | inl final ↦ inl ((bytes_eq_iff next cursor_end).1 final)
      | inr (inl blank) ↦ inr (inl (rw blank refl))
      | inr (inr same) ↦ inr (inr ((bytes_eq_iff next cursor).1 same))
    ])

module _ {T E S : Type 0} (get : Bytes → Result E (Page T))
    (yield : S → Result E T → S × Bool) where
  -- What a listing holds from a cursor on, read by at most `n` requests: the items of all the pages in order, up to the first page
  -- that stops, or to a request that fails, and its error.
  abbrev pub Serves : ℕ → Bytes → List T → Option E → Type 0
  Serves zero cursor items end = ⊥
  Serves (suc n) cursor items end =
      ((x : E) × (get cursor ≡ err x) × (items ≡ []) × (end ≡ some x))
      ⊎ ((page : Page T) × (get cursor ≡ ok page)
          × ((Stops cursor page.next_cursor × (items ≡ page.items) × (end ≡ none))
              ⊎ ((rest : List T) × (Stops cursor page.next_cursor → ⊥)
                  × (items ≡ page.items ++ rest)
                  × Serves n page.next_cursor rest end)))

  -- The consumer's state when it has been handed the items one by one, until it declines one, and then the error.
  abbrev pub handed : S → List T → Option E → S
  handed s [] none = s
  handed s [] (some x) = (yield s (err x)).0
  handed s (x ∷ items) end =
      if (yield s (ok x)).1 then handed (yield s (ok x)).0 items end else (yield s (ok x)).0

  -- The rest is handed on unless an item was declined.
  abbrev hand_on : S × Bool → List T → Option E → S
  hand_on (s, go) items end = if go then handed s items end else s

  offer-handed :
      (s : S) (xs ys : List T) (end : Option E)
      → handed s (xs ++ ys) end ≡ hand_on (offer get yield s xs) ys end
  unfolding offer
  offer-handed s [] ys end = refl
  offer-handed s (x ∷ xs) ys end = elim (Bool-cases (yield s (ok x)).1) [
    | inl on ↦ rw on (offer-handed (yield s (ok x)).0 xs ys end)
    | inr stop ↦ rw stop refl
  ]

  not_last : (cursor next : Bytes) → (Stops cursor next → ⊥) → is_last cursor next ≡ false
  not_last cursor next more = elim (Bool-cases (is_last cursor next)) [
    | inl last ↦ absurd (more (is_last-Stops cursor next last))
    | inr on ↦ on
  ]

  pages_from-handed :
      (n fuel : ℕ) (cursor : Bytes) (items : List T) (end : Option E) (s : S)
      → n ≤ fuel
      → Serves n cursor items end
      → pages_from get yield fuel cursor s ≡ some (handed s items end)
  unfolding pages_from
  pages_from-handed zero fuel cursor items end s h serves = absurd serves
  pages_from-handed (suc n) zero cursor items end s h serves = absurd (omega arith)
  pages_from-handed (suc n) (suc fuel) cursor items end s h (inl (x, e, nil, failed)) =
      rw (e, nil, failed) refl
  pages_from-handed (suc n) (suc fuel) cursor items end s h
        (inr (page, e, inl (stops, all, done))) =
      rw (e, Stops-is_last cursor page.next_cursor stops, all, done)
        (ended (offer get yield s page.items)
          ∙ ap some (
              sym (offer-handed s page.items [] none)
              ∙ ap (λ l. handed s l none) (append-nil page.items)))
    where
      ended :
          (got : S × Bool)
          → (if not got.1 || true
              then some got.0
              else pages_from get yield fuel page.next_cursor got.0)
            ≡ some (hand_on got [] none)
      ended (t, true) = refl
      ended (t, false) = refl
  pages_from-handed (suc n) (suc fuel) cursor items end s h
        (inr (page, e, inr (rest, more, all, serves))) =
      rw (e, not_last cursor page.next_cursor more, all, offer-handed s page.items rest end)
        (continued (offer get yield s page.items)
          (λ t. pages_from-handed n fuel page.next_cursor rest end t (omega arith) serves))
    where
      continued :
          (got : S × Bool)
          → ((t : S) → pages_from get yield fuel page.next_cursor t ≡ some (handed t rest end))
          → (if not got.1 || false
              then some got.0
              else pages_from get yield fuel page.next_cursor got.0)
            ≡ some (hand_on got rest end)
      continued (t, true) next = next t
      continued (t, false) next = refl

  module _ (left : Bytes → ℕ)
      (advances : (cursor : Bytes) (page : Page T)
        → get cursor ≡ ok page
        → Stops cursor page.next_cursor ⊎ (left page.next_cursor < left cursor)) where
    -- A listing in which every cursor leaves less than the one before it comes to an end.
    listing_ends :
        (n : ℕ) (cursor : Bytes)
        → left cursor < n
        → (items : List T) × (end : Option E) × Serves n cursor items end
    listing_ends zero cursor h = absurd (omega arith)
    listing_ends (suc n) cursor h =
        read (λ next less. listing_ends n next (omega (arith, h, less))) (get cursor) refl
      where
        read :
            ((next : Bytes)
              → left next < left cursor
              → (items : List T) × (end : Option E) × Serves n next items end)
            → (r : Result E (Page T)) → get cursor ≡ r
            → (items : List T) × (end : Option E) × Serves (suc n) cursor items end
        read go (err x) e = ([], some x, inl (x, e, refl, refl))
        read go (ok page) e = elim (Bool-cases (is_last cursor page.next_cursor)) [
          | inl last ↦ (
            page.items,
            none,
            inr (page, e, inl (is_last-Stops cursor page.next_cursor last, refl, refl)),
          )
          | inr on ↦
              let more : Stops cursor page.next_cursor → ⊥ =
                λ stops. not_both (Stops-is_last cursor page.next_cursor stops) on in
              elim (advances cursor page e) [
                | inl stops ↦ absurd (more stops)
                | inr less ↦
                    let (rest, end, serves) = go page.next_cursor less in
                    (page.items ++ rest, end, inr (page, e, inr (rest, more, refl, serves)))
              ]
        ]

    -- If what a cursor leaves of the listing is a number that falls from each page to the next, but for a page whose cursor is
    -- the final one, empty or the one that was asked for, then `Pages` returns, after one request more than the first cursor
    -- leaves at most; and it has handed the consumer the items of the pages in order, up to such a page or a failed request, until
    -- the consumer declined one, and then the error of that request.
    pub pages_end :
        (fuel : ℕ) (s : S)
        → left [] < fuel
        → (items : List T) × (end : Option E) × Serves (left [] + 1) [] items end
          × (pages get yield fuel s ≡ some (handed s items end))
    unfolding pages
    pages_end fuel s h =
        let (items, end, serves) = listing_ends (left [] + 1) [] (omega arith) in
        (
          items,
          end,
          serves,
          pages_from-handed (left [] + 1) fuel [] items end s (omega (arith, h)) serves,
        )
