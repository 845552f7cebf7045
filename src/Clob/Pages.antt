-- ===== src/Clob/Pages.antt =====
-- clob/market.go: `Pages`, the iterator over a cursor-paginated endpoint. The consumer is a function of a state of its
-- own, whose answer is that of Go's `yield`; `get` is one page's request.
pub mod Ends
use go_polymarket.Base.{
  ℕ, zero, suc, ◌≤◌, ◌≡◌, refl, ap, ◌⊎◌, inl, inr, Bool, true, false, not, ◌||◌, Option, none, some,
  List, [], ◌∷◌, ◌++◌, arith, if◌then◌else◌, Bool-cases, Result, ok, err,
}
use go_polymarket.Base.Bytes.{Bytes, codes, bytes_eq, is_empty}

abbrev pub cursor_start : Bytes
cursor_start = codes "MA=="

abbrev pub cursor_end : Bytes
cursor_end = codes "LTE="

unfoldable pub cursor_or_start : Bytes → Bytes
cursor_or_start cursor = if is_empty cursor then cursor_start else cursor

pub record Page {ℓ} (T : Type ℓ) : Type ℓ where
  pub items : List T
  pub next_cursor : Bytes

-- The test that ends the loop.
abbrev pub is_last : Bytes → Bytes → Bool
is_last cursor next = bytes_eq next cursor_end || is_empty next || bytes_eq next cursor

module _ {T E S : Type 0} (get : Bytes → Result E (Page T))
    (yield : S → Result E T → S × Bool) where
  unfoldable pub offer : S → List T → S × Bool
  offer s [] = (s, true)
  offer s (x ∷ items) =
      let got = yield s (ok x) in
      let rest = offer got.0 items in if got.1 then rest else (got.0, false)

  -- One round, for the answer of `get` and the rounds after it.
  abbrev pub serve_page : Bytes → (Bytes → S → Option S) → S → Result E (Page T) → Option S
  serve_page cursor next s (err x) = some (yield s (err x)).0
  serve_page cursor next s (ok page) =
      let got = offer s page.items in
      if not got.1 || is_last cursor page.next_cursor
      then some got.0
      else next page.next_cursor got.0

  -- The loop on fuel; `none` means that it ran out.
  unfoldable pub pages_from : ℕ → Bytes → S → Option S
  unfolding offer
  pages_from zero cursor s = none
  pages_from (suc fuel) cursor s = serve_page cursor (pages_from fuel) s (get cursor)

  unfoldable pub pages : ℕ → S → Option S
  pages fuel s = pages_from fuel [] s
