-- ===== src/Clob/Book/Walk.antt =====
-- clob/market.go, `marketPrice`: the walk over the levels of one side of a book.
use go_polymarket.Base.{
  ◌≡◌, ◌≢◌, refl, ap, ◌⊎◌, inl, inr, Bool, true, false, Option, none, some, List, [], ◌∷◌, ◌++◌,
  Bool-cases, if◌then◌else◌, Result, ok, err, ◌>>=◌, map_err, not,
}
use go_polymarket.Base.Bytes.{Bytes, codes, bytes_eq, bytes_eq_iff}
use go_polymarket.Base.Rat.{Rat, add_rat, mul_rat, ltb_rat}
use go_polymarket.Order.{Side, invalid_decimal, parse_decimal, or_invalid}
use go_polymarket.Clob.Book.{OrderSummary, BookError, bad_decimal, level_value, walk}

module _ (parse_rat : Bytes → Option Rat) where
  -- What a level holds: dollars, its size by its price, for a buy, and shares, its size, for any other side.
  abbrev pub Worth : Side → OrderSummary → Rat → Type 0
  Worth side l v =
      (size : Rat) × (parse_rat l.size ≡ some size)
      × (((side ≡ codes "BUY")
            × (price : Rat) × (parse_rat l.price ≡ some price)
            × (v ≡ mul_rat size price))
          ⊎ ((side ≢ codes "BUY") × (v ≡ size)))

  -- The sum of what the levels hold, from `sum` on.
  abbrev pub Depth : Side → Rat → List OrderSummary → Rat → Type 0
  Depth side sum [] total = total ≡ sum
  Depth side sum (l ∷ levels) total =
      (v : Rat) × Worth side l v × Depth side (add_rat sum v) levels total

  -- Of the levels before the one at which the walk stops, none was enough.
  abbrev pub Passed : Side → Rat → Rat → List OrderSummary → Type 0
  Passed side amt sum before =
      (before ≡ []) ⊎ ((short : Rat) × Depth side sum before short × (ltb_rat short amt ≡ true))

  -- The levels split where the depth first reaches the amount: before the last level of `before` it does not.
  abbrev pub Reaches : Side → Rat → Rat → List OrderSummary → Bytes → Type 0
  Reaches side amt sum levels price =
      (before : List OrderSummary) × (l : OrderSummary) × (after : List OrderSummary)
      × (reached : Rat) × (levels ≡ before ++ l ∷ after)
      × Depth side sum (before ++ l ∷ []) reached
      × (ltb_rat reached amt ≡ false)
      × Passed side amt sum before
      × (price ≡ l.price)

  -- All the levels together fall short.
  abbrev pub Short : Side → Rat → Rat → List OrderSummary → Type 0
  Short side amt sum levels =
      (total : Rat) × Depth side sum levels total × (ltb_rat total amt ≡ true)

  -- A text that is no decimal, of a level: its size, or its price if it is for a buy.
  abbrev pub Unread : Side → OrderSummary → Bytes → Type 0
  Unread side l text =
      ((parse_rat l.size ≡ none) × (text ≡ l.size))
      ⊎ ((size : Rat) × (parse_rat l.size ≡ some size)
          × (side ≡ codes "BUY")
          × (parse_rat l.price ≡ none)
          × (text ≡ l.price))

  -- The walk comes to a level that it cannot read.
  abbrev pub Breaks : Side → Rat → Rat → List OrderSummary → Bytes → Type 0
  Breaks side amt sum levels text =
      (before : List OrderSummary) × (l : OrderSummary) × (after : List OrderSummary) × (levels
        ≡ before ++ l ∷ after)
      × Passed side amt sum before
      × Unread side l text

  -- What reading a level's decimals gives.
  abbrev Valued : Side → OrderSummary → Result BookError Rat → Type 0
  Valued side l (ok v) = Worth side l v
  Valued side l (err x) =
      (text : Bytes) × (x ≡ bad_decimal (invalid_decimal text)) × Unread side l text

  is_buy : (side : Side) → bytes_eq side (codes "BUY") ≡ true → side ≡ codes "BUY"
  is_buy side e = (bytes_eq_iff side (codes "BUY")).0 e

  not_buy : (side : Side) → bytes_eq side (codes "BUY") ≡ false → side ≢ codes "BUY"
  not_buy side e same = let equal = (bytes_eq_iff side (codes "BUY")).1 same in cc

  level_value-Valued :
      (side : Side) (l : OrderSummary) → Valued side l (level_value parse_rat side l)
  unfolding level_value parse_decimal
  level_value-Valued side l =
      read (parse_rat l.size) (parse_rat l.price) (bytes_eq side (codes "BUY")) refl refl refl
    where
      read :
          (o p : Option Rat) (b : Bool)
          → parse_rat l.size ≡ o
          → parse_rat l.price ≡ p
          → bytes_eq side (codes "BUY") ≡ b
          → Valued side l (
              map_err bad_decimal (or_invalid l.size o) >>= λ size.
              if b
              then (map_err bad_decimal (or_invalid l.price p) >>= λ price. ok (mul_rat size price))
              else ok size)
      read none p b eo ep eb = (l.size, refl, inl (eo, refl))
      read (some size) p false eo ep eb = (size, eo, inr (not_buy side eb, refl))
      read (some size) none true eo ep eb =
          (l.price, refl, inr (size, eo, is_buy side eb, ep, refl))
      read (some size) (some price) true eo ep eb =
          (size, eo, inl (is_buy side eb, price, ep, refl))

  abbrev pub Walked :
      Side → Rat → Rat → List OrderSummary → Result BookError (Option Bytes) → Type 0
  Walked side amt sum levels (ok (some price)) = Reaches side amt sum levels price
  Walked side amt sum levels (ok none) = (levels ≡ []) ⊎ Short side amt sum levels
  Walked side amt sum levels (err x) =
      (text : Bytes) × (x ≡ bad_decimal (invalid_decimal text)) × Breaks side amt sum levels text

  -- A level that is not enough is passed.
  Passed-more :
      (side : Side) (amt sum v : Rat) (l : OrderSummary) (before : List OrderSummary)
      → Worth side l v
      → ltb_rat (add_rat sum v) amt ≡ true
      → Passed side amt (add_rat sum v) before
      → Passed side amt sum (l ∷ before)
  Passed-more side amt sum v l before worth short (inl nil) =
      inr (add_rat sum v, (v, worth, rw nil refl), short)
  Passed-more side amt sum v l before worth short (inr (s, d, less)) = inr (s, (v, worth, d), less)

  Walked-more :
      (side : Side) (amt sum v : Rat) (l : OrderSummary) (rest : List OrderSummary)
      (r : Result BookError (Option Bytes))
      → Worth side l v
      → ltb_rat (add_rat sum v) amt ≡ true
      → Walked side amt (add_rat sum v) rest r
      → Walked side amt sum (l ∷ rest) r
  Walked-more side amt sum v l rest (ok none) worth short (inl nil) =
      inr (add_rat sum v, (v, worth, rw nil refl), short)
  Walked-more side amt sum v l rest (ok none) worth short (inr (total, d, less)) =
      inr (total, (v, worth, d), less)
  Walked-more side amt sum v l rest (ok (some price)) worth short
        (before, k, after, reached, split, d, enough, passed, ep) =
      (
        l ∷ before,
        k,
        after,
        reached,
        ap (λ (t : List OrderSummary). l ∷ t) split,
        (v, worth, d),
        enough,
        Passed-more side amt sum v l before worth short passed,
        ep,
      )
  Walked-more side amt sum v l rest (err x) worth short
        (text, ex, (before, k, after, split, passed, unread)) =
      (
        text,
        ex,
        (
          l ∷ before,
          k,
          after,
          ap (λ (t : List OrderSummary). l ∷ t) split,
          Passed-more side amt sum v l before worth short passed,
          unread,
        ),
      )

  pub walk-Walked :
      (side : Side) (amt sum : Rat) (levels : List OrderSummary)
      → Walked side amt sum levels (walk parse_rat side amt sum levels)
  unfolding walk
  walk-Walked side amt sum [] = inl refl
  walk-Walked side amt sum (l ∷ rest) =
      next (λ v. walk-Walked side amt (add_rat sum v) rest) (level_value parse_rat side l)
        (level_value-Valued side l)
    where
      next :
          ((v : Rat)
            → Walked side amt (add_rat sum v) rest (walk parse_rat side amt (add_rat sum v) rest))
          → (r : Result BookError Rat) → Valued side l r
          → Walked side amt sum (l ∷ rest) (
              r >>= λ v.
              if not (ltb_rat (add_rat sum v) amt)
              then ok (some l.price)
              else walk parse_rat side amt (add_rat sum v) rest)
      next on (err x) (text, ex, unread) = (text, ex, ([], l, rest, refl, inl refl, unread))
      next on (ok v) worth = elim (Bool-cases (ltb_rat (add_rat sum v) amt)) [
        | inr enough ↦
            rw enough ([], l, rest, add_rat sum v, refl, (v, worth, refl), enough, inl refl, refl)
        | inl short ↦ rw short (Walked-more side amt sum v l rest _ worth short (on v))
      ]
