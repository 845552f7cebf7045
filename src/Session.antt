-- ===== src/Session.antt =====
-- session.go, `Session.send`: one request with its retries. The HTTP client and the context are parameters:
-- `answer k b` is what `client.Do` returns at attempt `k` when the request's body reads as `b`,
-- `cancelled k` is `ctx.Err()` after attempt `k`, and `interrupted k` is `ctx.Err()` if the context ends in
-- the pause before attempt `k`.
pub mod Retries
mod Tests
use go_polymarket.Base.{
  ℕ, zero, suc, ◌+◌, ◌*◌, Bool, true, false, not, ◌||◌, Option, none, some, List, [], ◌∷◌, leb,
  ◌==◌, if◌then◌else◌, Result, ok, err,
}
use go_polymarket.Base.Bytes.{Bytes, codes, bytes_eq}
use go_polymarket.Base.Int.{ℤ, pos, ltb_ℤ, pos_part}

-- What the loop does outside: it waits, or sends the request with a body.
pub data Act : Type 0 where
  wait_ms : ℕ → Act
  try_with : Bytes → Act

-- `attempts`, from `s.retries` and the request's method.
unfoldable pub attempts_of : ℤ → Bytes → ℕ
attempts_of retries method =
    if ltb_ℤ retries (pos 0) || not (bytes_eq method (codes "GET")) then 0 else pos_part retries

abbrev pub is_some {ℓ} : {A : Type ℓ} → Option A → Bool
is_some none = false
is_some (some x) = true

-- The bytes of a body; a nil body has none.
abbrev pub bytes_of : Option Bytes → Bytes
bytes_of none = []
bytes_of (some b) = b

-- What the request's body reads as at attempt `k`: a body that is not nil is set again before every
-- attempt but the first.
unfoldable pub reader_at : ℕ → Option Bytes → Bytes → Bytes
reader_at zero body reader = reader
reader_at (suc k) none reader = reader
reader_at (suc k) (some b) reader = b

-- The outcome, or `none` if the fuel runs out, and what was done.
abbrev pub Sent : Type 0 → Type 0 → Type 0
Sent E A = Option (Result E A) × List Act

abbrev pub after : {E A : Type 0} → Act → Sent E A → Sent E A
after a (r, acts) = (r, a ∷ acts)

-- What follows the answer to an attempt: `stop` is the test that ends the loop after an error, and `rest`
-- what the next round does.
unfoldable pub after_answer : {E A : Type 0} → Bool → Bytes → Sent E A → Result E A → Sent E A
after_answer stop reader rest (ok resp) = (some (ok resp), try_with reader ∷ [])
after_answer true reader rest (err e) = (some (err e), try_with reader ∷ [])
after_answer false reader rest (err e) = after (try_with reader) rest

-- What follows the pause before attempt `k`.
unfoldable pub after_pause : {E A : Type 0} → ℕ → Sent E A → Option E → Sent E A
after_pause k sent (some e) = (some (err e), wait_ms (k * 250) ∷ [])
after_pause k sent none = after (wait_ms (k * 250)) sent

module _ {E A : Type 0} (answer : ℕ → Bytes → Result E A)
    (interrupted cancelled : ℕ → Option E) where
  -- The loop from attempt `k` on. The client reads the body of an attempt to its end.
  unfoldable pub send_loop : ℕ → ℕ → ℕ → Option Bytes → Bytes → Sent E A
  unfolding after_answer after_pause reader_at
  send_loop zero attempts k body reader = (none, [])
  send_loop (suc fuel) attempts k body reader =
      let rest = send_loop fuel attempts (suc k) body [] in
      let now = reader_at k body reader in
      let sent = after_answer (leb attempts k || is_some (cancelled k)) now rest (answer k now) in
      if k == 0 then sent else after_pause k sent (interrupted k)

  unfoldable pub send : ℤ → Bytes → Option Bytes → Sent E A
  send retries method body =
      let attempts = attempts_of retries method in
      send_loop (attempts + 1) attempts 0 body (bytes_of body)
