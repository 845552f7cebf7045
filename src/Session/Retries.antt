-- ===== src/Session/Retries.antt =====
-- The retries of a request: the loop ends, within its bound, and sends the same body each time.
use go_polymarket.Base.{
  ℕ, zero, suc, ◌+◌, ◌≤◌, ◌≡◌, refl, Bool, true, false, not, ◌||◌, Option, none, some, List, [],
  ◌∷◌, arith, leb, leb→lt, ◌==◌, Bool-cases, inl, inr, length, All, Result, ok, err,
}
use go_polymarket.Base.Bytes.{Bytes, codes, bytes_eq}
use go_polymarket.Base.Int.{ℤ, pos, ltb_ℤ}
use go_polymarket.Session.{
  Act, wait_ms, try_with, attempts_of, is_some, Sent, after_answer, after_pause, reader_at,
  bytes_of, send_loop, send,
}

-- The bodies that were sent.
abbrev pub bodies : List Act → List Bytes
bodies [] = []
bodies (wait_ms n ∷ acts) = bodies acts
bodies (try_with b ∷ acts) = b ∷ bodies acts

-- An outcome is there, at most `n` requests were sent, and each had the body `b`.
abbrev pub Settled : {E A : Type 0} → ℕ → Bytes → Sent E A → Type 0
Settled {E} {A} n b (r, acts) =
    ((x : Result E A) × (r ≡ some x)) × (length (bodies acts) ≤ n) × All (λ c. c ≡ b) (bodies acts)

or_false : (p q : Bool) → (p || q) ≡ false → p ≡ false
or_false true q e = absurd (cc)
or_false false q e = refl

reader_at-later : (k : ℕ) (body : Option Bytes) → reader_at (suc k) body [] ≡ bytes_of body
unfolding reader_at
reader_at-later k none = refl
reader_at-later k (some b) = refl

or_not : (p q : Bool) → q ≡ false → (p || not q) ≡ true
or_not true q e = refl
or_not false q e = rw e refl

no_attempts :
    (retries : ℤ) (method : Bytes)
    → bytes_eq method (codes "GET") ≡ false
    → attempts_of retries method ≡ 0
unfolding attempts_of
no_attempts retries method e =
    rw (or_not (ltb_ℤ retries (pos 0)) (bytes_eq method (codes "GET")) e) refl

module _ {E A : Type 0} where
  after_answer-Settled :
      (stop : Bool) (n : ℕ) (b c : Bytes) (rest : Sent E A) (r : Result E A)
      → c ≡ b
      → (stop ≡ false → Settled n b rest)
      → Settled (suc n) b (after_answer stop c rest r)
  unfolding after_answer
  after_answer-Settled stop n b c rest (ok resp) same h = ((ok resp, refl), omega arith, (same, tt))
  after_answer-Settled true n b c rest (err e) same h = ((err e, refl), omega arith, (same, tt))
  after_answer-Settled false n b c rest (err e) same h =
      let (out, few, all) = h refl in (out, omega (arith, few), (same, all))

  after_answer-stop :
      (b : Bytes) (rest : Sent E A) (r : Result E A)
      → after_answer true b rest r ≡ (some r, try_with b ∷ [])
  unfolding after_answer
  after_answer-stop b rest (ok resp) = refl
  after_answer-stop b rest (err e) = refl

  after_pause-Settled :
      (k n : ℕ) (b : Bytes) (sent : Sent E A) (o : Option E)
      → Settled n b sent
      → Settled n b (after_pause k sent o)
  unfolding after_pause
  after_pause-Settled k n b sent (some e) h = ((err e, refl), omega arith, tt)
  after_pause-Settled k n b sent none h = h

module _ {E A : Type 0} (answer : ℕ → Bytes → Result E A)
    (interrupted cancelled : ℕ → Option E) where
  send_loop-Settled :
      (fuel attempts k : ℕ) (body : Option Bytes) (reader : Bytes)
      → k + fuel ≡ attempts + 1
      → k ≤ attempts
      → reader_at k body reader ≡ bytes_of body
      → Settled fuel
          (bytes_of body)
          (send_loop answer interrupted cancelled fuel attempts k body reader)
  unfolding send_loop
  send_loop-Settled zero attempts k body reader e le same = absurd (omega arith)
  send_loop-Settled (suc fuel) attempts k body reader e le same =
      let now = reader_at k body reader in
      let rest = send_loop answer interrupted cancelled fuel attempts (suc k) body [] in
      let stop = leb attempts k || is_some (cancelled k) in
      let sent =
        after_answer-Settled stop fuel (bytes_of body) now rest (answer k now) same (λ more.
          send_loop-Settled fuel attempts (suc k) body [] (omega arith)
            (leb→lt attempts k (or_false (leb attempts k) (is_some (cancelled k)) more))
            (reader_at-later k body)) in
      elim (Bool-cases (k == 0)) [
        | inl first ↦ rw first sent
        | inr later ↦
            rw later (after_pause-Settled k (suc fuel) (bytes_of body) _ (interrupted k) sent)
      ]

  -- `send` always returns. It sends the request once, and at most once more for each retry that a GET is
  -- given, each time with the same body.
  pub send_settles :
      (retries : ℤ) (method : Bytes) (body : Option Bytes)
      → Settled
          (attempts_of retries method + 1)
          (bytes_of body)
          (send answer interrupted cancelled retries method body)
  unfolding send reader_at
  send_settles retries method body =
      send_loop-Settled (attempts_of retries method + 1) (attempts_of retries method) 0 body
        (bytes_of body) (omega arith) (omega arith) refl

  -- A request that is not a GET is sent exactly once, whatever happens and whatever the retries, and what
  -- the client answered is returned.
  pub send_once :
      (retries : ℤ) (method : Bytes) (body : Option Bytes)
      → bytes_eq method (codes "GET") ≡ false
      → send answer interrupted cancelled retries method body
        ≡ (some (answer 0 (bytes_of body)), try_with (bytes_of body) ∷ [])
  unfolding send send_loop reader_at
  send_once retries method body other =
      rw (no_attempts retries method other)
        (after_answer-stop (bytes_of body) (none, []) (answer 0 (bytes_of body)))
