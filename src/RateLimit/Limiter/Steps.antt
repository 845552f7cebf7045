-- ===== src/RateLimit/Limiter/Steps.antt =====
-- ratelimit.go: the locked sections of a limiter, seen from one rule.
use go_polymarket.Base.{
  ℕ, ◌≡◌, refl, ◌∙◌, subst, Bool, true, false, Option, none, some, List, [], ◌∷◌, ◌++◌,
  if◌then◌else◌,
}
use go_polymarket.Base.Bytes.{Bytes}
use go_polymarket.RateLimit.Window.History.{History, Claim, Event, run, freeze_until}
use go_polymarket.RateLimit.Rules.{Rule, match, Which, bucket_for}
use go_polymarket.RateLimit.Bucket.{Floats}
use go_polymarket.RateLimit.Limiter.{
  Request, Header, Place, Ticket, StandardLimiter, window_for, reserve_matched, reserve_window,
  begin_wait, leave_window, give_up,
}
use go_polymarket.RateLimit.Limiter.Observe.{
  observe, apply_refusal, freeze_tokens, freeze_matched, adopt_in, adopt_remaining, count_warning,
}
use go_polymarket.RateLimit.Limiter.Trace.{
  Action, wait_at, leave, leave_unpaced, observe_at, Pacing, left_with, take_ticket, pace, pace_all,
  claims_at, if_matched, refusal_events, events_of, all_events,
}
use go_polymarket.RateLimit.Limiter.Refines.{
  SameWindows, set_tokens-SameWindows, leave_bucket-SameWindows, reserve_bucket-SameWindows,
  set_window-rules, Agrees, reserve_matched-Agrees, freeze_matched-Agrees, leave-Agrees,
}

module _ (parse_time : Bytes → Option ℕ) (fl : Floats) (parse_float : Bytes → Option (fl.F64)) where
  abbrev pub claims : ℕ → Pacing parse_time fl parse_float → List Claim
  claims i s = claims_at parse_time fl parse_float i s.tickets

  same_trans :
      (k l m : StandardLimiter fl) → SameWindows fl k l → SameWindows fl l m → SameWindows fl k m
  same_trans k l m (r, w) (r', w') = (r ∙ r', λ i. w i ∙ w' i)

  freeze_tokens-SameWindows :
      (l : StandardLimiter fl) (k : Option Which) (until : ℕ)
      → SameWindows fl (freeze_tokens parse_time fl parse_float l k until) l
  freeze_tokens-SameWindows l none until = (refl, λ i. refl)
  freeze_tokens-SameWindows l (some k) until = set_tokens-SameWindows fl l k _

  adopt_in-SameWindows :
      (l : StandardLimiter fl) (k : Option Which) (x : Option fl.F64) (now : ℕ)
      → SameWindows fl (adopt_in parse_time fl parse_float l k x now) l
  adopt_in-SameWindows l (some k) (some x) now = set_tokens-SameWindows fl l k _
  adopt_in-SameWindows l (some k) none now = (refl, λ i. refl)
  adopt_in-SameWindows l none x now = (refl, λ i. refl)

  if-SameWindows :
      (b : Bool) (k l m : StandardLimiter fl)
      → SameWindows fl k m
      → SameWindows fl l m
      → SameWindows fl (if b then k else l) m
  if-SameWindows true k l m hk hl = hk
  if-SameWindows false k l m hk hl = hl

  count_warning-SameWindows :
      (l : StandardLimiter fl) (header : Header)
      → SameWindows fl (count_warning parse_time fl parse_float l header) l
  unfolding window_for
  count_warning-SameWindows l header = if-SameWindows _ _ l l (refl, λ i. refl) (refl, λ i. refl)

  told-SameWindows :
      (l : StandardLimiter fl) (r : Request) (header : Header) (now : ℕ)
      → SameWindows fl
          (adopt_remaining parse_time fl parse_float
            (count_warning parse_time fl parse_float l header)
            r
            header
            now)
          l
  told-SameWindows l r header now =
      let counted = count_warning parse_time fl parse_float l header in
      same_trans _ counted l
        (if-SameWindows _ counted _ counted (refl, λ i. refl)
          (adopt_in-SameWindows counted (bucket_for r.method r.path) _ now))
        (count_warning-SameWindows l header)

  reserve_matched-rules :
      (l : StandardLimiter fl) (now : ℕ) (found : ℕ × Bool)
      → (reserve_matched fl l now found).1.rules ≡ l.rules
  reserve_matched-rules l now (i, false) = refl
  reserve_matched-rules l now (i, true) = set_window-rules fl l i _

  freeze_matched-rules :
      (l : StandardLimiter fl) (found : ℕ × Bool) (until : ℕ)
      → (freeze_matched parse_time fl parse_float l found until).rules ≡ l.rules
  freeze_matched-rules l (i, false) until = refl
  freeze_matched-rules l (i, true) until = set_window-rules fl l i _

  apply_refusal-rules :
      (l : StandardLimiter fl) (r : Request) (o : Option ℕ)
      → (apply_refusal parse_time fl parse_float l r o).rules ≡ l.rules
  apply_refusal-rules l r none = refl
  apply_refusal-rules l r (some until) =
      (freeze_tokens-SameWindows _ (bucket_for r.method r.path) until).0
      ∙ freeze_matched-rules l _ until

  left_with-rules :
      (s : Pacing parse_time fl parse_float) (o : Option (Ticket fl × List (Ticket fl)))
      → (left_with parse_time fl parse_float s o).limiter.rules ≡ s.limiter.rules
  unfolding give_up
  left_with-rules s none = refl
  left_with-rules s (some (t, rest)) =
      (leave_bucket-SameWindows fl _ t.which t.cost).0 ∙ placed t.place
    where
      placed : (o : Option Place) → (leave_window fl s.limiter o).rules ≡ s.limiter.rules
      placed none = refl
      placed (some p) = set_window-rules fl s.limiter p.rule _

  -- The rules never change.
  pub pace-rules :
      (a : Action parse_time fl parse_float) (s : Pacing parse_time fl parse_float)
      → (pace parse_time fl parse_float a s).limiter.rules ≡ s.limiter.rules
  unfolding pace begin_wait reserve_window observe
  pace-rules (wait_at now r) s =
      (reserve_bucket-SameWindows fl _ now r).0 ∙ reserve_matched-rules s.limiter now _
  pace-rules (leave i k) s = left_with-rules s (take_ticket parse_time fl parse_float i k s.tickets)
  pace-rules (leave_unpaced k cost) s = (leave_bucket-SameWindows fl s.limiter k cost).0
  pace-rules (observe_at r status header balance_now now) s =
      apply_refusal-rules _ r _ ∙ (told-SameWindows s.limiter r header balance_now).0

  pub pace_all-rules :
      (acts : List (Action parse_time fl parse_float)) (s : Pacing parse_time fl parse_float)
      → (pace_all parse_time fl parse_float acts s).limiter.rules ≡ s.limiter.rules
  unfolding pace_all
  pace_all-rules [] s = refl
  pace_all-rules (a ∷ acts) s =
      pace_all-rules acts (pace parse_time fl parse_float a s) ∙ pace-rules a s

  apply_refusal-Agrees :
      (l m : StandardLimiter fl) (i : ℕ) (r : Request) (o : Option ℕ) (cs : List Claim)
      (h : History)
      → SameWindows fl l m
      → Agrees parse_time fl parse_float i m cs h
      → Agrees parse_time fl parse_float i
          (apply_refusal parse_time fl parse_float l r o)
          cs
          (run (refusal_events parse_time fl parse_float (match r.method r.path m.rules) i o) h)
  unfolding run
  apply_refusal-Agrees l m i r none cs h (er, ew) (a, b) = (ew i ∙ a, b)
  apply_refusal-Agrees l m i r (some until) cs h (er, ew) (a, b) =
      let frozen =
        freeze_matched-Agrees parse_time fl parse_float l i until (match r.method r.path l.rules) cs
          h (ew i ∙ a, b) in
      let (w, c) =
        subst
          (λ rules.
            Agrees parse_time fl parse_float i
              (freeze_matched parse_time fl parse_float l (match r.method r.path l.rules) until) cs
              (run
                (if_matched parse_time fl parse_float (match r.method r.path rules) i
                  (freeze_until until))
                h))
          er frozen in
      ((freeze_tokens-SameWindows _ (bucket_for r.method r.path) until).1 i ∙ w, c)

  pub pace-Agrees :
      (a : Action parse_time fl parse_float) (s : Pacing parse_time fl parse_float) (i : ℕ)
      (h : History)
      → Agrees parse_time fl parse_float i s.limiter (claims i s) h
      → Agrees parse_time fl parse_float i
          (pace parse_time fl parse_float a s).limiter
          (claims i (pace parse_time fl parse_float a s))
          (run (events_of parse_time fl parse_float s.limiter.rules i a) h)
  unfolding events_of
  pace-Agrees (wait_at now r) s i h agrees =
      unfold pace in
      unfold begin_wait in
      unfold reserve_window in
      (let (w, c) =
          reserve_matched-Agrees parse_time fl parse_float s.limiter now i
            (match r.method r.path s.limiter.rules) (claims i s) h agrees in
        ((reserve_bucket-SameWindows fl _ now r).1 i ∙ w, c))
  pace-Agrees (leave j k) s i h agrees = leave-Agrees parse_time fl parse_float s i j k h agrees
  pace-Agrees (leave_unpaced k cost) s i h (w, c) =
      unfold pace in unfold run in ((leave_bucket-SameWindows fl s.limiter k cost).1 i ∙ w, c)
  pace-Agrees (observe_at r status header balance_now now) s i h agrees =
      unfold pace in
      unfold observe in
      apply_refusal-Agrees _ s.limiter i r _ (claims i s) h
        (told-SameWindows s.limiter r header balance_now) agrees

  run-append : (xs ys : List Event) (h : History) → run (xs ++ ys) h ≡ run ys (run xs h)
  unfolding run
  run-append [] ys h = refl
  run-append (x ∷ xs) ys h = run-append xs ys _

  pub pace_all-Agrees :
      (acts : List (Action parse_time fl parse_float)) (s : Pacing parse_time fl parse_float)
      (rules : List Rule) (i : ℕ) (h : History)
      → s.limiter.rules ≡ rules
      → Agrees parse_time fl parse_float i s.limiter (claims i s) h
      → Agrees parse_time fl parse_float i
          (pace_all parse_time fl parse_float acts s).limiter
          (claims i (pace_all parse_time fl parse_float acts s))
          (run (all_events parse_time fl parse_float rules i acts) h)
  unfolding pace_all all_events
  pace_all-Agrees [] s rules i h same agrees = unfold run in agrees
  pace_all-Agrees (a ∷ acts) s rules i h same agrees =
      rw
        (run-append (events_of parse_time fl parse_float rules i a)
          (all_events parse_time fl parse_float rules i acts) h)
        (pace_all-Agrees acts (pace parse_time fl parse_float a s) rules i
          (run (events_of parse_time fl parse_float rules i a) h) (pace-rules a s ∙ same)
          (subst
            (λ rules.
              Agrees parse_time fl parse_float i (pace parse_time fl parse_float a s).limiter
                (claims i (pace parse_time fl parse_float a s))
                (run (events_of parse_time fl parse_float rules i a) h))
            same (pace-Agrees a s i h agrees)))
