-- ===== src/Session/Tests.antt =====
-- A request that is refused twice, and the theorems at concrete inputs. The errors are numbers.
use go_polymarket.Base.{ℕ, zero, suc, ◌≡◌, refl, Option, none, some, [], ◌∷◌, Result, ok, err}
use go_polymarket.Base.Bytes.{Bytes, codes}
use go_polymarket.Base.Int.{pos}
use go_polymarket.Session.{
  wait_ms, try_with, attempts_of, after_answer, after_pause, reader_at, send_loop, send,
}
use go_polymarket.Session.Retries.{send_once}

abbrev third_time : ℕ → Bytes → Result ℕ ℕ
third_time zero b = err 7
third_time (suc zero) b = err 7
third_time (suc (suc k)) b = ok 200

abbrev never : ℕ → Option ℕ
never k = none

get_twice_refused :
    send third_time never never (pos 3) (codes "GET") none
    ≡ (some (ok 200), try_with [] ∷ wait_ms 250 ∷ try_with [] ∷ wait_ms 500 ∷ try_with [] ∷ [])
unfolding send attempts_of send_loop after_answer after_pause reader_at
get_twice_refused = refl

send_once_example :
    send third_time never never (pos 3) (codes "POST") (some (codes "{}"))
    ≡ (some (third_time 0 (codes "{}")), try_with (codes "{}") ∷ [])
send_once_example = send_once third_time never never (pos 3) (codes "POST") (some (codes "{}")) refl
