-- ===== src/Auth/Idempotency/Tests.antt =====
-- A request that is asked for twice while it runs, and twice after its answer.
use easy_bot.Base.{◌≡◌, ◌≢◌, refl, Bool, true, false, List, [], ◌∷◌, arith}
use easy_bot.Auth.Idempotency.{
  IdempotencyRow, acquired, in_progress, conflict, replay, commit, IdempotencyStep, ok,
  reserve_idempotency, complete_idempotency,
}
use easy_bot.Auth.Idempotency.Once.{Call, asks, run}
use easy_bot.Auth.Idempotency.Replay.{healthy, pending_row, reserved-once, completed-replayed}

runs : Unit {0}
unfolding reserve_idempotency complete_idempotency
runs = tt

abbrev no_commit : IdempotencyStep → Bool
no_commit commit = true
no_commit _ = false

abbrev calls : List Call
calls = asks healthy "k" "b" "h" 7 ∷ asks no_commit "k" "a" "h" 8 ∷ []

abbrev rows : List IdempotencyRow
rows = (reserve_idempotency healthy [] "k" "a" "h" 5).0

in_progress_meanwhile : (reserve_idempotency healthy rows "k" "a" "h" 6).1 ≡ ok in_progress
unfolding runs
in_progress_meanwhile = refl

other_contents : (reserve_idempotency healthy rows "k" "a" "g" 6).1 ≡ ok conflict
unfolding runs
other_contents = refl

expired_anew : (reserve_idempotency healthy rows "k" "a" "g" 86400005).1 ≡ ok acquired
unfolding runs
expired_anew = refl

reserved-once_example : (reserve_idempotency healthy (run rows calls) "k" "a" "h" 9).1 ≢ ok acquired
unfolding runs
reserved-once_example =
    reserved-once healthy healthy [] "k" "a" "h" "h" 5 9 calls refl (omega arith, (omega arith, tt))
      (omega arith)

completed-replayed_example :
    (reserve_idempotency healthy
      (run (complete_idempotency healthy rows "k" "a" "h" 200 "{\"id\":1}").0 calls)
      "k"
      "a"
      "h"
      9).1
    ≡ ok (replay 200 "{\"id\":1}")
unfolding runs
completed-replayed_example =
    completed-replayed rows (pending_row "k" "a" "h" 5) "k" "a" "h" 200 "{\"id\":1}" 9 calls refl
      refl (omega arith, (omega arith, tt)) (omega arith)
