-- ===== src/Breaker/Examples.antt =====
-- A breaker that opens after two failures, for thirty nanoseconds.
use k8s_sustain.Prelude.{◌≡◌, refl, true, List, [], ◌∷◌, arith, ltb}
use k8s_sustain.Prelude.Int.{pos, ◌+ℤ◌, int64}
use k8s_sustain.Prelude.Time.{is_zero, add}
use k8s_sustain.Breaker.{Breaker, new_breaker, allow, Event, asked, failed, succeeded, run}
use k8s_sustain.Breaker.Laws
use k8s_sustain.Breaker.Laws.{consecutive}

abbrev outage : List Event
outage =
    asked 100
    ∷ failed 110
    ∷ asked 120
    ∷ succeeded
    ∷ asked 130
    ∷ failed 140
    ∷ asked 150
    ∷ failed 160
    ∷ []

unfoldable tripped : Breaker
unfolding run new_breaker
tripped = run outage (new_breaker (pos 2) (pos 30))

run-consecutive_example :
    is_zero (run outage (new_breaker (pos 2) (pos 30))).open_until ≡ ltb (consecutive 0 outage) 2
run-consecutive_example = Laws.run-consecutive outage 2 30 (omega arith) (omega arith) (omega arith)

probe : (allow 200 tripped).1 ≡ (true, true)
unfolding tripped allow int64 ◌+ℤ◌ add
probe = refl

tripped_cooldown : tripped.cooldown ≡ pos 30
unfolding tripped int64 ◌+ℤ◌
tripped_cooldown = refl

tripped_limit : tripped.max_failures ≡ pos 2
unfolding tripped int64 ◌+ℤ◌
tripped_limit = refl
