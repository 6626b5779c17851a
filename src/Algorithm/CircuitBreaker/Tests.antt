-- ===== src/Algorithm/CircuitBreaker/Tests.antt =====
-- Runs of a breaker, and the theorems at concrete breakers.
use go_common.Common.{◌≡◌, refl, List, [], ◌∷◌, map, arith, true, false, none, some, replicate}
use go_common.Common.Int.{ℤ, pos, negsuc, ◌≤ℤ◌, ◌<ℤ◌, i64, ◌+ℤ◌, ◌-ℤ◌}
use go_common.Algorithm.CircuitBreaker.{
  closed, open_, half_open, CircuitBreaker, BreakerOption, with_failure_threshold,
  with_on_state_change, apply, apply_all, new_breaker, allow, step, run, call_allow, call_success,
  call_failure, call_reset, default_breaker,
}
use go_common.Algorithm.CircuitBreaker.Invariant.{Inv, run-Inv, step-Inv}
use go_common.Algorithm.CircuitBreaker.Graph.{Move, step-Move}
use go_common.Algorithm.CircuitBreaker.Runs.{recovers}

abbrev options : List BreakerOption
options =
    with_failure_threshold (pos 3)
    ∷ with_failure_threshold (negsuc 0)
    ∷ with_on_state_change true
    ∷ []

abbrev three_failures : List ℤ
three_failures = pos 10 ∷ pos 20 ∷ pos 30 ∷ []

-- Three failures open it, a call in time is refused, a late one probes it.
abbrev tripped : CircuitBreaker
tripped = record default_breaker { state = open_; last_failure = pos 30; on_state_change = true }

opens_at_three : (run (new_breaker options) (map call_failure three_failures)).state ≡ open_
unfolding run step new_breaker apply_all apply i64 ◌+ℤ◌
opens_at_three = refl

refused_early : allow tripped (pos 40) ≡ (tripped, none, false)
unfolding allow i64 ◌-ℤ◌
refused_early = refl

probes_late : (step tripped (call_allow (pos 30_000_000_030))).1 ≡ some (open_, half_open)
unfolding step i64 ◌-ℤ◌
probes_late = refl

tripped-Inv : Inv tripped
tripped-Inv = ground arith

run-Inv_example :
    Inv (run (new_breaker options) (call_failure (pos 1) ∷ call_success ∷ call_reset ∷ []))
run-Inv_example =
    run-Inv options (call_failure (pos 1) ∷ call_success ∷ call_reset ∷ []) (omega arith)

step-Inv_example : Inv (step tripped call_success).0
step-Inv_example = step-Inv tripped call_success tripped-Inv

step-Move_example :
    Move tripped.state (call_allow (pos 7)) (step tripped (call_allow (pos 7))).0.state
step-Move_example = step-Move tripped (call_allow (pos 7))

late : tripped.open_timeout ≤ℤ i64 (pos 30_000_000_030 -ℤ tripped.last_failure)
unfolding i64 ◌-ℤ◌
late = omega arith

recovers_example :
    let cb' = run tripped (call_allow (pos 30_000_000_030) ∷ replicate 2 call_success) in
    (pos 2 <ℤ tripped.success_threshold → cb'.state ≡ half_open)
    × (tripped.success_threshold ≤ℤ pos 2 → cb'.state ≡ closed)
recovers_example = recovers tripped (pos 30_000_000_030) 2 tripped-Inv refl late
