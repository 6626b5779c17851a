-- ===== src/Algorithm/CircuitBreaker.antt =====
-- pkg/algorithm/circuit_breaker.go: the circuit breaker. A method returns the new record beside what
-- it hands back; `notify` is the call of `onStateChange` that it makes after it has released the
-- lock. What `cb.now()` returns is an argument.
pub mod Invariant
pub mod Graph
pub mod Runs
mod Tests
use go_common.Common.{
  ℕ, suc, Bool, true, false, Option, none, some, List, [], ◌∷◌, ◌&&◌, not, if◌then◌else◌,
}
use go_common.Common.Int.{ℤ, pos, ◌+ℤ◌, ◌-ℤ◌, leb_ℤ, ltb_ℤ, i64}

-- The three strings that the field `state` takes.
pub data State : Type 0 where
  closed open_ half_open : State

abbrev pub same : State → State → Bool
same closed closed = true
same open_ open_ = true
same half_open half_open = true
same _ _ = false

pub record CircuitBreaker : Type 0 where
  pub state : State
  pub failure_count : ℤ
  pub success_count : ℤ
  pub failure_threshold : ℤ
  pub success_threshold : ℤ
  pub open_timeout : ℤ
  pub last_failure : ℤ
  pub on_state_change : Bool  -- whether the callback is set

pub data BreakerOption : Type 0 where
  with_failure_threshold : ℤ → BreakerOption
  with_success_threshold : ℤ → BreakerOption
  with_open_timeout : ℤ → BreakerOption
  with_on_state_change : Bool → BreakerOption

-- What each option does when it is applied.
pub apply : BreakerOption → CircuitBreaker → CircuitBreaker
apply (with_failure_threshold n) cb =
    if ltb_ℤ (pos 0) n then record cb { failure_threshold = n } else cb
apply (with_success_threshold n) cb =
    if ltb_ℤ (pos 0) n then record cb { success_threshold = n } else cb
apply (with_open_timeout d) cb = if ltb_ℤ (pos 0) d then record cb { open_timeout = d } else cb
apply (with_on_state_change set) cb = record cb { on_state_change = set }

pub apply_all : List BreakerOption → CircuitBreaker → CircuitBreaker
apply_all [] cb = cb
apply_all (o ∷ os) cb = apply_all os (apply o cb)

abbrev pub default_breaker : CircuitBreaker
default_breaker = record {
  state = closed;
  failure_count = pos 0;
  success_count = pos 0;
  failure_threshold = pos 5;
  success_threshold = pos 2;
  open_timeout = pos 30_000_000_000;
  last_failure = pos 0;
  on_state_change = false;
}

pub new_breaker : List BreakerOption → CircuitBreaker
new_breaker opts = apply_all opts default_breaker

-- The states that `onStateChange` is told of.
abbrev pub Notice : Type 0
Notice = Option (State × State)

pub transition : CircuitBreaker → State → CircuitBreaker × Notice
transition cb to = (
  record cb { state = to; failure_count = pos 0; success_count = pos 0 },
  if cb.on_state_change && not (same cb.state to) then some (cb.state, to) else none,
)

-- `true` is `nil`, and `false` is ErrCircuitOpen.
allow_in : State → CircuitBreaker → ℤ → CircuitBreaker × Notice × Bool
allow_in closed cb now = (cb, none, true)
allow_in open_ cb now =
    if leb_ℤ cb.open_timeout (i64 (now -ℤ cb.last_failure))
    then (let (cb', notify) = transition cb half_open in (cb', notify, true))
    else (cb, none, false)
allow_in half_open cb now = (cb, none, true)

pub allow : CircuitBreaker → ℤ → CircuitBreaker × Notice × Bool
unfolding allow_in transition
allow cb now = allow_in cb.state cb now

success_in : State → CircuitBreaker → CircuitBreaker × Notice
success_in closed cb = (record cb { failure_count = pos 0 }, none)
success_in open_ cb = (cb, none)
success_in half_open cb =
    let n = i64 (cb.success_count +ℤ pos 1) in
    if leb_ℤ cb.success_threshold n
    then transition (record cb { success_count = n }) closed
    else (record cb { success_count = n }, none)

pub record_success : CircuitBreaker → CircuitBreaker × Notice
unfolding success_in transition
record_success cb = success_in cb.state cb

failure_in : State → CircuitBreaker → CircuitBreaker × Notice
failure_in closed cb =
    let n = i64 (cb.failure_count +ℤ pos 1) in
    if leb_ℤ cb.failure_threshold n
    then transition (record cb { failure_count = n }) open_
    else (record cb { failure_count = n }, none)
failure_in open_ cb = (cb, none)
failure_in half_open cb = transition cb open_

pub record_failure : CircuitBreaker → ℤ → CircuitBreaker × Notice
unfolding failure_in transition
record_failure cb now = failure_in cb.state (record cb { last_failure = now })

pub reset : CircuitBreaker → CircuitBreaker × Notice
unfolding transition
reset cb = transition cb closed

-- A client's calls, each with the time that the clock gives it.
pub data Call : Type 0 where
  call_allow : ℤ → Call
  call_success : Call
  call_failure : ℤ → Call
  call_reset : Call

pub step : CircuitBreaker → Call → CircuitBreaker × Notice
unfolding allow record_success record_failure reset
step cb (call_allow now) = let (cb', notify, passed) = allow cb now in (cb', notify)
step cb call_success = record_success cb
step cb (call_failure now) = record_failure cb now
step cb call_reset = reset cb

pub run : CircuitBreaker → List Call → CircuitBreaker
run cb [] = cb
run cb (c ∷ cs) = run (step cb c).0 cs
