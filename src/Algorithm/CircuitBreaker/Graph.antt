-- ===== src/Algorithm/CircuitBreaker/Graph.antt =====
-- Which states follow which, and what `onStateChange` is told.
use go_common.Common.{◌≡◌, arith, true, false, none, some, ◌↔◌, ◌≢◌}
use go_common.Common.Int.{ℤ, ◌<ℤ◌, i64, ◌-ℤ◌}
use go_common.Algorithm.CircuitBreaker.{
  State, closed, open_, half_open, CircuitBreaker, allow, Call, step, call_allow, call_success,
  call_failure, call_reset,
}

-- The moves of the pattern, and the reset.
pub data Move : State → Call → State → Type 0 where
  stay : {s : State} {c : Call} → Move s c s
  trip : {now : ℤ} → Move closed (call_failure now) open_
  probe : {now : ℤ} → Move open_ (call_allow now) half_open
  heal : Move half_open call_success closed
  relapse : {now : ℤ} → Move half_open (call_failure now) open_
  clear : {s : State} → Move s call_reset closed

ruleset moves = (stay, trip, probe, heal, relapse, clear)

-- Every call stays in its state or makes a move of the pattern: no call opens a breaker but a
-- failure, none half-opens it but an `Allow`, none closes it but a success or a reset.
pub step-Move : (cb : CircuitBreaker) (c : Call) → Move cb.state c (step cb c).0.state
unfolding step
step-Move cb c = grind (arith, moves)

-- The callback is told of exactly the calls that change the state, with the old and new state, if
-- it is set, and of none otherwise.
pub step_notice :
    (cb : CircuitBreaker) (c : Call) (from to : State)
    → ((step cb c).1 ≡ some (from, to))
      ↔ ((cb.on_state_change ≡ true) × (from ≢ to) × (cb.state ≡ from) × ((step cb c).0.state ≡ to))
unfolding step
step_notice cb c from to = ground arith

-- `Allow` refuses exactly the calls that come, in state open, before the timeout has passed since
-- the last failure; a refused call changes nothing and tells nobody.
pub allow_refuses :
    (cb : CircuitBreaker) (now : ℤ)
    → ((allow cb now).2 ≡ false
        ↔ (cb.state ≡ open_) × (i64 (now -ℤ cb.last_failure) <ℤ cb.open_timeout))
      × ((allow cb now).2 ≡ false → allow cb now ≡ (cb, none, false))
unfolding allow
allow_refuses cb now = ground arith
