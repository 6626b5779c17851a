-- ===== src/Algorithm/CircuitBreaker/Invariant.antt =====
-- The counters of a breaker stay below their thresholds, and no `++` wraps.
use go_common.Common.{◌≡◌, List, [], ◌∷◌, arith}
use go_common.Common.Int.{ℤ, pos, ◌≤ℤ◌, ◌<ℤ◌, InI64, i64-eq, ◌+ℤ◌, i64}
use go_common.Algorithm.CircuitBreaker.{
  closed, open_, half_open, CircuitBreaker, BreakerOption, apply, apply_all, new_breaker, Call,
  step, run, with_failure_threshold, with_success_threshold, with_open_timeout,
  with_on_state_change,
}

-- A count is 0 or more and below its threshold, an `int`.
pub record Below (count threshold : ℤ) : Type 0 where
  pub nonneg : pos 0 ≤ℤ count
  pub under : count <ℤ threshold
  pub fits : InI64 threshold

pub record Inv (cb : CircuitBreaker) : Type 0 where
  pub failures : Below cb.failure_count cb.failure_threshold
  pub successes : Below cb.success_count cb.success_threshold
  pub closed_clean : cb.state ≡ closed → cb.success_count ≡ pos 0
  pub open_clean : cb.state ≡ open_ → cb.failure_count ≡ pos 0 × cb.success_count ≡ pos 0
  pub half_clean : cb.state ≡ half_open → cb.failure_count ≡ pos 0

pub succ-eq : (c t : ℤ) → Below c t → i64 (c +ℤ pos 1) ≡ c +ℤ pos 1
unfolding ◌+ℤ◌
succ-eq c t h = i64-eq (c +ℤ pos 1) (ground arith)

-- Every call, on any breaker that satisfies the invariant and at any time, keeps it.
pub step-Inv : (cb : CircuitBreaker) (c : Call) → Inv cb → Inv (step cb c).0
unfolding step ◌+ℤ◌
step-Inv cb c h = ground (
  arith,
  succ-eq cb.failure_count cb.failure_threshold,
  succ-eq cb.success_count cb.success_threshold,
)

-- What a client passes to an option is an `int`, or an `int64`.
abbrev pub IsInt : BreakerOption → Type 0
IsInt (with_failure_threshold n) = InI64 n
IsInt (with_success_threshold n) = InI64 n
IsInt (with_open_timeout d) = InI64 d
IsInt (with_on_state_change set) = Unit

abbrev pub AllInt : List BreakerOption → Type 0
AllInt [] = Unit
AllInt (o ∷ os) = IsInt o × AllInt os

-- A breaker that no call has reached yet.
pub record IsFresh (cb : CircuitBreaker) : Type 0 where
  pub start : cb.state ≡ closed
  pub failures : cb.failure_count ≡ pos 0
  pub successes : cb.success_count ≡ pos 0
  pub opens : (pos 0 <ℤ cb.failure_threshold) × InI64 cb.failure_threshold
  pub closes : (pos 0 <ℤ cb.success_threshold) × InI64 cb.success_threshold
  pub waits : pos 0 <ℤ cb.open_timeout

apply-IsFresh :
    (o : BreakerOption) (cb : CircuitBreaker) → IsInt o → IsFresh cb → IsFresh (apply o cb)
unfolding apply
apply-IsFresh (with_failure_threshold n) cb i h = ground arith
apply-IsFresh (with_success_threshold n) cb i h = ground arith
apply-IsFresh (with_open_timeout d) cb i h = ground arith
apply-IsFresh (with_on_state_change set) cb i h = ground arith

apply_all-IsFresh :
    (os : List BreakerOption) (cb : CircuitBreaker)
    → AllInt os
    → IsFresh cb
    → IsFresh (apply_all os cb)
unfolding apply_all
apply_all-IsFresh [] cb i h = h
apply_all-IsFresh (o ∷ os) cb (i, is) h =
    apply_all-IsFresh os (apply o cb) is (apply-IsFresh o cb i h)

pub new_breaker-IsFresh : (os : List BreakerOption) → AllInt os → IsFresh (new_breaker os)
unfolding new_breaker
new_breaker-IsFresh os i = apply_all-IsFresh os _ i (ground arith)

run_from-Inv : (cs : List Call) (cb : CircuitBreaker) → Inv cb → Inv (run cb cs)
unfolding run
run_from-Inv [] cb h = h
run_from-Inv (c ∷ cs) cb h = run_from-Inv cs (step cb c).0 (step-Inv cb c h)

-- Whatever options a breaker is made with, zero and negative ones included, and whatever calls
-- reach it at whatever times, its counters are below their thresholds, and the counter that its
-- state does not use is zero.
pub run-Inv : (os : List BreakerOption) (cs : List Call) → AllInt os → Inv (run (new_breaker os) cs)
run-Inv os cs i = run_from-Inv cs (new_breaker os) (ground (arith, new_breaker-IsFresh os i))
