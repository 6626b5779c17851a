-- ===== src/Algorithm/CircuitBreaker/Runs.antt =====
-- How many failures open a breaker, and how many successes close it again.
use go_common.Common.{
  ℕ, ◌≡◌, List, [], ◌∷◌, map, arith, length, ◌+◌, ◌<◌, ◌≤◌, suc, replicate, zero, ltb, Bool-cases,
  inl, inr,
}
use go_common.Common.Int.{ℤ, pos, ◌≤ℤ◌, ◌<ℤ◌, i64, ◌+ℤ◌, ◌-ℤ◌, pos_part}
use go_common.Algorithm.CircuitBreaker.{
  closed, open_, half_open, CircuitBreaker, BreakerOption, new_breaker, step, run, call_allow,
  call_success, call_failure,
}
use go_common.Algorithm.CircuitBreaker.Invariant.{Inv, Below, succ-eq, AllInt, new_breaker-IsFresh}

failures_when_open :
    (ts : List ℤ) (cb : CircuitBreaker)
    → cb.state ≡ open_
    → (run cb (map call_failure ts)).state ≡ open_
unfolding run
failures_when_open [] cb e = e
failures_when_open (t ∷ ts) cb e =
    failures_when_open ts (step cb (call_failure t)).0 (unfold step in ground arith)

-- One failure, in state closed.
failure_step :
    (cb : CircuitBreaker) (t : ℤ)
    → cb.state ≡ closed
    → Below cb.failure_count cb.failure_threshold
    → let cb' = (step cb (call_failure t)).0 in
      (cb'.failure_threshold ≡ cb.failure_threshold)
      × (pos (pos_part cb.failure_count + 1) <ℤ cb.failure_threshold
          → (cb'.state ≡ closed) × (cb'.failure_count ≡ pos (pos_part cb.failure_count + 1)))
      × (cb.failure_threshold ≤ℤ pos (pos_part cb.failure_count + 1) → cb'.state ≡ open_)
unfolding step ◌+ℤ◌
failure_step cb t e h = ground (arith, succ-eq cb.failure_count cb.failure_threshold)

failures_from :
    (ts : List ℤ) (cb : CircuitBreaker) (n : ℕ)
    → cb.state ≡ closed
    → cb.failure_count ≡ pos n
    → Below cb.failure_count cb.failure_threshold
    → (n + length ts < pos_part cb.failure_threshold
        → (run cb (map call_failure ts)).state ≡ closed)
      × (pos_part cb.failure_threshold ≤ n + length ts
          → (run cb (map call_failure ts)).state ≡ open_)
unfolding run
failures_from [] cb n e c h = (λ few. e, λ many. absurd (ground arith))
failures_from (t ∷ ts) cb n e c h =
    elim (Bool-cases (ltb (n + 1) (pos_part cb.failure_threshold))) [
      | inl below ↦
          ground (arith, failure_step cb t, failures_from ts (step cb (call_failure t)).0 (n + 1))
      | inr above ↦
          ground (arith, failure_step cb t, failures_when_open ts (step cb (call_failure t)).0)
    ]

-- A new breaker, whatever its options, is still closed after fewer failures in a row than its
-- failure threshold, and open after that many or more, whenever they come.
pub trips_at_threshold :
    (os : List BreakerOption) (ts : List ℤ)
    → AllInt os
    → let cb = new_breaker os in
      (pos (length ts) <ℤ cb.failure_threshold → (run cb (map call_failure ts)).state ≡ closed)
      × (cb.failure_threshold ≤ℤ pos (length ts) → (run cb (map call_failure ts)).state ≡ open_)
trips_at_threshold os ts i =
    ground (arith, new_breaker-IsFresh os i, failures_from ts (new_breaker os) 0)

success_when_closed :
    (k : ℕ) (cb : CircuitBreaker)
    → cb.state ≡ closed
    → (run cb (replicate k call_success)).state ≡ closed
unfolding run
success_when_closed zero cb e = e
success_when_closed (suc k) cb e =
    success_when_closed k (step cb call_success).0 (unfold step in ground arith)

success_step :
    (cb : CircuitBreaker)
    → cb.state ≡ half_open
    → Below cb.success_count cb.success_threshold
    → let cb' = (step cb call_success).0 in
      (cb'.success_threshold ≡ cb.success_threshold)
      × (pos (pos_part cb.success_count + 1) <ℤ cb.success_threshold
          → (cb'.state ≡ half_open) × (cb'.success_count ≡ pos (pos_part cb.success_count + 1)))
      × (cb.success_threshold ≤ℤ pos (pos_part cb.success_count + 1) → cb'.state ≡ closed)
unfolding step ◌+ℤ◌
success_step cb e h = ground (arith, succ-eq cb.success_count cb.success_threshold)

success_from :
    (k : ℕ) (cb : CircuitBreaker) (n : ℕ)
    → cb.state ≡ half_open
    → cb.success_count ≡ pos n
    → Below cb.success_count cb.success_threshold
    → (n + k < pos_part cb.success_threshold
        → (run cb (replicate k call_success)).state ≡ half_open)
      × (pos_part cb.success_threshold ≤ n + k → (run cb (replicate k call_success)).state ≡ closed)
unfolding run
success_from zero cb n e c h = (λ few. e, λ many. absurd (ground arith))
success_from (suc k) cb n e c h = elim (Bool-cases (ltb (n + 1) (pos_part cb.success_threshold))) [
  | inl below ↦ ground (arith, success_step cb, success_from k (step cb call_success).0 (n + 1))
  | inr above ↦ ground (arith, success_step cb, success_when_closed k (step cb call_success).0)
]

-- A breaker of any history that is open, and whose timeout has passed, is half open after an
-- `Allow`; it then stays half open for fewer successes in a row than its success threshold, and is
-- closed after that many or more.
pub recovers :
    (cb : CircuitBreaker) (now : ℤ) (k : ℕ)
    → Inv cb
    → cb.state ≡ open_
    → cb.open_timeout ≤ℤ i64 (now -ℤ cb.last_failure)
    → let cb' = run cb (call_allow now ∷ replicate k call_success) in
      (pos k <ℤ cb.success_threshold → cb'.state ≡ half_open)
      × (cb.success_threshold ≤ℤ pos k → cb'.state ≡ closed)
unfolding run step
recovers cb now k h e late = ground (arith, success_from k (step cb (call_allow now)).0 0)
