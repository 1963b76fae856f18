-- ===== src/Breaker.antt =====
-- The circuit breaker of backend/infra/resilience.py, one call after the other. A call of the
-- guarded function is its outcome: a value, or none where it raises.
use web3_real_estate.Base.{
  ℕ, ◌+◌, ◌-◌, ◌<◌, ◌≡◌, refl, Bool, true, false, leb, ltb, if◌then◌else◌, Option, none, some, List,
  [], ◌∷◌, arith,
}

pub record CircuitBreaker : Type 0 where
  pub fail_max : ℕ
  pub reset_timeout : ℕ
  pub failures : ℕ
  pub opened_at : Option ℕ

-- `__init__`; `max(1, fail_max)`
unfoldable pub new_breaker : ℕ → ℕ → CircuitBreaker
new_breaker fail_max reset_timeout = record {
  fail_max = if leb 1 fail_max then fail_max else 1;
  reset_timeout = reset_timeout;
  failures = 0;
  opened_at = none;
}

-- The circuit is open and its timeout has not passed: the function is not called.
unfoldable pub is_open : ℕ → CircuitBreaker → Bool
is_open now b = elim b.opened_at [ none ↦ false | some at ↦ ltb (now - at) b.reset_timeout ]

-- The first critical section, where the timeout has passed or the circuit is closed.
unfoldable pub close_expired : CircuitBreaker → CircuitBreaker
close_expired b = elim b.opened_at [
  | none ↦ b
  | some at ↦ record b { failures = 0; opened_at = none }
]

unfoldable pub after_failure : ℕ → CircuitBreaker → CircuitBreaker
after_failure now b =
    let counted = record b { failures = b.failures + 1 } in
    if leb b.fail_max (b.failures + 1) then record counted { opened_at = some now } else counted

unfoldable pub after_success : CircuitBreaker → CircuitBreaker
after_success b = record b { failures = 0; opened_at = none }

module _ {A : Type 0} where
  -- The value or the default, whether the function was called, and the breaker. The clock is read at
  -- the start, and again, at `later`, after a failure.
  unfoldable pub call : Option A → A → ℕ → ℕ → CircuitBreaker → A × Bool × CircuitBreaker
  call outcome default now later b = if is_open now b then (default, false, b) else elim outcome [
    | none ↦ (default, true, after_failure later (close_expired b))
    | some out ↦ (out, true, after_success (close_expired b))
  ]

-- Calls in a row whose function raises, at the given times of their starts and failures.
unfoldable pub failing : List (ℕ × ℕ) → CircuitBreaker → CircuitBreaker
failing [] b = b
failing ((now, later) ∷ times) b = failing times (call none tt now later b).2

unfoldable pub count : List (ℕ × ℕ) → ℕ
count [] = 0
count (t ∷ ts) = 1 + count ts

-- A closed circuit stays closed through fewer failures in a row than it allows, and counts them.
failing_closed :
    (times : List (ℕ × ℕ)) (b : CircuitBreaker)
    → b.opened_at ≡ none
    → b.failures + count times < b.fail_max
    → ((failing times b).opened_at ≡ none)
      × ((failing times b).failures ≡ b.failures + count times)
      × ((failing times b).fail_max ≡ b.fail_max)
      × ((failing times b).reset_timeout ≡ b.reset_timeout)
unfolding failing count call is_open close_expired after_failure
failing_closed [] b closed h = (closed, omega arith, refl, refl)
failing_closed ((now, later) ∷ times) b closed h =
    ground (arith, failing_closed times (call none tt now later b).2)

-- Once a closed circuit has allowed as many failures in a row as it may, it is open, and until the
-- timeout has passed a call answers the default without calling the function.
pub failing_opens :
    (A : Type 0) (times : List (ℕ × ℕ)) (start last now later : ℕ) (outcome : Option A)
    (default : A) (b : CircuitBreaker)
    → b.opened_at ≡ none
    → b.failures + count times + 1 ≡ b.fail_max
    → now - last < b.reset_timeout
    → let tripped = (call none tt start last (failing times b)).2 in
      (tripped.opened_at ≡ some last)
      × (call outcome default now later tripped ≡ (default, false, tripped))
unfolding call is_open close_expired after_failure
failing_opens A times start last now later outcome default b closed full early =
    let (still, counted, limit, timeout) = failing_closed times b closed (omega arith) in
    ground (arith, still, counted, limit, timeout, full, early)
