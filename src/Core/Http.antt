-- ===== src/Core/Http.antt =====
-- core/http.py: the circuit breaker and the client that retries. The transport is given from
-- outside, as functions on a world `W`; time is counted in ticks of its clock. The requests of one
-- client take turns.
pub mod Breaker
mod Tests
use delivery_time_prediction.Prelude.{
  ℕ, zero, suc, ◌+◌, ◌-◌, Bool, true, false, ◌&&◌, if◌then◌else◌, ltb, leb,
}

pub data CircuitState : Type 0 where
  closed open_circuit half_open : CircuitState

pub record CircuitBreaker : Type 0 where
  pub failure_threshold : ℕ
  pub recovery_timeout : ℕ
  pub state : CircuitState
  pub failure_count : ℕ
  pub last_state_change : ℕ

abbrev pub new_breaker : ℕ → ℕ → ℕ → CircuitBreaker
new_breaker failure_threshold recovery_timeout now = record {
  failure_threshold = failure_threshold;
  recovery_timeout = recovery_timeout;
  state = closed;
  failure_count = 0;
  last_state_change = now;
}

-- `_check_state`
pub check_state : ℕ → CircuitBreaker → CircuitBreaker
check_state now cb = elim cb.state [
  | open_circuit ↦
      if ltb cb.recovery_timeout (now - cb.last_state_change)
      then record cb { state = half_open; last_state_change = now }
      else cb
  | _ ↦ cb
]

pub record_success : ℕ → CircuitBreaker → CircuitBreaker
record_success now cb = record cb { state = closed; failure_count = 0; last_state_change = now }

pub record_failure : ℕ → CircuitBreaker → CircuitBreaker
record_failure now cb = elim cb.state [
  | closed ↦
      if leb cb.failure_threshold (suc cb.failure_count)
      then record cb {
        failure_count = suc cb.failure_count;
        state = open_circuit;
        last_state_change = now;
      }
      else record cb { failure_count = suc cb.failure_count }
  | half_open ↦ record cb {
    failure_count = suc cb.failure_count;
    state = open_circuit;
    last_state_change = now;
  }
  | open_circuit ↦ record cb { failure_count = suc cb.failure_count }
]

-- One attempt: a response without an error status; a RequestError or HTTPStatusError; another
-- exception, which nothing here catches.
pub data Attempt (R : Type 0) : Type 0 where
  answered : R → Attempt R
  request_error : Attempt R
  other_error : Attempt R

-- What `request` does: it returns a response, raises CircuitBreakerOpenException, raises the error of
-- the last attempt, or lets another exception through.
pub data Answer (R : Type 0) : Type 0 where
  response : R → Answer R
  breaker_open : Answer R
  failed : Answer R
  uncaught : Answer R

-- `call` is one attempt, `pause` the sleep behind the attempt of that number.
pub record Transport (W R : Type 0) : Type 0 where
  pub clock : W → ℕ
  pub call : W → Attempt R × W
  pub pause : ℕ → W → W

module _ {W R : Type 0} (transport : Transport W R) where
  open transport use {clock, call, pause}

  -- The loop with `n` retries left, behind `attempt` failures.
  pub retry : ℕ → ℕ → CircuitBreaker → W → Answer R × CircuitBreaker × W
  retry zero attempt cb w =
      let (r, w') = call w in
      elim r [
        | answered x ↦ (response x, record_success (clock w') cb, w')
        | request_error ↦ (failed, record_failure (clock w') cb, w')
        | other_error ↦ (uncaught, cb, w')
      ]
  retry (suc n) attempt cb w =
      let (r, w') = call w in
      elim r [
        | answered x ↦ (response x, record_success (clock w') cb, w')
        | request_error ↦ retry n (suc attempt) cb (pause (suc attempt) w')
        | other_error ↦ (uncaught, cb, w')
      ]

  -- `ResilientHttpClient.request`
  pub request : ℕ → CircuitBreaker → W → Answer R × CircuitBreaker × W
  request max_retries cb w =
      let cb' = check_state (clock w) cb in
      elim cb'.state [ open_circuit ↦ (breaker_open, cb', w) | _ ↦ retry max_retries 0 cb' w ]
