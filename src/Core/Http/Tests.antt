-- ===== src/Core/Http/Tests.antt =====
-- core/http.py over a transport that is down; the world is the number of attempts.
use delivery_time_prediction.Prelude.{ℕ, suc, ◌≡◌, refl, arith, ◌⊎◌, ◌≤◌, ◌<◌}
use delivery_time_prediction.Core.Http.{
  CircuitBreaker, open_circuit, new_breaker, request_error, Transport, request, check_state,
  record_failure, retry,
}
use delivery_time_prediction.Core.Http.Breaker.{requests, outage_trips}

abbrev down : Transport ℕ ℕ
down = record { clock = λ w. w; call = λ w. (request_error, suc w); pause = λ n w. w }

abbrev tripped : CircuitBreaker
tripped = record (new_breaker 5 30 0) { state = open_circuit; failure_count = 5 }

outage_trips_example :
    let cb = (requests down (λ w. refl) 3 7 (new_breaker 5 30 0) 0).0 in
    (cb.state ≡ open_circuit)
    × (((7 ≤ 5) × (cb.failure_count ≡ 7)) ⊎ ((5 < 7) × (5 ≤ cb.failure_count)))
outage_trips_example = outage_trips down (λ w. refl) 3 5 30 0 7 0 (omega arith)

-- When its time is up, a tripped circuit lets one request through, and opens again.
probe_fails :
    (request down 3 tripped 40).1 ≡ record tripped { failure_count = 6; last_state_change = 44 }
unfolding request check_state record_failure retry
probe_fails = refl
