-- ===== src/Core/Http/Breaker.antt =====
-- core/http.py: what the circuit breaker and the retries promise.
use delivery_time_prediction.Prelude.{
  ℕ, zero, suc, ◌+◌, ◌≤◌, ◌<◌, ◌≡◌, refl, arith, if◌then◌else◌, leb, ap, ◌∙◌, sym, ◌⊎◌, inl, inr,
  ◌-◌, Bool-cases, ltb, true,
}
use delivery_time_prediction.Core.Http.{
  closed, open_circuit, CircuitBreaker, new_breaker, check_state, record_failure, request_error,
  breaker_open, Transport, retry, request,
}

module _ {W R : Type 0} (transport : Transport W R) where
  -- While a circuit is open and its time is not up, a request is refused without a call, and neither
  -- the breaker nor the world changes.
  pub request-blocked :
      (max_retries : ℕ) (cb : CircuitBreaker) (w : W)
      → cb.state ≡ open_circuit
      → transport.clock w ≤ cb.last_state_change + cb.recovery_timeout
      → request transport max_retries cb w ≡ (breaker_open, cb, w)
  unfolding request check_state
  request-blocked max_retries cb w o h = ground arith

  retry-calls :
      (calls : W → ℕ)
      → ((w : W) → calls (transport.call w).1 ≡ suc (calls w))
      → ((n : ℕ) (w : W) → calls (transport.pause n w) ≡ calls w)
      → (n attempt : ℕ) (cb : CircuitBreaker) (w : W)
      → calls (retry transport n attempt cb w).2 ≤ suc n + calls w
  unfolding retry
  retry-calls calls one none_more zero attempt cb w = ground (arith, one w)
  retry-calls calls one none_more (suc n) attempt cb w =
      let w' = (transport.call w).1 in
      ground (
        arith,
        one w,
        none_more (suc attempt) w',
        retry-calls calls one none_more n (suc attempt) cb (transport.pause (suc attempt) w'),
      )

  -- Where `calls` counts the attempts and no pause makes one, a request makes at most one attempt
  -- more than the retries that it is allowed.
  pub request-calls :
      (calls : W → ℕ)
      → ((w : W) → calls (transport.call w).1 ≡ suc (calls w))
      → ((n : ℕ) (w : W) → calls (transport.pause n w) ≡ calls w)
      → (max_retries : ℕ) (cb : CircuitBreaker) (w : W)
      → calls (request transport max_retries cb w).2 ≤ suc max_retries + calls w
  unfolding request check_state
  request-calls calls one none_more n cb w =
      ground (arith, retry-calls calls one none_more n 0 (check_state (transport.clock w) cb) w)

  module _ (outage : (w : W) → (transport.call w).0 ≡ request_error) where
    retry-outage :
        (n attempt : ℕ) (cb : CircuitBreaker) (w : W)
        → (retry transport n attempt cb w).1
          ≡ record_failure (transport.clock (retry transport n attempt cb w).2) cb
    unfolding retry
    retry-outage zero attempt cb w = ground (arith, outage w)
    retry-outage (suc n) attempt cb w = ground (
      arith,
      outage w,
      retry-outage n (suc attempt) cb (transport.pause (suc attempt) (transport.call w).1),
    )

    -- A request on a closed circuit counts one failure.
    request-outage :
        (n : ℕ) (cb : CircuitBreaker) (w : W)
        → cb.state ≡ closed
        → (request transport n cb w).1
          ≡ record_failure (transport.clock (request transport n cb w).2) cb
    unfolding request check_state
    request-outage n cb w c = ground (arith, retry-outage n 0 cb w)

    -- Request after request.
    pub requests : ℕ → ℕ → CircuitBreaker → W → CircuitBreaker × W
    requests n zero cb w = (cb, w)
    requests n (suc m) cb w = let (r, cb', w') = request transport n cb w in requests n m cb' w'

    requests-count :
        (n m : ℕ) (cb : CircuitBreaker) (w : W)
        → cb.state ≡ closed
        → cb.failure_count < cb.failure_threshold
        → cb.failure_count + m ≤ cb.failure_threshold
        → ((requests n m cb w).0.failure_count ≡ cb.failure_count + m)
          × ((requests n m cb w).0.state
              ≡ (if leb cb.failure_threshold (cb.failure_count + m) then open_circuit else closed))
    unfolding requests record_failure
    requests-count n zero cb w c lt le = ground arith
    requests-count n (suc zero) cb w c lt le = ground (arith, request-outage n cb w c)
    requests-count n (suc (suc m)) cb w c lt le = ground (
      arith,
      request-outage n cb w c,
      requests-count n (suc m) (request transport n cb w).1 (request transport n cb w).2,
    )

    -- A request on an open circuit leaves it open: it is refused, or it is the trial that fails.
    request_open :
        (n : ℕ) (cb : CircuitBreaker) (w : W)
        → cb.state ≡ open_circuit
        → ((request transport n cb w).1.state ≡ open_circuit)
          × (cb.failure_count ≤ (request transport n cb w).1.failure_count)
    unfolding request check_state record_failure
    request_open n cb w o = ground (arith, retry-outage n 0 (check_state (transport.clock w) cb) w)

    requests_open :
        (n m : ℕ) (cb : CircuitBreaker) (w : W)
        → cb.state ≡ open_circuit
        → ((requests n m cb w).0.state ≡ open_circuit)
          × (cb.failure_count ≤ (requests n m cb w).0.failure_count)
    unfolding requests
    requests_open n zero cb w o = (o, omega arith)
    requests_open n (suc m) cb w o =
        let (o', more) = request_open n cb w o in
        let (o'', more') =
          requests_open n m (request transport n cb w).1 (request transport n cb w).2 o' in
        (o'', omega (arith, more, more'))

    requests-plus :
        (n k m : ℕ) (cb : CircuitBreaker) (w : W)
        → requests n (k + m) cb w ≡ requests n m (requests n k cb w).0 (requests n k cb w).1
    unfolding requests
    requests-plus n zero m cb w = let e : 0 + m ≡ m = omega arith in ap (λ k. requests n k cb w) e
    requests-plus n (suc k) m cb w =
        let e : suc k + m ≡ suc (k + m) = omega arith in
        ap (λ k'. requests n k' cb w) e
        ∙ requests-plus n k m (request transport n cb w).1 (request transport n cb w).2

-- In an outage, where every attempt fails with a RequestError or HTTPStatusError, a new circuit with
-- a positive threshold counts the requests up to that threshold, and it is closed until then. After
-- any number of requests from the threshold on, however much time passes, it is open, and its count
-- is not below the threshold.
pub outage_trips :
    {W R : Type 0} (transport : Transport W R)
    (outage : (w : W) → (transport.call w).0 ≡ request_error)
    (max_retries threshold timeout now m : ℕ) (w : W)
    → 0 < threshold
    → let cb = (requests transport outage max_retries m (new_breaker threshold timeout now) w).0 in
      (cb.state ≡ (if leb threshold m then open_circuit else closed))
      × (((m ≤ threshold) × (cb.failure_count ≡ m))
          ⊎ ((threshold < m) × (threshold ≤ cb.failure_count)))
outage_trips transport outage n threshold timeout now m w pos =
    let new = new_breaker threshold timeout now in
    let counted = requests-count transport outage n in
    elim (Bool-cases (ltb threshold m)) [
      | inr e ↦
          let (c, o) = counted m new w refl pos (ground (arith, e)) in
          (ground (arith, o), inl (ground (arith, e), omega (arith, c)))
      | inl e ↦
          let at = requests transport outage n threshold new w in
          let (c, o) = counted threshold new w refl pos (omega arith) in
          let is_open : at.0.state ≡ open_circuit = ground (arith, o) in
          let split : threshold + (m - threshold) ≡ m = ground (arith, e) in
          let (still, more) = requests_open transport outage n (m - threshold) at.0 at.1 is_open in
          let at_m =
            ap (λ k. requests transport outage n k new w) (sym split)
            ∙ requests-plus transport outage n threshold (m - threshold) new w in
          let reached : leb threshold m ≡ true = ground (arith, e) in
          rw (at_m, reached) (still, inr (ground (arith, e), omega (arith, c, more)))
    ]
