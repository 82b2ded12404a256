-- ===== src/Core/RateLimiter.antt =====
-- core/rate_limiter.py: the sliding window. Time is counted in ticks of a clock with `second` ticks
-- a second, on which sums and differences are exact; handlers of one process take turns.
pub mod Window
mod Tests
use delivery_time_prediction.Prelude.{
  ◌||◌, ℕ, ◌+◌, ◌-◌, ◌*◌, ◌/◌, String, Bool, true, false, Option, none, some, List, [], ◌∷◌, ◌++◌,
  ◌==◌, length, select, concat, if◌then◌else◌, ltb, leb,
}
use delivery_time_prediction.Prelude.Dict.{Dict, lookup, insert}

pub record SlidingWindowRateLimiter : Type 0 where
  pub max_requests : ℕ
  pub window_seconds : ℕ
  pub requests : Dict (List ℕ)

-- What `check` returns: (allowed, limit, remaining, reset_seconds).
pub record CheckResult : Type 0 where
  pub allowed : Bool
  pub limit : ℕ
  pub remaining : ℕ
  pub reset_seconds : ℕ

-- `self._requests[key]`, which is empty for a key that is not there.
abbrev pub timestamps : String → SlidingWindowRateLimiter → List ℕ
timestamps key l = elim (lookup key l.requests) [ none ↦ [] | some ts ↦ ts ]

abbrev pub set_timestamps : String → List ℕ → SlidingWindowRateLimiter → SlidingWindowRateLimiter
set_timestamps key ts l = record l { requests = insert key ts l.requests }

module _ (second : ℕ) where
  -- The length of the window in ticks.
  abbrev pub window : SlidingWindowRateLimiter → ℕ
  window l = l.window_seconds * second

  -- `t > now - self.window_seconds`
  abbrev pub is_recent : SlidingWindowRateLimiter → ℕ → ℕ → Bool
  is_recent l now t = ltb now (t + window l)

  -- `_cleanup`
  pub cleanup : String → ℕ → SlidingWindowRateLimiter → SlidingWindowRateLimiter
  cleanup key now l = set_timestamps key (select (is_recent l now) (timestamps key l)) l

  abbrev head_or : ℕ → List ℕ → ℕ
  head_or d [] = d
  head_or d (t ∷ ts) = t

  pub check : String → ℕ → SlidingWindowRateLimiter → CheckResult × SlidingWindowRateLimiter
  check key now l0 =
      let l = cleanup key now l0 in
      let current_count = length (timestamps key l) in
      if leb l.max_requests current_count
      then (
        record {
          allowed = false;
          limit = l.max_requests;
          remaining = 0;
          reset_seconds = (head_or now (timestamps key l) + window l - now) / second + 1;
        },
        l,
      )
      else (
        record {
          allowed = true;
          limit = l.max_requests;
          remaining = l.max_requests - current_count - 1;
          reset_seconds = l.window_seconds;
        },
        set_timestamps key (timestamps key l ++ now ∷ []) l,
      )

-- `get_rate_limit_key`: the user, if there is one; else the first address of X-Forwarded-For, if
-- that is not empty; else the client's. `first_address` is `.split(",")[0].strip()`.
get_rate_limit_key : (String → String) → Option String → Option String → Option String → String
get_rate_limit_key first_address (some user_id) forwarded host = concat ("user:" ∷ user_id ∷ [])
get_rate_limit_key first_address none none host =
    concat ("ip:" ∷ elim host [ none ↦ "unknown" | some h ↦ h ] ∷ [])
get_rate_limit_key first_address none (some f) host = concat (
    "ip:" ∷ (if f == "" then elim host [ none ↦ "unknown" | some h ↦ h ] else first_address f) ∷ [])

-- What `RateLimitMiddleware.dispatch` does with a request: it hands it on as it is, or with the three
-- headers, or answers 429.
pub data Dispatch : Type 0 where
  unlimited : Dispatch
  handed_on : (limit remaining reset : ℕ) → Dispatch
  too_many : (limit reset : ℕ) → Dispatch

pub dispatch :
    ℕ → String → String → ℕ → SlidingWindowRateLimiter → Dispatch × SlidingWindowRateLimiter
dispatch second path key now l =
    if path == "/health" || (path == "/metrics" || path == "/ready")
    then (unlimited, l)
    else (let (r, l') = check second key now l in
        (
          if r.allowed
              then handed_on r.limit r.remaining r.reset_seconds
              else too_many r.limit r.reset_seconds,
          l',
        ))
