-- ===== src/Core/RateLimiter/Tests.antt =====
-- core/rate_limiter.py with two requests a minute.
use delivery_time_prediction.Prelude.{
  ℕ, String, ◌≡◌, ◌≤◌, refl, List, [], ◌∷◌, length, select, arith,
}
use delivery_time_prediction.Prelude.Dict.{lookup, insert}
use delivery_time_prediction.Core.RateLimiter.{SlidingWindowRateLimiter, timestamps, check, cleanup}
use delivery_time_prediction.Core.RateLimiter.Window.{in_window, admitted, InOrder, check_limit}

abbrev two_a_minute : SlidingWindowRateLimiter
two_a_minute = record { max_requests = 2; window_seconds = 60; requests = [] }

abbrev calls : List (String × ℕ)
calls = ("ip:1", 5) ∷ ("ip:1", 10) ∷ ("ip:2", 11) ∷ ("ip:1", 12) ∷ ("ip:1", 66) ∷ []

calls-InOrder : InOrder 1 0 calls
unfolding InOrder
calls-InOrder = (omega arith, (omega arith, (omega arith, (omega arith, (omega arith, tt)))))

known_empty : timestamps "ip:1" two_a_minute ≡ []
unfolding lookup
known_empty = refl

-- The third call of the first client is refused, the fourth is admitted again.
first_client : admitted 1 "ip:1" calls two_a_minute ≡ 5 ∷ 10 ∷ 66 ∷ []
unfolding admitted check cleanup lookup insert
first_client = refl

check_limit_example : length (select (in_window 60 5) (admitted 1 "ip:1" calls two_a_minute)) ≤ 2
check_limit_example =
    check_limit 1 "ip:1" calls two_a_minute (omega arith) known_empty calls-InOrder 5
