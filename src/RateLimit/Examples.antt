-- ===== src/RateLimit/Examples.antt =====
-- The theorems on the rate limiter at concrete inputs.
use net_conduit.Base.{ℕ, ◌+◌, ◌*◌, ◌≤◌, List, [], ◌∷◌, arith}
use net_conduit.RateLimit.Bound.{acquire_all, acquire_all-le, fresh, duration}

-- Three calls within two seconds of ten ticks, of a limiter of one message and fifty bytes a second.
abbrev three_calls : List (ℕ × ℕ)
three_calls = (0, 20) ∷ (5, 10) ∷ (15, 30) ∷ []

acquire_all-le_example :
    ((acquire_all 10 three_calls 100 (fresh 10 1 50 100)).count * 10
      ≤ 1 * 10 + duration 10 three_calls * 1)
    × ((acquire_all 10 three_calls 100 (fresh 10 1 50 100)).bytes * 10
        ≤ 50 * 10 + duration 10 three_calls * 50)
acquire_all-le_example = acquire_all-le 10 1 50 100 three_calls (omega arith) (omega arith)
