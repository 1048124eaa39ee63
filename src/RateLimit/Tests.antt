-- ===== src/RateLimit/Tests.antt =====
-- Runs of the limiter, and the theorems at a concrete sequence of calls.
use stock_monitor.Base.{◌≤◌, ◌≡◌, refl, List, [], ◌∷◌, arith, length}
use stock_monitor.RateLimit.{max_calls, recent}
use stock_monitor.RateLimit.Trace.{Call, admitted, ideal}
use stock_monitor.RateLimit.Ideal.{admitted-eq-ideal, admitted_bounded}

abbrev burst : List Call
burst =
    (1, 100)
    ∷ (1, 101)
    ∷ (1, 102)
    ∷ (1, 103)
    ∷ (1, 104)
    ∷ (1, 105)
    ∷ (2, 105)
    ∷ (1, 106)
    ∷ (1, 107)
    ∷ (1, 108)
    ∷ (1, 109)
    ∷ (1, 110)
    ∷ (1, 111)
    ∷ (1, 112)
    ∷ (1, 160)
    ∷ []

-- The thirteenth call, at 112, is refused, and the one at 160 goes through.
burst_runs :
    admitted 1 burst []
    ≡ 100 ∷ 101 ∷ 102 ∷ 103 ∷ 104 ∷ 105 ∷ 106 ∷ 107 ∷ 108 ∷ 109 ∷ 110 ∷ 111 ∷ 160 ∷ []
unfolding admitted stock_monitor.RateLimit.check_rate_limit
burst_runs = refl

admitted-eq-ideal_example : admitted 1 burst [] ≡ ideal 1 burst []
admitted-eq-ideal_example = admitted-eq-ideal 1 160 burst (omega arith)

admitted_bounded_example : length (recent 161 (admitted 1 burst [])) ≤ max_calls
admitted_bounded_example = admitted_bounded 1 161 burst (omega arith)
