-- ===== src/RateLimit.antt =====
-- The limiter of the AI calls in backend/routers/advice.py: `_prune_rate_limiter` and
-- `_check_rate_limit` over the dictionary `_CALL_TIMESTAMPS`. Times are numbers; the clock of a
-- process does not go back. The client's key is a number here, since it is only compared.
pub mod Window
pub mod Trace
pub mod Ideal
mod Tests
use stock_monitor.Base.{
  ℕ, ◌-◌, Bool, true, false, not, ◌||◌, Option, none, some, List, [], ◌∷◌, ◌++◌, ltb, leb, ◌==◌,
  if◌then◌else◌, filter, length,
}
use stock_monitor.Http.{Reply, ok, fail}

-- `RATE_LIMIT_MAX_CALLS`, `RATE_LIMIT_WINDOW_SECONDS`
abbrev pub max_calls : ℕ
max_calls = 12

abbrev pub window : ℕ
window = 60

abbrev pub Calls : Type 0
Calls = List (ℕ × List ℕ)

-- The list at a key; a `defaultdict` has the empty list at a missing one.
unfoldable pub get : ℕ → Calls → List ℕ
get k [] = []
get k ((j, ts) ∷ d) = if j == k then ts else get k d

unfoldable pub put : ℕ → List ℕ → Calls → Calls
put k ts [] = (k, ts) ∷ []
put k ts ((j, us) ∷ d) = if j == k then (j, ts) ∷ d else (j, us) ∷ put k ts d

-- `not timestamps or now - timestamps[-1] >= window`
unfoldable pub is_stale : ℕ → List ℕ → Bool
is_stale now [] = true
is_stale now (t ∷ []) = leb window (now - t)
is_stale now (t ∷ u ∷ ts) = is_stale now (u ∷ ts)

-- `_prune_rate_limiter`
unfoldable pub prune : ℕ → Calls → Calls
unfolding is_stale
prune now = filter (λ (k, ts). not (is_stale now ts))

abbrev pub is_recent : ℕ → ℕ → Bool
is_recent now t = ltb (now - t) window

abbrev pub recent : ℕ → List ℕ → List ℕ
recent now = filter (is_recent now)

-- `_check_rate_limit`: the call is admitted, or the answer is 429.
unfoldable pub check_rate_limit : ℕ → ℕ → Calls → Reply (Unit {0}) × Calls
unfolding get put prune
check_rate_limit client now calls =
    let pruned = prune now calls in
    let ts = recent now (get client pruned) in
    if leb max_calls (length ts)
    then (fail 429, put client ts pruned)
    else (ok tt, put client (ts ++ now ∷ []) pruned)
