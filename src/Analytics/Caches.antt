-- ===== src/Analytics/Caches.antt =====
-- The caches of backend/services/analytics.py: `_cache_store` with its limit, the time that an entry
-- stays good, and `invalidate_user_caches`. A cache is a dict in the order of entry.
pub mod Keys
pub mod Entries
pub mod History
mod Tests
use stock_monitor.Base.{
  ℕ, suc, ◌-◌, Bool, true, false, not, ◌||◌, Option, none, some, List, [], ◌∷◌, ◌++◌, ltb,
  if◌then◌else◌, filter, length,
}
use stock_monitor.Base.Text.{Text, codes, text_eq, starts_with}
use stock_monitor.Base.Digits.{str}

-- A result with the time of its computation, at each key.
abbrev pub Cache : Type 0 → Type 0
Cache A = List (Text × (A × ℕ))

-- `_ANALYTICS_CACHE_MAX_ENTRIES`, `_SERIES_CACHE_TTL`, `_RISK_CACHE_TTL`
abbrev pub max_entries : ℕ
max_entries = 256

abbrev pub series_cache_ttl : ℕ
series_cache_ttl = 120

abbrev pub risk_cache_ttl : ℕ
risk_cache_ttl = 300

-- `f"{user_id}"`
unfoldable pub user_str : Option ℕ → Text
unfolding str
user_str none = codes "None"
user_str (some id) = str id

abbrev pub series_prefix : Option ℕ → Text
series_prefix user = codes "series:" ++ (user_str user ++ codes ":")

abbrev pub risk_prefix : Option ℕ → Text
risk_prefix user = codes "risk:" ++ (user_str user ++ codes ":")

-- `f"series:{user_id}:{days}"`
abbrev pub series_key : Option ℕ → ℕ → Text
series_key user days = codes "series:" ++ (user_str user ++ (codes ":" ++ str days))

abbrev pub risk_key : Option ℕ → ℕ → Text
risk_key user days = codes "risk:" ++ (user_str user ++ (codes ":" ++ str days))

-- `k.startswith(prefixes)`
abbrev pub is_stale_key : Option ℕ → Text → Bool
is_stale_key user k = starts_with (series_prefix user) k || starts_with (risk_prefix user) k

module _ {A : Type 0} where
  -- `cache.get(key)`
  abbrev pub lookup : Text → Cache A → Option (A × ℕ)
  lookup key [] = none
  lookup key ((k, v) ∷ cache) = if text_eq k key then some v else lookup key cache

  -- `cache[key] = value`: a key that is present keeps its place.
  abbrev pub put : Text → A × ℕ → Cache A → Cache A
  put key v [] = (key, v) ∷ []
  put key v ((k, w) ∷ cache) = if text_eq k key then (k, v) ∷ cache else (k, w) ∷ put key v cache

  -- `while len(cache) > max: cache.pop(next(iter(cache)))`
  abbrev pub trim : ℕ → Cache A → Cache A
  trim most [] = []
  trim most (e ∷ cache) = if ltb most (length (e ∷ cache)) then trim most cache else e ∷ cache

  -- `_cache_store`
  unfoldable pub cache_store : Text → A × ℕ → Cache A → Cache A
  cache_store key v cache = trim max_entries (put key v cache)

  -- `cached and now_ts - cached[1] < ttl`
  unfoldable pub cached : ℕ → ℕ → Text → Cache A → Option A
  cached ttl now key cache = elim (lookup key cache) [
    | none ↦ none
    | some (v, t) ↦ if ltb (now - t) ttl then some v else none
  ]

  -- One cache in the loop of `invalidate_user_caches`.
  unfoldable pub invalidate : Option ℕ → Cache A → Cache A
  unfolding user_str starts_with
  invalidate user = filter (λ (k, v). not (is_stale_key user k))

pub record Caches (A B : Type 0) : Type 0 where
  pub series : Cache A
  pub risk : Cache B

module _ {A B : Type 0} where
  -- `invalidate_user_caches`
  unfoldable pub invalidate_user_caches : Option ℕ → Caches A B → Caches A B
  unfolding invalidate
  invalidate_user_caches user caches = record {
    series = invalidate user caches.series;
    risk = invalidate user caches.risk;
  }

  -- The start of `build_portfolio_daily_series`: a result that is good at the time is answered.
  unfoldable pub look_up_series : Option ℕ → ℕ → ℕ → Caches A B → Option A
  unfolding cached
  look_up_series user days now caches =
      cached series_cache_ttl now (series_key user days) caches.series

  -- Its end, after the awaits of the computation: the result is kept with the time of the start.
  unfoldable pub store_series : Option ℕ → ℕ → ℕ → A → Caches A B → Caches A B
  unfolding cache_store
  store_series user days started answer caches = record caches {
    series = cache_store (series_key user days) (answer, started) caches.series;
  }

  -- The start and the end of `compute_risk_metrics`.
  unfoldable pub look_up_risk : Option ℕ → ℕ → ℕ → Caches A B → Option B
  unfolding cached
  look_up_risk user days now caches = cached risk_cache_ttl now (risk_key user days) caches.risk

  unfoldable pub store_risk : Option ℕ → ℕ → ℕ → B → Caches A B → Caches A B
  unfolding cache_store
  store_risk user days started answer caches = record caches {
    risk = cache_store (risk_key user days) (answer, started) caches.risk;
  }
