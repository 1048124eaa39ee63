-- ===== src/Quotes/Store.antt =====
-- The caches of prices of backend/services/market_data.py, and the requests that read and fill them.
-- `_cache_put` does what `_cache_store` of the analytics does, whose model it shares.
use stock_monitor.Base.{ℕ, true, false, Option, none, some, List, [], ◌∷◌, ◌++◌, if◌then◌else◌}
use stock_monitor.Base.Text.{Text, text_eq, is_empty, strip, upper}
use stock_monitor.Float.{Float}
use stock_monitor.Analytics.Caches.{Cache, cache_store, cached}
use stock_monitor.Quotes.{Payload, World, sync_fetch, batch_quote}

-- The two caches.
pub record PriceCaches (N : Type 0) : Type 0 where
  pub fresh : Cache (Payload N)
  pub fallback : Cache (Payload N)

-- `CACHE_TTL`, `_FALLBACK_TTL`
abbrev pub cache_ttl : ℕ
cache_ttl = 60

abbrev pub fallback_ttl : ℕ
fallback_ttl = 10

-- `(t or '').strip().upper()`
unfoldable pub clean : Option Text → Text
unfolding strip upper
clean none = []
clean (some t) = upper (strip t)

-- `results[tk] = pdata`
abbrev pub put_price : {A : Type 0} → Text → A → List (Text × A) → List (Text × A)
put_price key q [] = (key, q) ∷ []
put_price key q ((k, old) ∷ results) =
    if text_eq k key then (k, q) ∷ results else (k, old) ∷ put_price key q results

module _ {N : Type 0} where
  -- A price goes to the cache of its kind.
  unfoldable pub keep : ℕ → Text → Payload N → PriceCaches N → PriceCaches N
  unfolding cache_store
  keep now ticker q caches =
      if q.stale
      then record caches { fallback = cache_store ticker (q, now) caches.fallback }
      else record caches { fresh = cache_store ticker (q, now) caches.fresh }

  -- What the caches answer at a time.
  unfoldable pub known_price : ℕ → Text → PriceCaches N → Option (Payload N)
  unfolding cached
  known_price now ticker caches = elim (cached cache_ttl now ticker caches.fresh) [
    | some q ↦ some q
    | none ↦ cached fallback_ttl now ticker caches.fallback
  ]

  -- The loop of `fetch_batch_prices` over the tickers: the results so far, and what is missing.
  unfoldable pub scan :
      ℕ
      → PriceCaches N
      → List (Option Text)
      → List (Text × Payload N)
      → List Text
      → List (Text × Payload N) × List Text
  unfolding known_price clean
  scan now caches [] results missing = (results, missing)
  scan now caches (t ∷ ts) results missing = elim (is_empty (clean t)) [
    | true ↦ scan now caches ts results missing
    | false ↦ elim (known_price now (clean t) caches) [
      | some q ↦ scan now caches ts (put_price (clean t) q results) missing
      | none ↦ scan now caches ts results (missing ++ clean t ∷ [])
    ]
  ]

  -- The loop over what was downloaded.
  unfoldable pub keep_all :
      ℕ
      → List (Text × Payload N)
      → List (Text × Payload N) × PriceCaches N
      → List (Text × Payload N) × PriceCaches N
  unfolding keep
  keep_all now [] kept = kept
  keep_all now ((t, q) ∷ downloaded) (results, caches) =
      keep_all now downloaded (put_price t q results, keep now t q caches)

module _ {N : Type 0} ⦃f : Float N⦄ where
  -- `fetch_current_price`, asked at one time, with Yahoo's answer at another.
  unfoldable pub fetch_current_price :
      (ℕ → World N) → Text → ℕ → ℕ → PriceCaches N → Payload N × PriceCaches N
  unfolding known_price sync_fetch keep
  fetch_current_price world ticker now done caches = elim (known_price now ticker caches) [
    | some q ↦ (q, caches)
    | none ↦ let q = sync_fetch (world done) ticker in (q, keep done ticker q caches)
  ]

  -- `batch_res`
  unfoldable pub fetch_batch :
      World N → List Text → List (Text × Payload N) → List (Text × Payload N)
  unfolding batch_quote
  fetch_batch world [] out = out
  fetch_batch world (t ∷ ts) out = fetch_batch world ts (put_price t (batch_quote world t) out)

  -- `fetch_batch_prices`
  unfoldable pub fetch_batch_prices :
      (ℕ → World N)
      → List (Option Text)
      → ℕ
      → ℕ
      → PriceCaches N
      → List (Text × Payload N) × PriceCaches N
  unfolding scan keep_all fetch_batch
  fetch_batch_prices world tickers now done caches =
      let (results, missing) = scan now caches tickers [] [] in
      elim missing [
        | [] ↦ (results, caches)
        | t ∷ ts ↦ keep_all done (fetch_batch (world done) (t ∷ ts) []) (results, caches)
      ]
