-- ===== src/Quotes/Tests.antt =====
-- Prices of a ticker that Yahoo knows, and of one that it does not.
use stock_monitor.Base.{
  ℕ, ◌≤◌, ◌≡◌, refl, Bool, true, false, Option, none, some, List, [], ◌∷◌, if◌then◌else◌, ◌⊎◌,
  length, map, All, ltb, arith,
}
use stock_monitor.Base.Text.{Text, codes, text_eq, is_empty}
use stock_monitor.Base.Int.{ℤ}
use stock_monitor.Float.Fixed.{fixed}
use stock_monitor.Portfolio.Samples.{units}
use stock_monitor.Analytics.Caches.{max_entries}
use stock_monitor.Quotes.{Bar, World}
use stock_monitor.Quotes.Store.{PriceCaches, clean, fetch_current_price, fetch_batch_prices}
use stock_monitor.Quotes.Caching.{IsServed}
use stock_monitor.Quotes.Caching.Batch.{IsAnswered}
use stock_monitor.Quotes.Caching.Served.{Request, ask, ask_batch, caches_after, prices-IsServed}

abbrev bar : ℕ → Bar ℤ
bar close = record {
  open_price = units close;
  high = units close;
  low = units close;
  close = units close;
  volume = some 100;
}

-- Two days of ENEL.MI; from second 30 on, nothing is heard of Yahoo.
abbrev market : ℕ → World ℤ
market now = record {
  history = λ t.
      if text_eq t (codes "ENEL.MI")
      then (if ltb now 30 then some (bar 4 ∷ bar 5 ∷ []) else none)
      else none;
  fast_info = λ t. none;
  frame = λ t.
      if text_eq t (codes "ENEL.MI")
      then some (record {
        closes = units 4 ∷ units 5 ∷ [];
        opens = none;
        highs = none;
        lows = none;
        volumes = none;
      })
      else none;
  seed = λ t. 240;
}

abbrev nothing : PriceCaches ℤ
nothing = record { fresh = []; fallback = [] }

genuine_run :
    let q = (fetch_current_price market (codes "ENEL.MI") 20 21 nothing).0 in
    (q.close ≡ units 5) × (q.change_percent ≡ units 25) × (q.stale ≡ false)
unfolding fetch_current_price text_eq
genuine_run = (refl, refl, refl)

synthetic_run :
    let q = (fetch_current_price market (codes "ENI.MI") 20 21 nothing).0 in
    (q.close ≡ units 50) × (q.stale ≡ true)
unfolding fetch_current_price text_eq
synthetic_run = (refl, refl)

-- A blank ticker is left out, and one in lower case is asked for in upper case.
batch_run :
    map {B = Text × Bool}
      (λ (k, q). (k, q.stale))
      (fetch_batch_prices market
        (some (codes " enel.mi") ∷ none ∷ some (codes "ENI.MI") ∷ [])
        20
        21
        nothing).0
    ≡ (codes "ENEL.MI", false) ∷ (codes "ENI.MI", true) ∷ []
unfolding fetch_batch_prices text_eq
batch_run = refl

abbrev past : List Request
past = ask (codes "ENEL.MI") 20 21 ∷ ask_batch (some (codes "ENI.MI") ∷ []) 10 12 ∷ []

abbrev tickers : List (Option Text)
tickers = some (codes "ENEL.MI") ∷ some (codes "ENI.MI") ∷ []

prices-IsServed_example :
    let caches = caches_after market past in
    let batch = (fetch_batch_prices market tickers 40 41 caches).0 in
    (length caches.fresh ≤ max_entries)
    × (length caches.fallback ≤ max_entries)
    × IsServed market 40 41
        (codes "ENEL.MI")
        (fetch_current_price market (codes "ENEL.MI") 40 41 caches).0
    × All (λ e. IsServed market 40 41 e.0 e.1) batch
    × All (λ t. (is_empty (clean t) ≡ true) ⊎ IsAnswered batch (clean t)) tickers
prices-IsServed_example =
    prices-IsServed market past (codes "ENEL.MI") tickers 40 41 (omega arith, (omega arith, tt))
