-- ===== src/Quotes/Caching/Served.antt =====
-- What the requests for prices answer after any others.
use stock_monitor.Base.{ℕ, ◌≤◌, ◌≡◌, true, Option, List, [], ◌∷◌, arith, ◌⊎◌, length, All}
use stock_monitor.Base.Text.{Text, is_empty}
use stock_monitor.Float.{Float}
use stock_monitor.Analytics.Caches.{max_entries}
use stock_monitor.Quotes.{World}
use stock_monitor.Quotes.Store.{PriceCaches, clean, fetch_current_price, fetch_batch_prices}
use stock_monitor.Quotes.Caching.{
  IsSound, IsServed, fetch_current_price-IsServed, fetch_current_price-IsSound,
}
use stock_monitor.Quotes.Caching.Batch.{IsAnswered}
use stock_monitor.Quotes.Caching.Answers.{fetch_batch_prices-IsServed, fetch_batch_prices-IsSound}

-- A request with the time at which it reads the caches, and the time of Yahoo's answer.
pub data Request : Type 0 where
  ask : Text → ℕ → ℕ → Request
  ask_batch : List (Option Text) → ℕ → ℕ → Request

module _ {N : Type 0} ⦃f : Float N⦄ (world : ℕ → World N) where
  -- The caches after some requests, the latest first.
  unfoldable pub caches_after : List Request → PriceCaches N
  unfolding fetch_current_price fetch_batch_prices
  caches_after [] = record { fresh = []; fallback = [] }
  caches_after (ask k now done ∷ past) =
      (fetch_current_price world k now done (caches_after past)).1
  caches_after (ask_batch ts now done ∷ past) =
      (fetch_batch_prices world ts now done (caches_after past)).1

  -- Yahoo has answered a request by the time.
  abbrev pub IsDone : ℕ → Request → Type 0
  IsDone later (ask k now done) = done ≤ later
  IsDone later (ask_batch ts now done) = done ≤ later

  caches_after-IsSound :
      (later : ℕ) (past : List Request)
      → All (IsDone later) past
      → IsSound world later (caches_after past)
  unfolding caches_after
  caches_after-IsSound later [] d = (omega arith, omega arith, tt, tt)
  caches_after-IsSound later (ask k now done ∷ past) d =
      fetch_current_price-IsSound world later k now done (caches_after past) d.0
        (caches_after-IsSound later past d.1)
  caches_after-IsSound later (ask_batch ts now done ∷ past) d =
      fetch_batch_prices-IsSound world later ts now done (caches_after past) d.0
        (caches_after-IsSound later past d.1)

  -- After any requests for prices that were done by a time, each of the two caches has at most 256
  -- entries. A price answered at that time, alone or in a batch, is made for its ticker when the
  -- request is done, from an answer of Yahoo or by the fallback; or it was made before the time: from
  -- an answer of Yahoo, less than 60 seconds before, or by the fallback, less than 10 seconds before.
  -- A batch answers every ticker that is not blank.
  pub prices-IsServed :
      (past : List Request) (ticker : Text) (tickers : List (Option Text)) (now done : ℕ)
      → All (IsDone now) past
      → let caches = caches_after past in
        let batch = (fetch_batch_prices world tickers now done caches).0 in
        (length caches.fresh ≤ max_entries)
        × (length caches.fallback ≤ max_entries)
        × IsServed world now done ticker (fetch_current_price world ticker now done caches).0
        × All (λ e. IsServed world now done e.0 e.1) batch
        × All (λ t. (is_empty (clean t) ≡ true) ⊎ IsAnswered batch (clean t)) tickers
  prices-IsServed past ticker tickers now done d =
      let sound = caches_after-IsSound now past d in
      let batch = fetch_batch_prices-IsServed world tickers now done (caches_after past) sound in
      (
        sound.0,
        sound.1,
        fetch_current_price-IsServed world ticker now done (caches_after past) sound,
        batch.0,
        batch.1,
      )
