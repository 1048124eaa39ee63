-- ===== src/Quotes/Known.antt =====
-- The reference prices of `KNOWN_STOCKS` in backend/services/market_data.py.
use stock_monitor.Base.{List, [], ◌∷◌, if◌then◌else◌}
use stock_monitor.Base.Text.{Text, codes, text_eq}
use stock_monitor.Float.{Float, decimal}

module _ {N : Type 0} ⦃f : Float N⦄ where
  -- `KNOWN_STOCKS`, the prices alone.
  abbrev pub known_prices : List (Text × N)
  known_prices =
      (codes "FTSEMIB.MI", decimal 34850 0)
      ∷ (codes "^GSPC", decimal 5890 0)
      ∷ (codes "^IXIC", decimal 18560 0)
      ∷ (codes "^GDAXI", decimal 19420 0)
      ∷ (codes "EURUSD=X", decimal 10845 4)
      ∷ (codes "BTC-USD", decimal 91200 0)
      ∷ (codes "GC=F", decimal 2740 0)
      ∷ (codes "CL=F", decimal 715 1)
      ∷ (codes "ENEL.MI", decimal 685 2)
      ∷ (codes "ISP.MI", decimal 382 2)
      ∷ (codes "RACE.MI", decimal 428 0)
      ∷ (codes "LDO.MI", decimal 241 1)
      ∷ (codes "G.MI", decimal 264 1)
      ∷ (codes "AAPL", decimal 2325 1)
      ∷ (codes "NVDA", decimal 1428 1)
      ∷ (codes "MSFT", decimal 428 0)
      ∷ (codes "AMZN", decimal 2085 1)
      ∷ (codes "GOOGL", decimal 1782 1)
      ∷ (codes "TSLA", decimal 312 0)
      ∷ []

  abbrev pub price_or : N → Text → List (Text × N) → N
  price_or default t [] = default
  price_or default t ((k, price) ∷ known) = if text_eq k t then price else price_or default t known

  -- `base_price`
  unfoldable pub reference_price : Text → N
  unfolding text_eq
  reference_price t = price_or (decimal 50 0) t known_prices
