-- ===== src/Analytics/Series/Tests.antt =====
-- Series of small portfolios, and the description at one.
use stock_monitor.Base.{◌≡◌, ℕ, refl, true, Option, none, some, List, [], ◌∷◌, ◌-◌, map, suc}
use stock_monitor.Base.Text.{Text, codes}
use stock_monitor.Base.Int.{ℤ}
use stock_monitor.Float.{zero}
use stock_monitor.Float.Fixed.{fixed}
use stock_monitor.Portfolio.Row.{Row}
use stock_monitor.Portfolio.Samples.{units}
use stock_monitor.Portfolio.Valuation.{Price}
use stock_monitor.Analytics.Series.{Candle, Point, daily_closes, compute_daily_series}
use stock_monitor.Analytics.Series.Values.{described, daily_series_described}

abbrev row : ℕ → ℕ → Row ℤ
row stock quantity = record {
  id = stock;
  stock_id = stock;
  ticker = codes "ENEL.MI";
  name = codes "Enel";
  market = codes "IT";
  currency = codes "EUR";
  quantity = units quantity;
  avg_purchase_price = units 5;
  current_price = units 6;
  previous_close = none;
  price_stale = true;
  total_value = zero;
  total_invested = zero;
  total_value_eur = zero;
  total_invested_eur = zero;
  fx_rate_to_eur = units 1;
  pnl_absolute = zero;
  pnl_percent = zero;
  daily_pnl = none;
  purchase_date = none;
  notes = [];
}

abbrev price : ℕ → ℕ → ℕ → Price ℤ
price stock time close = record { stock_id = stock; timestamp = time; close = some (units close) }

abbrev candle : ℕ → ℕ → Candle ℤ
candle day close = record { time = some day; close = some (units close) }

abbrev points : List (Point ℤ) → List (ℕ × ℤ)
points = map (λ p. (p.date, p.value))

-- Stock 1 has two prices on day 101, of which the later counts; stock 2 has none.
abbrev prices : List (Price ℤ)
prices = price 1 8_730_000 7 ∷ price 1 8_726_500 6 ∷ price 1 8_640_000 5 ∷ []

series_runs :
    points (compute_daily_series 3 102 prices (λ t. none) (row 1 10 ∷ row 2 4 ∷ []))
    ≡ (99, units 50) ∷ (100, units 50) ∷ (101, units 70) ∷ (102, units 70) ∷ []
unfolding compute_daily_series
series_runs = refl

-- The market service knows a stock since day 10. Days 99 and 100 are without a close, like a
-- weekend: they take the close of day 10, not that of day 98.
abbrev candles : Text → Option (List (Candle ℤ))
candles ticker = some (candle 10 1 ∷ candle 97 4 ∷ candle 98 5 ∷ candle 101 6 ∷ candle 102 7 ∷ [])

old_start :
    points (compute_daily_series 3 102 [] candles (row 1 10 ∷ []))
    ≡ (99, units 10) ∷ (100, units 10) ∷ (101, units 60) ∷ (102, units 70) ∷ []
unfolding compute_daily_series
old_start = refl

daily_series_described_example :
    compute_daily_series 3 102 prices candles (row 1 10 ∷ row 2 4 ∷ [])
    ≡ described
        (102 - 3)
        (daily_closes (102 - 3) prices candles (row 1 10 ∷ row 2 4 ∷ []))
        (row 1 10 ∷ row 2 4 ∷ [])
        (suc (102 - (102 - 3)))
        (102 - 3)
daily_series_described_example =
    daily_series_described 3 102 prices candles (row 1 10 ∷ row 2 4 ∷ [])
