-- ===== src/Portfolio/Valuation/Tests.antt =====
-- Runs of the valuation, and the theorems at concrete inputs.
use stock_monitor.Base.{◌≡◌, ◌⊎◌, refl, true, false, Option, none, some, List, [], ◌∷◌, map}
use stock_monitor.Base.Text.{Text, text_eq, upper, strip, ends_with}
use stock_monitor.Base.Int.{ℤ}
use stock_monitor.Float.{zero, is_valid_float}
use stock_monitor.Float.Fixed.{fixed, fixed-IsOrder, fixed-IsTotal, fixed-IsMonotone}
use stock_monitor.Market.{detect_suffix, detect_market_currency}
use stock_monitor.Portfolio.Row.{Row}
use stock_monitor.Portfolio.Samples.{units, enel, lot, db}
use stock_monitor.Portfolio.Valuation.{
  Price, Quote, last_prices, fresh_close, is_live, row_of, build_portfolio_rows,
}
use stock_monitor.Portfolio.Valuation.Prices.{Genuine, row_price}
use stock_monitor.Portfolio.Valuation.Summary.{build_portfolio_summary}
use stock_monitor.Portfolio.Valuation.Movers.{IsBest, IsWorst, summary_movers}

abbrev day_before : Price ℤ
day_before = record { stock_id = 1; timestamp = 1_000_000; close = some (units 6) }

abbrev today : Price ℤ
today = record { stock_id = 1; timestamp = 1_086_400; close = some (units 7) }

abbrev prices : List (Price ℤ)
prices = day_before ∷ today ∷ []

abbrev no_quotes : List Text → Text → Option (Quote ℤ)
no_quotes asked ticker = none

abbrev live : Text → Option (Quote ℤ)
live ticker = some (record { close = some (units 8); previous_close = none; stale = false })

-- The price of today is used, with that of the day before.
abbrev value_of : Row ℤ → ℤ × Option ℤ × ℤ × Option ℤ
value_of r = (r.current_price, r.previous_close, r.total_value, r.daily_pnl)

rows_run :
    map value_of (build_portfolio_rows no_quotes (some 7) (units 1) 1_100_000 prices db)
    ≡ (units 7, some (units 6), units 70, some (units 10)) ∷ []
unfolding build_portfolio_rows detect_market_currency detect_suffix text_eq upper strip ends_with
rows_run = refl

row_price_example :
    let r = row_of (units 1) 9_100_000 prices live (lot, enel) in
    let ps = last_prices 1 prices in
    ((is_valid_float (some r.current_price) ≡ true) ⊎ (r.current_price ≡ zero))
    × (r.price_stale ≡ true
        → (fresh_close 9_100_000 ps ≡ none) × (is_live (live enel.ticker) ≡ false))
    × (r.price_stale ≡ false → Genuine 9_100_000 ps (live enel.ticker) (units 5) r.current_price)
row_price_example = row_price (units 1) 9_100_000 prices live lot enel

abbrev rows : List (Row ℤ)
rows = build_portfolio_rows no_quotes none (units 1) 1_100_000 prices db

summary_movers_example :
    let s = build_portfolio_summary (λ ticker. zero) (units 1) rows in
    IsBest rows s.top_gainer × IsWorst rows s.top_loser
unfolding build_portfolio_rows
summary_movers_example =
    summary_movers fixed-IsOrder fixed-IsTotal fixed-IsMonotone (λ ticker. zero) (units 1) rows
      (refl, (refl, tt))
