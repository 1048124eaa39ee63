-- ===== src/Analytics/Benchmarks/Tests.antt =====
-- Comparisons of a small portfolio with the two indices.
use stock_monitor.Base.{
  ℕ, ◌≤◌, ◌<◌, ◌≡◌, refl, Option, none, some, List, [], ◌∷◌, map, arith, if◌then◌else◌, ◌⊎◌, All,
  IsAmong,
}
use stock_monitor.Base.Text.{Text, codes, text_eq}
use stock_monitor.Base.Int.{ℤ}
use stock_monitor.Float.Fixed.{fixed}
use stock_monitor.Portfolio.Samples.{units}
use stock_monitor.Analytics.Series.{Candle, Point}
use stock_monitor.Analytics.Benchmarks.{Growth, asked_period, compute_benchmark_comparison}
use stock_monitor.Analytics.Benchmarks.Window.{IsSpan, asked_period_reach}
use stock_monitor.Analytics.Benchmarks.Aligned.{
  growth_date, point_date, ticker_of, IsAligned, comparison_complete,
}

asked_90 : asked_period 90 ≡ codes "6mo"
unfolding asked_period text_eq
asked_90 = refl

-- Two years are compared with one month.
asked_730 : asked_period 730 ≡ codes "1mo"
unfolding asked_period text_eq
asked_730 = refl

abbrev span : Text → ℕ
span period =
    if text_eq period (codes "1mo") then 28 else if text_eq period (codes "6mo") then 181 else 365

span-IsSpan : IsSpan span
unfolding text_eq
span-IsSpan = record { one_month = omega arith; six_months = omega arith; one_year = omega arith }

asked_period_reach_example :
    (730 ≤ span (asked_period 730))
    ⊎ (((365 < 730) × (730 ≤ 380)) ⊎ ((380 < 730) × (asked_period 730 ≡ codes "1mo")))
asked_period_reach_example = asked_period_reach span span-IsSpan 730

abbrev series : List (Point ℤ)
series = record { date = 10; value = units 50 } ∷ record { date = 11; value = units 60 } ∷ []

abbrev candle : ℕ → ℕ → Candle ℤ
candle day close = record { time = some day; close = some (units close) }

-- Of one index there are candles around the days of the series, of the other there is nothing.
abbrev indices : Text → Text → Option (List (Candle ℤ))
indices ticker period =
    if text_eq ticker (codes "^GSPC")
    then some (candle 9 1 ∷ candle 10 4 ∷ candle 11 5 ∷ candle 12 6 ∷ [])
    else none

abbrev tickers : List Text
tickers = codes "^GSPC" ∷ codes "FTSEMIB.MI" ∷ []

abbrev growths : List (Growth ℤ) → List (ℕ × ℤ)
growths = map (λ g. (g.date, g.growth_pct))

comparison_runs :
    let answer = compute_benchmark_comparison 90 indices tickers series in
    (growths answer.portfolio ≡ (10, units 0) ∷ (11, units 20) ∷ [])
    × (map (λ b. growths b.curve) answer.benchmarks
        ≡ ((10, units 0) ∷ (11, units 25) ∷ []) ∷ [] ∷ [])
unfolding compute_benchmark_comparison asked_period text_eq
comparison_runs = (refl, refl)

comparison_complete_example :
    let answer = compute_benchmark_comparison 90 indices tickers series in
    (map growth_date answer.portfolio ≡ map point_date series)
    × All (λ t. IsAmong t (map ticker_of answer.benchmarks)) tickers
    × All (IsAligned 90 indices series) answer.benchmarks
comparison_complete_example = comparison_complete 90 indices series tickers
