-- ===== src/Analytics/Benchmarks.antt =====
-- The comparison with market indices of backend/services/analytics.py: `normalize_growth`,
-- `_period_for_days` and `compute_benchmark_comparison`, with the tables of
-- backend/services/market_data.py that lead from a number of days to what Yahoo is asked. The
-- candles that it gives for a ticker and a period are a parameter: `none` is an exception.
pub mod Window
pub mod Aligned
mod Tests
use stock_monitor.Base.{
  ℕ, ◌-◌ as minus, Bool, true, false, not, ◌&&◌, Option, none, some, List, [], ◌∷◌, map, ltb, leb,
  if◌then◌else◌, filter, find, length, drop,
}
use stock_monitor.Base.Text.{Text, codes, text_eq}
use stock_monitor.Float.{Float, ◌-◌, ◌*◌, ◌/◌, decimal, round, truthy, zero}
use stock_monitor.Analytics.Series.{Candle, Point}

-- `_period_for_days`
abbrev pub period_for_days : ℕ → Text
period_for_days days =
    if leb days 10
    then codes "1mo"
    else if leb days 31
    then codes "3mo"
    else if leb days 120
    then codes "6mo"
    else if leb days 380
    then codes "1y"
    else codes "5y"

-- `table.get(key, default)`
abbrev pub get_or : Text → Text → List (Text × Text) → Text
get_or default key [] = default
get_or default key ((k, v) ∷ table) = if text_eq k key then v else get_or default key table

-- `tf_map` of `fetch_index_history`
abbrev pub tf_map : List (Text × Text)
tf_map =
    (codes "7d", codes "1w")
    ∷ (codes "30d", codes "1m")
    ∷ (codes "1mo", codes "1m")
    ∷ (codes "90d", codes "6m")
    ∷ (codes "3mo", codes "6m")
    ∷ (codes "180d", codes "6m")
    ∷ (codes "6mo", codes "6m")
    ∷ (codes "1y", codes "1y")
    ∷ (codes "365d", codes "1y")
    ∷ []

-- The periods of `tf_mapping` in `fetch_stock_candles`; a timeframe is in lower case already.
abbrev pub tf_mapping : List (Text × Text)
tf_mapping =
    (codes "1d", codes "1d")
    ∷ (codes "1w", codes "5d")
    ∷ (codes "1m", codes "1mo")
    ∷ (codes "6m", codes "6mo")
    ∷ (codes "1y", codes "1y")
    ∷ (codes "5y", codes "5y")
    ∷ []

-- The period of the candles that the comparison over some days asks Yahoo for.
unfoldable pub asked_period : ℕ → Text
unfolding text_eq
asked_period days =
    get_or (codes "1mo") (get_or (codes "1m") (period_for_days days) tf_map) tf_mapping

-- A point of a curve of growth, in percent of its first value.
pub record Growth (N : Type 0) : Type 0 where
  pub date : ℕ
  pub growth_pct : N

-- A benchmark of the answer; the flag is left out.
pub record Benchmark (N : Type 0) : Type 0 where
  pub ticker : Text
  pub name : Text
  pub curve : List (Growth N)

pub record Comparison (N : Type 0) : Type 0 where
  pub start_date : Option ℕ
  pub end_date : Option ℕ
  pub portfolio : List (Growth N)
  pub benchmarks : List (Benchmark N)

abbrev pub first_date : {N : Type 0} → List (Point N) → Option ℕ
first_date [] = none
first_date (p ∷ ps) = some p.date

abbrev pub last_date : {N : Type 0} → List (Point N) → Option ℕ
last_date [] = none
last_date (p ∷ []) = some p.date
last_date (p ∷ q ∷ ps) = last_date (q ∷ ps)

-- `BENCHMARKS.get(ticker, {"name": ticker})["name"]`
unfoldable pub benchmark_name : Text → Text
unfolding text_eq
benchmark_name ticker =
    get_or ticker ticker
      ((codes "^GSPC", codes "S&P 500") ∷ (codes "FTSEMIB.MI", codes "FTSE MIB") ∷ [])

-- `start_date is None or p.get("time") is not None and p["time"] >= start_date`
abbrev pub not_before : Option ℕ → Option ℕ → Bool
not_before none time = true
not_before (some start) none = false
not_before (some start) (some t) = leb start t

abbrev pub not_after : Option ℕ → Option ℕ → Bool
not_after none time = true
not_after (some end) none = false
not_after (some end) (some t) = leb t end

module _ {N : Type 0} ⦃f : Float N⦄ where
  abbrev pub has_value : Point N → Bool
  has_value p = truthy p.value

  -- The first value, or the first that is not zero.
  abbrev pub base_of : List (Point N) → N
  base_of ps = elim (find has_value ps) [ none ↦ zero | some p ↦ p.value ]

  abbrev pub growth_from : N → Point N → Growth N
  growth_from base p = record {
    date = p.date;
    growth_pct =
        if truthy base then round 3 ((p.value / base - decimal 1 0) * decimal 100 0) else zero;
  }

  -- `normalize_growth`
  unfoldable pub normalize_growth : List (Point N) → List (Growth N)
  normalize_growth ps = map (growth_from (base_of ps)) ps

  abbrev pub has_close : Candle N → Bool
  has_close c = elim c.close [ none ↦ false | some x ↦ truthy x ]

  abbrev pub is_inside : Option ℕ → Option ℕ → Candle N → Bool
  is_inside start end c = not_before start c.time && (not_after end c.time && has_close c)

  -- The candles with a time and a close, as points.
  abbrev pub points_of : List (Candle N) → List (Point N)
  points_of [] = []
  points_of (c ∷ cs) =
      let rest = points_of cs in
      elim c.time [
        | none ↦ rest
        | some t ↦ elim c.close [
          | none ↦ rest
          | some x ↦ if truthy x then record { date = t; value = x } ∷ rest else rest
        ]
      ]

  -- `filtered`: the candles of the portfolio's dates, or the last of all when there are none.
  unfoldable pub chosen : ℕ → Option ℕ → Option ℕ → List (Candle N) → List (Candle N)
  chosen days start end cs = elim (filter (is_inside start end) cs) [
    | [] ↦ if ltb 0 days && ltb days (length cs) then drop (minus (length cs) days) cs else cs
    | c ∷ inside ↦ c ∷ inside
  ]

  -- `data` of one benchmark
  unfoldable pub benchmark_curve :
      ℕ → Option ℕ → Option ℕ → Option (List (Candle N)) → List (Growth N)
  unfolding chosen normalize_growth
  benchmark_curve days start end none = []
  benchmark_curve days start end (some cs) = normalize_growth (points_of (chosen days start end cs))

  -- `benchmarks_out[ticker] = …`
  abbrev pub put_benchmark : Benchmark N → List (Benchmark N) → List (Benchmark N)
  put_benchmark b [] = b ∷ []
  put_benchmark b (c ∷ cs) = if text_eq c.ticker b.ticker then b ∷ cs else c ∷ put_benchmark b cs

  unfoldable pub benchmark_of :
      ℕ → (Text → Text → Option (List (Candle N))) → List (Point N) → Text → Benchmark N
  unfolding benchmark_curve asked_period benchmark_name
  benchmark_of days fetch series ticker = record {
    ticker = ticker;
    name = benchmark_name ticker;
    curve =
        benchmark_curve days (first_date series) (last_date series)
          (fetch ticker (asked_period days));
  }

  unfoldable pub benchmarks_of :
      ℕ
      → (Text → Text → Option (List (Candle N)))
      → List (Point N)
      → List Text
      → List (Benchmark N)
      → List (Benchmark N)
  unfolding benchmark_of text_eq
  benchmarks_of days fetch series [] out = out
  benchmarks_of days fetch series (ticker ∷ tickers) out =
      benchmarks_of days fetch series tickers
        (put_benchmark (benchmark_of days fetch series ticker) out)

  -- `compute_benchmark_comparison` on the series of the portfolio.
  unfoldable pub compute_benchmark_comparison :
      ℕ → (Text → Text → Option (List (Candle N))) → List Text → List (Point N) → Comparison N
  unfolding benchmarks_of normalize_growth
  compute_benchmark_comparison days fetch tickers series = record {
    start_date = first_date series;
    end_date = last_date series;
    portfolio = normalize_growth series;
    benchmarks = benchmarks_of days fetch series tickers [];
  }
