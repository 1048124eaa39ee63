-- ===== src/Analytics/Series.antt =====
-- `build_portfolio_daily_series` behind its cache: the closes of each stock by day, the candles that
-- fill a short history, and the value of the portfolio on each day. A day is a number, and the
-- candles that the market service gives for a ticker are a parameter: `none` is an exception.
pub mod Carry
pub mod Step
pub mod Values
mod Tests
use stock_monitor.Base.{
  ℕ, zero as none_left, suc, ◌-◌ as minus, ◌*◌ as times, ◌/◌ as quotient, Bool, true, false, not,
  ◌&&◌, Option, none, some, List, [], ◌∷◌, ltb, leb, ◌==◌, if◌then◌else◌, filter, any, length,
}
use stock_monitor.Base.Text.{Text}
use stock_monitor.Float.{Float, ◌+◌, ◌*◌, decimal, round, truthy, zero}
use stock_monitor.Portfolio.Row.{Row}
use stock_monitor.Portfolio.Rebalance.{holding_fx_to_eur}
use stock_monitor.Portfolio.Valuation.{Price}

-- A candle of the market service; `time` is `none` when it is no string.
pub record Candle (N : Type 0) : Type 0 where
  pub time : Option ℕ
  pub close : Option N

-- A point of the series.
pub record Point (N : Type 0) : Type 0 where
  pub date : ℕ
  pub value : N

-- The closes of one stock by day, a dict.
abbrev pub Closes : Type 0 → Type 0
Closes N = List (ℕ × N)

module _ {N : Type 0} where
  abbrev pub close_on : ℕ → Closes N → Option N
  close_on day [] = none
  close_on day ((d, c) ∷ closes) = if d == day then some c else close_on day closes

  -- `closes[day] = close`
  abbrev pub put_close : ℕ → N → Closes N → Closes N
  put_close day close [] = (day, close) ∷ []
  put_close day close ((d, c) ∷ closes) =
      if d == day then (d, close) ∷ closes else (d, c) ∷ put_close day close closes

  -- `closes.setdefault(day, close)`
  abbrev pub set_default : ℕ → N → Closes N → Closes N
  set_default day close [] = (day, close) ∷ []
  set_default day close ((d, c) ∷ closes) =
      if d == day then (d, c) ∷ closes else (d, c) ∷ set_default day close closes

  -- `ORDER BY timestamp`
  unfoldable pub insert_oldest : Price N → List (Price N) → List (Price N)
  insert_oldest p [] = p ∷ []
  insert_oldest p (q ∷ qs) =
      let rest = insert_oldest p qs in if ltb q.timestamp p.timestamp then q ∷ rest else p ∷ q ∷ qs

  unfoldable pub oldest_first : List (Price N) → List (Price N)
  unfolding insert_oldest
  oldest_first [] = []
  oldest_first (p ∷ ps) = insert_oldest p (oldest_first ps)

  -- `closes[sorted(closes.keys())[0]]`, with its day
  abbrev pub first_close : Closes N → Option (ℕ × N)
  first_close [] = none
  first_close ((d, c) ∷ closes) = elim (first_close closes) [
    | none ↦ some (d, c)
    | some (e, b) ↦ if ltb e d then some (e, b) else some (d, c)
  ]

-- `last_known`: the price that each stock carries from day to day, a dict.
abbrev pub Known : Type 0 → Type 0
Known N = ℕ → Option N

abbrev pub know : {N : Type 0} → ℕ → N → Known N → Known N
know stock price known s = if stock == s then some price else known s

-- What the loop over the positions changes on one day.
pub record Day (N : Type 0) : Type 0 where
  pub last_known : Known N
  pub total : N
  pub has_data : Bool

abbrev pub seconds_per_day : ℕ
seconds_per_day = 86_400

module _ {N : Type 0} ⦃f : Float N⦄ where
  -- A row of the price history: a close that is missing or zero is passed over, and the last of a
  -- day wins.
  abbrev pub add_row : Closes N → Price N → Closes N
  add_row closes p = elim p.close [
    | none ↦ closes
    | some c ↦
        if truthy c then put_close (quotient p.timestamp seconds_per_day) c closes else closes
  ]

  unfoldable pub add_rows : Closes N → List (Price N) → Closes N
  add_rows closes [] = closes
  add_rows closes (p ∷ ps) = add_rows (add_row closes p) ps

  abbrev pub is_recorded : ℕ → ℕ → Price N → Bool
  is_recorded start stock p = p.stock_id == stock && leb (times start seconds_per_day) p.timestamp

  -- Step 1: the closes in the price history since the first day.
  unfoldable pub recorded_closes : ℕ → List (Price N) → ℕ → Closes N
  unfolding oldest_first add_rows
  recorded_closes start prices stock =
      add_rows [] (filter (is_recorded start stock) (oldest_first prices))

  abbrev pub add_candle : Closes N → Candle N → Closes N
  add_candle closes candle = elim candle.time [
    | none ↦ closes
    | some day ↦ elim candle.close [
      | none ↦ closes
      | some c ↦ if truthy c then set_default day c closes else closes
    ]
  ]

  unfoldable pub add_candles : Closes N → List (Candle N) → Closes N
  add_candles closes [] = closes
  add_candles closes (candle ∷ candles) = add_candles (add_candle closes candle) candles

  -- Step 2: fewer than five days are filled from the candles of a year.
  unfoldable pub backfill : Option (List (Candle N)) → Closes N → Closes N
  unfolding add_candles
  backfill none closes = closes
  backfill (some candles) closes =
      let filled = add_candles closes candles in if ltb (length closes) 5 then filled else closes

  -- `last_known` before the first day: each stock with closes has its first.
  abbrev pub start_prices : (ℕ → Closes N) → List (Row N) → Known N
  start_prices closes [] stock = none
  start_prices closes (h ∷ hs) stock =
      if h.stock_id == stock
      then elim (first_close (closes stock)) [ none ↦ none | some (d, c) ↦ some c ]
      else start_prices closes hs stock

  -- `closes[day]` overwrites what the position's stock carries.
  abbrev pub refresh : ℕ → (ℕ → Closes N) → Row N → Known N → Known N
  refresh day closes h known = elim (close_on day (closes h.stock_id)) [
    | none ↦ known
    | some c ↦ know h.stock_id c known
  ]

  -- The value of a position in EUR.
  abbrev pub term : Row N → N → N
  term h price = h.quantity * price * holding_fx_to_eur h

  abbrev pub value_row : ℕ → (ℕ → Closes N) → Row N → Day N → Day N
  value_row day closes h s =
      let known = refresh day closes h s.last_known in
      elim (known h.stock_id) [
        | none ↦ record s { last_known = known }
        | some price ↦
            if truthy price
            then record { last_known = known; total = s.total + term h price; has_data = true }
            else record s { last_known = known }
      ]

  -- `for h in portfolio`, on one day
  unfoldable pub value_rows : ℕ → (ℕ → Closes N) → List (Row N) → Day N → Day N
  value_rows day closes [] s = s
  value_rows day closes (h ∷ hs) s = value_rows day closes hs (value_row day closes h s)

  -- `while current <= today`: the count of days left.
  unfoldable pub value_days : (ℕ → Closes N) → List (Row N) → ℕ → ℕ → Known N → List (Point N)
  unfolding value_rows
  value_days closes rows none_left day known = []
  value_days closes rows (suc left) day known =
      let s =
        value_rows day closes rows
          (record { last_known = known; total = zero; has_data = false }) in
      let rest = value_days closes rows left (suc day) s.last_known in
      if s.has_data then record { date = day; value = round 2 s.total } ∷ rest else rest

  -- Step 3.
  unfoldable pub daily_values : ℕ → ℕ → (ℕ → Closes N) → List (Row N) → List (Point N)
  unfolding value_days
  daily_values start today closes rows =
      value_days closes rows (suc (minus today start)) start (start_prices closes rows)

  -- Steps 1 and 2 for one stock, with the ticker of its row.
  unfoldable pub daily_closes :
      ℕ → List (Price N) → (Text → Option (List (Candle N))) → List (Row N) → ℕ → Closes N
  unfolding recorded_closes backfill
  daily_closes start prices fetch [] stock = []
  daily_closes start prices fetch (h ∷ hs) stock =
      if h.stock_id == stock
      then backfill (fetch h.ticker) (recorded_closes start prices stock)
      else daily_closes start prices fetch hs stock

  -- The series of the last `days` days, with nothing cached.
  unfoldable pub compute_daily_series :
      ℕ → ℕ → List (Price N) → (Text → Option (List (Candle N))) → List (Row N) → List (Point N)
  unfolding daily_closes daily_values
  compute_daily_series days today prices fetch rows =
      let start = minus today days in
      daily_values start today (daily_closes start prices fetch rows) rows
