-- ===== src/Portfolio/Valuation.antt =====
-- backend/services/portfolio_service.py, `build_portfolio_rows`, with `calculate_pnl` of
-- backend/utils/helpers.py. The last prices of a stock are read from its price history; the market
-- service, which is asked for the tickers that lack a fresh price, is a parameter: it gives a quote
-- or nothing for each ticker, and may give anything.
pub mod Prices
pub mod Summary
pub mod Movers
mod Tests
use stock_monitor.Base.{
  ℕ, ◌-◌ as minus, ◌*◌ as times, Bool, true, false, not, ◌||◌, ◌&&◌, Option, none, some, List, [],
  ◌∷◌, ◌++◌, map, ltb, leb, ◌==◌, if◌then◌else◌, filter, find, take,
}
use stock_monitor.Base.Text.{Text, codes, text_eq, or_else}
use stock_monitor.Float.{
  Float, ◌+◌, ◌-◌, ◌*◌, ◌/◌, lt, decimal, round, truthy, zero, is_valid_float,
}
use stock_monitor.Market.{detect_market_currency}
use stock_monitor.Portfolio.{Stock, Holding, Db, owner_eq}
use stock_monitor.Portfolio.Ledger.{text_of}
use stock_monitor.Portfolio.Row.{Row}

-- A row of `price_history`.
pub record Price (N : Type 0) : Type 0 where
  pub stock_id : ℕ
  pub timestamp : ℕ
  pub close : Option N

-- An entry of the dict that `fetch_batch_prices` returns.
pub record Quote (N : Type 0) : Type 0 where
  pub close : Option N
  pub previous_close : Option N
  pub stale : Bool

-- `_PRICE_FRESHNESS_HOURS`, in seconds
abbrev pub freshness : ℕ
freshness = times 36 3600

-- `_is_fresh_price`
abbrev pub is_fresh_price : ℕ → ℕ → Bool
is_fresh_price timestamp now = leb (minus now timestamp) freshness

abbrev pub has_id : ℕ → Stock → Bool
has_id id s = s.id == id

-- `Holding.user_id == user_id`, unless no user is given.
abbrev pub is_wanted : Option ℕ → Option ℕ → Bool
is_wanted none owner = true
is_wanted (some u) owner = owner_eq owner (some u)

abbrev pub or_option : {A : Type 0} → Option A → Option A → Option A
or_option none b = b
or_option (some a) b = some a

module _ {N : Type 0} where
  -- `ORDER BY timestamp DESC`
  unfoldable pub insert_price : Price N → List (Price N) → List (Price N)
  insert_price p [] = p ∷ []
  insert_price p (q ∷ qs) =
      let rest = insert_price p qs in if ltb p.timestamp q.timestamp then q ∷ rest else p ∷ q ∷ qs

  unfoldable pub newest_first : List (Price N) → List (Price N)
  unfolding insert_price
  newest_first [] = []
  newest_first (p ∷ ps) = insert_price p (newest_first ps)

  -- `db_prices.get(stock_id, [])`: the last two prices of a stock.
  unfoldable pub last_prices : ℕ → List (Price N) → List (Price N)
  unfolding newest_first
  last_prices stock ps = take 2 (newest_first (filter (λ p. p.stock_id == stock) ps))

  -- The positions of the user in active stocks, with their stocks.
  unfoldable pub active_holdings :
      Option ℕ → List Stock → List (Holding N) → List (Holding N × Stock)
  active_holdings user stocks [] = []
  active_holdings user stocks (h ∷ hs) =
      let rest = active_holdings user stocks hs in
      elim (find (has_id h.stock_id) stocks) [
        | none ↦ rest
        | some s ↦ if is_wanted user h.user_id && s.is_active then (h, s) ∷ rest else rest
      ]

module _ {N : Type 0} ⦃f : Float N⦄ where
  abbrev pub first_price : List (Price N) → Option (Price N)
  first_price [] = none
  first_price (p ∷ ps) = if is_valid_float p.close then some p else none

  abbrev pub second_close : List (Price N) → Option N
  second_close [] = none
  second_close (p ∷ []) = none
  second_close (p ∷ q ∷ qs) = if is_valid_float q.close then q.close else none

  -- The latest price, if it is usable and fresh.
  abbrev pub fresh_close : ℕ → List (Price N) → Option N
  fresh_close now [] = none
  fresh_close now (p ∷ ps) =
      if is_valid_float p.close && is_fresh_price p.timestamp now then p.close else none

  -- `missing_live_tickers`
  unfoldable pub missing_tickers : ℕ → List (Price N) → List (Holding N × Stock) → List Text
  unfolding last_prices
  missing_tickers now prices [] = []
  missing_tickers now prices ((h, s) ∷ hs) =
      let rest = missing_tickers now prices hs in
      elim (fresh_close now (last_prices h.stock_id prices)) [
        | some c ↦ rest
        | none ↦ s.ticker ∷ rest
      ]

  -- `calculate_pnl`: absolute and in percent.
  unfoldable pub calculate_pnl : N → N → N → N × N
  calculate_pnl price avg quantity =
      let invested = avg * quantity in
      let pnl = price * quantity - invested in
      (round 2 pnl, round 2 (if lt zero invested then pnl / invested * decimal 100 0 else zero))

  abbrev pub quote_close : Option (Quote N) → Option N
  quote_close none = none
  quote_close (some q) = q.close

  abbrev pub quote_previous : Option (Quote N) → Option N
  quote_previous none = none
  quote_previous (some q) = if is_valid_float q.previous_close then q.previous_close else none

  abbrev pub is_stale : Option (Quote N) → Bool
  is_stale none = false
  is_stale (some q) = q.stale

  abbrev pub is_live : Option (Quote N) → Bool
  is_live q = is_valid_float (quote_close q) && not (is_stale q)

  -- The price of a position, the close before it, and whether the price is stale.
  unfoldable pub pick_price : ℕ → List (Price N) → Option (Quote N) → Option N × Option N × Bool
  pick_price now prices quote = elim (fresh_close now prices) [
    | some c ↦ (some c, second_close prices, false)
    | none ↦
        if is_live quote
        then (quote_close quote, or_option (quote_previous quote) (second_close prices), false)
        else elim (first_price prices) [
          | some p ↦ (p.close, second_close prices, true)
          | none ↦ (quote_close quote, quote_previous quote, is_stale quote)
        ]
  ]

  -- `current_price`: the picked price, or the average purchase price, or 0.0.
  abbrev pub price_or : Option N → N → N
  price_or none avg = if is_valid_float (some avg) then avg else zero
  price_or (some p) avg =
      if is_valid_float (some p) then p else if is_valid_float (some avg) then avg else zero

  -- `if prev_close:`
  abbrev pub daily_pnl_of : Option N → N → N → Option N
  daily_pnl_of none price quantity = none
  daily_pnl_of (some prev) price quantity =
      if truthy prev then some (round 2 ((price - prev) * quantity)) else none

  unfoldable pub row_of :
      N → ℕ → List (Price N) → (Text → Option (Quote N)) → Holding N × Stock → Row N
  unfolding last_prices pick_price calculate_pnl
  row_of usd_to_eur now prices quotes (h, s) =
      let (raw, prev, stale) = pick_price now (last_prices h.stock_id prices) (quotes s.ticker) in
      let price = price_or raw h.avg_purchase_price in
      let pnl = calculate_pnl price h.avg_purchase_price h.quantity in
      let fallback = detect_market_currency s.ticker in
      let currency = or_else s.currency fallback.1 in
      let fx = if text_eq currency (codes "USD") then usd_to_eur else decimal 1 0 in
      record {
        id = h.id;
        stock_id = h.stock_id;
        ticker = s.ticker;
        name = or_else s.name s.ticker;
        market = or_else s.market fallback.0;
        currency = currency;
        quantity = h.quantity;
        avg_purchase_price = h.avg_purchase_price;
        current_price = price;
        previous_close = prev;
        price_stale = stale;
        total_value = round 2 (h.quantity * price);
        total_invested = round 2 (h.quantity * h.avg_purchase_price);
        total_value_eur = round 2 (h.quantity * price * fx);
        total_invested_eur = round 2 (h.quantity * h.avg_purchase_price * fx);
        fx_rate_to_eur = fx;
        pnl_absolute = pnl.0;
        pnl_percent = pnl.1;
        daily_pnl = daily_pnl_of prev price h.quantity;
        purchase_date = h.purchase_date;
        notes = text_of h.notes;
      }

  -- The market service is asked for a batch only if some ticker is missing.
  abbrev pub ask : (List Text → Text → Option (Quote N)) → List Text → Text → Option (Quote N)
  ask fetch [] ticker = none
  ask fetch (t ∷ ts) ticker = fetch (t ∷ ts) ticker

  unfoldable pub build_portfolio_rows :
      (List Text → Text → Option (Quote N))
      → Option ℕ
      → N
      → ℕ
      → List (Price N)
      → Db N
      → List (Row N)
  unfolding active_holdings missing_tickers row_of
  build_portfolio_rows fetch user usd_to_eur now prices db =
      let hs = active_holdings user db.stocks db.holdings in
      map (row_of usd_to_eur now prices (ask fetch (missing_tickers now prices hs))) hs
