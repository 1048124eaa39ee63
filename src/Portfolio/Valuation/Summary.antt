-- ===== src/Portfolio/Valuation/Summary.antt =====
-- `build_portfolio_summary` of backend/services/portfolio_service.py, on the rows of the portfolio.
-- `yield_of` stands for `get_stock_dividend_yield`, which reads the caches of the market data.
use stock_monitor.Base.{
  ℕ, Bool, false, Option, none, some, List, [], ◌∷◌, map, if◌then◌else◌, length, any,
}
use stock_monitor.Base.Text.{Text, codes, text_eq, or_else, upper}
use stock_monitor.Float.{Float, ◌+◌, ◌-◌, ◌*◌, ◌/◌, lt, decimal, round, truthy, sum, zero}
use stock_monitor.Portfolio.Row.{Row}

pub record MarketAllocation (N : Type 0) : Type 0 where
  pub it : N
  pub us : N
  pub eu : N

pub record Summary (N : Type 0) : Type 0 where
  pub total_value : N
  pub total_invested : N
  pub total_pnl : N
  pub total_pnl_percent : N
  pub daily_pnl : N
  pub daily_pnl_percent : N
  pub holdings_count : ℕ
  pub top_gainer : Option (Row N)
  pub top_loser : Option (Row N)
  pub market_allocation : MarketAllocation N
  pub estimated_annual_dividends : N
  pub estimated_dividend_yield : N
  pub fx_usd_eur : N

module _ {N : Type 0} where
  abbrev pub last_row : Row N → List (Row N) → Row N
  last_row r [] = r
  last_row r (s ∷ rows) = last_row s rows

module _ {N : Type 0} ⦃f : Float N⦄ where
  -- `a / b * 100 if b > 0 else 0.0`
  abbrev pub percent_of : N → N → N
  percent_of a b = if lt zero b then a / b * decimal 100 0 else zero

  -- `if h.get("previous_close"):`
  abbrev pub has_previous : Row N → Bool
  has_previous r = elim r.previous_close [ none ↦ false | some p ↦ truthy p ]

  abbrev pub previous_or_zero : Row N → N
  previous_or_zero r = elim r.previous_close [ none ↦ zero | some p ↦ p ]

  -- `daily_pnl` and `prev_value_base` behind the loop over the rows
  unfoldable pub daily_from : N → N → List (Row N) → N × N
  daily_from pnl base [] = (pnl, base)
  daily_from pnl base (r ∷ rows) =
      let prev = previous_or_zero r in
      let fx = r.fx_rate_to_eur in
      daily_from (if has_previous r then pnl + (r.current_price - prev) * r.quantity * fx else pnl)
        (if has_previous r then base + prev * r.quantity * fx else base) rows

  -- `sorted(portfolio, key=pnl_percent, reverse=True)`, which is stable.
  unfoldable pub insert_row : Row N → List (Row N) → List (Row N)
  insert_row r [] = r ∷ []
  insert_row r (s ∷ rows) =
      let rest = insert_row r rows in
      if lt r.pnl_percent s.pnl_percent then s ∷ rest else r ∷ s ∷ rows

  unfoldable pub sorted_by_pnl : List (Row N) → List (Row N)
  unfolding insert_row
  sorted_by_pnl [] = []
  sorted_by_pnl (r ∷ rows) = insert_row r (sorted_by_pnl rows)

  abbrev pub first_gainer : List (Row N) → Option (Row N)
  first_gainer [] = none
  first_gainer (r ∷ rows) = if lt zero r.pnl_percent then some r else none

  abbrev pub last_loser : List (Row N) → Option (Row N)
  last_loser [] = none
  last_loser (r ∷ rows) =
      if lt (last_row r rows).pnl_percent zero then some (last_row r rows) else none

  abbrev pub add_to : Text → N → MarketAllocation N → MarketAllocation N
  add_to m value a =
      if text_eq m (codes "IT")
      then record a { it = a.it + value }
      else if text_eq m (codes "EU")
      then record a { eu = a.eu + value }
      else record a { us = a.us + value }

  -- The values by market; a market that is none of the three counts as US.
  unfoldable pub allocate : MarketAllocation N → List (Row N) → MarketAllocation N
  allocate a [] = a
  allocate a (r ∷ rows) =
      allocate (add_to (upper (or_else r.market (codes "US"))) r.total_value_eur a) rows

  unfoldable pub dividends_from : (Text → N) → N → List (Row N) → N
  dividends_from yield_of acc [] = acc
  dividends_from yield_of acc (r ∷ rows) =
      let dy = yield_of r.ticker in
      dividends_from yield_of
        (if lt zero dy then acc + r.total_value_eur * (dy / decimal 100 0) else acc) rows

  abbrev pub rounded : MarketAllocation N → MarketAllocation N
  rounded a = record { it = round 2 a.it; us = round 2 a.us; eu = round 2 a.eu }

  unfoldable pub build_portfolio_summary : (Text → N) → N → List (Row N) → Summary N
  unfolding daily_from sorted_by_pnl allocate dividends_from
  build_portfolio_summary yield_of usd_to_eur rows =
      let invested = sum (map (λ (r : Row N). r.total_invested_eur) rows) in
      let value = sum (map (λ (r : Row N). r.total_value_eur) rows) in
      let daily = daily_from zero zero rows in
      let has_daily = any has_previous rows in
      let dividends = dividends_from yield_of zero rows in
      record {
        total_value = round 2 value;
        total_invested = round 2 invested;
        total_pnl = round 2 (value - invested);
        total_pnl_percent = round 2 (percent_of (value - invested) invested);
        daily_pnl = if has_daily then round 2 daily.0 else zero;
        daily_pnl_percent = if has_daily then round 2 (percent_of daily.0 daily.1) else zero;
        holdings_count = length rows;
        top_gainer = first_gainer (sorted_by_pnl rows);
        top_loser = last_loser (sorted_by_pnl rows);
        market_allocation = rounded (allocate (record { it = zero; us = zero; eu = zero }) rows);
        estimated_annual_dividends = round 2 dividends;
        estimated_dividend_yield = round 2 (percent_of dividends value);
        fx_usd_eur = round 4 usd_to_eur;
      }
