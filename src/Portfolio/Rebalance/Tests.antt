-- ===== src/Portfolio/Rebalance/Tests.antt =====
-- A run of the rebalancing engine, and the theorems at concrete inputs.
use stock_monitor.Base.{◌≡◌, refl, false, none, some, [], ◌∷◌, All, map}
use stock_monitor.Base.Text.{codes, text_eq, strip, upper, starts_with, split}
use stock_monitor.Base.Int.{ℤ}
use stock_monitor.Float.Fixed.{fixed, fixed-IsSigned}
use stock_monitor.Table.{IsUnique}
use stock_monitor.Portfolio.{TargetAllocation}
use stock_monitor.Portfolio.Row.{Row}
use stock_monitor.Portfolio.Rebalance.{Side, Order, sell}
use stock_monitor.Portfolio.Rebalance.Merge.{compute_rebalance_plan}
use stock_monitor.Portfolio.Rebalance.Orders.{same_ticker, BuysFirst}
use stock_monitor.Portfolio.Rebalance.Plan.{Covered, plan-Covered, plan_orders}
use stock_monitor.Portfolio.Samples.{units}

abbrev enel_row : Row ℤ
enel_row = record {
  id = 1;
  stock_id = 1;
  ticker = codes "ENEL.MI";
  name = codes "Enel";
  market = codes "IT";
  currency = codes "EUR";
  quantity = units 10;
  avg_purchase_price = units 5;
  current_price = units 6;
  previous_close = none;
  price_stale = false;
  total_value = units 60;
  total_invested = units 50;
  total_value_eur = units 60;
  total_invested_eur = units 50;
  fx_rate_to_eur = units 1;
  pnl_absolute = units 10;
  pnl_percent = units 20;
  daily_pnl = none;
  purchase_date = none;
  notes = [];
}

abbrev italy : TargetAllocation ℤ
italy = record {
  id = 1;
  user_id = some 7;
  name = codes "Italy";
  target_percent = units 0;
  scope_type = codes "MARKET";
  scope_value = codes "IT";
}

abbrev energy : TargetAllocation ℤ
energy = record italy {
  id = 2;
  name = codes "Energy";
  scope_type = codes "TICKERS";
  scope_value = codes "enel.mi, ENI.MI";
}

abbrev summary : Order ℤ → Side × ℤ
summary o = (o.side, o.quantity)

-- Two targets ask for the sale of the whole position, and one order is left.
overlap_runs :
    map summary (compute_rebalance_plan (enel_row ∷ []) (italy ∷ energy ∷ []) (units 0)).orders
    ≡ (sell, units 10) ∷ []
unfolding compute_rebalance_plan text_eq strip upper starts_with split
overlap_runs = refl

plan-Covered_example :
    All
      (Covered (enel_row ∷ []))
      (compute_rebalance_plan (enel_row ∷ []) (italy ∷ energy ∷ []) (units 0)).orders
plan-Covered_example = plan-Covered (enel_row ∷ []) (italy ∷ energy ∷ []) (units 0) fixed-IsSigned

plan_orders_example :
    IsUnique same_ticker
      (compute_rebalance_plan (enel_row ∷ []) (italy ∷ energy ∷ []) (units 0)).orders
    × BuysFirst (compute_rebalance_plan (enel_row ∷ []) (italy ∷ energy ∷ []) (units 0)).orders
plan_orders_example = plan_orders (enel_row ∷ []) (italy ∷ energy ∷ []) (units 0)
