-- ===== src/Portfolio/Rebalance/Merge.antt =====
-- The orders of a plan: `_merge_rebalance_orders`, their sort and `compute_rebalance_plan` of
-- backend/services/analytics.py, and `rebalance_preview` of backend/routers/portfolio.py. The
-- sort is stable, and is written as an insertion.
use stock_monitor.Base.{
  Bool, not, ◌||◌, ◌&&◌, List, [], ◌∷◌, map, ◌==◌, if◌then◌else◌, filter, length,
}
use stock_monitor.Base.Text.{text_eq}
use stock_monitor.Float.{Float, ◌+◌, ◌*◌, lt, round, max, sum, zero}
use stock_monitor.Http.{Reply, ok, fail}
use stock_monitor.Portfolio.{TargetAllocation, Db, CurrentUser}
use stock_monitor.Portfolio.Row.{Row}
use stock_monitor.Portfolio.Targets.{list_targets}
use stock_monitor.Portfolio.Rebalance.{
  Leg, Merged, Order, RebalancePlan, is_buy, joined, add_name, or_zero, or_one, values, allocation,
  least, clamp, raw_orders, buy, sell,
}

module _ {N : Type 0} ⦃f : Float N⦄ where
  abbrev pub first_leg : Leg N → Merged N
  first_leg o = record {
    ticker = o.ticker;
    name = o.name;
    allocation_names = add_name o.allocation_name [];
    signed_quantity = zero + o.signed_quantity;
    estimated_price = o.estimated_price;
    currency = o.currency;
    fx_rate_to_eur = o.fx_rate_to_eur;
    held_quantity = max o.held_quantity o.held_quantity;
  }

  abbrev pub add_leg : Leg N → Merged N → Merged N
  add_leg o m = record m {
    allocation_names = add_name o.allocation_name m.allocation_names;
    signed_quantity = m.signed_quantity + o.signed_quantity;
    held_quantity = max m.held_quantity o.held_quantity;
  }

  -- One round of the loop over the legs, on the dict of the tickers in order of insertion.
  unfoldable pub merge_leg : Leg N → List (Merged N) → List (Merged N)
  unfolding add_name
  merge_leg o [] = first_leg o ∷ []
  merge_leg o (m ∷ ms) = if text_eq m.ticker o.ticker then add_leg o m ∷ ms else m ∷ merge_leg o ms

  unfoldable pub merge_legs : List (Leg N) → List (Merged N) → List (Merged N)
  unfolding merge_leg
  merge_legs [] ms = ms
  merge_legs (o ∷ os) ms = merge_legs os (merge_leg o ms)

  abbrev pub order_of : Merged N → Order N
  order_of m =
      let qty = clamp m.signed_quantity m.held_quantity in
      let value = f.abs qty * m.estimated_price in
      record {
        ticker = m.ticker;
        name = m.name;
        allocation_name = joined m.allocation_names;
        side = if lt zero qty then buy else sell;
        quantity = round 4 (f.abs qty);
        estimated_price = round 2 m.estimated_price;
        estimated_value = round 2 value;
        currency = m.currency;
        value_eur = round 2 (value * or_one m.fx_rate_to_eur);
      }

  unfoldable pub orders_of : List (Merged N) → List (Order N)
  orders_of [] = []
  orders_of (m ∷ ms) =
      let rest = orders_of ms in
      if lt (f.abs (clamp m.signed_quantity m.held_quantity)) least then rest else order_of m ∷ rest

  -- `_merge_rebalance_orders`
  unfoldable pub merge_rebalance_orders : List (Leg N) → List (Order N)
  unfolding merge_legs orders_of
  merge_rebalance_orders legs = orders_of (merge_legs legs [])

  -- The order of the keys `(side != "BUY", -estimated_value)`.
  abbrev pub goes_before : Order N → Order N → Bool
  goes_before a b =
      if is_buy a.side
      then not (is_buy b.side) || lt (f.neg a.estimated_value) (f.neg b.estimated_value)
      else not (is_buy b.side) && lt (f.neg a.estimated_value) (f.neg b.estimated_value)

  unfoldable pub insert_order : Order N → List (Order N) → List (Order N)
  insert_order o [] = o ∷ []
  insert_order o (p ∷ ps) =
      let rest = insert_order o ps in if goes_before p o then p ∷ rest else o ∷ p ∷ ps

  unfoldable pub sort_orders : List (Order N) → List (Order N)
  unfolding insert_order
  sort_orders [] = []
  sort_orders (o ∷ os) = insert_order o (sort_orders os)

  abbrev pub total_of : (Order N → Bool) → List (Order N) → N
  total_of p os = round 2 (sum (map (λ (o : Order N). o.value_eur) (filter p os)))

  unfoldable pub compute_rebalance_plan :
      List (Row N) → List (TargetAllocation N) → N → RebalancePlan N
  unfolding allocation raw_orders merge_rebalance_orders sort_orders
  compute_rebalance_plan rows targets extra_cash =
      let cash = max extra_cash zero in
      let total = values rows + cash in
      let merged = merge_rebalance_orders (raw_orders total cash rows targets) in
      record {
        total_value = round 2 total;
        extra_cash = round 2 cash;
        targets_sum_percent =
            round 2 (sum (map (λ (t : TargetAllocation N). or_zero t.target_percent) targets));
        allocations = map (allocation total cash rows) targets;
        orders = sort_orders merged;
        orders_count = length merged;
        total_buy_value = total_of (λ o. is_buy o.side) merged;
        total_sell_value = total_of (λ o. not (is_buy o.side)) merged;
      }

  -- `rebalance_preview`, on the rows that `build_portfolio_rows` gives: the plan, and whether the
  -- portfolio is empty.
  unfoldable pub rebalance_preview :
      CurrentUser → N → List (Row N) → Db N → Reply (RebalancePlan N × Bool)
  unfolding compute_rebalance_plan list_targets
  rebalance_preview user extra_cash rows db = elim (list_targets user db) [
    | [] ↦ fail 400
    | t ∷ ts ↦ ok (compute_rebalance_plan rows (t ∷ ts) extra_cash, length rows == 0)
  ]
