-- ===== src/Portfolio/Rebalance.antt =====
-- The rebalancing engine of backend/services/analytics.py: the data of a plan, and what
-- `compute_rebalance_plan` asks of each position for each target. The orders are in Merge.
pub mod Merge
pub mod Orders
pub mod Plan
mod Tests
use stock_monitor.Base.{
  ℕ, Bool, true, false, not, ◌||◌, ◌&&◌, Option, none, some, List, [], ◌∷◌, ◌++◌, map, ◌==◌,
  if◌then◌else◌, filter, any, length,
}
use stock_monitor.Base.Text.{
  Text, codes, text_eq, is_empty, or_else, strip, upper, starts_with, split, join,
}
use stock_monitor.Float.{Float, ◌+◌, ◌-◌, ◌*◌, ◌/◌, lt, le, decimal, round, max, sum, truthy, zero}
use stock_monitor.Http.{Reply, ok, fail}
use stock_monitor.Portfolio.{TargetAllocation, Db, CurrentUser}
use stock_monitor.Portfolio.Row.{Row}
use stock_monitor.Portfolio.Targets.{list_targets}

pub data Side : Type 0 where
  buy sell : Side

-- One entry of `allocations`.
pub record Allocation (N : Type 0) : Type 0 where
  pub id : ℕ
  pub name : Text
  pub scope_type : Text
  pub scope_value : Text
  pub target_percent : N
  pub current_percent : N
  pub target_value : N
  pub current_value : N
  pub delta : N
  pub drift_pct : N

-- One entry of `raw_orders`: what one target asks of one position.
pub record Leg (N : Type 0) : Type 0 where
  pub ticker : Text
  pub name : Text
  pub allocation_name : Text
  pub signed_quantity : N
  pub estimated_price : N
  pub currency : Text
  pub fx_rate_to_eur : N
  pub held_quantity : N

-- One value of the dict `merged`: the legs of one ticker.
pub record Merged (N : Type 0) : Type 0 where
  pub ticker : Text
  pub name : Text
  pub allocation_names : List Text
  pub signed_quantity : N
  pub estimated_price : N
  pub currency : Text
  pub fx_rate_to_eur : N
  pub held_quantity : N

pub record Order (N : Type 0) : Type 0 where
  pub ticker : Text
  pub name : Text
  pub allocation_name : Option Text
  pub side : Side
  pub quantity : N
  pub estimated_price : N
  pub estimated_value : N
  pub currency : Text
  pub value_eur : N

pub record RebalancePlan (N : Type 0) : Type 0 where
  pub total_value : N
  pub extra_cash : N
  pub targets_sum_percent : N
  pub allocations : List (Allocation N)
  pub orders : List (Order N)
  pub orders_count : ℕ
  pub total_buy_value : N
  pub total_sell_value : N

abbrev pub is_buy : Side → Bool
is_buy buy = true
is_buy sell = false

-- `" + ".join(names) if names else None`
unfoldable pub joined : List Text → Option Text
unfolding join
joined [] = none
joined (n ∷ ns) = some (join (codes " + ") (n ∷ ns))

-- `alloc_name and alloc_name not in names`
unfoldable pub add_name : Text → List Text → List Text
add_name n names = if is_empty n || any (text_eq n) names then names else names ++ n ∷ []

-- The tickers that a scope lists.
unfoldable pub tickers_of : Text → List Text
unfolding split
tickers_of value =
    map (λ t. upper (strip t)) (filter (λ t. not (is_empty (strip t))) (split b',' value))

module _ {N : Type 0} ⦃f : Float N⦄ where
  -- `_market_of`
  unfoldable pub market_of : Row N → Text
  market_of h =
      let m = upper (or_else h.market (codes "US")) in
      if starts_with (codes "EU") m then codes "EU" else m

  -- `x or 0.0`
  abbrev pub or_zero : N → N
  or_zero x = if truthy x then x else zero

  -- `x or 1.0`
  abbrev pub or_one : N → N
  or_one x = if truthy x then x else decimal 1 0

  -- `_holding_value_eur`
  abbrev pub holding_value_eur : Row N → N
  holding_value_eur h = or_zero h.total_value_eur

  -- `_holding_fx_to_eur`
  abbrev pub holding_fx_to_eur : Row N → N
  holding_fx_to_eur h = let fx = or_one h.fx_rate_to_eur in if lt zero fx then fx else decimal 1 0

  abbrev pub values : List (Row N) → N
  values rows = sum (map holding_value_eur rows)

  abbrev pub scope_of : TargetAllocation N → Text
  scope_of t = upper (or_else t.scope_type (codes "MARKET"))

  abbrev pub scope_value_of : TargetAllocation N → Text
  scope_value_of t = upper (strip t.scope_value)

  -- The positions of a target's bucket.
  unfoldable pub constituents : TargetAllocation N → List (Row N) → List (Row N)
  unfolding market_of tickers_of
  constituents t rows =
      if text_eq (scope_of t) (codes "MARKET")
      then filter (λ h. text_eq (market_of h) (scope_value_of t)) rows
      else if text_eq (scope_of t) (codes "TICKERS")
      then filter (λ h. any (text_eq (upper h.ticker)) (tickers_of (scope_value_of t))) rows
      else []

  abbrev pub is_cash : TargetAllocation N → Bool
  is_cash t = text_eq (scope_of t) (codes "CASH")

  -- `target_value`, `current_value` and `delta` of a target
  abbrev pub target_value : N → TargetAllocation N → N
  target_value total t = total * or_zero t.target_percent / decimal 100 0

  abbrev pub current_value : N → TargetAllocation N → List (Row N) → N
  current_value cash t rows = if is_cash t then cash else values (constituents t rows)

  abbrev pub delta_of : N → N → TargetAllocation N → List (Row N) → N
  delta_of total cash t rows = target_value total t - current_value cash t rows

  unfoldable pub allocation : N → N → List (Row N) → TargetAllocation N → Allocation N
  unfolding constituents
  allocation total cash rows t =
      let current = current_value cash t rows in
      let pct = if lt zero total then current / total * decimal 100 0 else zero in
      record {
        id = t.id;
        name = t.name;
        scope_type = scope_of t;
        scope_value = scope_value_of t;
        target_percent = or_zero t.target_percent;
        current_percent = round 2 pct;
        target_value = round 2 (target_value total t);
        current_value = round 2 current;
        delta = round 2 (delta_of total cash t rows);
        drift_pct = round 2 (or_zero t.target_percent - pct);
      }

  abbrev pub least : N
  least = decimal 1 4

  -- `max(qty, -held) if qty < 0 else qty`
  abbrev pub clamp : N → N → N
  clamp qty held = if lt qty zero then max qty (f.neg held) else qty

  -- The quantity that a position of the bucket would need, before the clamp.
  abbrev pub wanted : N → N → ℕ → Row N → N
  wanted delta bucket n h =
      let price_eur = or_zero h.current_price * holding_fx_to_eur h in
      let weight =
        if lt zero bucket then holding_value_eur h / bucket else decimal 1 0 / decimal n 0 in
      delta * weight / price_eur

  abbrev pub leg_of : TargetAllocation N → N → Row N → Leg N
  leg_of t qty h = record {
    ticker = h.ticker;
    name = h.name;
    allocation_name = t.name;
    signed_quantity = clamp qty (f.abs (or_zero h.quantity));
    estimated_price = round 2 (or_zero h.current_price);
    currency = h.currency;
    fx_rate_to_eur = holding_fx_to_eur h;
    held_quantity = f.abs (or_zero h.quantity);
  }

  -- A position with no usable price, or with nothing to do, gets no leg.
  abbrev pub is_skipped : N → Row N → Bool
  is_skipped qty h =
      (le (or_zero h.current_price) zero || le (or_zero h.current_price * holding_fx_to_eur h) zero)
      || lt (f.abs qty) least

  unfoldable pub bucket_legs : TargetAllocation N → N → N → ℕ → List (Row N) → List (Leg N)
  bucket_legs t delta bucket n [] = []
  bucket_legs t delta bucket n (h ∷ rows) =
      let qty = wanted delta bucket n h in
      let rest = bucket_legs t delta bucket n rows in
      if is_skipped qty h then rest else leg_of t qty h ∷ rest

  unfoldable pub target_legs : N → N → List (Row N) → TargetAllocation N → List (Leg N)
  unfolding bucket_legs constituents
  target_legs total cash rows t =
      let bucket = constituents t rows in
      let delta = delta_of total cash t rows in
      if not (is_cash t) && le (decimal 1 0) (f.abs delta)
      then bucket_legs t delta (values bucket) (length bucket) bucket
      else []

  unfoldable pub raw_orders : N → N → List (Row N) → List (TargetAllocation N) → List (Leg N)
  unfolding target_legs
  raw_orders total cash rows [] = []
  raw_orders total cash rows (t ∷ ts) =
      target_legs total cash rows t ++ raw_orders total cash rows ts
