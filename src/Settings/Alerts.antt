-- ===== src/Settings/Alerts.antt =====
-- The alert rules: `create_alert`, `list_alerts` and `delete_alert` of backend/routers/settings.py.
-- What the market service knows of a ticker is an argument; `race` holds the stocks that another
-- session commits between the SELECT and the INSERT.
use stock_monitor.Base.{
  ℕ, Bool, true, not, ◌||◌, Option, none, some, List, ◌++◌, ◌==◌, if◌then◌else◌, find, map,
}
use stock_monitor.Base.Text.{Text, codes, text_eq, is_empty, or_else, upper, strip}
use stock_monitor.Float.{Float, le, zero}
use stock_monitor.Http.{Reply, ok, fail, or_fail, fail_if, ◌>>=◌, ◌>>◌}
use stock_monitor.Table.{insert, next_id, delete_where}
use stock_monitor.Market.{Info, detect_market_currency}
use stock_monitor.Portfolio.{Stock, CurrentUser, owner_eq, can_access}
use stock_monitor.Portfolio.Ledger.{text_of}
use stock_monitor.Portfolio.Stocks.{find_stock, new_stock}
use stock_monitor.Alerting.{AlertRule, with_stocks}
use stock_monitor.Watchlist.{or_old}

pub record AlertRuleCreate (N : Type 0) : Type 0 where
  pub stock_id : Option ℕ
  pub ticker : Option Text
  pub threshold_percent : Option N
  pub threshold : Option N
  pub direction : Text
  pub active : Option Bool

pub record RuleDb (N : Type 0) : Type 0 where
  pub stocks : List Stock
  pub rules : List (AlertRule N)

-- The row of a ticker, found or created; here the answer of the market service comes before the
-- suffix of the ticker.
unfoldable pub rule_stock : Text → Info → List Stock → List Stock → Stock × List Stock
rule_stock ticker info race stocks = elim (find_stock ticker stocks) [
  | some s ↦ (s, stocks)
  | none ↦ elim (find_stock ticker (stocks ++ race)) [
    | some s ↦ (s, stocks ++ race)
    | none ↦
        let (market, currency) = detect_market_currency ticker in
        let s = new_stock (stocks ++ race) (record {
          ticker = ticker;
          name = or_else info.name ticker;
          market = or_else info.market market;
          currency = or_else info.currency currency;
        }) in
        (s, insert s (stocks ++ race))
  ]
]

abbrev pub is_direction : Text → Bool
is_direction d = text_eq d (codes "UP") || (text_eq d (codes "DOWN") || text_eq d (codes "BOTH"))

-- `(rule.direction or "BOTH").upper()`
abbrev pub direction_of : Text → Text
direction_of d = upper (or_else d (codes "BOTH"))

-- `rule.stock_id`, unless it is None or 0
abbrev pub given_id : Option ℕ → Option ℕ
given_id none = none
given_id (some id) = if id == 0 then none else some id

abbrev pub active_or : Option Bool → Bool
active_or none = true
active_or (some b) = b

module _ {N : Type 0} ⦃f : Float N⦄ where
  abbrev pub rule_id : AlertRule N → ℕ
  rule_id r = r.id

  abbrev pub new_rule : ℕ → ℕ → N → Text → Bool → List (AlertRule N) → AlertRule N
  new_rule user stock threshold direction active rules = record {
    id = next_id (map rule_id rules);
    user_id = some user;
    stock_id = stock;
    threshold_percent = some threshold;
    direction = some direction;
    is_active = active;
  }

  -- The tests of `create_alert` before it reads the database: the threshold and the direction.
  unfoldable pub checked : AlertRuleCreate N → Reply (N × Text)
  checked rule = do
    threshold ← or_fail (or_old rule.threshold_percent rule.threshold) 400
    fail_if (le threshold zero) 400
    fail_if (not (is_direction (direction_of rule.direction))) 400
    ok (threshold, direction_of rule.direction)

  -- The id of the stock, and the table of stocks with a row that was created.
  unfoldable pub rule_stock_id :
      AlertRuleCreate N → (Text → Info) → List Stock → List Stock → Reply (ℕ × List Stock)
  rule_stock_id rule info race stocks = elim (given_id rule.stock_id) [
    | some id ↦ ok (id, stocks)
    | none ↦
        let ticker = upper (strip (text_of rule.ticker)) in
        let (s, left) = rule_stock ticker (info ticker) race stocks in
        if is_empty (text_of rule.ticker) then fail 400 else ok (s.id, left)
  ]

  -- The new rule, added. A `stock_id` is not looked up: without such a stock the INSERT violates the
  -- foreign key, which is not caught.
  unfoldable pub add_rule :
      CurrentUser → AlertRuleCreate N → (Text → Info) → List Stock → RuleDb N → Reply (ℕ × RuleDb N)
  add_rule user rule info race db = do
    checks ← checked rule
    stock ← rule_stock_id rule info race db.stocks
    elim (find (λ (s : Stock). s.id == stock.0) stock.1) [
      | none ↦ fail 500
      | some s ↦
          let r = new_rule user.id stock.0 checks.0 checks.1 (active_or rule.active) db.rules in
          ok (r.id, record { stocks = stock.1; rules = insert r db.rules })
    ]

  unfoldable pub create_alert :
      CurrentUser → AlertRuleCreate N → (Text → Info) → List Stock → RuleDb N → Reply ℕ × RuleDb N
  create_alert user rule info race db = elim (add_rule user rule info race db) [
    | fail c ↦ (fail c, db)
    | ok (id, left) ↦ (ok id, left)
  ]

  abbrev pub is_rule : ℕ → AlertRule N → Bool
  is_rule id r = r.id == id

  -- `_can_access_alert_rule` is `can_access`.
  unfoldable pub delete_alert : CurrentUser → ℕ → RuleDb N → Reply (Unit {0}) × RuleDb N
  delete_alert user id db = elim (find (is_rule id) db.rules) [
    | none ↦ (fail 404, db)
    | some r ↦
        if not (can_access r.user_id user)
        then (fail 404, db)
        else (ok tt, record db { rules = delete_where (is_rule id) db.rules })
  ]

  -- `list_alerts`: the user's rules in stocks that exist.
  unfoldable pub list_alerts : CurrentUser → RuleDb N → List (AlertRule N × Stock)
  unfolding with_stocks
  list_alerts user db =
      with_stocks (λ (r : AlertRule N). r.stock_id) (λ r. owner_eq r.user_id (some user.id))
        db.stocks db.rules
