-- ===== src/Alerting.antt =====
-- `AlertingService` of backend/services/alerting.py, with `AlertRule` of backend/models/settings.py
-- and `WatchlistItem` of backend/models/watchlist.py. The batch of prices and whether a market is
-- open are what the market service answers; a message is a value, sending it succeeds. Times are
-- numbers of seconds.
pub mod Run
pub mod Throttle
pub mod Selection
pub mod Genuine
pub mod Sent
mod Tests
use stock_monitor.Base.{
  ℕ, ◌-◌ as minus, Bool, true, false, not, ◌||◌, ◌&&◌, Option, none, some, List, [], ◌∷◌, ◌++◌, map,
  ltb, leb, ◌==◌, if◌then◌else◌, filter, find, any,
}
use stock_monitor.Base.Text.{Text, codes, text_eq, or_else}
use stock_monitor.Float.{Float, ◌-◌, ◌*◌, ◌/◌, lt, le, decimal, round, truthy, zero}
use stock_monitor.Auth.{User, has_name}
use stock_monitor.Portfolio.{Stock, Holding, owner_eq}
use stock_monitor.Portfolio.Ledger.{text_of}
use stock_monitor.Portfolio.Valuation.{Price, has_id, newest_first}

pub record AlertRule (N : Type 0) : Type 0 where
  pub id : ℕ
  pub user_id : Option ℕ
  pub stock_id : ℕ
  pub threshold_percent : Option N
  pub direction : Option Text
  pub is_active : Bool

pub record WatchlistItem (N : Type 0) : Type 0 where
  pub id : ℕ
  pub user_id : Option ℕ
  pub stock_id : ℕ
  pub notes : Option Text
  pub alert_above : Option N
  pub alert_below : Option N

-- The tables that a run reads.
pub record Watched (N : Type 0) : Type 0 where
  pub users : List User
  pub stocks : List Stock
  pub rules : List (AlertRule N)
  pub items : List (WatchlistItem N)
  pub holdings : List (Holding N)
  pub prices : List (Price N)

-- A key of `_last_alert_times`: `rule_…`, `wl_…`, `sl_tp_h_…`.
pub data Key : Type 0 where
  rule_key item_key holding_key : ℕ → Key

abbrev pub key_eq : Key → Key → Bool
key_eq (rule_key a) (rule_key b) = a == b
key_eq (item_key a) (item_key b) = a == b
key_eq (holding_key a) (holding_key b) = a == b
key_eq (rule_key a) (item_key b) = false
key_eq (rule_key a) (holding_key b) = false
key_eq (item_key a) (rule_key b) = false
key_eq (item_key a) (holding_key b) = false
key_eq (holding_key a) (rule_key b) = false
key_eq (holding_key a) (item_key b) = false

-- The hours between two messages of a key, in seconds.
abbrev pub pause : Key → ℕ
pause (rule_key id) = 3600
pause (item_key id) = 7200
pause (holding_key id) = 14400

-- `_last_alert_times`
abbrev pub Times : Type 0
Times = Key → Option ℕ

unfoldable pub set_time : Key → ℕ → Times → Times
set_time k now times j = if key_eq j k then some now else times j

-- The keys of what no longer exists are dropped.
unfoldable pub evict : List Key → Times → Times
evict valid times k = if any (key_eq k) valid then times k else none

-- `last_alert and (now - last_alert) < …`
abbrev pub is_throttled : ℕ → ℕ → Option ℕ → Bool
is_throttled hours now none = false
is_throttled hours now (some t) = ltb (minus now t) hours

-- An entry of the dict that `fetch_batch_prices` returns, or of what takes its place.
pub record Entry (N : Type 0) : Type 0 where
  pub close : Option N
  pub change_percent : Option N
  pub stale : Bool

-- A message: of `send_alert`, `send_stop_loss_alert` or `send_take_profit_alert`.
pub data Alert (N : Type 0) : Type 0 where
  moved : (name ticker : Text) (change price : N) → Alert N
  stop_loss take_profit : (name ticker : Text) (pnl price avg : N) → Alert N

-- What a rule, an item or a position comes to in a run, but for the throttle.
pub record Check (N : Type 0) : Type 0 where
  pub key : Key
  pub alert : Option (Alert N)

-- `_resolve_admin_user_id`
unfoldable pub lowest : List User → Option User
lowest [] = none
lowest (u ∷ us) = elim (lowest us) [
  | none ↦ some u
  | some v ↦ if leb u.id v.id then some u else some v
]

unfoldable pub resolve_admin_user_id : Text → List User → Option ℕ
unfolding lowest
resolve_admin_user_id name users = elim (lowest (filter (has_name name) users)) [
  | some u ↦ some u.id
  | none ↦ elim (lowest users) [ none ↦ none | some u ↦ some u.id ]
]

-- The rows of a table that are the user's and stand for an active stock, with the stock.
unfoldable pub with_stocks :
    {A : Type 0} → (A → ℕ) → (A → Bool) → List Stock → List A → List (A × Stock)
with_stocks stock_id wanted stocks [] = []
with_stocks stock_id wanted stocks (a ∷ rows) =
    let rest = with_stocks stock_id wanted stocks rows in
    elim (find (has_id (stock_id a)) stocks) [
      | none ↦ rest
      | some s ↦ if wanted a && s.is_active then (a, s) ∷ rest else rest
    ]

-- `stocks_by_id[stock.id] = stock`
unfoldable pub put_stock : Stock → List Stock → List Stock
put_stock s [] = s ∷ []
put_stock s (t ∷ ts) = if t.id == s.id then s ∷ ts else t ∷ put_stock s ts

unfoldable pub stocks_by_id : List Stock → List Stock → List Stock
unfolding put_stock
stocks_by_id acc [] = acc
stocks_by_id acc (s ∷ ss) = stocks_by_id (put_stock s acc) ss
