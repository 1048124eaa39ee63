-- ===== src/Watchlist.antt =====
-- backend/routers/watchlist.py: a user's list of stocks with their thresholds. The deep dive of the
-- market service gives what it knows of a ticker that the table of stocks lacks. Other sessions may
-- commit stocks and items while a request adds one; else requests come one after the other.
pub mod Laws
pub mod Requests
mod Tests
use stock_monitor.Base.{
  ℕ, Bool, true, false, not, ◌&&◌, Option, none, some, List, [], ◌∷◌, ◌++◌, ◌==◌, if◌then◌else◌,
  find, map,
}
use stock_monitor.Base.Text.{Text, codes, is_empty, or_else, upper, strip}
use stock_monitor.Http.{Reply, ok, fail}
use stock_monitor.Table.{insert, next_id, update_where, delete_where}
use stock_monitor.Market.{Info, classify_new_stock}
use stock_monitor.Portfolio.{Stock, CurrentUser, owner_eq, can_access}
use stock_monitor.Portfolio.Ledger.{text_of}
use stock_monitor.Portfolio.Stocks.{Spec, find_stock, new_stock}
use stock_monitor.Alerting.{WatchlistItem}

pub record WatchlistAddRequest (N : Type 0) : Type 0 where
  pub ticker : Text
  pub notes : Option Text
  pub alert_above : Option N
  pub alert_below : Option N

pub record WatchlistDb (N : Type 0) : Type 0 where
  pub stocks : List Stock
  pub items : List (WatchlistItem N)

-- The row of a ticker. `race` holds the stocks that another session commits between the SELECT and
-- the INSERT; if one has the ticker, the INSERT violates the constraint and that row is taken.
unfoldable pub stock_of : Text → Info → List Stock → List Stock → Stock × List Stock
stock_of ticker info race stocks = elim (find_stock ticker stocks) [
  | some s ↦ (s, stocks)
  | none ↦ elim (find_stock ticker (stocks ++ race)) [
    | some s ↦ (s, stocks ++ race)
    | none ↦
        let (market, currency) = classify_new_stock ticker info in
        let s = new_stock (stocks ++ race) (record {
          ticker = ticker;
          name = or_else info.name ticker;
          market = market;
          currency = currency;
        }) in
        (s, insert s (stocks ++ race))
  ]
]

-- `if x is not None: item.x = x`
abbrev pub or_old : {A : Type 0} → Option A → Option A → Option A
or_old none b = b
or_old (some a) b = some a

module _ {N : Type 0} where
  abbrev pub item_id : WatchlistItem N → ℕ
  item_id i = i.id

  -- `WatchlistItem.stock_id == stock, WatchlistItem.user_id == user`
  abbrev pub is_listed : ℕ → ℕ → WatchlistItem N → Bool
  is_listed user stock i = owner_eq i.user_id (some user) && i.stock_id == stock

  abbrev pub is_item : ℕ → WatchlistItem N → Bool
  is_item id i = i.id == id

  abbrev pub amend : WatchlistAddRequest N → WatchlistItem N → WatchlistItem N
  amend r i = record i {
    notes = if is_empty (text_of r.notes) then i.notes else r.notes;
    alert_above = or_old r.alert_above i.alert_above;
    alert_below = or_old r.alert_below i.alert_below;
  }

  abbrev pub new_item : ℕ → ℕ → WatchlistAddRequest N → List (WatchlistItem N) → WatchlistItem N
  new_item user stock r items = record {
    id = next_id (map item_id items);
    user_id = some user;
    stock_id = stock;
    notes = r.notes;
    alert_above = r.alert_above;
    alert_below = r.alert_below;
  }

  -- The item of the stock, changed or new: its id. `more` holds the items that other sessions commit
  -- between the SELECT and the commit; no constraint of the table compares the new item with them.
  unfoldable pub list_stock :
      ℕ
      → ℕ
      → WatchlistAddRequest N
      → List (WatchlistItem N)
      → List (WatchlistItem N)
      → ℕ × List (WatchlistItem N)
  list_stock user stock r more items = elim (find (is_listed user stock) items) [
    | some i ↦ (i.id, update_where (is_item i.id) (amend r) (items ++ more))
    | none ↦ (
      next_id (map item_id (items ++ more)),
      insert (new_item user stock r (items ++ more)) (items ++ more),
    )
  ]

  unfoldable pub add_to_watchlist :
      CurrentUser
      → WatchlistAddRequest N
      → Info
      → List Stock
      → List (WatchlistItem N)
      → WatchlistDb N
      → Reply ℕ × WatchlistDb N
  unfolding stock_of list_stock
  add_to_watchlist user r info race more db =
      let ticker = upper (strip r.ticker) in
      if is_empty ticker
      then (fail 400, record db { items = db.items ++ more })
      else let (s, stocks) = stock_of ticker info race db.stocks in
        let (id, items) = list_stock user.id s.id r more db.items in
        (ok id, record { stocks = stocks; items = items })

  -- `update_watchlist_alert`
  unfoldable pub update_watchlist_alert :
      CurrentUser → ℕ → Option N → Option N → WatchlistDb N → Reply (Unit {0}) × WatchlistDb N
  update_watchlist_alert user id above below db = elim (find (is_item id) db.items) [
    | none ↦ (fail 404, db)
    | some i ↦ if not (can_access i.user_id user) then (fail 404, db) else (
      ok tt,
      record db {
        items =
            update_where (is_item id) (λ j. record j { alert_above = above; alert_below = below })
              db.items;
      },
    )
  ]

  unfoldable pub remove_from_watchlist :
      CurrentUser → ℕ → WatchlistDb N → Reply (Unit {0}) × WatchlistDb N
  remove_from_watchlist user id db = elim (find (is_item id) db.items) [
    | none ↦ (fail 404, db)
    | some i ↦
        if not (can_access i.user_id user)
        then (fail 404, db)
        else (ok tt, record db { items = delete_where (is_item id) db.items })
  ]

  unfoldable pub remove_by_ticker :
      CurrentUser → Text → WatchlistDb N → Reply (Unit {0}) × WatchlistDb N
  remove_by_ticker user ticker db = elim (find_stock (upper (strip ticker)) db.stocks) [
    | none ↦ (fail 404, db)
    | some s ↦ elim (find (is_listed user.id s.id) db.items) [
      | none ↦ (ok tt, db)
      | some i ↦ (ok tt, record db { items = delete_where (is_item i.id) db.items })
    ]
  ]
