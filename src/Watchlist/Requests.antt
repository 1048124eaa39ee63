-- ===== src/Watchlist/Requests.antt =====
-- Any sequence of requests on the watchlist.
use stock_monitor.Base.{
  ℕ, ◌≡◌, ◌∙◌, ◌⊎◌, refl, true, Option, some, List, [], ◌++◌, arith, find, inl, inr, Bool-cases,
  Option-cases,
}
use stock_monitor.Base.Text.{Text, is_empty, upper, strip}
use stock_monitor.Table.{IsUnique, find-some}
use stock_monitor.Market.{Info}
use stock_monitor.Portfolio.{Stock, CurrentUser, can_access}
use stock_monitor.Portfolio.Stocks.{find_stock}
use stock_monitor.Alerting.{WatchlistItem}
use stock_monitor.Watchlist.{
  WatchlistAddRequest, WatchlistDb, stock_of, is_listed, is_item, amend, list_stock,
  add_to_watchlist, update_watchlist_alert, remove_from_watchlist, remove_by_ticker,
}
use stock_monitor.Watchlist.Laws.{
  IsWatchlist, Keeps, owner_access, find_again, same_id, foreign, find-left, find-right,
  update-Keeps, delete-Keeps, insert_keys, insert-Keeps,
}

-- A request, with what the market service and another session contribute to it.
pub data Request (N : Type 0) : Type 0 where
  add : WatchlistAddRequest N → Info → List Stock → List (WatchlistItem N) → Request N
  set_alert : ℕ → Option N → Option N → Request N
  remove : ℕ → Request N
  remove_ticker : Text → Request N

module _ {N : Type 0} where
  -- The database that a request leaves.
  unfoldable pub handle : CurrentUser → Request N → WatchlistDb N → WatchlistDb N
  unfolding add_to_watchlist update_watchlist_alert remove_from_watchlist remove_by_ticker
  handle user (add r info race more) db = (add_to_watchlist user r info race more db).1
  handle user (set_alert id above below) db = (update_watchlist_alert user id above below db).1
  handle user (remove id) db = (remove_from_watchlist user id db).1
  handle user (remove_ticker ticker) db = (remove_by_ticker user ticker db).1

  own_access :
      (user : CurrentUser) (stock : ℕ) (items : List (WatchlistItem N)) (i : WatchlistItem N)
      → find (is_listed user.id stock) items ≡ some i
      → can_access i.user_id user ≡ true
  own_access user stock items i e =
      let h = find-some (is_listed user.id stock) items i e in
      owner_access i.user_id user (ground (arith, h))

  -- The items that other sessions commit during a request, and the table with them.
  abbrev pub arrived : Request N → List (WatchlistItem N)
  arrived (add r info race more) = more
  arrived (set_alert id above below) = []
  arrived (remove id) = []
  arrived (remove_ticker ticker) = []

  abbrev pub visible : Request N → List (WatchlistItem N) → List (WatchlistItem N)
  visible (add r info race more) items = items ++ more
  visible (set_alert id above below) items = items
  visible (remove id) items = items
  visible (remove_ticker ticker) items = items

  -- Another session of the user has listed a stock meanwhile, and the keys and the rows that the user
  -- may not touch are kept none the less.
  abbrev pub IsOvertaken :
      CurrentUser
      → List (WatchlistItem N)
      → List (WatchlistItem N)
      → List (WatchlistItem N)
      → Type 0
  IsOvertaken user more items items' =
      IsUnique same_id items'
      × (foreign user items' ≡ foreign user items)
      × ((stock : ℕ) × (i : WatchlistItem N) × (find (is_listed user.id stock) more ≡ some i))

  list_stock-Keeps :
      (user : CurrentUser) (stock : ℕ) (r : WatchlistAddRequest N)
      (more items : List (WatchlistItem N))
      → IsWatchlist (items ++ more)
      → Keeps user (items ++ more) (list_stock user.id stock r more items).1
        ⊎ IsOvertaken user more (items ++ more) (list_stock user.id stock r more items).1
  unfolding list_stock
  list_stock-Keeps user stock r more items v =
      let mine = is_listed user.id stock in
      elim (Option-cases (find (is_listed user.id stock) items)) [
        | inl e ↦ elim (Option-cases (find (is_listed user.id stock) more)) [
          | inl n ↦
              rw (e, list_stock)
                (inl
                  (insert-Keeps user stock r (items ++ more) v (find-right mine items more e ∙ n)))
          | inr (i, n) ↦
              let (keys, others) = insert_keys user stock r (items ++ more) v.keys in
              rw (e, list_stock) (inr (keys, others, (stock, i, n)))
        ]
        | inr (i, e) ↦
            rw (e, list_stock)
              (inl (
                update-Keeps user i.id (amend r) (items ++ more) i (λ x. (refl, refl, refl)) v
                  (find_again mine (items ++ more) i v.keys (find-left mine items more i e))
                  (own_access user stock items i e)))
      ]

  same-Keeps :
      (user : CurrentUser) (items : List (WatchlistItem N))
      → IsWatchlist items
      → Keeps user items items
  same-Keeps user items v = (v, refl)

  set_alert-Keeps :
      (user : CurrentUser) (id : ℕ) (above below : Option N) (db : WatchlistDb N)
      → IsWatchlist db.items
      → Keeps user db.items (handle user (set_alert id above below) db).items
  unfolding handle
  set_alert-Keeps user id above below db v = elim (Option-cases (find (is_item id) db.items)) [
    | inl e ↦ rw (e, handle, update_watchlist_alert) (same-Keeps user db.items v)
    | inr (i, e) ↦ elim (Bool-cases (can_access i.user_id user)) [
      | inr a ↦ rw (e, a, handle, update_watchlist_alert) (same-Keeps user db.items v)
      | inl a ↦
          rw (e, a, handle, update_watchlist_alert)
            (update-Keeps user id (λ j. record j { alert_above = above; alert_below = below })
              db.items i (λ x. (refl, refl, refl)) v e a)
    ]
  ]

  remove-Keeps :
      (user : CurrentUser) (id : ℕ) (db : WatchlistDb N)
      → IsWatchlist db.items
      → Keeps user db.items (handle user (remove id) db).items
  unfolding handle
  remove-Keeps user id db v = elim (Option-cases (find (is_item id) db.items)) [
    | inl e ↦ rw (e, handle, remove_from_watchlist) (same-Keeps user db.items v)
    | inr (i, e) ↦ elim (Bool-cases (can_access i.user_id user)) [
      | inr a ↦ rw (e, a, handle, remove_from_watchlist) (same-Keeps user db.items v)
      | inl a ↦ rw (e, a, handle, remove_from_watchlist) (delete-Keeps user id db.items i v e a)
    ]
  ]

  remove_ticker-Keeps :
      (user : CurrentUser) (ticker : Text) (db : WatchlistDb N)
      → IsWatchlist db.items
      → Keeps user db.items (handle user (remove_ticker ticker) db).items
  unfolding handle
  remove_ticker-Keeps user ticker db v =
      elim (Option-cases (find_stock (upper (strip ticker)) db.stocks)) [
        | inl e ↦ rw (e, handle, remove_by_ticker) (same-Keeps user db.items v)
        | inr (s, e) ↦ elim (Option-cases (find (is_listed user.id s.id) db.items)) [
          | inl k ↦ rw (e, k, handle, remove_by_ticker) (same-Keeps user db.items v)
          | inr (i, k) ↦
              rw (e, k, handle, remove_by_ticker)
                (delete-Keeps user i.id db.items i v
                  (find_again (is_listed user.id s.id) db.items i v.keys k)
                  (own_access user s.id db.items i k))
        ]
      ]

  -- From a table with one item at most for a user and a stock, what other sessions commit meanwhile
  -- included: whatever a user adds, changes or removes, the table stays such, and the items of the
  -- other users, with those of nobody for a user who is no admin, stay as they are. The one exception
  -- is an addition during which another session of the same user lists a stock: then there may be two
  -- items, but the keys are distinct and the other users' items stay as they are.
  pub handle-Keeps :
      (user : CurrentUser) (r : Request N) (db : WatchlistDb N)
      → IsWatchlist (visible r db.items)
      → Keeps user (visible r db.items) (handle user r db).items
        ⊎ IsOvertaken user (arrived r) (visible r db.items) (handle user r db).items
  unfolding handle add_to_watchlist
  handle-Keeps user (add r info race more) db v =
      elim (Bool-cases (is_empty (upper (strip r.ticker)))) [
        | inl e ↦ rw (e, handle, add_to_watchlist) (inl (same-Keeps user (db.items ++ more) v))
        | inr e ↦
            let s = stock_of (upper (strip r.ticker)) info race db.stocks in
            rw (e, handle, add_to_watchlist) (list_stock-Keeps user s.0.id r more db.items v)
      ]
  handle-Keeps user (set_alert id above below) db v = inl (set_alert-Keeps user id above below db v)
  handle-Keeps user (remove id) db v = inl (remove-Keeps user id db v)
  handle-Keeps user (remove_ticker ticker) db v = inl (remove_ticker-Keeps user ticker db v)
