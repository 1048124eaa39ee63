-- ===== src/Alerting/Run.antt =====
-- `check_alerts` of backend/services/alerting.py: the prices of a run, what each rule, item and
-- position comes to, and the run.
use stock_monitor.Base.{
  ℕ, Bool, true, false, not, ◌||◌, ◌&&◌, Option, none, some, List, [], ◌∷◌, ◌++◌, map, ◌==◌,
  if◌then◌else◌, filter,
}
use stock_monitor.Base.Text.{Text, codes, text_eq, or_else}
use stock_monitor.Float.{Float, ◌-◌, ◌*◌, ◌/◌, lt, le, decimal, round, truthy, zero}
use stock_monitor.Portfolio.{Stock, Holding, owner_eq}
use stock_monitor.Portfolio.Ledger.{text_of}
use stock_monitor.Portfolio.Valuation.{Price, newest_first}
use stock_monitor.Alerting.{
  AlertRule, WatchlistItem, Watched, Key, rule_key, item_key, holding_key, pause, Times, set_time,
  evict, is_throttled, Entry, Alert, moved, stop_loss, take_profit, Check, resolve_admin_user_id,
  with_stocks, stocks_by_id,
}

-- `stock.name or stock.ticker`
abbrev pub name_of : Stock → Text
name_of s = or_else s.name s.ticker

abbrev pub tickers : List Stock → List Text
tickers = map (λ (s : Stock). s.ticker)

module _ {N : Type 0} where
  abbrev pub has_close : Price N → Bool
  has_close p = elim p.close [ none ↦ false | some c ↦ true ]

  -- The closes of a stock, the newest first.
  unfoldable pub closes_of : ℕ → List (Price N) → List (Price N)
  unfolding newest_first
  closes_of id ps = newest_first (filter (λ p. p.stock_id == id && has_close p) ps)

  abbrev pub second : List (Price N) → Option N
  second [] = none
  second (p ∷ []) = none
  second (p ∷ q ∷ qs) = q.close

  -- One check under the throttle: the times behind it, and the message with its key.
  unfoldable pub settle_check : ℕ → Check N → Times → Times × List (Key × Alert N)
  settle_check now c times = elim c.alert [
    | none ↦ (times, [])
    | some a ↦
        if is_throttled (pause c.key) now (times c.key)
        then (times, [])
        else (set_time c.key now times, (c.key, a) ∷ [])
  ]

  -- The loops over rules, items and positions.
  unfoldable pub perform : ℕ → List (Check N) → Times → Times × List (Key × Alert N)
  unfolding settle_check
  perform now [] times = (times, [])
  perform now (c ∷ cs) times =
      let (times', sent) = settle_check now c times in
      let (times'', more) = perform now cs times' in (times'', sent ++ more)

  -- The user's rows of a run.
  abbrev pub own_rules : ℕ → Watched N → List (AlertRule N × Stock)
  own_rules user db =
      with_stocks (λ (r : AlertRule N). r.stock_id)
        (λ r. r.is_active && owner_eq r.user_id (some user)) db.stocks db.rules

  abbrev pub own_items : ℕ → Watched N → List (WatchlistItem N × Stock)
  own_items user db =
      with_stocks (λ (i : WatchlistItem N). i.stock_id) (λ i. owner_eq i.user_id (some user))
        db.stocks db.items

  abbrev pub own_holdings : ℕ → Watched N → List (Holding N × Stock)
  own_holdings user db =
      with_stocks (λ (h : Holding N). h.stock_id) (λ h. owner_eq h.user_id (some user)) db.stocks
        db.holdings

  -- `valid_keys`
  unfoldable pub valid_keys : ℕ → Watched N → List Key
  unfolding with_stocks
  valid_keys user db =
      map (λ ((r, s) : AlertRule N × Stock). rule_key r.id) (own_rules user db)
      ++ map (λ ((i, s) : WatchlistItem N × Stock). item_key i.id) (own_items user db)
      ++ map (λ ((h, s) : Holding N × Stock). holding_key h.id) (own_holdings user db)

  unfoldable pub stocks_of : ℕ → Watched N → List Stock
  unfolding with_stocks stocks_by_id
  stocks_of user db = stocks_by_id [] (
      map (λ ((r, s) : AlertRule N × Stock). s) (own_rules user db)
      ++ map (λ ((i, s) : WatchlistItem N × Stock). s) (own_items user db)
      ++ map (λ ((h, s) : Holding N × Stock). s) (own_holdings user db))

module _ {N : Type 0} ⦃f : Float N⦄ where
  -- `_valid_price`
  abbrev pub valid_price : Option N → Bool
  valid_price none = false
  valid_price (some x) = lt zero x

  -- The change in percent between the last two closes, or 0.0.
  abbrev pub change_between : N → Option N → N
  change_between last none = zero
  change_between last (some prev) =
      if truthy prev then round 2 (round 3 (last - prev) / prev * decimal 100 0) else zero

  abbrev pub entry_of : List (Price N) → Option (Entry N)
  entry_of [] = none
  entry_of (p ∷ ps) = elim p.close [
    | none ↦ none
    | some c ↦ some (record {
      close = some c;
      change_percent = some (change_between c (second (p ∷ ps)));
      stale = true;
    })
  ]

  -- `_last_db_prices`, and the entry that is made of it.
  unfoldable pub last_db_price : List (Price N) → ℕ → Option (Entry N)
  unfolding closes_of
  last_db_price ps id = entry_of (closes_of id ps)

  abbrev pub close_of : Option (Entry N) → Option N
  close_of none = none
  close_of (some e) = e.close

  -- A stock whose batch entry is missing, unusable or stale.
  abbrev pub is_missing : (Text → Option (Entry N)) → Stock → Bool
  is_missing batch s =
      not (valid_price (close_of (batch s.ticker)))
      || elim (batch s.ticker) [ none ↦ false | some e ↦ e.stale ]

  -- The entries of the missing stocks give way to the database's, or go.
  unfoldable pub replaced :
      List (Price N) → List Stock → (Text → Option (Entry N)) → Text → Option (Entry N)
  replaced ps [] m t = m t
  replaced ps (s ∷ ss) m t =
      replaced ps ss (λ u. if text_eq u s.ticker then last_db_price ps s.id else m u) t

  unfoldable pub prices_map :
      List (Price N) → List Stock → (Text → Option (Entry N)) → Text → Option (Entry N)
  unfolding replaced
  prices_map ps stocks batch = replaced ps (filter (is_missing batch) stocks) batch

  -- `float(x or 0.0)`
  abbrev pub or_zero : Option N → N
  or_zero none = zero
  or_zero (some x) = if truthy x then x else zero

  abbrev pub price_in : Option (Entry N) → N
  price_in none = zero
  price_in (some e) = or_zero e.close

  abbrev pub change_in : Option (Entry N) → N
  change_in none = zero
  change_in (some e) = or_zero e.change_percent

  abbrev pub crosses : Text → N → N → Bool
  crosses direction change threshold =
      if text_eq direction (codes "UP")
      then le threshold change
      else if text_eq direction (codes "DOWN")
      then le change (f.neg threshold)
      else text_eq direction (codes "BOTH") && le threshold (f.abs change)

  -- A rule on the change of the day.
  unfoldable pub rule_check : (Text → Option (Entry N)) → AlertRule N × Stock → Check N
  rule_check m (r, s) =
      let change = change_in (m s.ticker) in
      record {
        key = rule_key r.id;
        alert = elim r.threshold_percent [
          | none ↦ none
          | some threshold ↦
              if crosses (or_else (text_of r.direction) (codes "BOTH")) change threshold
              then some (moved (name_of s) s.ticker change (price_in (m s.ticker)))
              else none
        ];
      }

  -- `x and …`, for a threshold that may be NULL or 0.0
  abbrev pub if_set : Option N → (N → Bool) → Bool
  if_set none test = false
  if_set (some x) test = truthy x && test x

  -- The thresholds of an item of the watchlist.
  unfoldable pub item_check : (Text → Option (Entry N)) → WatchlistItem N × Stock → Check N
  item_check m (i, s) =
      let price = price_in (m s.ticker) in
      record {
        key = item_key i.id;
        alert =
            if le price zero
            then none
            else if if_set i.alert_above (λ x. le x price) || if_set i.alert_below (λ x. le price x)
            then some (moved (name_of s) s.ticker zero price)
            else none;
      }

  abbrev pub pnl_of : N → N → N
  pnl_of price avg = (price - avg) / avg * decimal 100 0

  -- Stop-loss and take-profit of a position.
  unfoldable pub holding_check : (Text → Option (Entry N)) → Holding N × Stock → Check N
  holding_check m (h, s) =
      let price = price_in (m s.ticker) in
      let avg = h.avg_purchase_price in
      record {
        key = holding_key h.id;
        alert =
            if le avg zero || le price zero
            then none
            else if le (pnl_of price avg) (f.neg (decimal 8 0))
            then some (stop_loss (name_of s) s.ticker (pnl_of price avg) price avg)
            else if le (decimal 15 0) (pnl_of price avg)
            then some (take_profit (name_of s) s.ticker (pnl_of price avg) price avg)
            else none;
      }

  unfoldable pub checks_of : ℕ → Watched N → (Text → Option (Entry N)) → List (Check N)
  unfolding with_stocks rule_check item_check holding_check
  checks_of user db m =
      map (rule_check m) (own_rules user db)
      ++ map (item_check m) (own_items user db)
      ++ map (holding_check m) (own_holdings user db)

  -- The run over the stocks involved; it ends where there is none.
  unfoldable pub run_over :
      (List Text → Text → Option (Entry N))
      → ℕ
      → ℕ
      → Watched N
      → List Stock
      → Times
      → Times × List (Key × Alert N)
  unfolding prices_map checks_of perform
  run_over fetch user now db [] times = (times, [])
  run_over fetch user now db (s ∷ ss) times =
      let batch = fetch (tickers (s ∷ ss)) in
      perform now (checks_of user db (prices_map db.prices (s ∷ ss) batch)) times

  -- The run of the user whose alerts are sent.
  unfoldable pub run_user :
      (List Text → Text → Option (Entry N))
      → ℕ
      → ℕ
      → Watched N
      → Times
      → Times × List (Key × Alert N)
  unfolding evict valid_keys stocks_of run_over
  run_user fetch user now db times =
      run_over fetch user now db (stocks_of user db) (evict (valid_keys user db) times)

  unfoldable pub check_alerts :
      Bool
      → Text
      → (List Text → Text → Option (Entry N))
      → ℕ
      → Watched N
      → Times
      → Times × List (Key × Alert N)
  unfolding resolve_admin_user_id run_user
  check_alerts is_open admin_name fetch now db times =
      if not is_open then (times, []) else elim (resolve_admin_user_id admin_name db.users) [
        | none ↦ (times, [])
        | some user ↦ run_user fetch user now db times
      ]
