-- ===== src/Portfolio/Ledger/Recompute.antt =====
-- What `delete_transaction` leaves: the position that the remaining movements give, and nothing
-- else changed. A deletion of any row, a dividend too, recomputes the position in this way.
use stock_monitor.Base.{
  ℕ, ◌≡◌, refl, true, false, Option, none, some, List, [], map, arith, find, filter, inl, inr,
  Bool-cases, Option-cases,
}
use stock_monitor.Float.{Float, le, decimal, round}
use stock_monitor.Http.{Reply, ok, fail, Returns}
use stock_monitor.Table.{next_id, delete_where}
use stock_monitor.Portfolio.{
  Holding, Transaction, Db, CurrentUser, can_access, Commit, committed, busy, conflict,
  commit_write,
}
use stock_monitor.Portfolio.Positions.{held_by, others}
use stock_monitor.Portfolio.Positions.Lookup.{
  IsValid, update-IsValid, delete-IsValid, insert-IsValid, find-update, find-delete, find-insert,
  others-update, others-delete, others-insert, Touches-row, KeepsRow,
}
use stock_monitor.Portfolio.Ledger.{Outside, row_id}
use stock_monitor.Portfolio.Ledger.Removal.{
  moves, movements, in_order, bought, net_quantity, average_cost, set_lot, is_row, rebuild,
  effective_owner, has_id, remove_transaction, delete_transaction, rounded_or_zero, first_day,
}

module _ {N : Type 0} ⦃f : Float N⦄ where
  -- The position agrees with the net quantity of the movements: none is left at 0.0001 or less,
  -- and otherwise it holds the net quantity, rounded to four decimals.
  abbrev pub Agrees : N → Option (Holding N) → Type 0
  Agrees net none = le net (decimal 1 4) ≡ true
  Agrees net (some h) = (le net (decimal 1 4) ≡ false) × (h.quantity ≡ round 4 net)

  module _ (today owner stock : ℕ) (ms : List (Transaction N)) (hs : List (Holding N))
      (valid : IsValid hs) where
    abbrev Rebuilt : List (Holding N) → Type 0
    Rebuilt hs' =
        IsValid hs'
        × (others owner hs' ≡ others owner hs)
        × Agrees (net_quantity ms) (find (held_by owner stock) hs')

    abbrev new_row : Holding N
    new_row = record {
      id = next_id (map row_id hs);
      user_id = some owner;
      stock_id = stock;
      quantity = round 4 (net_quantity ms);
      avg_purchase_price = rounded_or_zero (average_cost ms);
      purchase_date = some (first_day today (bought ms));
      notes = none;
    }

    keeps_row : (q : N) (a : Option N) → KeepsRow (set_lot q a)
    keeps_row q none h = (refl, refl, refl)
    keeps_row q (some a) h = (refl, refl, refl)

    keeps_held :
        (q : N) (a : Option N) (h : Holding N)
        → held_by owner stock (set_lot q a h) ≡ held_by owner stock h
    keeps_held q none h = refl
    keeps_held q (some a) h = refl

    sets_quantity : (q : N) (a : Option N) (h : Holding N) → (set_lot q a h).quantity ≡ q
    sets_quantity q none h = refl
    sets_quantity q (some a) h = refl

    rebuild_found :
        (h : Holding N)
        → find (held_by owner stock) hs ≡ some h
        → Rebuilt (rebuild today owner stock ms hs)
    unfolding rebuild
    rebuild_found h e = elim (Bool-cases (le (net_quantity ms) (decimal 1 4))) [
      | inl small ↦
          rw (small, e)
            (
              delete-IsValid (is_row h.id) hs valid,
              others-delete owner (is_row h.id) hs (Touches-row owner stock hs h valid.keys e),
              rw (find-delete owner stock (is_row h.id) hs h e (ground arith) valid.positions)
                  small,
            )
      | inr large ↦
          let lot = set_lot (round 4 (net_quantity ms)) (average_cost ms) in
          let kept = keeps_row (round 4 (net_quantity ms)) (average_cost ms) in
          rw (large, e)
            (
              update-IsValid (is_row h.id) lot hs kept valid,
              others-update owner (is_row h.id) lot hs kept
                  (Touches-row owner stock hs h valid.keys e),
              rw
                  (find-update (held_by owner stock) (is_row h.id) lot hs h
                    (keeps_held (round 4 (net_quantity ms)) (average_cost ms)) e)
                  (
                    large,
                    ground (arith, sets_quantity (round 4 (net_quantity ms)) (average_cost ms) h),
                  ),
            )
    ]

    rebuild-none : find (held_by owner stock) hs ≡ none → Rebuilt (rebuild today owner stock ms hs)
    unfolding rebuild
    rebuild-none e = elim (Bool-cases (le (net_quantity ms) (decimal 1 4))) [
      | inl small ↦ rw (small, e) (valid, refl, rw e small)
      | inr large ↦
          rw (large, e)
            (
              insert-IsValid owner stock new_row hs refl refl refl e valid,
              others-insert owner new_row hs (ground arith),
              rw (find-insert (held_by owner stock) new_row hs e (ground arith)) (large, refl),
            )
    ]

    pub rebuild-Rebuilt : Rebuilt (rebuild today owner stock ms hs)
    rebuild-Rebuilt = elim (Option-cases (find (held_by owner stock) hs)) [
      | inl e ↦ rebuild-none e
      | inr (h, e) ↦ rebuild_found h e
    ]

  abbrev pub after : ℕ → Db N → List (Transaction N)
  after id db = delete_where (has_id id) db.transactions

  -- What the deletion of the row `t` has done to the database, by how the request ended.
  abbrev pub Removed : CurrentUser → Transaction N → Db N → Reply (Unit {0}) × Db N → Type 0
  Removed user t db (fail c, db') = db' ≡ db
  Removed user t db (ok done, db') =
      let owner = effective_owner t.user_id user.id in
      IsValid db'.holdings
      × (others owner db'.holdings ≡ others owner db.holdings)
      × (db'.transactions ≡ after t.id db)
      × Agrees (net_quantity (movements owner t.stock_id (after t.id db)))
          (find (held_by owner t.stock_id) db'.holdings)

  abbrev PendingRemoval : CurrentUser → Transaction N → Db N → (Unit {0}) × Db N → Type 0
  PendingRemoval user t db (done, db') = Removed user t db (ok done, db')

  remove_transaction_effect :
      (user : CurrentUser) (today id : ℕ) (db : Db N) (t : Transaction N)
      → IsValid db.holdings
      → find (has_id id) db.transactions ≡ some t
      → Returns (PendingRemoval user t db) (remove_transaction user today id db)
  unfolding remove_transaction
  remove_transaction_effect user today id db t valid e =
      let owner = effective_owner t.user_id user.id in
      elim (Bool-cases (can_access t.user_id user)) [
        | inl a ↦
            let r =
              rebuild-Rebuilt today owner t.stock_id (movements owner t.stock_id (after t.id db))
                db.holdings valid in
            rw (e, a, remove_transaction) (r.0, r.1, refl, r.2)
        | inr a ↦ rw (e, a, remove_transaction) tt
      ]

  commit-Removed :
      (user : CurrentUser) (t : Transaction N) (c : Commit) (db : Db N)
      (m : Reply ((Unit {0}) × Db N))
      → Returns (PendingRemoval user t db) m
      → Removed user t db (commit_write c db m)
  commit-Removed user t c db (fail s) h = refl
  commit-Removed user t committed db (ok (u, db')) h = h
  commit-Removed user t busy db (ok (u, db')) h = refl
  commit-Removed user t conflict db (ok (u, db')) h = refl

  -- From a valid table of holdings, `delete_transaction` of an existing row either answers with an
  -- error and changes nothing, or removes that row from the ledger, leaves a valid table of
  -- holdings and the rows of the other users, and makes the position of the row's owner in the
  -- row's stock agree with the purchases less the sales that remain in the ledger.
  pub delete_transaction_effect :
      (user : CurrentUser) (id : ℕ) (out : Outside) (db : Db N) (t : Transaction N)
      → IsValid db.holdings
      → find (has_id id) db.transactions ≡ some t
      → Removed user t db (delete_transaction user id out db)
  unfolding delete_transaction
  delete_transaction_effect user id out db t valid e =
      commit-Removed user t out.commit db (remove_transaction user out.today id db)
        (remove_transaction_effect user out.today id db t valid e)

  -- A row of another user, or of nobody for a user who is no admin, is not deleted: the answer is
  -- 404 and the database is as it was. So it is for an id that no row has.
  delete_transaction_denied :
      (user : CurrentUser) (id : ℕ) (out : Outside) (db : Db N)
      → ((t : Transaction N)
          → find (has_id id) db.transactions ≡ some t
          → can_access t.user_id user ≡ false)
      → delete_transaction user id out db ≡ (fail 404, db)
  unfolding delete_transaction remove_transaction
  delete_transaction_denied user id out db denied =
      elim (Option-cases (find (has_id id) db.transactions)) [
        | inl e ↦ rw (e, remove_transaction)
        | inr (t, e) ↦ rw (e, denied t e, remove_transaction)
      ]

  module _ (user : CurrentUser) (id : ℕ) (out : Outside) (db : Db N) (t : Transaction N)
      (found : find (has_id id) db.transactions ≡ some t) (own : t.user_id ≡ some user.id)
      (done : out.commit ≡ committed) where
    abbrev left_movements : List (Transaction N)
    left_movements = movements user.id t.stock_id (after t.id db)

    removal_holdings :
        (delete_transaction user id out db).1.holdings
        ≡ rebuild out.today user.id t.stock_id left_movements db.holdings
    unfolding delete_transaction remove_transaction
    removal_holdings = ground (arith, found, own, done)

    -- A position that no purchase or sale in the ledger accounts for, such as one entered by hand,
    -- goes with a dividend: when a user deletes a row of their own, the commit succeeds, and no BUY
    -- or SELL of the user in that stock is left, then no position is left either, if 0.0 - 0.0 is
    -- at most 0.0001 and the table of holdings was valid.
    pub delete_transaction_drops_position :
        IsValid db.holdings
        → filter (moves user.id t.stock_id) (after t.id db) ≡ []
        → f.le (f.sub (f.decimal 0 0) (f.decimal 0 0)) (f.decimal 1 4) ≡ true
        → find (held_by user.id t.stock_id) (delete_transaction user id out db).1.holdings ≡ none
    delete_transaction_drops_position valid nothing small = rw removal_holdings (
        agrees_none _
          (rebuild-Rebuilt out.today user.id t.stock_id left_movements db.holdings valid).2)
      where
        no_movement : left_movements ≡ []
        no_movement = unfold movements in_order in rw nothing

        tiny : le (net_quantity left_movements) (decimal 1 4) ≡ true
        tiny = rw no_movement small

        agrees_none : (o : Option (Holding N)) → Agrees (net_quantity left_movements) o → o ≡ none
        agrees_none none a = refl
        agrees_none (some h) a = cc (a.0, tiny)
