-- ===== src/Portfolio/Ledger/Removal.antt =====
-- `delete_transaction` of backend/routers/portfolio.py: the ledger loses a row, and the position is
-- computed again from the movements that remain.
use stock_monitor.Base.{
  ℕ, Bool, true, false, not, ◌||◌, ◌&&◌, Option, none, some, List, [], ◌∷◌, map, leb, ltb, ◌==◌,
  if◌then◌else◌, find, filter,
}
use stock_monitor.Float.{Float, ◌-◌, ◌*◌, ◌/◌, lt, le, decimal, round, zero, sum}
use stock_monitor.Http.{Reply, ok, fail}
use stock_monitor.Table.{next_id, insert, update_where, delete_where}
use stock_monitor.Portfolio.{
  Holding, Kind, buy, sell, Transaction, Db, CurrentUser, owner_eq, can_access, commit_write,
}
use stock_monitor.Portfolio.Positions.{held_by}
use stock_monitor.Portfolio.Ledger.{Outside, day_of, row_id}

abbrev pub is_buy : Kind → Bool
is_buy buy = true
is_buy _ = false

abbrev pub is_sell : Kind → Bool
is_sell sell = true
is_sell _ = false

-- A row of nobody that an admin may touch counts as the admin's.
abbrev pub effective_owner : Option ℕ → ℕ → ℕ
effective_owner none user = user
effective_owner (some u) user = u

module _ {N : Type 0} ⦃f : Float N⦄ where
  -- The BUY and SELL rows of one position, `ORDER BY transaction_date, id`.
  abbrev pub earlier : Transaction N → Transaction N → Bool
  earlier s t =
      ltb s.transaction_date t.transaction_date
      || (s.transaction_date == t.transaction_date && leb s.id t.id)

  unfoldable pub insert_ordered : Transaction N → List (Transaction N) → List (Transaction N)
  insert_ordered t [] = t ∷ []
  insert_ordered t (s ∷ ss) = if earlier s t then s ∷ insert_ordered t ss else t ∷ s ∷ ss

  unfoldable pub in_order : List (Transaction N) → List (Transaction N)
  unfolding insert_ordered
  in_order [] = []
  in_order (t ∷ ts) = insert_ordered t (in_order ts)

  abbrev pub moves : ℕ → ℕ → Transaction N → Bool
  moves owner stock t =
      (owner_eq t.user_id (some owner) && t.stock_id == stock) && (is_buy t.type || is_sell t.type)

  unfoldable pub movements : ℕ → ℕ → List (Transaction N) → List (Transaction N)
  unfolding in_order
  movements owner stock ts = in_order (filter (moves owner stock) ts)

  abbrev pub bought : List (Transaction N) → List (Transaction N)
  bought = filter (λ t. is_buy t.type)

  abbrev pub sold : List (Transaction N) → List (Transaction N)
  sold = filter (λ t. is_sell t.type)

  abbrev pub quantities : List (Transaction N) → List N
  quantities = map (λ (t : Transaction N). t.quantity)

  abbrev pub costs : List (Transaction N) → List N
  costs = map (λ (t : Transaction N). t.quantity * t.price)

  -- `total_qty` and `new_avg` of `delete_transaction`
  abbrev pub net_quantity : List (Transaction N) → N
  net_quantity ms = sum (quantities (bought ms)) - sum (quantities (sold ms))

  abbrev pub average_cost : List (Transaction N) → Option N
  average_cost ms =
      let quantity = sum (quantities (bought ms)) in
      if lt zero quantity then some (sum (costs (bought ms)) / quantity) else none

  abbrev pub set_lot : N → Option N → Holding N → Holding N
  set_lot quantity none h = record h { quantity = quantity }
  set_lot quantity (some average) h = record h {
    quantity = quantity;
    avg_purchase_price = round 4 average;
  }

  abbrev pub first_day : ℕ → List (Transaction N) → ℕ
  first_day today [] = today
  first_day today (t ∷ ts) = day_of t.transaction_date

  abbrev pub rounded_or_zero : Option N → N
  rounded_or_zero none = round 4 zero
  rounded_or_zero (some a) = round 4 a

  abbrev pub is_row : ℕ → Holding N → Bool
  is_row id g = g.id == id

  -- The position that the remaining movements leave.
  unfoldable pub rebuild : ℕ → ℕ → ℕ → List (Transaction N) → List (Holding N) → List (Holding N)
  rebuild today owner stock ms hs =
      if le (net_quantity ms) (decimal 1 4)
      then elim (find (held_by owner stock) hs) [
        | none ↦ hs
        | some h ↦ delete_where (is_row h.id) hs
      ]
      else elim (find (held_by owner stock) hs) [
        | some h ↦
            update_where (is_row h.id) (set_lot (round 4 (net_quantity ms)) (average_cost ms)) hs
        | none ↦
            insert
              (record {
                id = next_id (map row_id hs);
                user_id = some owner;
                stock_id = stock;
                quantity = round 4 (net_quantity ms);
                avg_purchase_price = rounded_or_zero (average_cost ms);
                purchase_date = some (first_day today (bought ms));
                notes = none;
              })
              hs
      ]

  abbrev pub has_id : ℕ → Transaction N → Bool
  has_id id t = t.id == id

  unfoldable pub remove_transaction : CurrentUser → ℕ → ℕ → Db N → Reply (Unit {0} × Db N)
  unfolding movements rebuild
  remove_transaction user today id db = elim (find (has_id id) db.transactions) [
    | none ↦ fail 404
    | some t ↦
        let owner = effective_owner t.user_id user.id in
        let rest = delete_where (has_id t.id) db.transactions in
        if not (can_access t.user_id user)
        then fail 404
        else ok (
          tt,
          record db {
            transactions = rest;
            holdings = rebuild today owner t.stock_id (movements owner t.stock_id rest) db.holdings;
          },
        )
  ]

  unfoldable pub delete_transaction : CurrentUser → ℕ → Outside → Db N → Reply (Unit {0}) × Db N
  unfolding remove_transaction
  delete_transaction user id out db =
      commit_write out.commit db (remove_transaction user out.today id db)
