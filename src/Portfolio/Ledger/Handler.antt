-- ===== src/Portfolio/Ledger/Handler.antt =====
-- `create_transaction` as a whole: it raises and changes nothing, or it adds one row to the ledger,
-- keeps the table of holdings valid, and leaves the rows of the other users as they were.
use stock_monitor.Base.{
  ℕ, ◌≡◌, refl, none, some, List, map, arith, find, inl, inr, Bool-cases, Option-cases,
}
use stock_monitor.Base.Text.{upper, strip, is_empty}
use stock_monitor.Float.{Float, zero}
use stock_monitor.Http.{
  Reply, ok, fail, or_fail, fail_if, Returns, Returns-if, Returns-bind, Returns-then,
}
use stock_monitor.Table.{next_id, insert}
use stock_monitor.Portfolio.{
  Stock, Holding, Kind, buy, sell, dividend, Transaction, Db, CurrentUser, committed, busy,
  conflict, Commit, commit_write,
}
use stock_monitor.Portfolio.Positions.{held_by, others}
use stock_monitor.Portfolio.Positions.Lookup.{IsValid, insert-IsValid, others-insert}
use stock_monitor.Portfolio.Ledger.{
  TransactionCreate, Outside, buy_shares, sell_shares, dividend_profit, apply_kind, parse_kind,
  resolve_stock, record_transaction, create_transaction, row_id, day_of, date_or, is_acceptable,
}
use stock_monitor.Portfolio.Ledger.Trades.{Keeps, sell-Keeps, buy-Keeps}

module _ {N : Type 0} ⦃f : Float N⦄ where
  module _ (user : ℕ) (stock : Stock) (tx : TransactionCreate N) (hs : List (Holding N))
      (valid : IsValid hs) where
    open_position-Keeps :
        (date : ℕ)
        → find (held_by user stock.id) hs ≡ none
        → Returns (Keeps user hs) (buy_shares user stock tx date hs)
    unfolding buy_shares
    open_position-Keeps date e = rw e (search (Returns-if, tt, opened) depth 8)
      where
        z : Holding N
        z = record {
          id = next_id (map row_id hs);
          user_id = some user;
          stock_id = stock.id;
          quantity = tx.quantity;
          avg_purchase_price = tx.price;
          purchase_date = some (day_of date);
          notes = tx.notes;
        }

        opened : Keeps user hs (insert z hs)
        opened = (
          insert-IsValid user stock.id z hs refl refl refl e valid,
          others-insert user z hs (ground arith),
        )

    no_sale :
        find (held_by user stock.id) hs ≡ none
        → Returns (λ (profit, hs'). Keeps user hs hs') (sell_shares user stock tx hs)
    unfolding sell_shares
    no_sale e = rw e (search (Returns-if, tt) depth 8)

    buys : (date : ℕ) → Returns (Keeps user hs) (buy_shares user stock tx date hs)
    buys date = elim (Option-cases (find (held_by user stock.id) hs)) [
      | inl e ↦ open_position-Keeps date e
      | inr (h, e) ↦ buy-Keeps user stock tx hs h valid e date
    ]

    sells : Returns (λ (profit, hs'). Keeps user hs hs') (sell_shares user stock tx hs)
    sells = elim (Option-cases (find (held_by user stock.id) hs)) [
      | inl e ↦ no_sale e
      | inr (h, e) ↦ sell-Keeps user stock tx hs h valid e
    ]

    apply_kind-Keeps :
        (kind : Kind) (date : ℕ)
        → Returns (λ (profit, hs'). Keeps user hs hs') (apply_kind kind user stock tx date hs)
    unfolding apply_kind
    apply_kind-Keeps buy date =
        Returns-then (λ r. Keeps user hs r.1) (Keeps user hs) (buy_shares user stock tx date hs)
          (λ hs'. ok (zero, hs')) (buys date) (λ hs' k. k)
    apply_kind-Keeps sell date = sells
    apply_kind-Keeps dividend date =
        Returns-bind (λ r. Keeps user hs r.1) (dividend_profit tx) (λ p. ok (p, hs))
          (λ p e. (valid, refl))

  -- The effect of a request of `user` on the database, by how it ended.
  abbrev pub Recorded : CurrentUser → Db N → Reply (Transaction N) × Db N → Type 0
  Recorded user db (fail c, db') = db' ≡ db
  Recorded user db (ok t, db') =
      IsValid db'.holdings
      × (others user.id db'.holdings ≡ others user.id db.holdings)
      × (db'.transactions ≡ insert t db.transactions)
      × (t.user_id ≡ some user.id)
      × (db'.targets ≡ db.targets)

  abbrev pub Pending : CurrentUser → Db N → Transaction N × Db N → Type 0
  Pending user db (t, db') = Recorded user db (ok t, db')

  record_transaction-Pending :
      (user : CurrentUser) (tx : TransactionCreate N) (out : Outside) (db : Db N)
      → IsValid db.holdings
      → Returns (Pending user db) (record_transaction user tx out db)
  unfolding record_transaction
  record_transaction-Pending user tx out db valid =
      let P = Pending user db in
      Returns-bind P (or_fail (parse_kind tx.type) 400) _ λ kind _.
        Returns-bind P (fail_if (is_empty (upper (strip tx.ticker))) 400) _ λ _ _.
          Returns-bind P (resolve_stock (upper (strip tx.ticker)) out.info out.races db.stocks) _
            λ s _.
              let date = date_or tx.transaction_date out.now in
              Returns-then P (λ r. Keeps user.id db.holdings r.1)
                (apply_kind kind user.id s.0 tx date db.holdings) _
                (apply_kind-Keeps user.id s.0 tx db.holdings valid kind date)
                (λ r k. (k.0, k.1, refl, refl, refl))

  commit-Recorded :
      (user : CurrentUser) (c : Commit) (db : Db N) (m : Reply (Transaction N × Db N))
      → Returns (Pending user db) m
      → Recorded user db (commit_write c db m)
  commit-Recorded user c db (fail s) h = refl
  commit-Recorded user committed db (ok (t, db')) h = h
  commit-Recorded user busy db (ok (t, db')) h = refl
  commit-Recorded user conflict db (ok (t, db')) h = refl

  -- From a valid table of holdings, `create_transaction` either answers with an error and leaves
  -- the whole database as it was, or appends exactly the row that it answers with to the ledger,
  -- under the user's id, leaves a valid table of holdings, and touches neither the holdings of
  -- other users nor any target allocation; whatever the input and the database's answers.
  pub create_transaction_effect :
      (user : CurrentUser) (tx : TransactionCreate N) (out : Outside) (db : Db N)
      → IsValid db.holdings
      → Recorded user db (create_transaction user tx out db)
  unfolding create_transaction
  create_transaction_effect user tx out db valid = elim (Bool-cases (is_acceptable tx)) [
    | inl e ↦ rw e (
        commit-Recorded user out.commit db (record_transaction user tx out db)
          (record_transaction-Pending user tx out db valid))
    | inr e ↦ rw e
  ]
