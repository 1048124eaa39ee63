-- ===== src/Portfolio/Ledger.antt =====
-- The trade ledger of backend/routers/portfolio.py: `create_transaction`; the
-- deletion is in `Removal`.
-- What `resolve_stock_info` answers for an unknown ticker, the current time, the races of the
-- stock's creation and the answer to the COMMIT come from outside, as a record `Outside`.
pub mod Removal
pub mod Trades
pub mod Handler
pub mod Recompute
mod Tests
use stock_monitor.Base.{
  ℕ, ◌/◌ as quotient, Bool, true, false, not, ◌||◌, ◌&&◌, Option, none, some, List, [], ◌∷◌, map,
  leb, ltb, ◌==◌, if◌then◌else◌, find, filter,
}
use stock_monitor.Base.Text.{Text, codes, text_eq, is_empty, or_else, strip, upper}
use stock_monitor.Float.{
  Float, ◌+◌, ◌-◌, ◌*◌, ◌/◌, lt, le, decimal, round, zero, truthy, divide, sum,
}
use stock_monitor.Http.{Reply, ok, fail, ◌>>=◌, ◌>>◌, fail_if, or_fail}
use stock_monitor.Table.{next_id, insert, update_where, delete_where, count_where}
use stock_monitor.Market.{Info, classify_new_stock}
use stock_monitor.Portfolio.{
  Stock, Holding, Kind, buy, sell, dividend, Transaction, Db, CurrentUser, owner_eq, can_access,
  Commit, commit_write,
}
use stock_monitor.Portfolio.Positions.{held_by}
use stock_monitor.Portfolio.Stocks.{Spec, Races, find_stock, ensure_stocks}

pub record Outside : Type 0 where
  pub now : ℕ
  pub today : ℕ
  pub info : Info
  pub races : Races
  pub commit : Commit

pub record TransactionCreate (N : Type 0) : Type 0 where
  pub ticker : Text
  pub type : Text
  pub quantity : N
  pub price : N
  pub fee : N
  pub transaction_date : Option ℕ
  pub notes : Option Text

abbrev pub day_of : ℕ → ℕ
day_of t = quotient t 86400

abbrev pub text_of : Option Text → Text
text_of none = []
text_of (some t) = t

-- `(tx_in.type or "BUY").strip().upper()`, and the test that follows it
unfoldable pub parse_kind : Text → Option Kind
parse_kind raw =
    let t = upper (strip (or_else raw (codes "BUY"))) in
    if text_eq t (codes "BUY")
    then some buy
    else if text_eq t (codes "SELL")
    then some sell
    else if text_eq t (codes "DIVIDEND")
    then some dividend
    else none

-- The stock of the request, created if its ticker is new.
unfoldable pub resolve_stock : Text → Info → Races → List Stock → Reply (Stock × List Stock)
resolve_stock ticker info races stocks = elim (find_stock ticker stocks) [
  | some s ↦ ok (s, stocks)
  | none ↦
      let (market, currency) = classify_new_stock ticker info in
      let spec : Spec = record {
        ticker = ticker;
        name = info.name;
        market = market;
        currency = currency;
      } in
      do
        stocks' ← ensure_stocks (spec ∷ []) races stocks
        s ← or_fail (find_stock ticker stocks') 409
        ok (s, stocks')
]

abbrev pub date_or : Option ℕ → ℕ → ℕ
date_or none now = now
date_or (some t) now = t

module _ {N : Type 0} ⦃f : Float N⦄ where
  abbrev pub add_lot : N → N → Option Text → Holding N → Holding N
  add_lot quantity average notes h = record h {
    quantity = quantity;
    avg_purchase_price = average;
    notes = if is_empty (text_of notes) then h.notes else notes;
  }

  abbrev pub row_id : Holding N → ℕ
  row_id h = h.id

  -- The BUY branch, on the table of holdings.
  unfoldable pub buy_shares :
      ℕ → Stock → TransactionCreate N → ℕ → List (Holding N) → Reply (List (Holding N))
  buy_shares user stock tx date hs =
      if le tx.quantity zero || le tx.price zero
      then fail 400
      else elim (find (held_by user stock.id) hs) [
        | some h ↦
            let new_qty = h.quantity + tx.quantity in
            let cost = h.quantity * h.avg_purchase_price + tx.quantity * tx.price in
            do
              new_avg ← or_fail (divide cost new_qty) 500
              ok (
                  update_where (λ g. g.id == h.id)
                    (add_lot (round 4 new_qty) (round 4 new_avg) tx.notes) hs)
        | none ↦ ok (
            insert
              (record {
                id = next_id (map row_id hs);
                user_id = some user;
                stock_id = stock.id;
                quantity = tx.quantity;
                avg_purchase_price = tx.price;
                purchase_date = some (day_of date);
                notes = tx.notes;
              })
              hs)
      ]

  -- The row that a SELL's guarded UPDATE addresses.
  abbrev pub sellable : ℕ → ℕ → N → Holding N → Bool
  sellable id user quantity g =
      (g.id == id && owner_eq g.user_id (some user)) && le quantity g.quantity

  abbrev pub take_shares : N → Holding N → Holding N
  take_shares quantity g = record g { quantity = g.quantity - quantity }

  -- The SELL branch, on the table of holdings, with the realised profit.
  unfoldable pub sell_shares :
      ℕ → Stock → TransactionCreate N → List (Holding N) → Reply (N × List (Holding N))
  sell_shares user stock tx hs =
      if le tx.quantity zero || le tx.price zero
      then fail 400
      else elim (find (held_by user stock.id) hs) [
        | none ↦ fail 409
        | some h ↦
            let realized = round 2 ((tx.price - h.avg_purchase_price) * tx.quantity - tx.fee) in
            let hs' = update_where (sellable h.id user tx.quantity) (take_shares tx.quantity) hs in
            if lt (h.quantity + decimal 1 9) tx.quantity
            then fail 409
            else if not (count_where (sellable h.id user tx.quantity) hs == 1)
            then fail 409
            else if le (h.quantity - tx.quantity) (decimal 1 4)
            then ok
                (realized, delete_where (λ g. g.id == h.id && owner_eq g.user_id (some user)) hs')
            else ok (realized, hs')
      ]

  -- The DIVIDEND branch.
  unfoldable pub dividend_profit : TransactionCreate N → Reply N
  dividend_profit tx =
      if lt tx.price zero
      then fail 400
      else ok
          (round 2 ((if lt zero tx.quantity then tx.price * tx.quantity else tx.price) - tx.fee))

  -- What a transaction of each kind does to the holdings, and the profit that it records.
  unfoldable pub apply_kind :
      Kind → ℕ → Stock → TransactionCreate N → ℕ → List (Holding N) → Reply (N × List (Holding N))
  unfolding buy_shares sell_shares dividend_profit
  apply_kind buy user stock tx date hs = do hs' ← buy_shares user stock tx date hs; ok (zero, hs')
  apply_kind sell user stock tx date hs = sell_shares user stock tx hs
  apply_kind dividend user stock tx date hs = do p ← dividend_profit tx; ok (p, hs)

  abbrev pub tx_id : Transaction N → ℕ
  tx_id t = t.id

  -- The ledger's row of a transaction.
  abbrev pub new_transaction :
      ℕ → Stock → Kind → TransactionCreate N → ℕ → N → List (Transaction N) → Transaction N
  new_transaction user stock kind tx date profit ts = record {
    id = next_id (map tx_id ts);
    user_id = some user;
    stock_id = stock.id;
    type = kind;
    quantity = tx.quantity;
    price = tx.price;
    fee = tx.fee;
    realized_pnl = some profit;
    currency = or_else stock.currency (codes "EUR");
    transaction_date = date;
    notes = text_of tx.notes;
  }

  -- The statements of `create_transaction` between BEGIN and COMMIT.
  unfoldable pub record_transaction :
      CurrentUser → TransactionCreate N → Outside → Db N → Reply (Transaction N × Db N)
  unfolding parse_kind resolve_stock apply_kind
  record_transaction user tx out db = do
    kind ← or_fail (parse_kind tx.type) 400
    fail_if (is_empty (upper (strip tx.ticker))) 400
    (stock, stocks) ← resolve_stock (upper (strip tx.ticker)) out.info out.races db.stocks
    let date = date_or tx.transaction_date out.now
    (profit, hs) ← apply_kind kind user.id stock tx date db.holdings
    let t = new_transaction user.id stock kind tx date profit db.transactions
    ok (t, record db { stocks = stocks; holdings = hs; transactions = insert t db.transactions })

  -- The constraints of the request's model: pydantic answers 422 before the handler runs.
  abbrev pub is_acceptable : TransactionCreate N → Bool
  is_acceptable tx = (le zero tx.quantity && le zero tx.price) && le zero tx.fee

  unfoldable pub create_transaction :
      CurrentUser → TransactionCreate N → Outside → Db N → Reply (Transaction N) × Db N
  unfolding record_transaction
  create_transaction user tx out db =
      if is_acceptable tx
      then commit_write out.commit db (record_transaction user tx out db)
      else (fail 422, db)
