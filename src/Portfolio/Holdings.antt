-- ===== src/Portfolio/Holdings.antt =====
-- The positions that a user enters by hand, in backend/routers/portfolio.py: `add_holding` with its
-- three attempts, `update_holding`, `batch_update_holdings` and `remove_holding`.
-- A commit of `add_holding` that violates the uniqueness of a position is rolled back, and the
-- next attempt reads what the other sessions have committed: the environment gives, for each
-- attempt, the answer to its COMMIT and the database that is visible behind a rollback.
pub mod Attempts
pub mod Batch
pub mod Rows
mod Tests
use stock_monitor.Base.{
  ℕ, zero, suc, Bool, true, false, not, ◌||◌, ◌&&◌, Option, none, some, List, [], ◌∷◌, ◌++◌, map,
  ◌==◌, if◌then◌else◌, find,
}
use stock_monitor.Base.Text.{Text, codes, is_empty, strip, strip_chars, upper}
use stock_monitor.Float.{Float, ◌+◌, ◌*◌, ◌/◌, lt, le, round, zero as nought}
use stock_monitor.Http.{Reply, ok, fail, ◌>>=◌, ◌>>◌, or_fail, fail_if}
use stock_monitor.Table.{next_id, insert, update_where, delete_where}
use stock_monitor.Market.{Info}
use stock_monitor.Portfolio.{
  Stock, Holding, Db, CurrentUser, can_access, Commit, committed, busy, conflict, commit_write,
}
use stock_monitor.Portfolio.Positions.{held_by}
use stock_monitor.Portfolio.Stocks.{Races}
use stock_monitor.Portfolio.Ledger.{resolve_stock, text_of}

pub record HoldingCreate (N : Type 0) : Type 0 where
  pub ticker : Option Text
  pub stock_id : Option ℕ
  pub quantity : N
  pub avg_purchase_price : N
  pub purchase_date : Option ℕ
  pub notes : Option Text

pub record HoldingUpdate (N : Type 0) : Type 0 where
  pub quantity : Option N
  pub avg_purchase_price : Option N
  pub purchase_date : Option ℕ
  pub notes : Option Text

pub record HoldingBatchItem (N : Type 0) : Type 0 where
  pub id : ℕ
  pub quantity : N
  pub avg_purchase_price : N
  pub notes : Option Text

-- What the world answers to one attempt.
pub record Turn (N : Type 0) : Type 0 where
  pub info : Info
  pub races : Races
  pub commit : Commit
  pub seen : Db N

abbrev pub has_stock_id : ℕ → Stock → Bool
has_stock_id id s = s.id == id

abbrev pub or_date : Option ℕ → ℕ → ℕ
or_date none day = day
or_date (some d) day = d

abbrev pub is_note_end : ℕ → Bool
is_note_end c = c == b';' || c == b' '

-- `f"{old or ''}; {new}".strip("; ")`, if there is a new note.
abbrev pub join_notes : Option Text → Option Text → Option Text
join_notes old new =
    if is_empty (text_of new)
    then old
    else some (strip_chars is_note_end (text_of old ++ (codes "; " ++ text_of new)))

abbrev pub or_kept : {A : Type 0} → Option A → A → A
or_kept none a = a
or_kept (some b) a = b

abbrev pub or_kept_option : {A : Type 0} → Option A → Option A → Option A
or_kept_option none a = a
or_kept_option (some b) a = some b

module _ {N : Type 0} ⦃f : Float N⦄ where
  abbrev pub row_id : Holding N → ℕ
  row_id h = h.id

  abbrev pub is_row : ℕ → Holding N → Bool
  is_row id h = h.id == id

  -- `_resolve_stock_id`: an explicit id has to exist, a new ticker gets a stock.
  unfoldable pub resolve_stock_id :
      HoldingCreate N → Info → Races → List Stock → Reply (ℕ × List Stock)
  unfolding resolve_stock
  resolve_stock_id data' info races stocks = elim data'.stock_id [
    | some id ↦ do s ← or_fail (find (has_stock_id id) stocks) 400; ok (s.id, stocks)
    | none ↦
        let ticker = upper (strip (text_of data'.ticker)) in
        if is_empty ticker
        then fail 400
        else do (s, stocks') ← resolve_stock ticker info races stocks; ok (s.id, stocks')
  ]

  -- The position that a new lot is merged into.
  abbrev pub merge_lot : HoldingCreate N → Holding N → Holding N
  merge_lot data' h = record h {
    quantity = round 4 (h.quantity + data'.quantity);
    avg_purchase_price = round 4 (
        (h.quantity * h.avg_purchase_price + data'.quantity * data'.avg_purchase_price)
        / (h.quantity + data'.quantity));
    notes = join_notes h.notes data'.notes;
  }

  abbrev pub new_holding : ℕ → HoldingCreate N → ℕ → ℕ → List (Holding N) → Holding N
  new_holding user data' today stock hs = record {
    id = next_id (map row_id hs);
    user_id = some user;
    stock_id = stock;
    quantity = data'.quantity;
    avg_purchase_price = data'.avg_purchase_price;
    purchase_date = some (or_date data'.purchase_date today);
    notes = data'.notes;
  }

  -- One attempt behind the stock's id: the user's position, and the table with it.
  unfoldable pub place :
      ℕ → HoldingCreate N → ℕ → ℕ → List (Holding N) → Reply (Holding N × List (Holding N))
  place user data' today stock hs = elim (find (held_by user stock) hs) [
    | some h ↦
        if le (h.quantity + data'.quantity) nought
        then fail 400
        else ok (merge_lot data' h, update_where (is_row h.id) (merge_lot data') hs)
    | none ↦
        ok
          (new_holding user data' today stock hs, insert (new_holding user data' today stock hs) hs)
  ]

  -- The statements of one attempt, between BEGIN and COMMIT.
  unfoldable pub attempt : ℕ → HoldingCreate N → ℕ → Turn N → Db N → Reply (Holding N × Db N)
  unfolding resolve_stock_id place
  attempt user data' today turn db = do
    (stock, stocks) ← resolve_stock_id data' turn.info turn.races db.stocks
    (h, hs) ← place user data' today stock db.holdings
    ok (h, record db { stocks = stocks; holdings = hs })

  -- The status of the answer when the last attempt has met a conflict too: the stock is looked up
  -- once more before the loop ends.
  unfoldable pub give_up : HoldingCreate N → Turn N → Db N → ℕ
  unfolding resolve_stock_id
  give_up data' turn db = elim (resolve_stock_id data' turn.info turn.races db.stocks) [
    | fail c ↦ c
    | ok r ↦ 409
  ]

  -- The COMMIT of an attempt, and the next one behind a conflict.
  abbrev pub settle :
      Commit → Db N → Reply (Holding N × Db N) → Reply (Holding N) × Db N → Reply (Holding N) × Db N
  settle c db (fail s) next = (fail s, db)
  settle committed db (ok (h, db')) next = (ok h, db')
  settle busy db (ok (h, db')) next = (fail 503, db)
  settle conflict db (ok (h, db')) next = next

  -- The loop over the attempts that are left.
  unfoldable pub attempts :
      ℕ → ℕ → HoldingCreate N → ℕ → (ℕ → Turn N) → Db N → Reply (Holding N) × Db N
  unfolding attempt give_up
  attempts zero user data' today env db = (fail (give_up data' (env zero) db), db)
  attempts (suc n) user data' today env db =
      let turn = env (suc n) in
      settle turn.commit db (attempt user data' today turn db)
        (attempts n user data' today env turn.seen)

  -- `gt=0` on both fields of the request.
  abbrev pub is_positive_lot : N → N → Bool
  is_positive_lot quantity price = lt nought quantity && lt nought price

  unfoldable pub add_holding :
      CurrentUser → HoldingCreate N → ℕ → (ℕ → Turn N) → Db N → Reply (Holding N) × Db N
  unfolding attempts
  add_holding user data' today env db =
      if is_positive_lot data'.quantity data'.avg_purchase_price
      then attempts 3 user.id data' today env db
      else (fail 422, db)

  -- The fields that the request gives, but for those that are null.
  abbrev pub edit : HoldingUpdate N → Holding N → Holding N
  edit u h = record h {
    quantity = or_kept u.quantity h.quantity;
    avg_purchase_price = or_kept u.avg_purchase_price h.avg_purchase_price;
    purchase_date = or_kept_option u.purchase_date h.purchase_date;
    notes = or_kept_option u.notes h.notes;
  }

  abbrev pub is_positive_if_given : Option N → Bool
  is_positive_if_given none = true
  is_positive_if_given (some x) = lt nought x

  -- The statements of `update_holding`, between BEGIN and COMMIT.
  unfoldable pub edit_holding : CurrentUser → ℕ → HoldingUpdate N → Db N → Reply (Holding N × Db N)
  edit_holding user id u db = elim (find (is_row id) db.holdings) [
    | none ↦ fail 404
    | some h ↦
        if not (can_access h.user_id user)
        then fail 404
        else ok (edit u h, record db { holdings = update_where (is_row id) (edit u) db.holdings })
  ]

  unfoldable pub update_holding :
      CurrentUser → ℕ → HoldingUpdate N → Commit → Db N → Reply (Holding N) × Db N
  unfolding edit_holding
  update_holding user id u c db =
      if is_positive_if_given u.quantity && is_positive_if_given u.avg_purchase_price
      then commit_write c db (edit_holding user id u db)
      else (fail 422, db)

  abbrev pub edit_item : HoldingBatchItem N → Holding N → Holding N
  edit_item i h = record h {
    quantity = i.quantity;
    avg_purchase_price = i.avg_purchase_price;
    notes = or_kept_option i.notes h.notes;
  }

  -- A row that the user's request may change.
  abbrev pub is_own_row : CurrentUser → ℕ → Holding N → Bool
  is_own_row user id h = is_row id h && can_access h.user_id user

  -- The loop over the items: the count of the changed rows, and the table.
  unfoldable pub edit_items :
      CurrentUser → List (HoldingBatchItem N) → ℕ → List (Holding N) → ℕ × List (Holding N)
  edit_items user [] n hs = (n, hs)
  edit_items user (i ∷ items) n hs =
      edit_items user items (elim (find (is_own_row user i.id) hs) [ none ↦ n | some h ↦ suc n ])
        (update_where (is_own_row user i.id) (edit_item i) hs)

  abbrev pub is_acceptable : List (HoldingBatchItem N) → Bool
  is_acceptable [] = true
  is_acceptable (i ∷ items) = is_positive_lot i.quantity i.avg_purchase_price && is_acceptable items

  unfoldable pub edit_batch : CurrentUser → List (HoldingBatchItem N) → Db N → Reply (ℕ × Db N)
  unfolding edit_items
  edit_batch user items db =
      let (n, hs) = edit_items user items 0 db.holdings in ok (n, record db { holdings = hs })

  -- `batch_update_holdings`: the number of updates.
  unfoldable pub batch_update_holdings :
      CurrentUser → List (HoldingBatchItem N) → Commit → Db N → Reply ℕ × Db N
  unfolding edit_batch
  batch_update_holdings user items c db =
      if not (is_acceptable items) then (fail 422, db) else elim items [
        | [] ↦ (ok 0, db)
        | i ∷ rest ↦ commit_write c db (edit_batch user (i ∷ rest) db)
      ]

  -- The statements of `remove_holding`, between BEGIN and COMMIT.
  unfoldable pub drop_holding : CurrentUser → ℕ → Db N → Reply (Unit {0} × Db N)
  drop_holding user id db = elim (find (is_row id) db.holdings) [
    | none ↦ fail 404
    | some h ↦
        if not (can_access h.user_id user)
        then fail 404
        else ok (tt, record db { holdings = delete_where (is_row id) db.holdings })
  ]

  unfoldable pub remove_holding : CurrentUser → ℕ → Commit → Db N → Reply (Unit {0}) × Db N
  unfolding drop_holding
  remove_holding user id c db = commit_write c db (drop_holding user id db)
