-- ===== src/Portfolio.antt =====
-- The rows of backend/models (stock.py, portfolio.py, target_allocation.py) that the portfolio
-- router reads and writes, the ownership checks, and the commit at the end of a handler.
-- `created_at` and `updated_at` are not modelled. A point in time is a number of seconds, a date a
-- number of days. A handler runs under the user's write lock, so its steps follow one another.
pub mod Positions
pub mod Stocks
pub mod Ledger
pub mod Holdings
pub mod Import
pub mod Realized
pub mod Targets
pub mod Row
pub mod Rebalance
pub mod Valuation
pub mod Samples
use mathlib.Core.Path.{subst}
use stock_monitor.Base.{
  ℕ, ◌≡◌, refl, sym, Bool, false, ◌&&◌, Option, none, some, List, ◌==◌, if◌then◌else◌,
}
use stock_monitor.Base.Text.{Text}
use stock_monitor.Http.{Reply, ok, fail, Returns}

pub record Stock : Type 0 where
  pub id : ℕ
  pub ticker : Text
  pub name : Text
  pub market : Text
  pub currency : Text
  pub is_active : Bool

pub record Holding (N : Type 0) : Type 0 where
  pub id : ℕ
  pub user_id : Option ℕ
  pub stock_id : ℕ
  pub quantity : N
  pub avg_purchase_price : N
  pub purchase_date : Option ℕ
  pub notes : Option Text

pub data Kind : Type 0 where
  buy sell dividend : Kind

pub record Transaction (N : Type 0) : Type 0 where
  pub id : ℕ
  pub user_id : Option ℕ
  pub stock_id : ℕ
  pub type : Kind
  pub quantity : N
  pub price : N
  pub fee : N
  pub realized_pnl : Option N
  pub currency : Text
  pub transaction_date : ℕ
  pub notes : Text

pub record TargetAllocation (N : Type 0) : Type 0 where
  pub id : ℕ
  pub user_id : Option ℕ
  pub name : Text
  pub target_percent : N
  pub scope_type : Text
  pub scope_value : Text

pub record Db (N : Type 0) : Type 0 where
  pub stocks : List Stock
  pub holdings : List (Holding N)
  pub transactions : List (Transaction N)
  pub targets : List (TargetAllocation N)

-- The authenticated user of a request.
pub record CurrentUser : Type 0 where
  pub id : ℕ
  pub is_admin : Bool

-- `column == value` in SQL: NULL equals nothing.
abbrev pub owner_eq : Option ℕ → Option ℕ → Bool
owner_eq none o = false
owner_eq (some u) none = false
owner_eq (some u) (some v) = u == v

-- `_can_access_holding`, `_can_access_transaction`: the owner, or an admin on a row of nobody.
abbrev pub can_access : Option ℕ → CurrentUser → Bool
can_access none user = user.is_admin
can_access (some u) user = u == user.id

-- How the database answers a COMMIT: OperationalError is `busy`, IntegrityError `conflict`.
pub data Commit : Type 0 where
  committed busy conflict : Commit

-- `_commit_write`, behind the statements of a handler. An exception discards the session.
abbrev pub commit_write : {A D : Type 0} → Commit → D → Reply (A × D) → Reply A × D
commit_write c db (fail s) = (fail s, db)
commit_write committed db (ok (a, db')) = (ok a, db')
commit_write busy db (ok (a, db')) = (fail 503, db)
commit_write conflict db (ok (a, db')) = (fail 409, db)

-- The two ways in which a handler ends: with an error and the database as it was, or with an answer
-- and a database for which `Q` holds.
abbrev pub Outcome : {A D : Type 0} → (A → D → Type 0) → D → Reply A × D → Type 0
Outcome Q db (fail s, db') = db' ≡ db
Outcome Q db (ok a, db') = Q a db'

pub commit-Outcome :
    {A D : Type 0} (Q : A → D → Type 0) (c : Commit) (db : D) (m : Reply (A × D))
    → Returns (λ (a, db'). Q a db') m
    → Outcome Q db (commit_write c db m)
commit-Outcome Q c db (fail s) h = refl
commit-Outcome Q committed db (ok (a, db')) h = h
commit-Outcome Q busy db (ok (a, db')) h = refl
commit-Outcome Q conflict db (ok (a, db')) h = refl

-- What holds of the database before a handler, and of each database that it may leave, holds behind
-- it.
pub Outcome-keeps :
    {A D : Type 0} (I : D → Type 0) (Q : A → D → Type 0) (db : D) (r : Reply A × D)
    → Outcome Q db r
    → I db
    → ((a : A) (db' : D) → Q a db' → I db')
    → I r.1
Outcome-keeps I Q db (fail s, db') h b k = subst I (sym h) b
Outcome-keeps I Q db (ok a, db') h b k = k a db' h
