-- ===== src/Portfolio/Targets.antt =====
-- The target allocations of backend/routers/portfolio.py: `list_targets`, `create_target`,
-- `delete_target`. The SQL SUM is taken to add in the order of the rows, from 0.0.
pub mod Budget
mod Tests
use stock_monitor.Base.{
  ℕ, Bool, true, false, not, ◌||◌, ◌&&◌, Option, none, some, List, [], ◌∷◌, map, ◌==◌,
  if◌then◌else◌, find, filter,
}
use stock_monitor.Base.Text.{Text, codes, text_eq, is_empty, or_else, strip, upper}
use stock_monitor.Float.{Float, ◌+◌, lt, le, decimal, sum, zero}
use stock_monitor.Http.{Reply, ok, fail, ◌>>=◌, ◌>>◌, fail_if}
use stock_monitor.Table.{next_id, insert, delete_where}
use stock_monitor.Portfolio.{TargetAllocation, Db, CurrentUser, owner_eq, Commit, commit_write}
use stock_monitor.Portfolio.Ledger.{text_of}

pub record TargetAllocationCreate (N : Type 0) : Type 0 where
  pub name : Text
  pub target_percent : N
  pub scope_type : Text
  pub scope_value : Option Text

-- `scope_type not in ("MARKET", "TICKERS", "CASH")`, negated
unfoldable pub is_scope : Text → Bool
is_scope t = text_eq t (codes "MARKET") || (text_eq t (codes "TICKERS") || text_eq t (codes "CASH"))

-- A market that is not named.
abbrev pub is_unnamed : Text → Option Text → Bool
is_unnamed scope value = text_eq scope (codes "MARKET") && is_empty (text_of value)

module _ {N : Type 0} where
  abbrev pub is_own : ℕ → TargetAllocation N → Bool
  is_own user t = owner_eq t.user_id (some user)

  -- `list_targets`: ids grow with the order of insertion.
  unfoldable pub list_targets : CurrentUser → Db N → List (TargetAllocation N)
  list_targets user db = filter (is_own user.id) db.targets

  abbrev pub target_id : TargetAllocation N → ℕ
  target_id t = t.id

  abbrev pub is_target : ℕ → TargetAllocation N → Bool
  is_target id t = t.id == id

module _ {N : Type 0} ⦃f : Float N⦄ where
  abbrev pub percents : List (TargetAllocation N) → List N
  percents = map (λ (t : TargetAllocation N). t.target_percent)

  -- `existing_sum`: what the user has allocated.
  abbrev pub allocated : ℕ → List (TargetAllocation N) → N
  allocated user ts = sum (percents (filter (is_own user) ts))

  -- `100.0 + 1e-6`
  abbrev pub limit : N
  limit = decimal 100 0 + decimal 1 6

  abbrev pub is_percent : N → Bool
  is_percent p = le zero p && le p (decimal 100 0)

  abbrev pub new_target :
      ℕ → TargetAllocationCreate N → List (TargetAllocation N) → TargetAllocation N
  new_target user data' ts = record {
    id = next_id (map target_id ts);
    user_id = some user;
    name = strip data'.name;
    target_percent = data'.target_percent;
    scope_type = upper (or_else data'.scope_type (codes "MARKET"));
    scope_value = upper (strip (text_of data'.scope_value));
  }

  -- The statements of `create_target`, between BEGIN and COMMIT.
  unfoldable pub add_target :
      CurrentUser → TargetAllocationCreate N → Db N → Reply (TargetAllocation N × Db N)
  unfolding is_scope
  add_target user data' db = do
    let scope = upper (or_else data'.scope_type (codes "MARKET"))
    fail_if (not (is_percent data'.target_percent)) 400
    fail_if (not (is_scope scope)) 400
    fail_if (is_unnamed scope data'.scope_value) 400
    fail_if (lt limit (allocated user.id db.targets + data'.target_percent)) 400
    let t = new_target user.id data' db.targets
    ok (t, record db { targets = insert t db.targets })

  unfoldable pub create_target :
      CurrentUser → TargetAllocationCreate N → Commit → Db N → Reply (TargetAllocation N) × Db N
  unfolding add_target
  create_target user data' c db = commit_write c db (add_target user data' db)

  -- The statements of `delete_target`, between BEGIN and COMMIT.
  unfoldable pub drop_target : CurrentUser → ℕ → Db N → Reply (Unit {0} × Db N)
  drop_target user id db = elim (find (is_target id) db.targets) [
    | none ↦ fail 404
    | some t ↦
        if not (is_own user.id t)
        then fail 404
        else ok (tt, record db { targets = delete_where (is_target id) db.targets })
  ]

  unfoldable pub delete_target : CurrentUser → ℕ → Commit → Db N → Reply (Unit {0}) × Db N
  unfolding drop_target
  delete_target user id c db = commit_write c db (drop_target user id db)
