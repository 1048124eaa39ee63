-- ===== src/Auth/Users.antt =====
-- The administration of users in backend/routers/auth.py: `create_user`, `delete_user`,
-- `admin_reset_password` and `change_password`. The tables that refer to a user are kept as the
-- ids of their rows with their owners. The caches that `delete_user` invalidates are in Analytics.
pub mod Laws
use stock_monitor.Base.{
  ℕ, Bool, true, false, not, Option, none, some, List, [], ◌∷◌, ◌++◌, map, ltb, leb, ◌==◌,
  if◌then◌else◌, find, length, any, ◌||◌,
}
use stock_monitor.Base.Text.{Text, text_eq, strip}
use stock_monitor.Http.{Reply, ok, fail}
use stock_monitor.Table.{next_id, insert, update_where, delete_where}
use stock_monitor.Portfolio.{owner_eq}
use stock_monitor.Auth.{User, has_name}

-- A row of a table with a `user_id` column.
pub record Owned : Type 0 where
  pub id : ℕ
  pub user_id : Option ℕ

pub record Db : Type 0 where
  pub users : List User
  pub targets : List Owned
  pub holdings : List Owned
  pub transactions : List Owned
  pub watchlist : List Owned
  pub settings : List Owned
  pub alerts : List Owned
  pub advices : List Owned

abbrev pub user_id : User → ℕ
user_id u = u.id

abbrev pub owned_by : ℕ → Owned → Bool
owned_by user r = owner_eq r.user_id (some user)

abbrev pub has_id : ℕ → User → Bool
has_id id u = u.id == id

-- A row of the table refers to the user.
abbrev pub refers : ℕ → List Owned → Bool
refers id rows = any (owned_by id) rows

-- `db.delete(user)`: with PRAGMA foreign_keys=ON it fails while a row refers to the user. The tables
-- that exist since before the foreign keys have no ON DELETE CASCADE, and none is assumed.
unfoldable pub delete_row : ℕ → Db → Option Db
delete_row id db =
    if refers id db.targets
      || (refers id db.holdings
          || (refers id db.transactions
              || (refers id db.watchlist
                  || (refers id db.settings || (refers id db.alerts || refers id db.advices)))))
    then none
    else some (record db { users = delete_where (has_id id) db.users })

-- The statements before it, in the order of the source.
abbrev pub delete_targets : ℕ → Db → Db
delete_targets id db = record db { targets = delete_where (owned_by id) db.targets }

abbrev pub delete_holdings : ℕ → Db → Db
delete_holdings id db = record db { holdings = delete_where (owned_by id) db.holdings }

abbrev pub delete_transactions : ℕ → Db → Db
delete_transactions id db = record db { transactions = delete_where (owned_by id) db.transactions }

abbrev pub delete_watchlist : ℕ → Db → Db
delete_watchlist id db = record db { watchlist = delete_where (owned_by id) db.watchlist }

abbrev pub delete_settings : ℕ → Db → Db
delete_settings id db = record db { settings = delete_where (owned_by id) db.settings }

abbrev pub delete_alerts : ℕ → Db → Db
delete_alerts id db = record db { alerts = delete_where (owned_by id) db.alerts }

abbrev pub delete_advices : ℕ → Db → Db
delete_advices id db = record db { advices = delete_where (owned_by id) db.advices }

-- The statements of `delete_user` on the user's rows.
unfoldable pub delete_rows : ℕ → Db → Db
delete_rows id db =
    let db1 = delete_targets id db in
    let db2 = delete_holdings id db1 in
    let db3 = delete_transactions id db2 in
    let db4 = delete_watchlist id db3 in
    let db5 = delete_settings id db4 in let db6 = delete_alerts id db5 in delete_advices id db6

-- The end of the request: an exception, of a statement or of the commit, rolls everything back and
-- is answered 500.
abbrev pub commit : Bool → Db → Option Db → Reply (Unit {0}) × Db
commit commits db none = (fail 500, db)
commit commits db (some left) = if commits then (ok tt, left) else (fail 500, db)

-- `delete_user`; `commits` is whether the commit succeeds.
unfoldable pub delete_user : Bool → User → ℕ → Db → Reply (Unit {0}) × Db
unfolding delete_rows delete_row
delete_user commits admin id db =
    if admin.id == id then (fail 400, db) else elim (find (has_id id) db.users) [
      | none ↦ (fail 404, db)
      | some u ↦ commit commits db (delete_row id (delete_rows id db))
    ]

pub record CreateUserRequest : Type 0 where
  pub username : Text
  pub password : Text
  pub is_admin : Bool

-- The constraints on the request's fields: pydantic answers 422.
abbrev pub is_acceptable : CreateUserRequest → Bool
is_acceptable data' =
    if ltb (length data'.username) 3
    then false
    else if ltb 50 (length data'.username)
    then false
    else leb 8 (length data'.password)

module _ (hash : Text → Text) where
  abbrev pub new_user : CreateUserRequest → List User → User
  new_user request users = record {
    id = next_id (map user_id users);
    username = strip request.username;
    hashed_password = hash request.password;
    is_admin = request.is_admin;
    is_active = true;
    last_login = none;
    failed_attempts = some 0;
    locked_until = none;
  }

  -- The INSERT of the database: UNIQUE(users.username).
  unfoldable pub insert_user : User → List User → Option (List User)
  insert_user u users = elim (find (has_name u.username) users) [
    | some v ↦ none
    | none ↦ some (insert u users)
  ]

  -- `create_user`. `race` holds the users that another session commits between the check and the
  -- INSERT. A violated constraint is answered like the check before, since the name is then found.
  unfoldable pub create_user : CreateUserRequest → List User → List User → Reply User × List User
  unfolding insert_user
  create_user request race users =
      let name = strip request.username in
      let visible = users ++ race in
      if not (is_acceptable request)
      then (fail 422, visible)
      else elim (find (has_name name) users) [
        | some u ↦ (fail 400, visible)
        | none ↦ elim (insert_user (new_user request visible) visible) [
          | none ↦ (if any (has_name name) visible then fail 400 else fail 500, visible)
          | some left ↦ (ok (new_user request visible), left)
        ]
      ]

  -- `admin_reset_password`
  unfoldable pub reset_password : ℕ → Text → List User → Reply (Unit {0}) × List User
  reset_password id password users =
      if ltb (length password) 8 then (fail 422, users) else elim (find (has_id id) users) [
        | none ↦ (fail 404, users)
        | some u ↦ (
          ok tt,
          update_where (has_id id)
              (λ v. record v {
                hashed_password = hash password;
                failed_attempts = some 0;
                locked_until = none;
              })
              users,
        )
      ]

  -- `change_password` of the authenticated user
  unfoldable pub change_password :
      (Text → Text → Bool) → User → Text → Text → List User → Reply (Unit {0}) × List User
  change_password check user current next users =
      if ltb (length next) 8
      then (fail 422, users)
      else if not (check current user.hashed_password)
      then (fail 400, users)
      else (
        ok tt,
        update_where (has_id user.id) (λ v. record v { hashed_password = hash next }) users,
      )
