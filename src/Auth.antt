-- ===== src/Auth.antt =====
-- Login with its lockout, the session check and the administration of users:
-- backend/routers/auth.py, backend/services/auth.py, backend/models/user.py.
-- bcrypt and PyJWT are parameters: `check password hash` is `verify_password`, `hash` is
-- `hash_password` with its fresh salt, `decode` gives the `sub` claim of a token that is valid now.
-- Times are numbers of seconds. The cookie that a login sets, and the 422 for an
-- empty name or password, are not modelled.
pub mod Lockout
pub mod Users
mod Tests
use stock_monitor.Base.{
  ℕ, suc, ◌+◌, Bool, true, false, not, Option, none, some, List, [], ◌∷◌, map, ltb, leb, ◌==◌,
  if◌then◌else◌, find,
}
use stock_monitor.Base.Text.{Text, text_eq, strip, is_empty}
use stock_monitor.Http.{Reply, ok, fail}
use stock_monitor.Table.{update_where}

pub record User : Type 0 where
  pub id : ℕ
  pub username : Text
  pub hashed_password : Text
  pub is_admin : Bool
  pub is_active : Bool
  pub last_login : Option ℕ
  pub failed_attempts : Option ℕ
  pub locked_until : Option ℕ

-- `MAX_FAILED_ATTEMPTS`
abbrev pub max_failed_attempts : ℕ
max_failed_attempts = 5

-- `LOCKOUT_MINUTES`, in seconds
abbrev pub lockout : ℕ
lockout = 900

-- `func.coalesce(User.failed_attempts, 0)`
abbrev pub coalesce : Option ℕ → ℕ
coalesce none = 0
coalesce (some n) = n

abbrev pub is_locked : ℕ → Option ℕ → Bool
is_locked now none = false
is_locked now (some t) = ltb now t

-- A lock that has run out is lifted, and the count starts again.
abbrev pub lift_lock : User → User
lift_lock u = elim u.locked_until [
  | none ↦ u
  | some t ↦ record u { locked_until = none; failed_attempts = some 0 }
]

-- The atomic UPDATE behind a wrong password: the count and the lock in one statement.
abbrev pub register_failure : ℕ → User → User
register_failure now u = record u {
  failed_attempts = some (suc (coalesce u.failed_attempts));
  locked_until =
      if leb max_failed_attempts (suc (coalesce u.failed_attempts))
      then some (now + lockout)
      else u.locked_until;
}

abbrev pub register_success : ℕ → User → User
register_success now u = record u {
  failed_attempts = some 0;
  locked_until = none;
  last_login = some now;
}

-- The answer to a wrong password, from the count that the UPDATE has left.
abbrev pub refuse : User → Reply User
refuse u = if leb max_failed_attempts (coalesce u.failed_attempts) then fail 429 else fail 401

abbrev pub has_name : Text → User → Bool
has_name name u = text_eq u.username name

module _ (check : Text → Text → Bool) where
  -- `login` behind the lookup of the user: the answer, and the user's row.
  unfoldable pub login_user : Text → ℕ → User → Reply User × User
  login_user password now u =
      if not u.is_active
      then (fail 403, u)
      else if is_locked now u.locked_until
      then (fail 429, u)
      else let v = lift_lock u in
        if check password v.hashed_password
        then (ok (register_success now v), register_success now v)
        else (refuse (register_failure now v), register_failure now v)

  unfoldable pub login : Text → Text → ℕ → List User → Reply User × List User
  unfolding login_user
  login username password now users = elim (find (has_name (strip username)) users) [
    | none ↦ (fail 401, users)
    | some u ↦
        let (reply, v) = login_user password now u in
        (reply, update_where (λ w. w.id == u.id) (λ w. v) users)
  ]

-- `get_current_user`: the bearer token, or the cookie if there is none.
abbrev pub choose_token : Text → Text → Text
choose_token bearer cookie = if is_empty bearer then cookie else bearer

module _ (decode : Text → Option Text) where
  unfoldable pub get_current_user : Text → Text → List User → Reply User
  get_current_user bearer cookie users =
      let token = choose_token bearer cookie in
      if is_empty token then fail 401 else elim (decode token) [
        | none ↦ fail 401
        | some name ↦ elim (find (has_name name) users) [
          | none ↦ fail 401
          | some u ↦ if u.is_active then ok u else fail 401
        ]
      ]

-- `require_admin`, behind `get_current_user`.
unfoldable pub require_admin : Reply User → Reply User
require_admin (fail c) = fail c
require_admin (ok u) = if u.is_admin then ok u else fail 403
