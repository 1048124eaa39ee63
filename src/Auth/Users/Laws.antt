-- ===== src/Auth/Users/Laws.antt =====
-- The administration of users: a complete deletion, a created user who can log in, and whom a
-- session belongs to.
use stock_monitor.Base.{
  ℕ, ◌≡◌, refl, ap, sym, ◌∙◌, Bool, true, false, not, Option, none, some, List, [], ◌∷◌, ◌++◌,
  arith, ◌==◌, find, filter, any, All, ◌⊎◌, inl, inr, Bool-cases, Option-cases, filter_sound,
}
use stock_monitor.Base.Text.{Text, text_eq, text_eq_iff, strip}
use stock_monitor.Http.{Reply, ok, fail}
use stock_monitor.Table.{insert, delete_where, find-some, find-append, find-append_ne, All-map}
use stock_monitor.Auth.{
  User, has_name, login, login_user, register_success, get_current_user, choose_token,
}
use stock_monitor.Auth.Users.{
  Owned, Db, owned_by, has_id, refers, delete_row, delete_rows, delete_user, CreateUserRequest,
  new_user, insert_user, create_user, is_acceptable,
}

-- No row of a table belongs to the user.
abbrev pub NoneOf : ℕ → List Owned → Type 0
NoneOf id = All (λ r. owned_by id r ≡ false)

-- The rows of everybody else are as before.
abbrev pub SameOthers : ℕ → List Owned → List Owned → Type 0
SameOthers id rs rs' = filter (λ r. not (owned_by id r)) rs' ≡ filter (λ r. not (owned_by id r)) rs

delete-NoneOf : (id : ℕ) (rs : List Owned) → NoneOf id (delete_where (owned_by id) rs)
delete-NoneOf id rs =
    All-map (λ r e. ground (arith, e)) (delete_where (owned_by id) rs)
      (filter_sound (λ r. not (owned_by id r)) rs)

filter-twice : {A : Type 0} (p : A → Bool) (xs : List A) → filter p (filter p xs) ≡ filter p xs
filter-twice p [] = refl
filter-twice p (x ∷ xs) = elim (Bool-cases (p x)) [
  | inl e ↦ rw (e, e) (ap (◌∷◌ x) (filter-twice p xs))
  | inr e ↦ rw e (filter-twice p xs)
]

-- Nothing refers to the user any more.
refers-NoneOf : (id : ℕ) (rs : List Owned) → NoneOf id rs → refers id rs ≡ false
refers-NoneOf id [] h = refl
refers-NoneOf id (r ∷ rs) h = rw h.0 (refers-NoneOf id rs h.1)

refers-delete : (id : ℕ) (rs : List Owned) → refers id (delete_where (owned_by id) rs) ≡ false
refers-delete id rs = refers-NoneOf id (delete_where (owned_by id) rs) (delete-NoneOf id rs)

find-delete_self : (id : ℕ) (us : List User) → find (has_id id) (delete_where (has_id id) us) ≡ none
find-delete_self id [] = refl
find-delete_self id (u ∷ us) = ground (arith, find-delete_self id us)

-- A table after the deletion of a user.
abbrev pub IsCleared : ℕ → List Owned → List Owned → Type 0
IsCleared id rs rs' = NoneOf id rs' × SameOthers id rs rs'

delete-IsCleared : (id : ℕ) (rs : List Owned) → IsCleared id rs (delete_where (owned_by id) rs)
delete-IsCleared id rs = (delete-NoneOf id rs, filter-twice (λ r. not (owned_by id r)) rs)

-- The user and every row of the user are gone; every other user and row is as before.
abbrev pub IsDeleted : ℕ → Db → Db → Type 0
IsDeleted id db db' =
    (find (has_id id) db'.users ≡ none)
    × (filter (λ u. not (has_id id u)) db'.users ≡ filter (λ u. not (has_id id u)) db.users)
    × IsCleared id db.targets db'.targets
    × IsCleared id db.holdings db'.holdings
    × IsCleared id db.transactions db'.transactions
    × IsCleared id db.watchlist db'.watchlist
    × IsCleared id db.settings db'.settings
    × IsCleared id db.alerts db'.alerts
    × IsCleared id db.advices db'.advices

-- The statements before it leave no row that keeps the user from being deleted.
delete_row-succeeds :
    (id : ℕ) (db : Db)
    → delete_row id (delete_rows id db)
      ≡ some (record (delete_rows id db) { users = delete_where (has_id id) db.users })
unfolding delete_row delete_rows
delete_row-succeeds id db =
    rw
      (
        refers-delete id db.targets,
        refers-delete id db.holdings,
        refers-delete id db.transactions,
        refers-delete id db.watchlist,
        refers-delete id db.settings,
        refers-delete id db.alerts,
        refers-delete id db.advices,
      )
      refl

delete_rows-IsDeleted :
    (id : ℕ) (db : Db)
    → IsDeleted id db (record (delete_rows id db) { users = delete_where (has_id id) db.users })
unfolding delete_rows
delete_rows-IsDeleted id db = (
  find-delete_self id db.users,
  filter-twice (λ u. not (has_id id u)) db.users,
  delete-IsCleared id db.targets,
  delete-IsCleared id db.holdings,
  delete-IsCleared id db.transactions,
  delete-IsCleared id db.watchlist,
  delete-IsCleared id db.settings,
  delete-IsCleared id db.alerts,
  delete-IsCleared id db.advices,
)

-- A deletion is refused with 400 if it is the admin's own, and with 404 if there is no such user;
-- with 500 if the commit fails, and only then, so no foreign key ever stops it. In these cases
-- nothing changes. Else the answer is 200: the user and every row of the user in the seven tables
-- that refer to users are gone, and every other user and row is as before.
pub delete_user_effect :
    (commits : Bool) (admin : User) (id : ℕ) (db : Db)
    → let (reply, db') = delete_user commits admin id db in
      ((admin.id == id ≡ true) × (reply ≡ fail 400) × (db' ≡ db))
      ⊎ (((admin.id == id ≡ false)
            × (find (has_id id) db.users ≡ none)
            × (reply ≡ fail 404)
            × (db' ≡ db))
          ⊎ (((commits ≡ false) × (reply ≡ fail 500) × (db' ≡ db))
              ⊎ ((admin.id == id ≡ false)
                  × (commits ≡ true)
                  × (reply ≡ ok tt)
                  × IsDeleted id db db')))
unfolding delete_user
delete_user_effect commits admin id db = elim (Bool-cases (admin.id == id)) [
  | inl a ↦ rw (delete_user, a) (inl (refl, refl, refl))
  | inr a ↦ elim (Option-cases (find (has_id id) db.users)) [
    | inl e ↦ rw (delete_user, a, e) (inr (inl (refl, refl, refl, refl)))
    | inr (u, e) ↦ elim (Bool-cases commits) [
      | inl c ↦
          rw (delete_user, a, e, delete_row-succeeds id db, c)
            (inr (inr (inr (refl, refl, refl, delete_rows-IsDeleted id db))))
      | inr c ↦
          rw (delete_user, a, e, delete_row-succeeds id db, c) (inr (inr (inl (refl, refl, refl))))
    ]
  ]
]

-- What a created user is, and that nobody had the name.
create_user-ok :
    (hash : Text → Text) (request : CreateUserRequest) (race users : List User)
    → (u : User) (left : List User) → create_user hash request race users ≡ (ok u, left)
    → let new = new_user hash request (users ++ race) in
      (u ≡ new)
      × (left ≡ insert new (users ++ race))
      × (find (has_name (strip request.username)) (users ++ race) ≡ none)
unfolding create_user insert_user
create_user-ok hash request race users u left h = elim (Bool-cases (is_acceptable request)) [
  | inr e ↦ absurd (ground (arith, h, e))
  | inl e ↦ elim (Option-cases (find (has_name (strip request.username)) users)) [
    | inr (v, k) ↦ absurd (ground (arith, h, e, k))
    | inl k ↦ elim (Option-cases (find (has_name (strip request.username)) (users ++ race))) [
      | inr (v, l) ↦ elim (Bool-cases (any (has_name (strip request.username)) (users ++ race))) [
        | inl m ↦ absurd (ground (arith, h, e, k, l, m))
        | inr m ↦ absurd (ground (arith, h, e, k, l, m))
      ]
      | inl l ↦ (ground (arith, h, e, k, l), ground (arith, h, e, k, l), l)
    ]
  ]
]

-- The answer of a login is that of the user found, or 401.
abbrev reply_of : (Text → Text → Bool) → Text → ℕ → Option User → Reply User
reply_of check password now none = fail 401
reply_of check password now (some u) = (login_user check password now u).0

login-reply_of :
    (check : Text → Text → Bool) (name password : Text) (now : ℕ) (users : List User)
    → (login check name password now users).0
      ≡ reply_of check password now (find (has_name (strip name)) users)
unfolding login login_user
login-reply_of check name password now users =
    elim (Option-cases (find (has_name (strip name)) users)) [
      | inl e ↦ rw (login, e) refl
      | inr (u, e) ↦ rw (login, e) refl
    ]

login_user-open :
    (check : Text → Text → Bool) (password : Text) (now : ℕ) (u : User)
    → u.is_active ≡ true
    → u.locked_until ≡ none
    → check password u.hashed_password ≡ true
    → (login_user check password now u).0 ≡ ok (register_success now u)
unfolding login_user
login_user-open check password now u a e c = ground arith

-- A user who was created logs in with the name and the password of the request, if bcrypt accepts a
-- password for its own hash; and the answer to a login with another name is what it was.
pub create_user-login :
    (hash : Text → Text) (check : Text → Text → Bool) (request : CreateUserRequest)
    (race users : List User) (u : User) (left : List User) (now : ℕ) (name password : Text)
    → ((p : Text) → check p (hash p) ≡ true)
    → create_user hash request race users ≡ (ok u, left)
    → text_eq (strip request.username) (strip name) ≡ false
    → ((login check request.username request.password now left).0 ≡ ok (register_success now u))
      × ((login check name password now left).0 ≡ (login check name password now (users ++ race)).0)
unfolding login_user
create_user-login hash check request race users u left now name password accepts h other =
    let new = new_user hash request (users ++ race) in
    let (same, table, free) = create_user-ok hash request race users u left h in
    let mine =
      find-append (has_name (strip request.username)) (users ++ race) new free
        ((text_eq_iff (strip request.username) (strip request.username)).1 refl) in
    let theirs = find-append_ne (has_name (strip name)) (users ++ race) new other in
    (
      login-reply_of check request.username request.password now left
          ∙ rw (table, same, mine)
              (login_user-open check request.password now new refl refl (accepts request.password)),
      login-reply_of check name password now left
          ∙ rw (table, theirs) (sym (login-reply_of check name password now (users ++ race))),
    )

-- A request gets a user only if the token, the bearer's or else the cookie's, decodes to the name
-- of that user, and the user is active.
pub get_current_user_sound :
    (decode : Text → Option Text) (bearer cookie : Text) (users : List User) (u : User)
    → get_current_user decode bearer cookie users ≡ ok u
    → (decode (choose_token bearer cookie) ≡ some u.username) × (u.is_active ≡ true)
unfolding get_current_user
get_current_user_sound decode bearer cookie users u h =
    elim (Option-cases (decode (choose_token bearer cookie))) [
      | inl e ↦ absurd (ground (arith, h, e))
      | inr (name, e) ↦ elim (Option-cases (find (has_name name) users)) [
        | inl k ↦ absurd (ground (arith, h, e, k))
        | inr (v, k) ↦
            ground
              (arith, h, e, k, find-some (has_name name) users v k, text_eq_iff v.username name)
      ]
    ]
