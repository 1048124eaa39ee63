-- ===== src/Auth/Tests.antt =====
-- Runs of the login and of the administration, and the theorems at concrete inputs.
use stock_monitor.Base.{
  ℕ, ◌≡◌, refl, Bool, true, false, Option, none, some, List, [], ◌∷◌, arith, find, ◌==◌, ◌⊎◌,
}
use stock_monitor.Base.Text.{Text, codes, text_eq, text_eq_iff, strip}
use stock_monitor.Http.{ok, fail}
use stock_monitor.Auth.{User, login, login_user, get_current_user}
use stock_monitor.Auth.Lockout.{Attempt, status, after, told, failures_lock}
use stock_monitor.Auth.Users.{
  Owned, Db, has_id, delete_row, delete_user, create_user, CreateUserRequest,
}
use stock_monitor.Auth.Users.Laws.{
  IsDeleted, delete_user_effect, create_user-login, get_current_user_sound,
}

-- A stand-in for bcrypt: the hash is the password.
abbrev same : Text → Text → Bool
same = text_eq

abbrev anna : User
anna = record {
  id = 3;
  username = codes "anna";
  hashed_password = codes "pw";
  is_admin = false;
  is_active = true;
  last_login = none;
  failed_attempts = some 0;
  locked_until = none;
}

abbrev root : User
root = record anna { id = 1; username = codes "root"; is_admin = true }

abbrev wrong : ℕ → Attempt
wrong t = record { password = codes "x"; now = t }

abbrev guesses : List Attempt
guesses = wrong 100 ∷ wrong 101 ∷ wrong 102 ∷ wrong 103 ∷ wrong 104 ∷ wrong 105 ∷ wrong 106 ∷ []

five_told : told same guesses anna ≡ 5
unfolding told login_user text_eq
five_told = refl

failures_lock_example :
    let (reply, v) =
      login_user same
        (codes "x")
        102
        (after same (wrong 100 ∷ wrong 101 ∷ []) (record anna { failed_attempts = some 2 })) in
    (status reply ≡ 429) × (status (login_user same (codes "pw") 1001 v).0 ≡ 429)
unfolding text_eq
failures_lock_example =
    failures_lock same (wrong 100 ∷ wrong 101 ∷ []) (wrong 102)
      (record anna { failed_attempts = some 2 }) (codes "pw") 1001 (refl, refl) (refl, (refl, tt))
      refl (omega arith)

abbrev request : CreateUserRequest
request = record { username = codes " bob "; password = codes "long enough"; is_admin = false }

abbrev late : User
late = record anna { id = 4; username = codes "bob" }

abbrev bob : User
bob = record anna { id = 4; username = codes "bob"; hashed_password = codes "long enough" }

create_user_race : (create_user (λ p. p) request (late ∷ []) (anna ∷ [])).0 ≡ fail 400
unfolding create_user text_eq strip
create_user_race = refl

create_user-login_example :
    let left = (create_user (λ p. p) request [] (anna ∷ [])).1 in
    ((login same (codes " bob ") (codes "long enough") 9 left).0
      ≡ ok (record bob { last_login = some 9 }))
    × ((login same (codes "anna") (codes "pw") 9 left).0
        ≡ (login same (codes "anna") (codes "pw") 9 (anna ∷ [])).0)
unfolding text_eq strip create_user
create_user-login_example =
    create_user-login (λ p. p) same request [] (anna ∷ []) bob (anna ∷ bob ∷ []) 9 (codes "anna")
      (codes "pw") (λ p. (text_eq_iff p p).1 refl) refl refl

abbrev row : ℕ → ℕ → Owned
row i u = record { id = i; user_id = some u }

abbrev db : Db
db = record {
  users = root ∷ anna ∷ [];
  targets = row 1 3 ∷ row 2 1 ∷ [];
  holdings = row 1 3 ∷ [];
  transactions = [];
  watchlist = row 5 1 ∷ [];
  settings = row 1 1 ∷ row 2 3 ∷ [];
  alerts = [];
  advices = record { id = 1; user_id = none } ∷ [];
}

delete_user_effect_example :
    let (reply, db') = delete_user true root 3 db in
    ((root.id == 3 ≡ true) × (reply ≡ fail 400) × (db' ≡ db))
    ⊎ (((root.id == 3 ≡ false)
          × (find (has_id 3) db.users ≡ none)
          × (reply ≡ fail 404)
          × (db' ≡ db))
        ⊎ (((true ≡ false) × (reply ≡ fail 500) × (db' ≡ db))
            ⊎ ((root.id == 3 ≡ false) × (true ≡ true) × (reply ≡ ok tt) × IsDeleted 3 db db')))
delete_user_effect_example = delete_user_effect true root 3 db

-- A user whose rows are not deleted first cannot be deleted.
too_early : delete_row 3 db ≡ none
unfolding delete_row
too_early = refl

-- A decoder that takes the token for the name.
abbrev plain : Text → Option Text
plain t = some t

get_current_user_runs : get_current_user plain [] (codes "anna") (root ∷ anna ∷ []) ≡ ok anna
unfolding get_current_user text_eq
get_current_user_runs = refl

get_current_user_sound_example :
    (plain (codes "anna") ≡ some anna.username) × (anna.is_active ≡ true)
get_current_user_sound_example =
    get_current_user_sound plain [] (codes "anna") (root ∷ anna ∷ []) anna get_current_user_runs
