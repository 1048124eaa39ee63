-- ===== src/Auth/Lockout.antt =====
-- The protection against guessing a password.
use mathlib.Core.Path.{subst, sym}
use stock_monitor.Base.{
  ℕ, suc, ◌+◌, ◌-◌, ◌≤◌, ◌<◌, ◌≡◌, Bool, true, false, not, none, some, List, [], ◌∷◌, arith, leb,
  ltb, ◌==◌, length, if◌then◌else◌, All,
}
use stock_monitor.Base.Text.{Text}
use stock_monitor.Http.{Reply, ok, fail}
use stock_monitor.Auth.{User, max_failed_attempts, lockout, coalesce, login_user}

-- A try to log in: a password, and when.
pub record Attempt : Type 0 where
  pub password : Text
  pub now : ℕ

-- The status of an answer.
abbrev pub status : {A : Type 0} → Reply A → ℕ
status (ok a) = 200
status (fail c) = c

-- An account with no lock has fewer failures than the limit.
abbrev pub IsGuarded : User → Type 0
IsGuarded u = u.locked_until ≡ none → coalesce u.failed_attempts < max_failed_attempts

module _ (check : Text → Text → Bool) where
  -- Whatever the password, a login keeps the account guarded.
  pub login_user-IsGuarded :
      (password : Text) (now : ℕ) (u : User)
      → IsGuarded u
      → IsGuarded (login_user check password now u).1
  unfolding login_user
  login_user-IsGuarded password now u h = ground (arith, h)

  -- The tries at one account, one after the other.
  unfoldable pub after : List Attempt → User → User
  after [] u = u
  after (a ∷ later) u = after later (login_user check a.password a.now u).1

  -- The status of the answer to a try, if bcrypt accepted every password or refused every one.
  abbrev pub answered : Bool → Attempt → User → ℕ
  answered accepts a u = status (login_user (λ p h. accepts) a.password a.now u).0

  -- Whether the answer to a try tells a right password from a wrong one.
  abbrev pub tells : Attempt → User → Bool
  tells a u = not (answered true a u == answered false a u)

  -- How many tries of a sequence have such an answer.
  unfoldable pub told : List Attempt → User → ℕ
  unfolding login_user
  told [] u = 0
  told (a ∷ later) u =
      let rest = told later (login_user check a.password a.now u).1 in
      if tells a u then suc rest else rest

  -- How many telling answers an account still gives until `start + lockout`.
  abbrev budget : ℕ → User → ℕ
  budget start u = elim u.locked_until [
    | none ↦ max_failed_attempts - coalesce u.failed_attempts
    | some t ↦ if leb (start + lockout) t then 0 else max_failed_attempts
  ]

  abbrev pub IsWrong : User → Attempt → Type 0
  IsWrong u a = check a.password u.hashed_password ≡ false

  abbrev pub IsWithin : ℕ → Attempt → Type 0
  IsWithin start a = (start ≤ a.now) × (a.now < start + lockout)

  step_hash :
      (a : Attempt) (u : User)
      → (login_user check a.password a.now u).1.hashed_password ≡ u.hashed_password
  unfolding login_user
  step_hash a u = ground arith

  -- An active account without a lock.
  abbrev pub IsOpen : User → Type 0
  IsOpen u = (u.is_active ≡ true) × (u.locked_until ≡ none)

  step-IsOpen :
      (a : Attempt) (u : User)
      → IsOpen u
      → IsWrong u a
      → coalesce u.failed_attempts < 4
      → let v = (login_user check a.password a.now u).1 in
        IsOpen v × (coalesce v.failed_attempts ≡ suc (coalesce u.failed_attempts))
  unfolding login_user
  step-IsOpen a u o w h = ground (arith, o)

  -- The fifth failure in a row.
  step_lock :
      (a : Attempt) (u : User) (password : Text) (now : ℕ)
      → IsOpen u
      → IsWrong u a
      → coalesce u.failed_attempts ≡ 4
      → let (reply, v) = login_user check a.password a.now u in
        (status reply ≡ 429)
        × (status (login_user check password now v).0 ≡ (
            if ltb now (a.now + lockout)
            then 429
            else if check password u.hashed_password
            then 200
            else 401))
  unfolding login_user
  step_lock a u password now o w h = ground (arith, o)

  -- An active account without a lock is tried with wrong passwords until its count of failures is
  -- five: the last of them is answered 429, and the account is then locked for 900 seconds from it.
  -- A login before that is answered 429, the right password's too; the first one after it is
  -- answered 200 if the password is right, and 401 if it is wrong.
  pub failures_lock :
      (earlier : List Attempt) (final : Attempt) (u : User) (password : Text) (now : ℕ)
      → IsOpen u
      → All (IsWrong u) earlier
      → IsWrong u final
      → length earlier + coalesce u.failed_attempts ≡ 4
      → let (reply, v) = login_user check final.password final.now (after earlier u) in
        (status reply ≡ 429)
        × (status (login_user check password now v).0 ≡ (
            if ltb now (final.now + lockout)
            then 429
            else if check password u.hashed_password
            then 200
            else 401))
  unfolding after
  failures_lock [] final u password now o w l h =
      step_lock final u password now o l (omega (arith, h))
  failures_lock (a ∷ earlier) final u password now o w l h =
      let v = (login_user check a.password a.now u).1 in
      let hash = step_hash a u in
      let (opened, count) = step-IsOpen a u o w.0 (omega (arith, h)) in
      subst
        (λ k.
          (status (login_user check final.password final.now (after earlier v)).0 ≡ 429)
          × (status
                (login_user check password now
                  (login_user check final.password final.now (after earlier v)).1).0
              ≡ (if ltb now (final.now + lockout)
                  then 429
                  else if check password k
                  then 200
                  else 401)))
        hash
        (failures_lock earlier final v password now opened
          (subst (λ k. All (λ b. check b.password k ≡ false) earlier) (sym hash) w.1)
          (subst (λ k. check final.password k ≡ false) (sym hash) l) (omega (arith, h, count)))
