-- ===== src/Portfolio/Targets/Budget.antt =====
-- What a user allocates stays within 100%, whatever the users request.
use stock_monitor.Base.{
  ℕ, ◌≡◌, refl, ap, Bool, true, false, not, some, List, [], ◌∷◌, arith, if◌then◌else◌, find, filter,
  All, All-append, All-filter, inl, inr, Bool-cases, Option-cases,
}
use stock_monitor.Base.Text.{codes, or_else, upper}
use stock_monitor.Float.{Float, ◌+◌, lt, le, decimal, sum_from, zero}
use stock_monitor.Float.Laws.{IsOrder, IsMonotone}
use stock_monitor.Http.{Returns, Returns-guard}
use stock_monitor.Table.{insert, delete_where}
use stock_monitor.Portfolio.{
  TargetAllocation, Db, CurrentUser, Commit, Outcome, commit-Outcome, Outcome-keeps,
}
use stock_monitor.Portfolio.Targets.{
  TargetAllocationCreate, is_own, is_scope, is_unnamed, is_target, percents, allocated, limit,
  is_percent, new_target, add_target, create_target, drop_target, delete_target,
}

-- A request on the targets; the server handles a sequence of them.
pub data Request (N : Type 0) : Type 0 where
  create : CurrentUser → TargetAllocationCreate N → Commit → Request N
  delete : CurrentUser → ℕ → Commit → Request N

module _ {N : Type 0} ⦃f : Float N⦄ where
  -- Every allocation is a percentage, and no user's allocations exceed the limit.
  pub record IsBudget (ts : List (TargetAllocation N)) : Type 0 where
    pub ranges : All (λ t. is_percent t.target_percent ≡ true) ts
    pub within : (user : ℕ) → lt limit (allocated user ts) ≡ false

  abbrev own_percents : ℕ → List (TargetAllocation N) → List N
  own_percents user ts = percents (filter (is_own user) ts)

  -- A new row counts for its owner alone.
  sum_from-insert :
      (user : ℕ) (t : TargetAllocation N) (ts : List (TargetAllocation N)) (acc : N)
      → sum_from acc (own_percents user (insert t ts)) ≡ (
          if is_own user t
          then sum_from acc (own_percents user ts) + t.target_percent
          else sum_from acc (own_percents user ts))
  sum_from-insert user t [] acc = ground arith
  sum_from-insert user t (s ∷ ts) acc = elim (Bool-cases (is_own user s)) [
    | inl e ↦ rw e (sum_from-insert user t ts (acc + s.target_percent))
    | inr e ↦ rw e (sum_from-insert user t ts acc)
  ]

  insert-IsBudget :
      (user : ℕ) (t : TargetAllocation N) (ts : List (TargetAllocation N))
      → t.user_id ≡ some user
      → is_percent t.target_percent ≡ true
      → lt limit (allocated user ts + t.target_percent) ≡ false
      → IsBudget ts
      → IsBudget (insert t ts)
  insert-IsBudget user t ts own range fits b = record {
    ranges = All-append (λ t. is_percent t.target_percent ≡ true) ts (t ∷ []) b.ranges (range, tt);
    within = λ u. rw (sum_from-insert u t ts zero) (kept u (is_own u t) refl);
  }
    where
      kept :
          (u : ℕ) (o : Bool)
          → is_own u t ≡ o
          → lt limit (if o then allocated u ts + t.target_percent else allocated u ts) ≡ false
      kept u true e = let same : u ≡ user = ground (arith, own, e) in rw same fits
      kept u false e = b.within u

  module _ (order : IsOrder f) (mono : IsMonotone f) where
    -- Deleting rows does not raise a sum of percentages.
    sum_from-delete :
        (user : ℕ) (p : TargetAllocation N → Bool) (ts : List (TargetAllocation N)) (a b : N)
        → All (λ t. is_percent t.target_percent ≡ true) ts
        → le a b ≡ true
        → le
            (sum_from a (own_percents user (delete_where p ts)))
            (sum_from b (own_percents user ts))
          ≡ true
    sum_from-delete user p [] a b r h = h
    sum_from-delete user p (t ∷ ts) a b r h =
        let c = t.target_percent in
        let low : le zero c ≡ true = ground (arith, r.0) in
        let high : le c (decimal 100 0) ≡ true = ground (arith, r.0) in
        let both = mono.add_mono a b c h low high in
        let more =
          order.le_trans a b (b + c) h (mono.add_grow b c (order.le_self a b h) low high) in
        elim (Bool-cases (p t)) [
          | inl d ↦ elim (Bool-cases (is_own user t)) [
            | inl e ↦ rw (d, e) (sum_from-delete user p ts a (b + c) r.1 more)
            | inr e ↦ rw (d, e) (sum_from-delete user p ts a b r.1 h)
          ]
          | inr d ↦ elim (Bool-cases (is_own user t)) [
            | inl e ↦ rw (d, e) (sum_from-delete user p ts (a + c) (b + c) r.1 both)
            | inr e ↦ rw (d, e) (sum_from-delete user p ts a b r.1 h)
          ]
        ]

    not_beyond : (a b c : N) → le b c ≡ true → lt a c ≡ false → lt a b ≡ false
    not_beyond a b c h n = elim (Bool-cases (lt a b)) [
      | inl e ↦ cc (mono.lt_le_trans a b c e h, n)
      | inr e ↦ e
    ]

    delete-IsBudget :
        (p : TargetAllocation N → Bool) (ts : List (TargetAllocation N))
        → IsBudget ts
        → IsBudget (delete_where p ts)
    delete-IsBudget p ts b = record {
      ranges = All-filter (λ t. is_percent t.target_percent ≡ true) (λ t. not (p t)) ts b.ranges;
      within = λ u.
          not_beyond limit (allocated u (delete_where p ts)) (allocated u ts)
            (sum_from-delete u p ts zero zero b.ranges mono.zero_self) (b.within u);
    }

  -- What the creation of a target that is answered with `t` has done to the database.
  abbrev pub Allocated :
      CurrentUser → TargetAllocationCreate N → Db N → TargetAllocation N → Db N → Type 0
  Allocated user data' db t db' =
      (db' ≡ record db { targets = insert t db.targets })
      × (t ≡ new_target user.id data' db.targets)
      × (is_scope t.scope_type ≡ true)
      × (is_percent t.target_percent ≡ true)
      × (lt limit (allocated user.id db.targets + t.target_percent) ≡ false)

  add_target-Allocated :
      (user : CurrentUser) (data' : TargetAllocationCreate N) (db : Db N)
      → Returns (λ (t, db'). Allocated user data' db t db') (add_target user data' db)
  unfolding add_target
  add_target-Allocated user data' db =
      let P : TargetAllocation N × Db N → Type 0 = λ (t, db'). Allocated user data' db t db' in
      let scope = upper (or_else data'.scope_type (codes "MARKET")) in
      let total = allocated user.id db.targets + data'.target_percent in
      Returns-guard P (not (is_percent data'.target_percent)) 400 _ λ a.
        Returns-guard P (not (is_scope scope)) 400 _ λ b.
          Returns-guard P (is_unnamed scope data'.scope_value) 400 _ λ c.
            Returns-guard P (lt limit total) 400 _
              λ d. (refl, refl, ground (arith, b), ground (arith, a), d)

  -- What `create_target` does, whatever the input and the database's answer: it fails and changes
  -- nothing, or adds one row of the user with a known scope and a percentage, which does not take
  -- the sum of the user's rows beyond the limit.
  pub create_target_effect :
      (user : CurrentUser) (data' : TargetAllocationCreate N) (c : Commit) (db : Db N)
      → Outcome (Allocated user data' db) db (create_target user data' c db)
  unfolding create_target
  create_target_effect user data' c db =
      commit-Outcome (Allocated user data' db) c db (add_target user data' db)
        (add_target-Allocated user data' db)

  unfoldable pub handle : Request N → Db N → Db N
  unfolding create_target delete_target
  handle (create user data' c) db = (create_target user data' c db).1
  handle (delete user id c) db = (delete_target user id c db).1

  unfoldable pub serve : List (Request N) → Db N → Db N
  unfolding handle
  serve [] db = db
  serve (r ∷ rs) db = serve rs (handle r db)

  module _ (order : IsOrder f) (mono : IsMonotone f) where
    Allocated-IsBudget :
        (user : CurrentUser) (data' : TargetAllocationCreate N) (db : Db N) (t : TargetAllocation N)
        (db' : Db N)
        → IsBudget db.targets
        → Allocated user data' db t db'
        → IsBudget db'.targets
    Allocated-IsBudget user data' db t db' b a = rw a.0 (
        insert-IsBudget user.id t db.targets (ap (λ (s : TargetAllocation N). s.user_id) a.1) a.3
          a.4 b)

    drop_target-IsBudget :
        (user : CurrentUser) (id : ℕ) (db : Db N)
        → IsBudget db.targets
        → Returns (λ (done, db'). IsBudget db'.targets) (drop_target user id db)
    unfolding drop_target
    drop_target-IsBudget user id db b = elim (Option-cases (find (is_target id) db.targets)) [
      | inl e ↦ rw (e, drop_target) tt
      | inr (t, e) ↦ elim (Bool-cases (is_own user.id t)) [
        | inl o ↦ rw (e, o, drop_target) (delete-IsBudget order mono (is_target id) db.targets b)
        | inr o ↦ rw (e, o, drop_target) tt
      ]
    ]

    handle-IsBudget :
        (r : Request N) (db : Db N) → IsBudget db.targets → IsBudget (handle r db).targets
    unfolding handle
    handle-IsBudget (create user data' c) db b =
        Outcome-keeps (λ (d : Db N). IsBudget d.targets) (Allocated user data' db) db
          (create_target user data' c db) (create_target_effect user data' c db) b
          (λ t db' a. Allocated-IsBudget user data' db t db' b a)
    handle-IsBudget (delete user id c) db b =
        let Q : Unit {0} → Db N → Type 0 = λ done db'. IsBudget db'.targets in
        Outcome-keeps (λ (d : Db N). IsBudget d.targets) Q db (delete_target user id c db)
          (commit-Outcome Q c db (drop_target user id db) (drop_target-IsBudget user id db b)) b
          (λ t db' a. a)

    -- Whatever targets any users create and delete, in any order and with any answers of the
    -- database: if at first every allocation is a percentage and no user's allocations add up to
    -- more than 100% and a millionth, it stays so.
    pub serve-IsBudget :
        (rs : List (Request N)) (db : Db N) → IsBudget db.targets → IsBudget (serve rs db).targets
    unfolding serve
    serve-IsBudget [] db b = b
    serve-IsBudget (r ∷ rs) db b = serve-IsBudget rs (handle r db) (handle-IsBudget r db b)
