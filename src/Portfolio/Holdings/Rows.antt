-- ===== src/Portfolio/Holdings/Rows.antt =====
-- What the edit and the removal of one position change: the row that the request names, if the user
-- may touch it, and no other.
use stock_monitor.Base.{
  ℕ, ◌≡◌, refl, ◌∙◌, true, false, ◌&&◌, Option, none, some, List, [], ◌∷◌, arith, ◌==◌,
  if◌then◌else◌, find, inl, inr, Bool-cases, Option-cases,
}
use stock_monitor.Float.{Float}
use stock_monitor.Http.{ok, Returns}
use stock_monitor.Table.{update_where, delete_where, find-some}
use stock_monitor.Portfolio.{Holding, Db, CurrentUser, can_access, Commit, Outcome, commit-Outcome}
use stock_monitor.Portfolio.Positions.Lookup.{IsValid, update-IsValid, delete-IsValid}
use stock_monitor.Portfolio.Holdings.{
  HoldingUpdate, is_row, edit, edit_holding, drop_holding, is_positive_if_given, update_holding,
  remove_holding,
}
use stock_monitor.Portfolio.Holdings.Batch.{map_row, find-update_map, SameElse}

module _ {N : Type 0} ⦃f : Float N⦄ where
  -- What an edit of one row that is answered with `h` has done to the database.
  abbrev pub Edited : CurrentUser → ℕ → HoldingUpdate N → Db N → Holding N → Db N → Type 0
  Edited user id u db h db' =
      IsValid db'.holdings
      × (find (is_row id) db'.holdings ≡ some h)
      × ((old : Holding N) × (find (is_row id) db.holdings ≡ some old)
          × (can_access old.user_id user ≡ true)
          × (h ≡ edit u old))
      × ((j : ℕ) → (j == id) ≡ false → find (is_row j) db'.holdings ≡ find (is_row j) db.holdings)
      × SameElse db db'

  module _ (id : ℕ) (hs : List (Holding N)) where
    update_other :
        (g : Holding N → Holding N) (j : ℕ)
        → ((h : Holding N) → (g h).id ≡ h.id)
        → (j == id) ≡ false
        → find (is_row j) (update_where (is_row id) g hs) ≡ find (is_row j) hs
    update_other g j k e =
        find-update_map (is_row j) (is_row id) g hs (λ h. rw (k h)) ∙ same (find (is_row j) hs) refl
      where
        same :
            (o : Option (Holding N))
            → find (is_row j) hs ≡ o
            → map_row (λ h. if is_row id h then g h else h) o ≡ o
        same none d = refl
        same (some h) d = ground (arith, e, find-some (is_row j) hs h d)

    update_self :
        (g : Holding N → Holding N) (h : Holding N)
        → ((h : Holding N) → (g h).id ≡ h.id)
        → find (is_row id) hs ≡ some h
        → find (is_row id) (update_where (is_row id) g hs) ≡ some (g h)
    update_self g h k e = ground (
      arith,
      e,
      find-some (is_row id) hs h e,
      find-update_map (is_row id) (is_row id) g hs (λ x. rw (k x)),
    )

  module _ (user : CurrentUser) (id : ℕ) (db : Db N) (valid : IsValid db.holdings) where
    edit_holding_own :
        (u : HoldingUpdate N) (h : Holding N)
        → find (is_row id) db.holdings ≡ some h
        → can_access h.user_id user ≡ true
        → edit_holding user id u db
          ≡ ok (edit u h, record db { holdings = update_where (is_row id) (edit u) db.holdings })
    unfolding edit_holding
    edit_holding_own u h e a = rw (e, a, edit_holding)

    edit_holding-Edited :
        (u : HoldingUpdate N)
        → Returns (λ (h, db'). Edited user id u db h db') (edit_holding user id u db)
    edit_holding-Edited u = elim (Option-cases (find (is_row id) db.holdings)) [
      | inl e ↦ unfold edit_holding in rw (e, edit_holding) tt
      | inr (h, e) ↦ elim (Bool-cases (can_access h.user_id user)) [
        | inr a ↦ unfold edit_holding in rw (e, a, edit_holding) tt
        | inl a ↦ rw (edit_holding_own u h e a) (
          update-IsValid (is_row id) (edit u) db.holdings (λ g. (refl, refl, refl)) valid,
          update_self id db.holdings (edit u) h (λ g. refl) e,
          (h, e, a, refl),
          (λ j n. update_other id db.holdings (edit u) j (λ g. refl) n),
          (refl, refl, refl),
        )
      ]
    ]

  -- From a valid table of holdings, `update_holding` either fails and changes nothing, or the row
  -- with the id is one that the user may change, and is replaced by itself with the fields of the
  -- request that are not null, which is the answer; every other row and table is as it was.
  pub update_holding_effect :
      (user : CurrentUser) (id : ℕ) (u : HoldingUpdate N) (c : Commit) (db : Db N)
      → IsValid db.holdings
      → Outcome (Edited user id u db) db (update_holding user id u c db)
  unfolding update_holding
  update_holding_effect user id u c db valid =
      elim (Bool-cases
        (is_positive_if_given u.quantity && is_positive_if_given u.avg_purchase_price)) [
          | inl e ↦ rw e (
              commit-Outcome (Edited user id u db) c db (edit_holding user id u db)
                (edit_holding-Edited user id db valid u))
          | inr e ↦ rw e refl
        ]

  -- What the removal of one row has done to the database.
  abbrev pub Dropped : CurrentUser → ℕ → Db N → Unit {0} → Db N → Type 0
  Dropped user id db done db' =
      IsValid db'.holdings
      × ((old : Holding N) × (find (is_row id) db.holdings ≡ some old)
          × (can_access old.user_id user ≡ true))
      × (find (is_row id) db'.holdings ≡ none)
      × ((j : ℕ) → (j == id) ≡ false → find (is_row j) db'.holdings ≡ find (is_row j) db.holdings)
      × SameElse db db'

  delete_self :
      (id : ℕ) (hs : List (Holding N)) → find (is_row id) (delete_where (is_row id) hs) ≡ none
  delete_self id [] = refl
  delete_self id (h ∷ hs) = ground (arith, delete_self id hs)

  delete_other :
      (id j : ℕ) (hs : List (Holding N))
      → (j == id) ≡ false
      → find (is_row j) (delete_where (is_row id) hs) ≡ find (is_row j) hs
  delete_other id j [] n = refl
  delete_other id j (h ∷ hs) n = ground (arith, delete_other id j hs n)

  module _ (user : CurrentUser) (id : ℕ) (db : Db N) (valid : IsValid db.holdings) where
    drop_holding_own :
        (h : Holding N)
        → find (is_row id) db.holdings ≡ some h
        → can_access h.user_id user ≡ true
        → drop_holding user id db
          ≡ ok (tt, record db { holdings = delete_where (is_row id) db.holdings })
    unfolding drop_holding
    drop_holding_own h e a = rw (e, a, drop_holding)

    drop_holding-Dropped :
        Returns (λ (done, db'). Dropped user id db done db') (drop_holding user id db)
    drop_holding-Dropped = elim (Option-cases (find (is_row id) db.holdings)) [
      | inl e ↦ unfold drop_holding in rw (e, drop_holding) tt
      | inr (h, e) ↦ elim (Bool-cases (can_access h.user_id user)) [
        | inr a ↦ unfold drop_holding in rw (e, a, drop_holding) tt
        | inl a ↦ rw (drop_holding_own h e a) (
          delete-IsValid (is_row id) db.holdings valid,
          (h, e, a),
          delete_self id db.holdings,
          (λ j n. delete_other id j db.holdings n),
          (refl, refl, refl),
        )
      ]
    ]

  -- From a valid table of holdings, `remove_holding` either fails and changes nothing, or the row
  -- with the id is one that the user may change, and is gone; every other row and table is as it
  -- was.
  pub remove_holding_effect :
      (user : CurrentUser) (id : ℕ) (c : Commit) (db : Db N)
      → IsValid db.holdings
      → Outcome (Dropped user id db) db (remove_holding user id c db)
  unfolding remove_holding
  remove_holding_effect user id c db valid =
      commit-Outcome (Dropped user id db) c db (drop_holding user id db)
        (drop_holding-Dropped user id db valid)
