-- ===== src/Portfolio/Holdings/Batch.antt =====
-- What a batch of edits changes: the rows that its items name and the user may touch, each by the
-- fields of its items, and no other.
use stock_monitor.Base.{
  ℕ, suc, ◌+◌, ◌≡◌, refl, ap, ◌∙◌, Bool, true, false, Option, none, some, List, [], ◌∷◌, arith,
  ◌==◌, if◌then◌else◌, find, inl, inr, Bool-cases, Option-cases,
}
use stock_monitor.Float.{Float}
use stock_monitor.Http.{Returns}
use stock_monitor.Table.{update_where, count_where, find-some}
use stock_monitor.Portfolio.{Holding, Db, CurrentUser, can_access, Commit, Outcome, commit-Outcome}
use stock_monitor.Portfolio.Positions.Lookup.{IsValid, update-IsValid}
use stock_monitor.Portfolio.Holdings.{
  HoldingBatchItem, is_row, is_own_row, edit_item, edit_items, edit_batch, is_acceptable,
  batch_update_holdings,
}

module _ {N : Type 0} where
  abbrev pub map_row : (Holding N → Holding N) → Option (Holding N) → Option (Holding N)
  map_row g none = none
  map_row g (some h) = some (g h)

  abbrev pub is_found : Option (Holding N) → Bool
  is_found none = false
  is_found (some h) = true

  -- A search whose columns an update keeps finds the same row, updated if it passes the test.
  pub find-update_map :
      (p q : Holding N → Bool) (g : Holding N → Holding N) (hs : List (Holding N))
      → ((x : Holding N) → p (g x) ≡ p x)
      → find p (update_where q g hs) ≡ map_row (λ h. if q h then g h else h) (find p hs)
  find-update_map p q g [] k = refl
  find-update_map p q g (x ∷ xs) k = ground (arith, k x, find-update_map p q g xs k)

module _ {N : Type 0} ⦃f : Float N⦄ where
  -- The changes of a batch to the row with the id `j`.
  unfoldable pub edits_of : ℕ → List (HoldingBatchItem N) → Holding N → Holding N
  edits_of j [] h = h
  edits_of j (i ∷ items) h = edits_of j items (if i.id == j then edit_item i h else h)

  abbrev pub edited : CurrentUser → ℕ → List (HoldingBatchItem N) → Holding N → Holding N
  edited user j items h = if can_access h.user_id user then edits_of j items h else h

  -- How many items of a batch name a row that the user may change.
  abbrev pub named : CurrentUser → List (Holding N) → List (HoldingBatchItem N) → ℕ
  named user hs = count_where (λ i. is_found (find (is_own_row user i.id) hs))

  edit_items-IsValid :
      (user : CurrentUser) (items : List (HoldingBatchItem N)) (n : ℕ) (hs : List (Holding N))
      → IsValid hs
      → IsValid (edit_items user items n hs).1
  unfolding edit_items
  edit_items-IsValid user [] n hs v = v
  edit_items-IsValid user (i ∷ items) n hs v =
      edit_items-IsValid user items _ (update_where (is_own_row user i.id) (edit_item i) hs)
        (update-IsValid (is_own_row user i.id) (edit_item i) hs (λ h. (refl, refl, refl)) v)

  edit_row :
      (user : CurrentUser) (i : HoldingBatchItem N) (items : List (HoldingBatchItem N)) (j : ℕ)
      (hs : List (Holding N)) (o : Option (Holding N))
      → find (is_row j) hs ≡ o
      → map_row
          (edited user j items)
          (map_row (λ h. if is_own_row user i.id h then edit_item i h else h) o)
        ≡ map_row (edited user j (i ∷ items)) o
  unfolding edits_of
  edit_row user i items j hs none e = refl
  edit_row user i items j hs (some h) e = ground (arith, find-some (is_row j) hs h e)

  edit_items_rows :
      (user : CurrentUser) (items : List (HoldingBatchItem N)) (n j : ℕ) (hs : List (Holding N))
      → find (is_row j) (edit_items user items n hs).1
        ≡ map_row (edited user j items) (find (is_row j) hs)
  unfolding edit_items
  edit_items_rows user [] n j hs = unedited (find (is_row j) hs)
    where
      unedited : (o : Option (Holding N)) → o ≡ map_row (edited user j []) o
      unedited none = refl
      unedited (some h) = unfold edits_of in ground arith
  edit_items_rows user (i ∷ items) n j hs =
      edit_items_rows user items _ j (update_where (is_own_row user i.id) (edit_item i) hs)
      ∙ ap (map_row (edited user j items))
          (find-update_map (is_row j) (is_own_row user i.id) (edit_item i) hs (λ x. refl))
      ∙ edit_row user i items j hs (find (is_row j) hs) refl

  found_kept :
      (user : CurrentUser) (id : ℕ) (i : HoldingBatchItem N) (hs : List (Holding N))
      → is_found (find (is_own_row user id) (update_where (is_own_row user i.id) (edit_item i) hs))
        ≡ is_found (find (is_own_row user id) hs)
  found_kept user id i hs =
      rw (find-update_map (is_own_row user id) (is_own_row user i.id) (edit_item i) hs (λ x. refl))
        (still (find (is_own_row user id) hs))
    where
      still :
          (o : Option (Holding N))
          → is_found (map_row (λ h. if is_own_row user i.id h then edit_item i h else h) o)
            ≡ is_found o
      still none = refl
      still (some h) = refl

  named-update :
      (user : CurrentUser) (i : HoldingBatchItem N) (hs : List (Holding N))
      (items : List (HoldingBatchItem N))
      → named user (update_where (is_own_row user i.id) (edit_item i) hs) items
        ≡ named user hs items
  named-update user i hs [] = refl
  named-update user i hs (k ∷ items) = rw (found_kept user k.id i hs, named-update user i hs items)

  edit_items_count :
      (user : CurrentUser) (items : List (HoldingBatchItem N)) (n : ℕ) (hs : List (Holding N))
      → (edit_items user items n hs).0 ≡ named user hs items + n
  unfolding edit_items
  edit_items_count user [] n hs = omega arith
  edit_items_count user (i ∷ items) n hs =
      let hs' = update_where (is_own_row user i.id) (edit_item i) hs in
      let same = named-update user i hs items in
      elim (Option-cases (find (is_own_row user i.id) hs)) [
        | inl e ↦ rw (e, edit_items) (omega (arith, edit_items_count user items n hs', same))
        | inr (h, e) ↦
            rw (e, edit_items) (omega (arith, edit_items_count user items (suc n) hs', same))
      ]

  -- The other tables.
  abbrev pub SameElse : Db N → Db N → Type 0
  SameElse db db' =
      (db'.stocks ≡ db.stocks) × (db'.transactions ≡ db.transactions) × (db'.targets ≡ db.targets)

  -- What a batch that is answered with `n` has done to the database.
  abbrev pub Batched : CurrentUser → List (HoldingBatchItem N) → Db N → ℕ → Db N → Type 0
  Batched user items db n db' =
      IsValid db'.holdings
      × (n ≡ named user db.holdings items)
      × ((j : ℕ)
          → find (is_row j) db'.holdings
            ≡ map_row (edited user j items) (find (is_row j) db.holdings))
      × SameElse db db'

  edit_batch-Batched :
      (user : CurrentUser) (items : List (HoldingBatchItem N)) (db : Db N)
      → IsValid db.holdings
      → Returns (λ (n, db'). Batched user items db n db') (edit_batch user items db)
  unfolding edit_batch
  edit_batch-Batched user items db valid = (
    edit_items-IsValid user items 0 db.holdings valid,
    omega (arith, edit_items_count user items 0 db.holdings),
    (λ j. edit_items_rows user items 0 j db.holdings),
    (refl, refl, refl),
  )

  -- From a valid table of holdings, `batch_update_holdings` either fails and changes nothing, or
  -- answers with the number of items that name a row which the user may change, and leaves a valid
  -- table in which each row of the user, or of nobody for an admin, has gone through the items with
  -- its id in their order, and every other row is as it was. No other table changes.
  pub batch_update_effect :
      (user : CurrentUser) (items : List (HoldingBatchItem N)) (c : Commit) (db : Db N)
      → IsValid db.holdings
      → Outcome (Batched user items db) db (batch_update_holdings user items c db)
  unfolding batch_update_holdings edit_batch edit_items
  batch_update_effect user [] c db valid = edit_batch-Batched user [] db valid
  batch_update_effect user (i ∷ items) c db valid = elim (Bool-cases (is_acceptable (i ∷ items))) [
    | inl e ↦ rw e (
        commit-Outcome (Batched user (i ∷ items) db) c db (edit_batch user (i ∷ items) db)
          (edit_batch-Batched user (i ∷ items) db valid))
    | inr e ↦ rw e refl
  ]
