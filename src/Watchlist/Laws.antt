-- ===== src/Watchlist/Laws.antt =====
-- The watchlist: one item for a user and a stock, and nobody changes an item of somebody else.
use mathlib.Core.Path.{sym, subst, ap}
use stock_monitor.Base.{
  ℕ, ◌≡◌, ◌≤◌, refl, Bool, true, false, not, ◌&&◌, Option, none, some, List, [], ◌∷◌, ◌++◌, arith,
  ◌==◌, if◌then◌else◌, find, filter, map, All, inl, inr, Bool-cases,
}
use stock_monitor.Table.{
  IsUnique, insert, next_id, update_where, delete_where, insert-IsUnique, update-IsUnique,
  delete-IsUnique, find-none, All-map,
}
use stock_monitor.Portfolio.{CurrentUser, owner_eq, can_access}
use stock_monitor.Alerting.{WatchlistItem}
use stock_monitor.Watchlist.{WatchlistAddRequest, item_id, is_listed, is_item, new_item}

module _ {A : Type 0} (r q : A → Bool) where
  -- Rows that a statement does not reach are as before.
  filter-update :
      (g : A → A) (xs : List A)
      → All (λ y. q y ≡ true → (r y ≡ false) × (r (g y) ≡ false)) xs
      → filter r (update_where q g xs) ≡ filter r xs
  filter-update g [] a = refl
  filter-update g (x ∷ xs) a = elim (Bool-cases (q x)) [
    | inl e ↦ let h = a.0 e in rw (e, h.0, h.1) (filter-update g xs a.1)
    | inr e ↦ rw e (ap (λ rest. if r x then x ∷ rest else rest) (filter-update g xs a.1))
  ]

  filter-delete :
      (xs : List A)
      → All (λ y. q y ≡ true → r y ≡ false) xs
      → filter r (delete_where q xs) ≡ filter r xs
  filter-delete [] a = refl
  filter-delete (x ∷ xs) a = elim (Bool-cases (q x)) [
    | inl e ↦ rw (e, a.0 e) (filter-delete xs a.1)
    | inr e ↦ rw e (ap (λ rest. if r x then x ∷ rest else rest) (filter-delete xs a.1))
  ]

  filter-insert : (z : A) (xs : List A) → r z ≡ false → filter r (insert z xs) ≡ filter r xs
  filter-insert z [] e = rw e refl
  filter-insert z (x ∷ xs) e = ap (λ rest. if r x then x ∷ rest else rest) (filter-insert z xs e)

pub owner_access :
    (owner : Option ℕ) (user : CurrentUser)
    → owner_eq owner (some user.id) ≡ true
    → can_access owner user ≡ true
owner_access none user h = cc
owner_access (some u) user h = h

module _ {N : Type 0} where
  -- The primary key.
  abbrev pub same_id : WatchlistItem N → WatchlistItem N → Bool
  same_id a b = a.id == b.id

  abbrev pub same_listing : WatchlistItem N → WatchlistItem N → Bool
  same_listing a b = owner_eq a.user_id b.user_id && a.stock_id == b.stock_id

  -- The rows that a user may not touch.
  abbrev pub foreign : CurrentUser → List (WatchlistItem N) → List (WatchlistItem N)
  foreign user = filter (λ i. not (can_access i.user_id user))

  none_with :
      (P : WatchlistItem N → Type 0) (x : WatchlistItem N) (xs : List (WatchlistItem N))
      → All (λ y. same_id x y ≡ false) xs
      → All (λ y. is_item x.id y ≡ true → P y) xs
  none_with P x xs a = All-map (λ y e h. absurd (clash y e h)) xs a
    where
      clash : (y : WatchlistItem N) → same_id x y ≡ false → is_item x.id y ≡ true → ⊥
      clash y e h = absurd (ground (arith, e, h))

  -- What holds of a row found by its id holds of every row with that id.
  only_row :
      (P : WatchlistItem N → Type 0) (id : ℕ) (xs : List (WatchlistItem N)) (i : WatchlistItem N)
      → IsUnique same_id xs
      → find (is_item id) xs ≡ some i
      → P i
      → All (λ y. is_item id y ≡ true → P y) xs
  only_row P id [] i v e h = tt
  only_row P id (x ∷ xs) i v e h = elim (Bool-cases (is_item id x)) [
    | inl t ↦
        let same : x ≡ i = ground (arith, t, e) in
        let key : x.id ≡ id = ground (arith, t) in
        (
          (λ _. subst P (sym same) h),
          subst (λ k. All (λ y. is_item k y ≡ true → P y) xs) key (none_with P x xs v.0),
        )
    | inr t ↦
        (λ k. absurd (clash (is_item id x) t k), only_row P id xs i v.1 (ground (arith, t, e)) h)
  ]
    where
      clash : (b : Bool) → b ≡ false → b ≡ true → ⊥
      clash b t k = cc

  found_holds :
      (P : WatchlistItem N → Type 0) (p : WatchlistItem N → Bool) (xs : List (WatchlistItem N))
      (i : WatchlistItem N)
      → All P xs
      → find p xs ≡ some i
      → P i
  found_holds P p [] i a e = absurd (ground arith)
  found_holds P p (x ∷ xs) i a e = elim (Bool-cases (p x)) [
    | inl t ↦ let same : x ≡ i = ground (arith, t, e) in subst P same a.0
    | inr t ↦ found_holds P p xs i a.1 (ground (arith, t, e))
  ]

  pub find_again :
      (p : WatchlistItem N → Bool) (xs : List (WatchlistItem N)) (i : WatchlistItem N)
      → IsUnique same_id xs
      → find p xs ≡ some i
      → find (is_item i.id) xs ≡ some i
  find_again p [] i v e = absurd (ground arith)
  find_again p (x ∷ xs) i v e = elim (Bool-cases (p x)) [
    | inl t ↦
        let same : x ≡ i = ground (arith, t, e) in
        subst (λ k. find (is_item k.id) (x ∷ xs) ≡ some k) same (self x)
    | inr t ↦
        let rest : find p xs ≡ some i = ground (arith, t, e) in
        let apart = found_holds (λ y. same_id x y ≡ false) p xs i v.0 rest in
        rw apart (find_again p xs i v.1 rest)
  ]
    where
      self : (y : WatchlistItem N) → find (is_item y.id) (y ∷ xs) ≡ some y
      self y = ground arith

  below_next :
      (items : List (WatchlistItem N)) (n : ℕ)
      → next_id (map item_id items) ≤ n
      → All (λ i. (i.id == n) ≡ false) items
  below_next [] n h = tt
  below_next (x ∷ xs) n h = (ground arith, below_next xs n (ground arith))

  -- A table of items with a primary key, and one item for a user and a stock.
  pub record IsWatchlist (items : List (WatchlistItem N)) : Type 0 where
    pub keys : IsUnique same_id items
    pub listings : IsUnique same_listing items

  -- The table is still valid, and the rows that the user may not touch are as before.
  abbrev pub Keeps : CurrentUser → List (WatchlistItem N) → List (WatchlistItem N) → Type 0
  Keeps user items items' = IsWatchlist items' × (foreign user items' ≡ foreign user items)

  pub update-Keeps :
      (user : CurrentUser) (id : ℕ) (g : WatchlistItem N → WatchlistItem N)
      (items : List (WatchlistItem N)) (i : WatchlistItem N)
      → ((x : WatchlistItem N)
          → ((g x).id ≡ x.id) × ((g x).user_id ≡ x.user_id) × ((g x).stock_id ≡ x.stock_id))
      → IsWatchlist items
      → find (is_item id) items ≡ some i
      → can_access i.user_id user ≡ true
      → Keeps user items (update_where (is_item id) g items)
  update-Keeps user id g items i k v e a = (
    record {
      keys =
          update-IsUnique same_id (is_item id) g (λ x y. rw (k x).0) (λ x y. rw (k y).0) items
            v.keys;
      listings =
          update-IsUnique same_listing (is_item id) g (λ x y. rw ((k x).1, (k x).2))
            (λ x y. rw ((k y).1, (k y).2)) items v.listings;
    },
    filter-update (λ y. not (can_access y.user_id user)) (is_item id) g items
        (All-map (λ y h t. let b = h t in (ground (arith, b), ground (arith, b, (k y).1))) items
          (only_row (λ y. can_access y.user_id user ≡ true) id items i v.keys e a)),
  )

  pub delete-Keeps :
      (user : CurrentUser) (id : ℕ) (items : List (WatchlistItem N)) (i : WatchlistItem N)
      → IsWatchlist items
      → find (is_item id) items ≡ some i
      → can_access i.user_id user ≡ true
      → Keeps user items (delete_where (is_item id) items)
  delete-Keeps user id items i v e a = (
    record {
      keys = delete-IsUnique same_id (is_item id) items v.keys;
      listings = delete-IsUnique same_listing (is_item id) items v.listings;
    },
    filter-delete (λ y. not (can_access y.user_id user)) (is_item id) items
        (All-map (λ y h t. let b = h t in ground (arith, b)) items
          (only_row (λ y. can_access y.user_id user ≡ true) id items i v.keys e a)),
  )

  -- A new item has its own key and leaves the rows that the user may not touch.
  pub insert_keys :
      (user : CurrentUser) (stock : ℕ) (r : WatchlistAddRequest N) (items : List (WatchlistItem N))
      → IsUnique same_id items
      → let items' = insert (new_item user.id stock r items) items in
        IsUnique same_id items' × (foreign user items' ≡ foreign user items)
  insert_keys user stock r items v =
      let z = new_item user.id stock r items in
      (
        insert-IsUnique same_id z items v (below_next items z.id (omega arith)),
        filter-insert (λ y. not (can_access y.user_id user)) (λ y. true) z items (ground arith),
      )

  pub insert-Keeps :
      (user : CurrentUser) (stock : ℕ) (r : WatchlistAddRequest N) (items : List (WatchlistItem N))
      → IsWatchlist items
      → find (is_listed user.id stock) items ≡ none
      → Keeps user items (insert (new_item user.id stock r items) items)
  insert-Keeps user stock r items v e =
      let z = new_item user.id stock r items in
      let (keys, others) = insert_keys user stock r items v.keys in
      (
        record {
          keys = keys;
          listings =
              insert-IsUnique same_listing z items v.listings
                (find-none (is_listed user.id stock) items e);
        },
        others,
      )

  -- A search in two lists.
  pub find-left :
      (p : WatchlistItem N → Bool) (xs ys : List (WatchlistItem N)) (i : WatchlistItem N)
      → find p xs ≡ some i
      → find p (xs ++ ys) ≡ some i
  find-left p [] ys i e = cc
  find-left p (x ∷ xs) ys i e = elim (Bool-cases (p x)) [
    | inl t ↦ rw t (rw t at e)
    | inr t ↦ rw t (find-left p xs ys i (rw t at e))
  ]

  pub find-right :
      (p : WatchlistItem N → Bool) (xs ys : List (WatchlistItem N))
      → find p xs ≡ none
      → find p (xs ++ ys) ≡ find p ys
  find-right p [] ys e = refl
  find-right p (x ∷ xs) ys e = elim (Bool-cases (p x)) [
    | inl t ↦ absurd (ground (arith, e, t))
    | inr t ↦ rw t (find-right p xs ys (rw t at e))
  ]
