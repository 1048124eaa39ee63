-- ===== src/Portfolio/Positions/Lookup.antt =====
-- Where a position is found behind an update, a deletion or an insertion, and which rows of other
-- users a statement by row id can touch: none, while no two rows share an id.
use stock_monitor.Base.{
  ℕ, ◌≤◌, ◌≡◌, refl, Bool, true, false, none, some, List, [], ◌∷◌, arith, ◌==◌, if◌then◌else◌, All,
  find, map, inl, inr, Bool-cases,
}
use stock_monitor.Table.{
  IsUnique, insert, update_where, delete_where, count_where, next_id, insert-IsUnique,
  update-IsUnique, delete-IsUnique,
}
use stock_monitor.Portfolio.{Holding, owner_eq}
use stock_monitor.Portfolio.Positions.{
  same_position, held_by, IsPortfolio, update-IsPortfolio, delete-IsPortfolio, insert-IsPortfolio,
  others,
}

module _ {N : Type 0} where
  abbrev pub row_id : Holding N → ℕ
  row_id h = h.id

  -- The primary key.
  abbrev pub same_id : Holding N → Holding N → Bool
  same_id g h = g.id == h.id

  -- A table of holdings as the database keeps it: the primary key and the unique constraint.
  pub record IsValid (hs : List (Holding N)) : Type 0 where
    pub keys : IsUnique same_id hs
    pub positions : IsPortfolio hs

  abbrev pub KeepsRow : (Holding N → Holding N) → Type 0
  KeepsRow g =
      (h : Holding N)
      → ((g h).id ≡ h.id) × ((g h).user_id ≡ h.user_id) × ((g h).stock_id ≡ h.stock_id)

  pub update-IsValid :
      (p : Holding N → Bool) (g : Holding N → Holding N) (hs : List (Holding N))
      → KeepsRow g
      → IsValid hs
      → IsValid (update_where p g hs)
  update-IsValid p g hs k v = record {
    keys = update-IsUnique same_id p g (λ x y. rw (k x).0) (λ x y. rw (k y).0) hs v.keys;
    positions = update-IsPortfolio p g hs (λ h. ((k h).1, (k h).2)) v.positions;
  }

  pub delete-IsValid :
      (p : Holding N → Bool) (hs : List (Holding N)) → IsValid hs → IsValid (delete_where p hs)
  delete-IsValid p hs v = record {
    keys = delete-IsUnique same_id p hs v.keys;
    positions = delete-IsPortfolio p hs v.positions;
  }

  below_next :
      (hs : List (Holding N)) (n : ℕ)
      → next_id (map row_id hs) ≤ n
      → All (λ h. (h.id == n) ≡ false) hs
  below_next [] n h = tt
  below_next (x ∷ xs) n h = (ground arith, below_next xs n (ground arith))

  pub insert-IsValid :
      (user stock : ℕ) (z : Holding N) (hs : List (Holding N))
      → z.id ≡ next_id (map row_id hs)
      → z.user_id ≡ some user
      → z.stock_id ≡ stock
      → find (held_by user stock) hs ≡ none
      → IsValid hs
      → IsValid (insert z hs)
  insert-IsValid user stock z hs ei eu es e v = record {
    keys = insert-IsUnique same_id z hs v.keys (below_next hs z.id (omega (arith, ei)));
    positions = insert-IsPortfolio user stock z hs eu es e v.positions;
  }

  -- An update that keeps the test's columns changes the found row in place.
  pub find-update :
      (p q : Holding N → Bool) (g : Holding N → Holding N) (hs : List (Holding N)) (h : Holding N)
      → ((x : Holding N) → p (g x) ≡ p x)
      → find p hs ≡ some h
      → find p (update_where q g hs) ≡ some (if q h then g h else h)
  find-update p q g [] h k e = cc
  find-update p q g (x ∷ xs) h k e = elim (Bool-cases (p x)) [
    | inl t ↦ let s : x ≡ h = ground (arith, t, e) in ground (arith, k x, t, s)
    | inr t ↦ ground (arith, k x, t, find-update p q g xs h k (ground (arith, t, e)))
  ]

  pub find-insert :
      (p : Holding N → Bool) (z : Holding N) (hs : List (Holding N))
      → find p hs ≡ none
      → p z ≡ true
      → find p (insert z hs) ≡ some z
  find-insert p z [] e t = rw t
  find-insert p z (x ∷ xs) e t = elim (Bool-cases (p x)) [
    | inl d ↦ absurd (ground (arith, e, d))
    | inr d ↦ rw d (find-insert p z xs (ground (arith, e, d)) t)
  ]

  pub All-find :
      (P : Holding N → Type 0) (p : Holding N → Bool) (hs : List (Holding N)) (h : Holding N)
      → All P hs
      → find p hs ≡ some h
      → P h
  All-find P p [] h a e = absurd (ground arith)
  All-find P p (x ∷ xs) h a e = elim (Bool-cases (p x)) [
    | inl t ↦ let s : x ≡ h = ground (arith, t, e) in rw s at a.0
    | inr t ↦ All-find P p xs h a.1 (ground (arith, t, e))
  ]

  none_of :
      (p q : Holding N → Bool) (hs : List (Holding N))
      → All (λ y. q y ≡ false) hs
      → All (λ y. q y ≡ true → p y ≡ true) hs
  none_of p q [] a = tt
  none_of p q (x ∷ xs) a = (λ e. cc (a.0, e), none_of p q xs a.1)

  -- The row with the id of the row found by `p` is that row, so it passes `p`.
  pub same_row :
      (p : Holding N → Bool) (hs : List (Holding N)) (h : Holding N)
      → IsUnique same_id hs
      → find p hs ≡ some h
      → All (λ y. (y.id == h.id) ≡ true → p y ≡ true) hs
  same_row p [] h v e = tt
  same_row p (x ∷ xs) h v e = elim (Bool-cases (p x)) [
    | inl t ↦
        let s : x ≡ h = ground (arith, t, e) in
        (λ _. t, none_of p (λ y. y.id == h.id) xs (rw s at (flip x xs v.0)))
    | inr t ↦
        let k : find p xs ≡ some h = ground (arith, t, e) in
        (
          λ d. absurd (distinct x h (All-find (λ y. same_id x y ≡ false) p xs h v.0 k) d),
          same_row p xs h v.1 k,
        )
  ]
    where
      flip :
          (x : Holding N) (xs : List (Holding N))
          → All (λ y. same_id x y ≡ false) xs
          → All (λ y. (y.id == x.id) ≡ false) xs
      flip x [] a = tt
      flip x (y ∷ ys) a = (ground (arith, a.0), flip x ys a.1)

      distinct : (x h : Holding N) → same_id x h ≡ false → (x.id == h.id) ≡ true → ⊥
      distinct x h a b = cc (a, b)

  -- Statements that touch only the user's rows leave the others' as they are.
  abbrev pub Touches : ℕ → (Holding N → Bool) → List (Holding N) → Type 0
  Touches user q hs = All (λ y. q y ≡ true → owner_eq y.user_id (some user) ≡ true) hs

  -- A statement whose test asks for the owner.
  pub Touches-owned :
      (user : ℕ) (q : Holding N → Bool) (hs : List (Holding N))
      → ((y : Holding N) → q y ≡ true → owner_eq y.user_id (some user) ≡ true)
      → Touches user q hs
  Touches-owned user q [] k = tt
  Touches-owned user q (x ∷ xs) k = (k x, Touches-owned user q xs k)

  -- A statement by the id of one of the user's rows.
  pub Touches-row :
      (user stock : ℕ) (hs : List (Holding N)) (h : Holding N)
      → IsUnique same_id hs
      → find (held_by user stock) hs ≡ some h
      → Touches user (λ y. y.id == h.id) hs
  Touches-row user stock hs h v e = owned hs (same_row (held_by user stock) hs h v e)
    where
      owned :
          (xs : List (Holding N))
          → All (λ y. (y.id == h.id) ≡ true → held_by user stock y ≡ true) xs
          → Touches user (λ y. y.id == h.id) xs
      owned [] a = tt
      owned (x ∷ xs) a = ((λ d. ground (arith, a.0 d)), owned xs a.1)

  pub others-update :
      (user : ℕ) (q : Holding N → Bool) (g : Holding N → Holding N) (hs : List (Holding N))
      → KeepsRow g
      → Touches user q hs
      → others user (update_where q g hs) ≡ others user hs
  others-update user q g [] k a = refl
  others-update user q g (x ∷ xs) k a = elim (Bool-cases (q x)) [
    | inl t ↦ ground (arith, t, a.0 t, (k x).1, others-update user q g xs k a.1)
    | inr t ↦ ground (arith, t, others-update user q g xs k a.1)
  ]

  pub others-delete :
      (user : ℕ) (q : Holding N → Bool) (hs : List (Holding N))
      → Touches user q hs
      → others user (delete_where q hs) ≡ others user hs
  others-delete user q [] a = refl
  others-delete user q (x ∷ xs) a = elim (Bool-cases (q x)) [
    | inl t ↦ ground (arith, t, a.0 t, others-delete user q xs a.1)
    | inr t ↦ ground (arith, t, others-delete user q xs a.1)
  ]

  pub others-insert :
      (user : ℕ) (z : Holding N) (hs : List (Holding N))
      → owner_eq z.user_id (some user) ≡ true
      → others user (insert z hs) ≡ others user hs
  others-insert user z [] e = ground (arith, e)
  others-insert user z (x ∷ xs) e = ground (arith, others-insert user z xs e)

  count-none :
      (q : Holding N → Bool) (hs : List (Holding N))
      → All (λ y. q y ≡ false) hs
      → count_where q hs ≡ 0
  count-none q [] a = refl
  count-none q (x ∷ xs) a = rw a.0 (count-none q xs a.1)

  find-delete_none :
      (p q : Holding N → Bool) (hs : List (Holding N))
      → All (λ y. p y ≡ false) hs
      → find p (delete_where q hs) ≡ none
  find-delete_none p q [] a = refl
  find-delete_none p q (x ∷ xs) a = ground (arith, a.0, find-delete_none p q xs a.1)

  module _ (q : Holding N → Bool) (h : Holding N)
      (k : (y : Holding N) → q y ≡ true → (y.id == h.id) ≡ true) where
    misses : (y : Holding N) → (y.id == h.id) ≡ false → q y ≡ false
    misses y e = elim (Bool-cases (q y)) [ inl t ↦ cc (k y t, e) | inr t ↦ t ]

    misses-All :
        (xs : List (Holding N)) → All (λ y. same_id h y ≡ false) xs → All (λ y. q y ≡ false) xs
    misses-All [] a = tt
    misses-All (x ∷ xs) a = (misses x (ground (arith, a.0)), misses-All xs a.1)

  -- A guarded statement by the id of a found row addresses one row, or none if the guard fails.
  pub count_row :
      (p q : Holding N → Bool) (hs : List (Holding N)) (h : Holding N)
      → ((y : Holding N) → q y ≡ true → (y.id == h.id) ≡ true)
      → IsUnique same_id hs
      → find p hs ≡ some h
      → count_where q hs ≡ (if q h then 1 else 0)
  count_row p q [] h k v e = cc
  count_row p q (x ∷ xs) h k v e = elim (Bool-cases (p x)) [
    | inl t ↦
        let s : h ≡ x = ground (arith, t, e) in
        let rest : count_where q xs ≡ 0 = count-none q xs (misses-All q h k xs (rw s v.0)) in
        ground (arith, s, rest)
    | inr t ↦
        let rest : find p xs ≡ some h = ground (arith, t, e) in
        let other : same_id x h ≡ false = All-find (λ y. same_id x y ≡ false) p xs h v.0 rest in
        rw (misses q h k x other) (count_row p q xs h k v.1 rest)
  ]

  not_held :
      (user stock : ℕ) (x : Holding N) (xs : List (Holding N))
      → held_by user stock x ≡ true
      → All (λ y. same_position x y ≡ false) xs
      → All (λ y. held_by user stock y ≡ false) xs
  not_held user stock x [] t a = tt
  not_held user stock x (y ∷ ys) t a = (ground (arith, t, a.0), not_held user stock x ys t a.1)

  -- Behind the deletion of a position none is found.
  pub find-delete :
      (user stock : ℕ) (q : Holding N → Bool) (hs : List (Holding N)) (h : Holding N)
      → find (held_by user stock) hs ≡ some h
      → q h ≡ true
      → IsPortfolio hs
      → find (held_by user stock) (delete_where q hs) ≡ none
  find-delete user stock q [] h e t v = refl
  find-delete user stock q (x ∷ xs) h e t v = elim (Bool-cases (held_by user stock x)) [
    | inl d ↦
        let s : h ≡ x = ground (arith, d, e) in
        let t' : q x ≡ true = rw s at t in
        rw t' (find-delete_none (held_by user stock) q xs (not_held user stock x xs d v.0))
    | inr d ↦
        let rest : find (held_by user stock) (delete_where q xs) ≡ none =
          find-delete user stock q xs h (ground (arith, d, e)) t v.1 in
        ground (arith, d, rest)
  ]
