-- ===== src/Table.antt =====
-- Database tables as lists of rows in the order of insertion, with the statements that the
-- program issues, and what keeps a uniqueness constraint over any of them.
use stock_monitor.Base.{
  ℕ, suc, ◌≡◌, refl, Bool, true, false, not, none, some, List, [], ◌∷◌, ◌++◌, arith, ltb,
  if◌then◌else◌, All, filter, find, Bool-cases, inl, inr,
}

-- SQLite's rowid of the next row: one more than the largest in the table.
abbrev pub next_id : List ℕ → ℕ
next_id [] = 1
next_id (i ∷ is) = if ltb i (next_id is) then next_id is else suc i

module _ {A : Type 0} where
  -- UPDATE … WHERE: each matching row is replaced.
  abbrev pub update_where : (A → Bool) → (A → A) → List A → List A
  update_where p g [] = []
  update_where p g (x ∷ xs) = (if p x then g x else x) ∷ update_where p g xs

  -- The rowcount of an UPDATE or a DELETE.
  abbrev pub count_where : (A → Bool) → List A → ℕ
  count_where p [] = 0
  count_where p (x ∷ xs) = if p x then suc (count_where p xs) else count_where p xs

  -- DELETE … WHERE
  abbrev pub delete_where : (A → Bool) → List A → List A
  delete_where p = filter (λ x. not (p x))

  abbrev pub insert : A → List A → List A
  insert x xs = xs ++ x ∷ []

  -- No later row clashes with an earlier one.
  module _ (clash : A → A → Bool) where
    abbrev pub IsUnique : List A → Type 0
    IsUnique [] = Unit
    IsUnique (x ∷ xs) = All (λ y. clash x y ≡ false) xs × IsUnique xs

    All-delete :
        (x : A) (p : A → Bool) (xs : List A)
        → All (λ y. clash x y ≡ false) xs
        → All (λ y. clash x y ≡ false) (delete_where p xs)
    All-delete x p [] h = h
    All-delete x p (y ∷ ys) h = elim (Bool-cases (p y)) [
      | inl e ↦ rw e (All-delete x p ys h.1)
      | inr e ↦ rw e (h.0, All-delete x p ys h.1)
    ]

    pub delete-IsUnique : (p : A → Bool) (xs : List A) → IsUnique xs → IsUnique (delete_where p xs)
    delete-IsUnique p [] h = h
    delete-IsUnique p (x ∷ xs) h = elim (Bool-cases (p x)) [
      | inl e ↦ rw e (delete-IsUnique p xs h.1)
      | inr e ↦ rw e (All-delete x p xs h.0, delete-IsUnique p xs h.1)
    ]

    -- An update that leaves the constrained columns alone.
    module _ (p : A → Bool) (g : A → A) (keeps : (x y : A) → clash (g x) y ≡ clash x y)
        (keeps_right : (x y : A) → clash x (g y) ≡ clash x y) where
      update_keeps : (b : Bool) (x y : A) → clash (if b then g x else x) y ≡ clash x y
      update_keeps true x y = keeps x y
      update_keeps false x y = refl

      update_keeps_right : (b : Bool) (x y : A) → clash x (if b then g y else y) ≡ clash x y
      update_keeps_right true x y = keeps_right x y
      update_keeps_right false x y = refl

      All-update :
          (b : Bool) (x : A) (xs : List A)
          → All (λ y. clash x y ≡ false) xs
          → All (λ y. clash (if b then g x else x) y ≡ false) (update_where p g xs)
      All-update b x [] h = h
      All-update b x (y ∷ ys) h = (
        cc (h.0, update_keeps b x (if p y then g y else y), update_keeps_right (p y) x y),
        All-update b x ys h.1,
      )

      pub update-IsUnique : (xs : List A) → IsUnique xs → IsUnique (update_where p g xs)
      update-IsUnique [] h = h
      update-IsUnique (x ∷ xs) h = (All-update (p x) x xs h.0, update-IsUnique xs h.1)

    All-insert :
        (x z : A) (xs : List A)
        → All (λ y. clash x y ≡ false) xs
        → clash x z ≡ false
        → All (λ y. clash x y ≡ false) (insert z xs)
    All-insert x z [] h e = (e, tt)
    All-insert x z (y ∷ ys) h e = (h.0, All-insert x z ys h.1 e)

    -- A new row that no present row clashes with.
    pub insert-IsUnique :
        (z : A) (xs : List A)
        → IsUnique xs
        → All (λ x. clash x z ≡ false) xs
        → IsUnique (insert z xs)
    insert-IsUnique z [] h fresh = (tt, tt)
    insert-IsUnique z (x ∷ xs) h fresh =
        (All-insert x z xs h.0 fresh.0, insert-IsUnique z xs h.1 fresh.1)

  -- A search that finds nothing: no row passes the test.
  pub find-none : (p : A → Bool) (xs : List A) → find p xs ≡ none → All (λ x. p x ≡ false) xs
  find-none p [] h = tt
  find-none p (x ∷ xs) h = elim (Bool-cases (p x)) [
    | inl e ↦ absurd (ground (arith, h, e))
    | inr e ↦ (e, find-none p xs (ground (arith, h, e)))
  ]

  -- A row that is found passes the test.
  pub find-some : (p : A → Bool) (xs : List A) (x : A) → find p xs ≡ some x → p x ≡ true
  find-some p [] x h = cc
  find-some p (y ∷ ys) x h = elim (Bool-cases (p y)) [
    | inl e ↦ ground (arith, h, e)
    | inr e ↦ find-some p ys x (ground (arith, h, e))
  ]

  -- A row that is added is found when no other is, and changes no other search.
  pub find-append :
      (p : A → Bool) (xs : List A) (y : A)
      → find p xs ≡ none
      → p y ≡ true
      → find p (insert y xs) ≡ some y
  find-append p [] y e h = rw h refl
  find-append p (x ∷ xs) y e h = elim (Bool-cases (p x)) [
    | inl k ↦ absurd (ground (arith, e, k))
    | inr k ↦ let rest : find p xs ≡ none = rw k at e in rw k (find-append p xs y rest h)
  ]

  pub find-append_ne :
      (p : A → Bool) (xs : List A) (y : A) → p y ≡ false → find p (insert y xs) ≡ find p xs
  find-append_ne p [] y h = rw h refl
  find-append_ne p (x ∷ xs) y h = elim (Bool-cases (p x)) [
    | inl k ↦ rw k refl
    | inr k ↦ rw k (find-append_ne p xs y h)
  ]

  pub All-map : {P Q : A → Type 0} → ((x : A) → P x → Q x) → (xs : List A) → All P xs → All Q xs
  All-map f [] h = h
  All-map f (x ∷ xs) h = (f x h.0, All-map f xs h.1)
