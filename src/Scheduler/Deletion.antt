-- ===== src/Scheduler/Deletion.antt =====
-- Rows taken out of a table: all that pass a test, or the first so many of them.
use stock_monitor.Base.{
  ℕ, zero, suc, ◌+◌, ◌-◌, ◌≤◌, ◌≡◌, refl, ap, Bool, List, [], ◌∷◌, arith, if◌then◌else◌, length,
  inl, inr, Bool-cases,
}
use stock_monitor.Table.{delete_where, count_where}

module _ {A : Type 0} where
  pub count-delete :
      (p : A → Bool) (xs : List A) → count_where p xs + length (delete_where p xs) ≡ length xs
  count-delete p [] = refl
  count-delete p (x ∷ xs) = elim (Bool-cases (p x)) [
    | inl e ↦ rw e (omega (arith, count-delete p xs))
    | inr e ↦ rw e (omega (arith, count-delete p xs))
  ]

  pub count-le : (p : A → Bool) (xs : List A) → count_where p xs ≤ length xs
  count-le p xs = omega (arith, count-delete p xs)

  pub delete-none : (p : A → Bool) (xs : List A) → count_where p xs ≡ 0 → delete_where p xs ≡ xs
  delete-none p [] h = refl
  delete-none p (x ∷ xs) h = elim (Bool-cases (p x)) [
    | inl e ↦ absurd (let k : suc (count_where p xs) ≡ 0 = rw e at h in omega arith)
    | inr e ↦ let k : count_where p xs ≡ 0 = rw e at h in rw e (ap (◌∷◌ x) (delete-none p xs k))
  ]

  -- The first `n` rows that pass a test, taken out.
  unfoldable pub delete_first : (A → Bool) → ℕ → List A → List A
  delete_first p zero xs = xs
  delete_first p (suc n) [] = []
  delete_first p (suc n) (x ∷ xs) =
      let cut = delete_first p n xs in
      let kept = delete_first p (suc n) xs in if p x then cut else x ∷ kept

  pub delete_first-count :
      (p : A → Bool) (n : ℕ) (xs : List A)
      → count_where p (delete_first p n xs) ≡ count_where p xs - n
  unfolding delete_first
  delete_first-count p zero xs = omega arith
  delete_first-count p (suc n) [] = omega arith
  delete_first-count p (suc n) (x ∷ xs) =
      ground (arith, delete_first-count p n xs, delete_first-count p (suc n) xs)

  -- Taking some of the old rows out leaves the others as they were.
  pub delete_first-delete :
      (p : A → Bool) (n : ℕ) (xs : List A)
      → delete_where p (delete_first p n xs) ≡ delete_where p xs
  unfolding delete_first
  delete_first-delete p zero xs = refl
  delete_first-delete p (suc n) [] = refl
  delete_first-delete p (suc n) (x ∷ xs) =
      ground (arith, delete_first-delete p n xs, delete_first-delete p (suc n) xs)

  pub delete_first-length :
      (p : A → Bool) (n : ℕ) (xs : List A)
      → length (delete_first p n xs) + count_where p xs
        ≡ length xs + count_where p (delete_first p n xs)
  unfolding delete_first
  delete_first-length p zero xs = refl
  delete_first-length p (suc n) [] = refl
  delete_first-length p (suc n) (x ∷ xs) =
      ground (arith, delete_first-length p n xs, delete_first-length p (suc n) xs)
