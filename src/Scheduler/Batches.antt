-- ===== src/Scheduler/Batches.antt =====
-- One batch deletes the first old rows, as many as its limit; the loop over the batches ends, and
-- leaves exactly the rows that are not old.
use stock_monitor.Base.{
  ℕ, zero, suc, ◌+◌, ◌-◌, ◌≤◌, ◌<◌, ◌≡◌, refl, ap, sym, ◌∙◌, Bool, true, false, List, [], ◌∷◌, map,
  arith, ltb, ◌==◌, take, filter, length, All, All-filter, inl, inr, Bool-cases, ==_iff, ltb→lt,
  ltb→le,
}
use stock_monitor.Table.{delete_where, count_where, IsUnique, delete-IsUnique}
use stock_monitor.Scheduler.Deletion.{
  count-delete, count-le, delete-none, delete_first, delete_first-count, delete_first-delete,
  delete_first-length,
}
use stock_monitor.Scheduler.{
  Model, Swept, done, raised, out_of_fuel, is_older, ids_subq, is_in, delete_batches,
  delete_older_than_batch, delete_older,
}

module _ {A : Type 0} (model : Model A) where
  abbrev pub same_id : A → A → Bool
  same_id x y = model.id x == model.id y

  Differs : A → List A → Type 0
  Differs x = All (λ y. same_id x y ≡ false)

  -- An id that no row has is not among the ids of some of them.
  fresh_id :
      (x : A) (n : ℕ) (ys : List A)
      → Differs x ys
      → is_in model (take n (map model.id ys)) x ≡ false
  unfolding Differs
  fresh_id x zero ys h = refl
  fresh_id x (suc n) [] h = refl
  fresh_id x (suc n) (y ∷ ys) h = ground (arith, h.0, fresh_id x n ys h.1)

  is_in_skip :
      (x : A) (ids : List ℕ) (ys : List A)
      → Differs x ys
      → delete_where (is_in model (model.id x ∷ ids)) ys ≡ delete_where (is_in model ids) ys
  unfolding Differs
  is_in_skip x ids [] h = refl
  is_in_skip x ids (y ∷ ys) h = ground (arith, h.0, is_in_skip x ids ys h.1)

  delete-nothing : (ys : List A) → delete_where (is_in model []) ys ≡ ys
  delete-nothing [] = refl
  delete-nothing (y ∷ ys) = ap (◌∷◌ y) (delete-nothing ys)

  module _ (cutoff : ℕ) where
    abbrev old : A → Bool
    old = is_older model cutoff

    fresh_subq :
        (x : A) (n : ℕ) (ys : List A)
        → Differs x ys
        → is_in model (ids_subq model cutoff n ys) x ≡ false
    unfolding Differs
    fresh_subq x n ys h = fresh_id x n (filter old ys) (All-filter _ old ys h)

    subq_old :
        (n : ℕ) (x : A) (xs : List A)
        → old x ≡ true
        → ids_subq model cutoff (suc n) (x ∷ xs) ≡ model.id x ∷ ids_subq model cutoff n xs
    subq_old n x xs e = rw e refl

    subq_kept :
        (n : ℕ) (x : A) (xs : List A)
        → old x ≡ false
        → ids_subq model cutoff (suc n) (x ∷ xs) ≡ ids_subq model cutoff (suc n) xs
    subq_kept n x xs e = rw e refl

    -- The batch's DELETE takes the first old rows out, when ids are unique.
    batch-delete_first :
        (n : ℕ) (rows : List A)
        → IsUnique same_id rows
        → delete_where (is_in model (ids_subq model cutoff n rows)) rows ≡ delete_first old n rows
    unfolding delete_first Differs
    batch-delete_first zero rows u = delete-nothing rows
    batch-delete_first (suc n) [] u = refl
    batch-delete_first (suc n) (x ∷ xs) u = elim (Bool-cases (old x)) [
      | inl e ↦
          ap (λ ids. delete_where (is_in model ids) (x ∷ xs)) (subq_old n x xs e)
          ∙ rw (e, (==_iff (model.id x) (model.id x)).1 refl)
              (is_in_skip x (ids_subq model cutoff n xs) xs u.0 ∙ batch-delete_first n xs u.1)
      | inr e ↦
          ap (λ ids. delete_where (is_in model ids) (x ∷ xs)) (subq_kept n x xs e)
          ∙ rw (e, fresh_subq x (suc n) xs u.0) (ap (◌∷◌ x) (batch-delete_first (suc n) xs u.1))
    ]

    -- It deletes as many as its limit, or all the old rows.
    batch-count :
        (n : ℕ) (rows : List A)
        → IsUnique same_id rows
        → count_where (is_in model (ids_subq model cutoff n rows)) rows + (count_where old rows - n)
          ≡ count_where old rows
    batch-count n rows u = omega (
      arith,
      count-delete (is_in model (ids_subq model cutoff n rows)) rows,
      ap length (batch-delete_first n rows u),
      delete_first-length old n rows,
      delete_first-count old n rows,
    )

    abbrev batch_left : ℕ → List A → List A
    batch_left n rows = delete_where (is_in model (ids_subq model cutoff n rows)) rows

    batch_left-count :
        (n : ℕ) (rows : List A)
        → IsUnique same_id rows
        → count_where old (batch_left n rows) ≡ count_where old rows - n
    batch_left-count n rows u =
        ap (count_where old) (batch-delete_first n rows u) ∙ delete_first-count old n rows

    batch_left-delete :
        (n : ℕ) (rows : List A)
        → IsUnique same_id rows
        → delete_where old (batch_left n rows) ≡ delete_where old rows
    batch_left-delete n rows u =
        ap (delete_where old) (batch-delete_first n rows u) ∙ delete_first-delete old n rows

  -- A run on `rows` after `total` deletions: it ends; at its end the old rows and no others are gone,
  -- and counted; an exception, of some statement, leaves a table that lost old rows at most.
  abbrev pub Sweeps : (ℕ → Bool) → ℕ → ℕ → List A → Swept A → Type 0
  Sweeps lives cutoff total rows (done j n left) =
      (n ≡ total + count_where (is_older model cutoff) rows)
      × (left ≡ delete_where (is_older model cutoff) rows)
  Sweeps lives cutoff total rows (raised left) =
      (delete_where (is_older model cutoff) left ≡ delete_where (is_older model cutoff) rows)
      × (count_where (is_older model cutoff) left ≤ count_where (is_older model cutoff) rows)
      × ((k : ℕ) × (lives k ≡ false))
  Sweeps lives cutoff total rows out_of_fuel = ⊥

  module _ (lives : ℕ → Bool) (cutoff batch_size : ℕ) (some_rows : 1 ≤ batch_size) where
    -- What the rest of the run does to the table of a batch, the whole does to the table before it.
    Sweeps-batch :
        (total : ℕ) (rows : List A) (r : Swept A)
        → IsUnique same_id rows
        → Sweeps lives cutoff
            (total + count_where (is_in model (ids_subq model cutoff batch_size rows)) rows)
            (batch_left cutoff batch_size rows)
            r
        → ltb (count_where (is_in model (ids_subq model cutoff batch_size rows)) rows) batch_size
          ≡ false
        → Sweeps lives cutoff total rows r
    Sweeps-batch total rows (done j n left) u h big = (
      omega (
        arith,
        h.0,
        batch-count cutoff batch_size rows u,
        batch_left-count cutoff batch_size rows u,
      ),
      h.1 ∙ batch_left-delete cutoff batch_size rows u,
    )
    Sweeps-batch total rows (raised left) u h big = (
      h.0 ∙ batch_left-delete cutoff batch_size rows u,
      omega (arith, h.1, batch_left-count cutoff batch_size rows u),
      h.2,
    )
    Sweeps-batch total rows out_of_fuel u h big = h

    delete_batches-Sweeps :
        (fuel i total : ℕ) (rows : List A)
        → IsUnique same_id rows
        → count_where (is_older model cutoff) rows < fuel
        → Sweeps lives cutoff total rows
            (delete_batches model lives cutoff batch_size fuel i total rows)
    unfolding delete_batches
    delete_batches-Sweeps zero i total rows u h = omega arith
    delete_batches-Sweeps (suc fuel) i total rows u h = elim (Bool-cases (lives i)) [
      | inr e ↦ rw e (refl, omega arith, (i, e))
      | inl e ↦
          let deleted = count_where (is_in model (ids_subq model cutoff batch_size rows)) rows in
          let sum = batch-count cutoff batch_size rows u in
          let fewer = batch_left-count cutoff batch_size rows u in
          elim (Bool-cases (ltb deleted batch_size)) [
            | inl small ↦
                rw (e, small)
                  (
                    omega (arith, sum, ltb→lt _ _ small),
                    sym (
                          delete-none (is_older model cutoff) (batch_left cutoff batch_size rows)
                            (omega (arith, sum, ltb→lt _ _ small, fewer)))
                        ∙ batch_left-delete cutoff batch_size rows u,
                  )
            | inr big ↦
                rw (e, big)
                  (Sweeps-batch total rows
                    (delete_batches model lives cutoff batch_size fuel (suc i) (total + deleted)
                      (batch_left cutoff batch_size rows))
                    u
                    (delete_batches-Sweeps fuel (suc i) (total + deleted)
                      (batch_left cutoff batch_size rows)
                      (delete-IsUnique same_id (is_in model (ids_subq model cutoff batch_size rows))
                        rows u)
                      (omega (arith, sum, ltb→le _ _ big, fewer, h)))
                    big)
          ]
    ]

    pub delete_older_than_batch-Sweeps :
        (i : ℕ) (rows : List A)
        → IsUnique same_id rows
        → Sweeps lives cutoff 0 rows (delete_older_than_batch model lives cutoff batch_size i rows)
    unfolding delete_older_than_batch
    delete_older_than_batch-Sweeps i rows u =
        delete_batches-Sweeps (suc (length rows)) i 0 rows u
          (omega (arith, count-le (is_older model cutoff) rows))

  pub delete_older-Sweeps :
      (lives : ℕ → Bool) (cutoff i : ℕ) (rows : List A)
      → Sweeps lives cutoff 0 rows (delete_older model lives cutoff i rows)
  unfolding delete_older
  delete_older-Sweeps lives cutoff i rows = elim (Bool-cases (lives i)) [
    | inl e ↦ rw e (omega arith, refl)
    | inr e ↦ rw e (refl, omega arith, (i, e))
  ]
