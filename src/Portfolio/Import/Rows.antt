-- ===== src/Portfolio/Import/Rows.antt =====
-- What each row of an import, and all of them, do to the table of positions.
use mathlib.Core.Path.{subst}
use stock_monitor.Base.{
  ℕ, suc, ◌+◌, ◌≡◌, refl, ap, Bool, true, false, ◌∙◌, Option, none, some, List, [], ◌∷◌, arith,
  ◌==◌, if◌then◌else◌, find, length, inl, inr, Bool-cases, Option-cases,
}
use stock_monitor.Http.{Reply, ok, fail, Returns, Returns-then}
use stock_monitor.Table.{insert, update_where, find-some}
use stock_monitor.Portfolio.{Holding, Stock}
use stock_monitor.Portfolio.Positions.{held_by, others}
use stock_monitor.Portfolio.Positions.Lookup.{
  IsValid, update-IsValid, insert-IsValid, find-insert, same_row, All-find, Touches-row,
  others-update, others-insert,
}
use stock_monitor.Portfolio.Holdings.Batch.{find-update_map}
use stock_monitor.Portfolio.Stocks.{find_stock}
use stock_monitor.Portfolio.Import.{Parsed}
use stock_monitor.Portfolio.Import.Write.{overwrite, opened_by, write_row, write_rows}

Returns-map :
    {A : Type 0} (P Q : A → Type 0) (m : Reply A)
    → Returns P m
    → ((a : A) → P a → Q a)
    → Returns Q m
Returns-map P Q (ok a) h k = k a h
Returns-map P Q (fail c) h k = tt

self_eq : (n : ℕ) → (n == n) ≡ true
self_eq n = ground arith

module _ {N : Type 0} where
  find-insert_other :
      (p : Holding N → Bool) (z : Holding N) (hs : List (Holding N))
      → p z ≡ false
      → find p (insert z hs) ≡ find p hs
  find-insert_other p z [] e = ground (arith, e)
  find-insert_other p z (x ∷ xs) e = ground (arith, find-insert_other p z xs e)

  module _ (user : ℕ) (stocks : List Stock) where
    -- The row is for the stock with this id.
    abbrev pub is_for : ℕ → Parsed N → Bool
    is_for j p = elim (find_stock p.ticker stocks) [ none ↦ false | some s ↦ s.id == j ]

    -- The last row for a stock.
    abbrev pub last_for : ℕ → List (Parsed N) → Option (Parsed N)
    last_for j [] = none
    last_for j (p ∷ ps) = elim (last_for j ps) [
      | some q ↦ some q
      | none ↦ if is_for j p then some p else none
    ]

    -- The user's position in a stock after the rows: with the values of the last row for the stock,
    -- or as before if there is none.
    abbrev pub IsWritten : ℕ → Option (Parsed N) → List (Holding N) → List (Holding N) → Type 0
    IsWritten j none hs hs' = find (held_by user j) hs' ≡ find (held_by user j) hs
    IsWritten j (some p) hs hs' =
        (h : Holding N) × (find (held_by user j) hs' ≡ some h)
        × (h.quantity ≡ p.quantity)
        × (h.avg_purchase_price ≡ p.avg_price)

    module _ (s : Stock) (h : Holding N) (g : Holding N → Holding N) (hs : List (Holding N))
        (v : IsValid hs) (e : find (held_by user s.id) hs ≡ some h)
        (k : (j : ℕ) (x : Holding N) → held_by user j (g x) ≡ held_by user j x) where
      -- The row that holds another position is another row.
      other_row :
          (j : ℕ) (x : Holding N)
          → (s.id == j) ≡ false
          → find (held_by user j) hs ≡ some x
          → (x.id == h.id) ≡ false
      other_row j x d q = elim (Bool-cases (x.id == h.id)) [
        | inr t ↦ t
        | inl t ↦
            let a : held_by user s.id x ≡ true =
              All-find (λ y. (y.id == h.id) ≡ true → held_by user s.id y ≡ true) (held_by user j) hs
                x (same_row (held_by user s.id) hs h v.keys e) q t in
            let b = find-some (held_by user j) hs x q in absurd (ground (arith, a, b, d))
      ]

      update_own : find (held_by user s.id) (update_where (λ y. y.id == h.id) g hs) ≡ some (g h)
      update_own =
          find-update_map (held_by user s.id) (λ y. y.id == h.id) g hs (k s.id)
          ∙ rw (e, self_eq h.id) refl

      update_other :
          (j : ℕ)
          → (s.id == j) ≡ false
          → find (held_by user j) (update_where (λ y. y.id == h.id) g hs) ≡ find (held_by user j) hs
      update_other j d = elim (Option-cases (find (held_by user j) hs)) [
        | inl q ↦ find-update_map (held_by user j) (λ y. y.id == h.id) g hs (k j) ∙ rw q refl
        | inr (x, q) ↦
            find-update_map (held_by user j) (λ y. y.id == h.id) g hs (k j)
            ∙ rw (q, other_row j x d q) refl
      ]

    abbrev row_for : ℕ → Parsed N → Option (Parsed N)
    row_for j p = if is_for j p then some p else none

    -- What rows have done to the table of holdings: to which position each went, and that they
    -- touched nothing else.
    abbrev pub Written :
        (ℕ → Option (Parsed N)) → ℕ → ℕ × ℕ × List (Holding N) → ℕ × ℕ × List (Holding N) → Type 0
    Written last n (i, u, hs) (i', u', hs') =
        IsValid hs'
        × (others user hs' ≡ others user hs)
        × (i' + u' ≡ n + (i + u))
        × ((j : ℕ) → IsWritten j (last j) hs hs')

    module _ (today : ℕ) (p : Parsed N) (s : Stock) (fs : find_stock p.ticker stocks ≡ some s)
        (i u : ℕ) (hs : List (Holding N)) (v : IsValid hs) where
      row_if : (j : ℕ) → row_for j p ≡ (if s.id == j then some p else none)
      row_if j = ap (λ o. if elim o [ none ↦ false | some r ↦ r.id == j ] then some p else none) fs

      by_stock :
          (hs' : List (Holding N)) (h : Holding N)
          → find (held_by user s.id) hs' ≡ some h
          → h.quantity ≡ p.quantity
          → h.avg_purchase_price ≡ p.avg_price
          → ((j : ℕ) → (s.id == j) ≡ false → find (held_by user j) hs' ≡ find (held_by user j) hs)
          → (j : ℕ) → IsWritten j (row_for j p) hs hs'
      by_stock hs' h e q a other j = elim (Bool-cases (s.id == j)) [
        | inl d ↦
            let same : s.id ≡ j = ground (arith, d) in
            rw (row_if j) (rw d (h, subst (λ k. find (held_by user k) hs' ≡ some h) same e, q, a))
        | inr d ↦ rw (row_if j) (rw d (other j d))
      ]

      changed :
          (h : Holding N)
          → find (held_by user s.id) hs ≡ some h
          → Written
              (λ j. row_for j p)
              1
              (i, u, hs)
              (i, suc u, update_where (λ g. g.id == h.id) (overwrite p) hs)
      changed h e =
          let hs' = update_where (λ g. g.id == h.id) (overwrite p) hs in
          (
            update-IsValid (λ g. g.id == h.id) (overwrite p) hs (λ x. (refl, refl, refl)) v,
            others-update user (λ g. g.id == h.id) (overwrite p) hs (λ x. (refl, refl, refl))
                (Touches-row user s.id hs h v.keys e),
            omega arith,
            by_stock hs' (overwrite p h) (update_own s h (overwrite p) hs v e (λ j x. refl)) refl
                refl (update_other s h (overwrite p) hs v e (λ j x. refl)),
          )

      created :
          find (held_by user s.id) hs ≡ none
          → Written
              (λ j. row_for j p)
              1
              (i, u, hs)
              (suc i, u, insert (opened_by user today s.id p hs) hs)
      created e =
          let z = opened_by user today s.id p hs in
          (
            insert-IsValid user s.id z hs refl refl refl e v,
            others-insert user z hs (ground arith),
            omega arith,
            by_stock (insert z hs) z (find-insert (held_by user s.id) z hs e (ground arith)) refl
                refl (λ j d. find-insert_other (held_by user j) z hs (ground (arith, d))),
          )

    write_row-Written :
        (today : ℕ) (p : Parsed N) (i u : ℕ) (hs : List (Holding N))
        → IsValid hs
        → Returns
            (Written (λ j. row_for j p) 1 (i, u, hs))
            (write_row user today stocks p (i, u, hs))
    unfolding write_row
    write_row-Written today p i u hs v = elim (Option-cases (find_stock p.ticker stocks)) [
      | inl e ↦ rw (e, write_row) tt
      | inr (s, e) ↦ elim (Option-cases (find (held_by user s.id) hs)) [
        | inl q ↦ rw (e, q, write_row) (created today p s e i u hs v q)
        | inr (h, q) ↦ rw (e, q, write_row) (changed today p s e i u hs v h q)
      ]
    ]

    -- A row, and then the rest.
    compose :
        (j : ℕ) (p : Parsed N) (ps : List (Parsed N)) (hs hs' hs'' : List (Holding N))
        → IsWritten j (row_for j p) hs hs'
        → IsWritten j (last_for j ps) hs' hs''
        → IsWritten j (last_for j (p ∷ ps)) hs hs''
    compose j p ps hs hs' hs'' a b = elim (Option-cases (last_for j ps)) [
      | inr (q, e) ↦ let b' : IsWritten j (some q) hs' hs'' = rw e at b in rw e b'
      | inl e ↦ let b' : IsWritten j none hs' hs'' = rw e at b in rw e (kept (row_for j p) b' a)
    ]
      where
        kept :
            (o : Option (Parsed N))
            → find (held_by user j) hs'' ≡ find (held_by user j) hs'
            → IsWritten j o hs hs'
            → IsWritten j o hs hs''
        kept none k h = k ∙ h
        kept (some r) k (h, e, q, a) = (h, k ∙ e, q, a)

    pub write_rows-Written :
        (today : ℕ) (ps : List (Parsed N)) (i u : ℕ) (hs : List (Holding N))
        → IsValid hs
        → Returns
            (Written (λ j. last_for j ps) (length ps) (i, u, hs))
            (write_rows user today stocks ps (i, u, hs))
    unfolding write_rows
    write_rows-Written today [] i u hs v = (v, refl, omega arith, λ j. refl)
    write_rows-Written today (p ∷ ps) i u hs v =
        Returns-then (Written (λ j. last_for j (p ∷ ps)) (length (p ∷ ps)) (i, u, hs))
          (Written (λ j. row_for j p) 1 (i, u, hs)) (write_row user today stocks p (i, u, hs)) _
          (write_row-Written today p i u hs v)
          (λ r w.
            Returns-map (Written (λ j. last_for j ps) (length ps) r)
              (Written (λ j. last_for j (p ∷ ps)) (length (p ∷ ps)) (i, u, hs))
              (write_rows user today stocks ps r) (write_rows-Written today ps r.0 r.1 r.2 w.0)
              (λ r' w'. (
                w'.0,
                w'.1 ∙ w.1,
                omega (arith, w.2, w'.2),
                λ j. compose j p ps hs r.2 r'.2 (w.3 j) (w'.3 j),
              )))
