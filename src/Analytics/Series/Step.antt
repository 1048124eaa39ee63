-- ===== src/Analytics/Series/Step.antt =====
-- One day of the series: what each position adds to the day's value, and the prices that the stocks
-- carry on to the next.
use mathlib.Core.Path.{subst}
use stock_monitor.Base.{
  ℕ, ◌≡◌, refl, ap, sym, ◌∙◌, ◌⊎◌, inl, inr, Bool, true, false, ◌||◌, Option, none, some, List, [],
  ◌∷◌, ◌++◌, arith, ◌==◌, ==_iff, if◌then◌else◌, any, Bool-cases, Option-cases,
}
use stock_monitor.Float.{Float, ◌+◌, truthy, sum_from}
use stock_monitor.Portfolio.Row.{Row}
use stock_monitor.Analytics.Series.{
  Closes, close_on, Known, Day, refresh, term, value_row, value_rows,
}

or_false : (b : Bool) → b ≡ b || false
or_false true = refl
or_false false = refl

or_assoc : (a b c : Bool) → (a || b) || c ≡ a || (b || c)
or_assoc true b c = refl
or_assoc false b c = refl

or_true : (b : Bool) → true ≡ b || true
or_true true = refl
or_true false = refl

module _ {N : Type 0} ⦃f : Float N⦄ where
  -- What a position adds to a day's value at the given prices: no price, or a zero, adds nothing.
  abbrev pub term_at : (ℕ → Option N) → Row N → List N
  term_at price h = elim (price h.stock_id) [
    | none ↦ []
    | some p ↦ if truthy p then term h p ∷ [] else []
  ]

  abbrev pub terms : (ℕ → Option N) → List (Row N) → List N
  terms price [] = []
  terms price (h ∷ hs) = term_at price h ++ terms price hs

  abbrev pub is_filled : List N → Bool
  is_filled [] = false
  is_filled (t ∷ ts) = true

  is_filled-append : (ts us : List N) → is_filled (ts ++ us) ≡ is_filled ts || is_filled us
  is_filled-append [] us = refl
  is_filled-append (t ∷ ts) us = refl

  sum_from-append : (a : N) (ts us : List N) → sum_from a (ts ++ us) ≡ sum_from (sum_from a ts) us
  sum_from-append a [] us = refl
  sum_from-append a (t ∷ ts) us = sum_from-append (a + t) ts us

  -- The state of a day after some positions: the total with their terms, and whether there were any.
  unfoldable pub Adds : Day N → List N → Day N → Type 0
  Adds s ts s' = (s'.total ≡ sum_from s.total ts) × (s'.has_data ≡ s.has_data || is_filled ts)

  Adds-append :
      (s s' s'' : Day N) (ts us : List N) → Adds s ts s' → Adds s' us s'' → Adds s (ts ++ us) s''
  unfolding Adds
  Adds-append s s' s'' ts us a b = (
    b.0 ∙ ap (λ t. sum_from t us) a.0 ∙ sym (sum_from-append s.total ts us),
    b.1
        ∙ ap (◌|| is_filled us) a.1
        ∙ or_assoc s.has_data (is_filled ts) (is_filled us)
        ∙ ap (s.has_data ||◌) (sym (is_filled-append ts us)),
  )

  -- One day, from the prices `before` it to those of `today`.
  module _ (day : ℕ) (closes : ℕ → Closes N) (before today : ℕ → Option N)
      (own : (stock : ℕ) (c : N) → close_on day (closes stock) ≡ some c → today stock ≡ some c)
      (else_before : (stock : ℕ)
        → close_on day (closes stock) ≡ none
        → today stock ≡ before stock) where
    unfoldable pub IsKnown : Known N → Type 0
    IsKnown known = (stock : ℕ) → (known stock ≡ before stock) ⊎ (known stock ≡ today stock)

    refresh-own :
        (h : Row N) (known : Known N)
        → IsKnown known
        → refresh day closes h known h.stock_id ≡ today h.stock_id
    unfolding IsKnown
    refresh-own h known k = elim (Option-cases (close_on day (closes h.stock_id))) [
      | inl e ↦
          rw (refresh, e)
            (elim (k h.stock_id) [ inl b ↦ b ∙ sym (else_before h.stock_id e) | inr t ↦ t ])
      | inr (c, e) ↦
          rw (refresh, e, (==_iff h.stock_id h.stock_id).1 refl) (sym (own h.stock_id c e))
    ]

    refresh-other :
        (h : Row N) (known : Known N) (stock : ℕ)
        → h.stock_id == stock ≡ false
        → refresh day closes h known stock ≡ known stock
    refresh-other h known stock e = elim (Option-cases (close_on day (closes h.stock_id))) [
      | inl n ↦ rw (refresh, n) refl
      | inr (c, n) ↦ rw (refresh, n) (ap (λ b. if b then some c else known stock) e)
    ]

    refresh-IsKnown :
        (h : Row N) (known : Known N) → IsKnown known → IsKnown (refresh day closes h known)
    unfolding IsKnown
    refresh-IsKnown h known k stock = elim (Bool-cases (h.stock_id == stock)) [
      | inl e ↦ inr (
          subst (λ s. refresh day closes h known s ≡ today s) ((==_iff h.stock_id stock).0 e)
            (refresh-own h known k))
      | inr e ↦ rw (refresh-other h known stock e) (k stock)
    ]

    value_row-known :
        (h : Row N) (s : Day N)
        → (value_row day closes h s).last_known ≡ refresh day closes h s.last_known
    value_row-known h s = elim (Option-cases (refresh day closes h s.last_known h.stock_id)) [
      | inl e ↦ rw (value_row, e) refl
      | inr (p, e) ↦ elim (Bool-cases (truthy p)) [
        | inl t ↦ rw (value_row, e, t) refl
        | inr t ↦ rw (value_row, e, t) refl
      ]
    ]

    value_row-Adds :
        (h : Row N) (s : Day N)
        → IsKnown s.last_known
        → Adds s (term_at today h) (value_row day closes h s)
    unfolding Adds
    value_row-Adds h s k =
        let e' = refresh-own h s.last_known k in
        elim (Option-cases (today h.stock_id)) [
          | inl e ↦
              let r : refresh day closes h s.last_known h.stock_id ≡ none = e' ∙ e in
              rw (value_row, term_at, r, e) (refl, or_false s.has_data)
          | inr (p, e) ↦
              let r : refresh day closes h s.last_known h.stock_id ≡ some p = e' ∙ e in
              elim (Bool-cases (truthy p)) [
                | inl t ↦ rw (value_row, term_at, r, e, t) (refl, or_true s.has_data)
                | inr t ↦ rw (value_row, term_at, r, e, t) (refl, or_false s.has_data)
              ]
        ]

    pub value_rows-Adds :
        (hs : List (Row N)) (s : Day N)
        → IsKnown s.last_known
        → Adds s (terms today hs) (value_rows day closes hs s)
    unfolding value_rows Adds
    value_rows-Adds [] s k = (refl, or_false s.has_data)
    value_rows-Adds (h ∷ hs) s k =
        Adds-append s (value_row day closes h s)
          (value_rows day closes hs (value_row day closes h s)) (term_at today h) (terms today hs)
          (value_row-Adds h s k)
          (value_rows-Adds hs (value_row day closes h s)
            (rw (value_row-known h s) (refresh-IsKnown h s.last_known k)))

    refresh-today :
        (h : Row N) (known : Known N) (stock : ℕ)
        → IsKnown known
        → known stock ≡ today stock
        → refresh day closes h known stock ≡ today stock
    refresh-today h known stock k e = elim (Bool-cases (h.stock_id == stock)) [
      | inl same ↦
          subst (λ s. refresh day closes h known s ≡ today s) ((==_iff h.stock_id stock).0 same)
            (refresh-own h known k)
      | inr other ↦ refresh-other h known stock other ∙ e
    ]

    value_row-IsKnown :
        (h : Row N) (s : Day N)
        → IsKnown s.last_known
        → IsKnown (value_row day closes h s).last_known
    value_row-IsKnown h s k = rw (value_row-known h s) (refresh-IsKnown h s.last_known k)

    -- At the end of the day each stock of the portfolio carries the price of that day, and the
    -- others what they carried.
    value_rows-today :
        (hs : List (Row N)) (s : Day N) (stock : ℕ)
        → IsKnown s.last_known
        → s.last_known stock ≡ today stock
        → (value_rows day closes hs s).last_known stock ≡ today stock
    unfolding value_rows
    value_rows-today [] s stock k e = e
    value_rows-today (h ∷ hs) s stock k e =
        value_rows-today hs (value_row day closes h s) stock (value_row-IsKnown h s k)
          (ap (λ known. known stock) (value_row-known h s) ∙ refresh-today h s.last_known stock k e)

    pub value_rows-in :
        (hs : List (Row N)) (s : Day N) (stock : ℕ)
        → IsKnown s.last_known
        → any (λ h. h.stock_id == stock) hs ≡ true
        → (value_rows day closes hs s).last_known stock ≡ today stock
    unfolding value_rows
    value_rows-in [] s stock k e = cc
    value_rows-in (h ∷ hs) s stock k e = elim (Bool-cases (h.stock_id == stock)) [
      | inl same ↦ value_rows-today hs (value_row day closes h s) stock (value_row-IsKnown h s k) (
          ap (λ known. known stock) (value_row-known h s)
          ∙ subst (λ t. refresh day closes h s.last_known t ≡ today t)
              ((==_iff h.stock_id stock).0 same) (refresh-own h s.last_known k))
      | inr other ↦
          value_rows-in hs (value_row day closes h s) stock (value_row-IsKnown h s k)
            (rw other at e)
    ]

    pub value_rows-out :
        (hs : List (Row N)) (s : Day N) (stock : ℕ)
        → any (λ h. h.stock_id == stock) hs ≡ false
        → (value_rows day closes hs s).last_known stock ≡ s.last_known stock
    unfolding value_rows
    value_rows-out [] s stock e = refl
    value_rows-out (h ∷ hs) s stock e = elim (Bool-cases (h.stock_id == stock)) [
      | inl same ↦ absurd (ground (arith, e, same))
      | inr other ↦
          value_rows-out hs (value_row day closes h s) stock (rw other at e)
          ∙ ap (λ known. known stock) (value_row-known h s)
          ∙ refresh-other h s.last_known stock other
    ]
