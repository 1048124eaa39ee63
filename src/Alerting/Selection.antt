-- ===== src/Alerting/Selection.antt =====
-- The stocks that a run looks at, and the rows that it selects.
use mathlib.Core.Path.{sym, subst}
use stock_monitor.Base.{
  ℕ, ◌≡◌, refl, Bool, true, ◌&&◌, some, List, [], ◌∷◌, arith, find, All, ◌==◌, inl, inr, Bool-cases,
  Option-cases, IsAmong,
}
use stock_monitor.Table.{find-some}
use stock_monitor.Portfolio.{Stock}
use stock_monitor.Portfolio.Valuation.{has_id}
use stock_monitor.Alerting.{with_stocks, put_stock, stocks_by_id}

-- A stock as its table has it.
abbrev pub Known : List Stock → Stock → Type 0
Known table s = find (has_id s.id) table ≡ some s

Known-eq :
    (table : List Stock) (s t : Stock)
    → Known table s
    → Known table t
    → (t.id == s.id) ≡ true
    → t ≡ s
Known-eq table s t h k e =
    let same : t.id ≡ s.id = ground (arith, e) in
    let k' : find (has_id s.id) table ≡ some t =
      subst (λ i. find (has_id i) table ≡ some t) same k in
    cc

put_stock-IsAmong : (s : Stock) (ss : List Stock) → IsAmong s (put_stock s ss)
unfolding put_stock
put_stock-IsAmong s [] = inl refl
put_stock-IsAmong s (t ∷ ts) = elim (Bool-cases (t.id == s.id)) [
  | inl e ↦ rw e (inl refl)
  | inr e ↦ rw e (inr (put_stock-IsAmong s ts))
]

module _ (table : List Stock) where
  put_stock_keeps :
      (s t : Stock) (ss : List Stock)
      → Known table s
      → Known table t
      → IsAmong t ss
      → IsAmong t (put_stock s ss)
  unfolding put_stock
  put_stock_keeps s t [] h k a = absurd a
  put_stock_keeps s t (u ∷ us) h k (inr a) = elim (Bool-cases (u.id == s.id)) [
    | inl e ↦ rw e (inr a)
    | inr e ↦ rw e (inr (put_stock_keeps s t us h k a))
  ]
  put_stock_keeps s t (u ∷ us) h k (inl same) = elim (Bool-cases (u.id == s.id)) [
    | inl e ↦ rw e (inl (Known-eq table s t h k (rw same e)))
    | inr e ↦ rw e (inl same)
  ]

  stocks_by_id_keeps :
      (t : Stock) (acc ss : List Stock)
      → Known table t
      → All (Known table) ss
      → IsAmong t acc
      → IsAmong t (stocks_by_id acc ss)
  unfolding stocks_by_id
  stocks_by_id_keeps t acc [] k a h = h
  stocks_by_id_keeps t acc (s ∷ ss) k a h =
      stocks_by_id_keeps t (put_stock s acc) ss k a.1 (put_stock_keeps s t acc a.0 k h)

  pub stocks_by_id-IsAmong :
      (t : Stock) (acc ss : List Stock)
      → All (Known table) ss
      → IsAmong t ss
      → IsAmong t (stocks_by_id acc ss)
  unfolding stocks_by_id
  stocks_by_id-IsAmong t acc [] a h = absurd h
  stocks_by_id-IsAmong t acc (s ∷ ss) a (inr h) = stocks_by_id-IsAmong t (put_stock s acc) ss a.1 h
  stocks_by_id-IsAmong t acc (s ∷ ss) a (inl e) =
      stocks_by_id_keeps t (put_stock s acc) ss (subst (Known table) (sym e) a.0) a.1
        (subst (λ u. IsAmong u (put_stock s acc)) (sym e) (put_stock-IsAmong s acc))

  find-Known : (id : ℕ) (s : Stock) → find (has_id id) table ≡ some s → Known table s
  find-Known id s e =
      let h : (s.id == id) ≡ true = find-some (has_id id) table s e in
      let same : s.id ≡ id = ground (arith, h) in
      subst (λ i. find (has_id i) table ≡ some s) (sym same) e

  -- The stocks of the rows are the table's, and the rows pass the test.
  pub with_stocks-Known :
      {A : Type 0} (stock_id : A → ℕ) (wanted : A → Bool) (rows : List A)
      → All (λ p. Known table p.1) (with_stocks stock_id wanted table rows)
  unfolding with_stocks
  with_stocks-Known stock_id wanted [] = tt
  with_stocks-Known stock_id wanted (a ∷ rows) =
      elim (Option-cases (find (has_id (stock_id a)) table)) [
        | inl e ↦ rw (e, with_stocks) (with_stocks-Known stock_id wanted rows)
        | inr (s, e) ↦ elim (Bool-cases (wanted a && s.is_active)) [
          | inl w ↦
              rw (e, w, with_stocks)
                (find-Known (stock_id a) s e, with_stocks-Known stock_id wanted rows)
          | inr w ↦ rw (e, w, with_stocks) (with_stocks-Known stock_id wanted rows)
        ]
      ]

  pub with_stocks-All :
      {A : Type 0} (P : A → Type 0) (stock_id : A → ℕ) (wanted : A → Bool) (rows : List A)
      → All P rows
      → All (λ p. P p.0) (with_stocks stock_id wanted table rows)
  unfolding with_stocks
  with_stocks-All P stock_id wanted [] a = tt
  with_stocks-All P stock_id wanted (r ∷ rows) a =
      elim (Option-cases (find (has_id (stock_id r)) table)) [
        | inl e ↦ rw (e, with_stocks) (with_stocks-All P stock_id wanted rows a.1)
        | inr (s, e) ↦ elim (Bool-cases (wanted r && s.is_active)) [
          | inl w ↦ rw (e, w, with_stocks) (a.0, with_stocks-All P stock_id wanted rows a.1)
          | inr w ↦ rw (e, w, with_stocks) (with_stocks-All P stock_id wanted rows a.1)
        ]
      ]
