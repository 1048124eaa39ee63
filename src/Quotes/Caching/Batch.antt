-- ===== src/Quotes/Caching/Batch.antt =====
-- The loop of `fetch_batch_prices` over the tickers: what it finds and what is missing.
use stock_monitor.Base.{
  ℕ, ◌≡◌, refl, sym, true, Option, some, List, [], ◌∷◌, ◌++◌, ◌⊎◌, inl, inr, map, All, Bool-cases,
  Option-cases, IsAmong, IsAmong-left, IsAmong-right,
}
use mathlib.Core.Path.{subst}
use stock_monitor.Base.Text.{Text, text_eq, text_eq_iff, is_empty}
use stock_monitor.Quotes.{Payload}
use stock_monitor.Quotes.Store.{PriceCaches, known_price, clean, put_price, scan}

module _ {A : Type 0} where
  abbrev pub ticker_of : Text × A → Text
  ticker_of e = e.0

  -- The results have the ticker.
  abbrev pub IsAnswered : List (Text × A) → Text → Type 0
  IsAnswered results k = IsAmong k (map ticker_of results)

  pub put_price-All :
      (P : Text → A → Type 0) (k : Text) (q : A) (results : List (Text × A))
      → P k q
      → All (λ e. P e.0 e.1) results
      → All (λ e. P e.0 e.1) (put_price k q results)
  put_price-All P k q [] p h = (p, tt)
  put_price-All P k q ((j, r) ∷ results) p h = elim (Bool-cases (text_eq j k)) [
    | inl e ↦ rw e (subst (λ i. P i q) (sym ((text_eq_iff j k).0 e)) p, h.1)
    | inr e ↦ rw e (h.0, put_price-All P k q results p h.1)
  ]

  pub put_price_has :
      (k : Text) (q : A) (results : List (Text × A)) → IsAnswered (put_price k q results) k
  put_price_has k q [] = inl refl
  put_price_has k q ((j, r) ∷ results) = elim (Bool-cases (text_eq j k)) [
    | inl e ↦ rw e (inl (sym ((text_eq_iff j k).0 e)))
    | inr e ↦ rw e (inr (put_price_has k q results))
  ]

  pub put_price_keeps :
      (i k : Text) (q : A) (results : List (Text × A))
      → IsAnswered results i
      → IsAnswered (put_price k q results) i
  put_price_keeps i k q [] h = inr h
  put_price_keeps i k q ((j, r) ∷ results) h = elim (Bool-cases (text_eq j k)) [
    | inl e ↦ rw e h
    | inr e ↦ rw e (elim h [ inl s ↦ inl s | inr s ↦ inr (put_price_keeps i k q results s) ])
  ]

module _ {N : Type 0} where
  module _ (now : ℕ) (caches : PriceCaches N) where
    pub scan-All :
        (P : Text → Payload N → Type 0)
        → ((k : Text) (q : Payload N) → known_price now k caches ≡ some q → P k q)
        → (ts : List (Option Text)) (results : List (Text × Payload N)) (missing : List Text)
        → All (λ e. P e.0 e.1) results
        → All (λ e. P e.0 e.1) (scan now caches ts results missing).0
    unfolding scan
    scan-All P known [] results missing h = h
    scan-All P known (t ∷ ts) results missing h = elim (Bool-cases (is_empty (clean t))) [
      | inl e ↦ rw (scan, e) (scan-All P known ts results missing h)
      | inr e ↦ elim (Option-cases (known_price now (clean t) caches)) [
        | inl n ↦ rw (scan, e, n) (scan-All P known ts results (missing ++ clean t ∷ []) h)
        | inr (q, n) ↦
            rw (scan, e, n)
              (scan-All P known ts (put_price (clean t) q results) missing
                (put_price-All P (clean t) q results (known (clean t) q n) h))
      ]
    ]

    -- A ticker is among the results or is missing.
    abbrev pub IsFound : List (Text × Payload N) × List Text → Text → Type 0
    IsFound found k = IsAnswered found.0 k ⊎ IsAmong k found.1

    scan_keeps :
        (k : Text) (ts : List (Option Text)) (results : List (Text × Payload N))
        (missing : List Text)
        → IsFound (results, missing) k
        → IsFound (scan now caches ts results missing) k
    unfolding scan
    scan_keeps k [] results missing h = h
    scan_keeps k (t ∷ ts) results missing h = elim (Bool-cases (is_empty (clean t))) [
      | inl e ↦ rw (scan, e) (scan_keeps k ts results missing h)
      | inr e ↦ elim (Option-cases (known_price now (clean t) caches)) [
        | inl n ↦
            rw (scan, e, n)
              (scan_keeps k ts results (missing ++ clean t ∷ [])
                (elim h [ inl a ↦ inl a | inr m ↦ inr (IsAmong-left k missing (clean t ∷ []) m) ]))
        | inr (q, n) ↦
            rw (scan, e, n)
              (scan_keeps k ts (put_price (clean t) q results) missing
                (elim h [ inl a ↦ inl (put_price_keeps k (clean t) q results a) | inr m ↦ inr m ]))
      ]
    ]

    -- Each ticker but the blank ones.
    abbrev pub IsComplete : List (Text × Payload N) × List Text → List (Option Text) → Type 0
    IsComplete found ts = All (λ t. (is_empty (clean t) ≡ true) ⊎ IsFound found (clean t)) ts

    scan_step :
        (t : Option Text) (ts : List (Option Text))
        → (results : List (Text × Payload N)) (missing : List Text)
        → ((is_empty (clean t) ≡ true)
            × (scan now caches (t ∷ ts) results missing ≡ scan now caches ts results missing))
          ⊎ ((more : List (Text × Payload N) × List Text) × (scan now caches
                  (t ∷ ts)
                  results
                  missing
                ≡ scan now caches ts more.0 more.1)
              × IsFound more (clean t))
    unfolding scan
    scan_step t ts results missing = elim (Bool-cases (is_empty (clean t))) [
      | inl e ↦ inl (e, rw (scan, e) refl)
      | inr e ↦ elim (Option-cases (known_price now (clean t) caches)) [
        | inl n ↦ inr (
          (results, missing ++ clean t ∷ []),
          rw (scan, e, n) refl,
          inr (IsAmong-right (clean t) missing (clean t ∷ []) (inl refl)),
        )
        | inr (q, n) ↦ inr (
          (put_price (clean t) q results, missing),
          rw (scan, e, n) refl,
          inl (put_price_has (clean t) q results),
        )
      ]
    ]

    pub scan-IsComplete :
        (ts : List (Option Text)) (results : List (Text × Payload N)) (missing : List Text)
        → IsComplete (scan now caches ts results missing) ts
    scan-IsComplete [] results missing = tt
    scan-IsComplete (t ∷ ts) results missing = elim (scan_step t ts results missing) [
      | inl (e, same) ↦ (
        inl e,
        subst (λ found. IsComplete found ts) (sym same) (scan-IsComplete ts results missing),
      )
      | inr (more, same, found) ↦ (
        inr (
            subst (λ out. IsFound out (clean t)) (sym same)
              (scan_keeps (clean t) ts more.0 more.1 found)),
        subst (λ out. IsComplete out ts) (sym same) (scan-IsComplete ts more.0 more.1),
      )
    ]
