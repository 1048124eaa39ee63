-- ===== src/Analytics/Benchmarks/Window.antt =====
-- How far back the candles of a benchmark reach.
use stock_monitor.Base.{ℕ, ◌≤◌, ◌<◌, ◌≡◌, refl, arith, leb, inl, inr, ◌⊎◌, Bool-cases, leb→le}
use stock_monitor.Base.Text.{Text, codes, text_eq}
use stock_monitor.Analytics.Benchmarks.{asked_period}

-- The days that the periods of Yahoo reach back, at least.
pub record IsSpan (span : Text → ℕ) : Type 0 where
  pub one_month : 28 ≤ span (codes "1mo")
  pub six_months : 180 ≤ span (codes "6mo")
  pub one_year : 365 ≤ span (codes "1y")

module _ (span : Text → ℕ) (is_span : IsSpan span) where
  -- A comparison over at most 365 days asks for a period that reaches back at least so far, and one
  -- over more than 380 days asks for a single month; between the two the period may be some days
  -- short.
  pub asked_period_reach :
      (days : ℕ)
      → (days ≤ span (asked_period days))
        ⊎ (((365 < days) × (days ≤ 380)) ⊎ ((380 < days) × (asked_period days ≡ codes "1mo")))
  unfolding asked_period text_eq
  asked_period_reach days = elim (Bool-cases (leb days 10)) [
    | inl a ↦ let h = leb→le days 10 a in rw a (inl (omega (arith, h, is_span.one_month)))
    | inr a ↦ elim (Bool-cases (leb days 31)) [
      | inl b ↦ let h = leb→le days 31 b in rw (a, b) (inl (omega (arith, h, is_span.six_months)))
      | inr b ↦ elim (Bool-cases (leb days 120)) [
        | inl c ↦
            let h = leb→le days 120 c in rw (a, b, c) (inl (omega (arith, h, is_span.six_months)))
        | inr c ↦ elim (Bool-cases (leb days 380)) [
          | inl d ↦ elim (Bool-cases (leb days 365)) [
            | inl e ↦
                let h = leb→le days 365 e in
                rw (a, b, c, d) (inl (omega (arith, h, is_span.one_year)))
            | inr e ↦ inr (inl (ground (arith, e), leb→le days 380 d))
          ]
          | inr d ↦ rw (a, b, c, d) (inr (inr (ground (arith, d), refl)))
        ]
      ]
    ]
  ]
