-- ===== src/Analytics/Benchmarks/Aligned.antt =====
-- The curves of a comparison: their dates, and the benchmarks that the answer holds.
use stock_monitor.Base.{
  ℕ, ◌-◌ as minus, ltb, length, drop, ◌≡◌, refl, ap, sym, ◌∙◌, true, ◌&&◌, Option, none, some, List,
  [], ◌∷◌, map, arith, if◌then◌else◌, filter, filter_sound, All, inl, inr, ◌⊎◌, Bool-cases,
  Option-cases, IsAmong,
}
use stock_monitor.Base.Text.{Text, text_eq, text_eq_iff}
use stock_monitor.Float.{Float, truthy}
use stock_monitor.Analytics.Series.{Candle, Point}
use stock_monitor.Analytics.Benchmarks.{
  Growth, Benchmark, first_date, last_date, base_of, growth_from, normalize_growth, not_before,
  not_after, has_close, is_inside, points_of, chosen, benchmark_curve, benchmark_of, put_benchmark,
  benchmarks_of, compute_benchmark_comparison, asked_period,
}

-- A date within the portfolio's.
abbrev pub IsWithin : Option ℕ → Option ℕ → ℕ → Type 0
IsWithin start end d = (not_before start (some d) ≡ true) × (not_after end (some d) ≡ true)

module _ {N : Type 0} ⦃f : Float N⦄ where
  abbrev pub growth_date : Growth N → ℕ
  growth_date g = g.date

  abbrev pub point_date : Point N → ℕ
  point_date p = p.date

  growth_from-date :
      (base : N) (ps : List (Point N))
      → map growth_date (map (growth_from base) ps) ≡ map point_date ps
  growth_from-date base [] = refl
  growth_from-date base (p ∷ ps) = ap (◌∷◌ p.date) (growth_from-date base ps)

  -- The candles inside become points inside.
  points_of-IsWithin :
      (base : N) (start end : Option ℕ) (cs : List (Candle N))
      → All (λ c. is_inside start end c ≡ true) cs
      → All (λ (g : Growth N). IsWithin start end g.date) (map (growth_from base) (points_of cs))
  points_of-IsWithin base start end [] h = tt
  points_of-IsWithin base start end (c ∷ cs) h =
      let rest = points_of-IsWithin base start end cs h.1 in
      elim (Option-cases c.time) [
        | inl e ↦ rw e rest
        | inr (t, e) ↦ elim (Option-cases c.close) [
          | inl k ↦ rw (e, k) rest
          | inr (x, k) ↦ elim (Bool-cases (truthy x)) [
            | inl y ↦
                let inside : not_before start (some t) && (not_after end (some t) && has_close c)
                    ≡ true =
                  rw (sym e) h.0 in
                rw (e, k, y) ((ground (arith, inside), ground (arith, inside)), rest)
            | inr y ↦ rw (e, k, y) rest
          ]
        ]
      ]

  benchmark_curve-inside :
      (days : ℕ) (start end : Option ℕ) (cs : List (Candle N)) (c : Candle N)
      → (inside : List (Candle N)) → filter (is_inside start end) cs ≡ c ∷ inside
      → benchmark_curve days start end (some cs) ≡ normalize_growth (points_of (c ∷ inside))
  unfolding benchmark_curve chosen normalize_growth
  benchmark_curve-inside days start end cs c inside e = ap curve_of e
    where
      curve_of : List (Candle N) → List (Growth N)
      curve_of xs = normalize_growth (
          points_of (elim xs [
            | [] ↦
                if ltb 0 days && ltb days (length cs) then drop (minus (length cs) days) cs else cs
            | c ∷ inside ↦ c ∷ inside
          ]))

  -- The curve lies within the dates when some candle does.
  benchmark_curve-IsWithin :
      (days : ℕ) (start end : Option ℕ) (cs : List (Candle N))
      → All (λ (g : Growth N). IsWithin start end g.date) (benchmark_curve days start end (some cs))
        ⊎ (filter (is_inside start end) cs ≡ [])
  unfolding normalize_growth
  benchmark_curve-IsWithin days start end cs =
      by_inside (filter (is_inside start end) cs) refl (filter_sound (is_inside start end) cs)
    where
      by_inside :
          (inside : List (Candle N))
          → filter (is_inside start end) cs ≡ inside
          → All (λ c. is_inside start end c ≡ true) inside
          → All
              (λ (g : Growth N). IsWithin start end g.date)
              (benchmark_curve days start end (some cs))
            ⊎ (filter (is_inside start end) cs ≡ [])
      by_inside [] e h = inr e
      by_inside (c ∷ inside) e h = inl (
          rw (benchmark_curve-inside days start end cs c inside e)
            (points_of-IsWithin (base_of (points_of (c ∷ inside))) start end (c ∷ inside) h))

  module _ (days : ℕ) (fetch : Text → Text → Option (List (Candle N)))
      (series : List (Point N)) where
    -- The curve lies within the dates of the series, or no fetched candle does.
    abbrev pub IsAligned : Benchmark N → Type 0
    IsAligned b =
        All (λ g. IsWithin (first_date series) (last_date series) g.date) b.curve
        ⊎ ((cs : List (Candle N)) × (fetch b.ticker (asked_period days) ≡ some cs)
            × (filter (is_inside (first_date series) (last_date series)) cs ≡ []))

    benchmark_of-IsAligned : (ticker : Text) → IsAligned (benchmark_of days fetch series ticker)
    unfolding benchmark_of benchmark_curve
    benchmark_of-IsAligned ticker = elim (Option-cases (fetch ticker (asked_period days))) [
      | inl e ↦ inl (none_aligned e)
      | inr (cs, e) ↦
          elim (benchmark_curve-IsWithin days (first_date series) (last_date series) cs) [
            | inl h ↦ inl (rw e h)
            | inr h ↦ inr (cs, e, h)
          ]
    ]
      where
        none_aligned :
            fetch ticker (asked_period days) ≡ none
            → All
                (λ (g : Growth N). IsWithin (first_date series) (last_date series) g.date)
                (benchmark_of days fetch series ticker).curve
        none_aligned e = rw e tt

  put_benchmark-All :
      (P : Benchmark N → Type 0) (b : Benchmark N) (bs : List (Benchmark N))
      → P b
      → All P bs
      → All P (put_benchmark b bs)
  put_benchmark-All P b [] p h = (p, tt)
  put_benchmark-All P b (c ∷ bs) p h = elim (Bool-cases (text_eq c.ticker b.ticker)) [
    | inl e ↦ rw e (p, h.1)
    | inr e ↦ rw e (h.0, put_benchmark-All P b bs p h.1)
  ]

  abbrev pub ticker_of : Benchmark N → Text
  ticker_of b = b.ticker

  put_benchmark_has :
      (b : Benchmark N) (bs : List (Benchmark N))
      → IsAmong b.ticker (map ticker_of (put_benchmark b bs))
  put_benchmark_has b [] = inl refl
  put_benchmark_has b (c ∷ bs) = elim (Bool-cases (text_eq c.ticker b.ticker)) [
    | inl e ↦ rw e (inl refl)
    | inr e ↦ rw e (inr (put_benchmark_has b bs))
  ]

  put_benchmark_keeps :
      (t : Text) (b : Benchmark N) (bs : List (Benchmark N))
      → IsAmong t (map ticker_of bs)
      → IsAmong t (map ticker_of (put_benchmark b bs))
  put_benchmark_keeps t b [] h = inr h
  put_benchmark_keeps t b (c ∷ bs) h = elim (Bool-cases (text_eq c.ticker b.ticker)) [
    | inl e ↦
        rw e (elim h [ inl k ↦ inl (k ∙ (text_eq_iff c.ticker b.ticker).0 e) | inr k ↦ inr k ])
    | inr e ↦ rw e (elim h [ inl k ↦ inl k | inr k ↦ inr (put_benchmark_keeps t b bs k) ])
  ]

  module _ (days : ℕ) (fetch : Text → Text → Option (List (Candle N)))
      (series : List (Point N)) where
    benchmarks_of-IsAligned :
        (tickers : List Text) (out : List (Benchmark N))
        → All (IsAligned days fetch series) out
        → All (IsAligned days fetch series) (benchmarks_of days fetch series tickers out)
    unfolding benchmarks_of
    benchmarks_of-IsAligned [] out h = h
    benchmarks_of-IsAligned (t ∷ ts) out h =
        benchmarks_of-IsAligned ts (put_benchmark (benchmark_of days fetch series t) out) (
          put_benchmark-All (IsAligned days fetch series) (benchmark_of days fetch series t) out
            (benchmark_of-IsAligned days fetch series t) h)

    benchmarks_of_keeps :
        (t : Text) (tickers : List Text) (out : List (Benchmark N))
        → IsAmong t (map ticker_of out)
        → IsAmong t (map ticker_of (benchmarks_of days fetch series tickers out))
    unfolding benchmarks_of
    benchmarks_of_keeps t [] out h = h
    benchmarks_of_keeps t (u ∷ us) out h =
        let b = benchmark_of days fetch series u in
        benchmarks_of_keeps t us (put_benchmark b out) (put_benchmark_keeps t b out h)

    benchmarks_of_has :
        (tickers : List Text) (out : List (Benchmark N))
        → All (λ t. IsAmong t (map ticker_of (benchmarks_of days fetch series tickers out))) tickers
    unfolding benchmarks_of benchmark_of
    benchmarks_of_has [] out = tt
    benchmarks_of_has (t ∷ ts) out =
        let b = benchmark_of days fetch series t in
        (
          benchmarks_of_keeps t ts (put_benchmark b out) (put_benchmark_has b out),
          benchmarks_of_has ts (put_benchmark b out),
        )

    -- The curve of the portfolio has the dates of its series; every ticker that was asked for has a
    -- benchmark in the answer, whatever the market service gives; and the curve of each benchmark
    -- lies within the dates of the series, unless none of the candles fetched for it does.
    pub comparison_complete :
        (tickers : List Text)
        → let answer = compute_benchmark_comparison days fetch tickers series in
          (map growth_date answer.portfolio ≡ map point_date series)
          × All (λ t. IsAmong t (map ticker_of answer.benchmarks)) tickers
          × All (IsAligned days fetch series) answer.benchmarks
    unfolding compute_benchmark_comparison normalize_growth
    comparison_complete tickers = (
      growth_from-date (base_of series) series,
      benchmarks_of_has tickers [],
      benchmarks_of-IsAligned tickers [] tt,
    )
