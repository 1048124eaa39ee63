-- ===== src/Quotes/Caching/Answers.antt =====
-- What `fetch_batch_prices` answers with sound caches.
use stock_monitor.Base.{ℕ, ◌≤◌, ◌≡◌, sym, true, Option, List, [], ◌∷◌, ◌⊎◌, inl, inr, All, IsAmong}
use mathlib.Core.Path.{subst}
use stock_monitor.Base.Text.{Text, is_empty}
use stock_monitor.Float.{Float}
use stock_monitor.Quotes.{Payload, World, batch_quote}
use stock_monitor.Quotes.Store.{
  PriceCaches, keep, clean, put_price, scan, keep_all, fetch_batch, fetch_batch_prices,
}
use stock_monitor.Quotes.Caching.{
  Made, IsSound, IsServed, batch_quote-Made, keep-IsSound, known_price-IsRecent,
}
use stock_monitor.Quotes.Caching.Batch.{
  IsAnswered, IsFound, IsComplete, put_price-All, put_price_has, put_price_keeps, scan-All,
  scan-IsComplete,
}

module _ {N : Type 0} where
  keep_all_keeps :
      (now : ℕ) (k : Text) (downloaded results : List (Text × Payload N)) (caches : PriceCaches N)
      → IsAnswered results k ⊎ IsAnswered downloaded k
      → IsAnswered (keep_all now downloaded (results, caches)).0 k
  unfolding keep_all
  keep_all_keeps now k [] results caches (inl h) = h
  keep_all_keeps now k [] results caches (inr h) = absurd h
  keep_all_keeps now k ((t, q) ∷ downloaded) results caches (inl h) =
      keep_all_keeps now k downloaded (put_price t q results) (keep now t q caches)
        (inl (put_price_keeps k t q results h))
  keep_all_keeps now k ((t, q) ∷ downloaded) results caches (inr (inl e)) =
      keep_all_keeps now k downloaded (put_price t q results) (keep now t q caches)
        (inl (subst (IsAnswered (put_price t q results)) (sym e) (put_price_has t q results)))
  keep_all_keeps now k ((t, q) ∷ downloaded) results caches (inr (inr h)) =
      keep_all_keeps now k downloaded (put_price t q results) (keep now t q caches) (inr h)

module _ {N : Type 0} ⦃f : Float N⦄ where
  fetch_batch_keeps :
      (w : World N) (k : Text) (ts : List Text) (out : List (Text × Payload N))
      → IsAnswered out k ⊎ IsAmong k ts
      → IsAnswered (fetch_batch w ts out) k
  unfolding fetch_batch
  fetch_batch_keeps w k [] out (inl h) = h
  fetch_batch_keeps w k [] out (inr h) = absurd h
  fetch_batch_keeps w k (t ∷ ts) out (inl h) =
      fetch_batch_keeps w k ts (put_price t (batch_quote w t) out)
        (inl (put_price_keeps k t (batch_quote w t) out h))
  fetch_batch_keeps w k (t ∷ ts) out (inr (inl e)) =
      let more = put_price t (batch_quote w t) out in
      fetch_batch_keeps w k ts more
        (inl (subst (IsAnswered more) (sym e) (put_price_has t (batch_quote w t) out)))
  fetch_batch_keeps w k (t ∷ ts) out (inr (inr h)) =
      fetch_batch_keeps w k ts (put_price t (batch_quote w t) out) (inr h)

  module _ (world : ℕ → World N) where
    fetch_batch-Made :
        (now : ℕ) (ts : List Text) (out : List (Text × Payload N))
        → All (λ e. Made world now e.0 e.1) out
        → All (λ e. Made world now e.0 e.1) (fetch_batch (world now) ts out)
    unfolding fetch_batch
    fetch_batch-Made now [] out h = h
    fetch_batch-Made now (t ∷ ts) out h =
        let q = batch_quote (world now) t in
        fetch_batch-Made now ts (put_price t q out)
          (put_price-All (Made world now) t q out (batch_quote-Made world now t) h)

    keep_all-IsServed :
        (now done : ℕ) (downloaded results : List (Text × Payload N)) (caches : PriceCaches N)
        → All (λ e. Made world done e.0 e.1) downloaded
        → All (λ e. IsServed world now done e.0 e.1) results
        → All (λ e. IsServed world now done e.0 e.1) (keep_all done downloaded (results, caches)).0
    unfolding keep_all
    keep_all-IsServed now done [] results caches m h = h
    keep_all-IsServed now done ((t, q) ∷ downloaded) results caches m h =
        keep_all-IsServed now done downloaded (put_price t q results) (keep done t q caches) m.1
          (put_price-All (IsServed world now done) t q results (inl m.0) h)

    keep_all-IsSound :
        (later done : ℕ) (downloaded results : List (Text × Payload N)) (caches : PriceCaches N)
        → done ≤ later
        → All (λ e. Made world done e.0 e.1) downloaded
        → IsSound world later caches
        → IsSound world later (keep_all done downloaded (results, caches)).1
    unfolding keep_all
    keep_all-IsSound later done [] results caches p m h = h
    keep_all-IsSound later done ((t, q) ∷ downloaded) results caches p m h =
        keep_all-IsSound later done downloaded (put_price t q results) (keep done t q caches) p m.1
          (keep-IsSound world later done t q caches p m.0 h)

    -- What the request makes of the results and the missing tickers.
    abbrev outcome :
        ℕ
        → PriceCaches N
        → List (Text × Payload N) × List Text
        → List (Text × Payload N) × PriceCaches N
    outcome done caches found = elim found.1 [
      | [] ↦ (found.0, caches)
      | t ∷ rest ↦ keep_all done (fetch_batch (world done) (t ∷ rest) []) (found.0, caches)
    ]

    outcome-IsServed :
        (now done : ℕ) (caches : PriceCaches N) (found : List (Text × Payload N) × List Text)
        → All (λ e. IsServed world now done e.0 e.1) found.0
        → All (λ e. IsServed world now done e.0 e.1) (outcome done caches found).0
    outcome-IsServed now done caches (results, []) s = s
    outcome-IsServed now done caches (results, t ∷ rest) s =
        keep_all-IsServed now done (fetch_batch (world done) (t ∷ rest) []) results caches
          (fetch_batch-Made done (t ∷ rest) [] tt) s

    outcome-IsSound :
        (later done : ℕ) (caches : PriceCaches N) (found : List (Text × Payload N) × List Text)
        → done ≤ later
        → IsSound world later caches
        → IsSound world later (outcome done caches found).1
    outcome-IsSound later done caches (results, []) p h = h
    outcome-IsSound later done caches (results, t ∷ rest) p h =
        keep_all-IsSound later done (fetch_batch (world done) (t ∷ rest) []) results caches p
          (fetch_batch-Made done (t ∷ rest) [] tt) h

    outcome-IsAnswered :
        (now done : ℕ) (caches : PriceCaches N) (found : List (Text × Payload N) × List Text)
        → (k : Text) → IsFound now caches found k
        → IsAnswered (outcome done caches found).0 k
    outcome-IsAnswered now done caches (results, []) k (inl a) = a
    outcome-IsAnswered now done caches (results, []) k (inr m) = absurd m
    outcome-IsAnswered now done caches (results, t ∷ rest) k (inl a) =
        keep_all_keeps done k (fetch_batch (world done) (t ∷ rest) []) results caches (inl a)
    outcome-IsAnswered now done caches (results, t ∷ rest) k (inr m) =
        keep_all_keeps done k (fetch_batch (world done) (t ∷ rest) []) results caches
          (inr (fetch_batch_keeps (world done) k (t ∷ rest) [] (inr m)))

    outcome_complete :
        (now done : ℕ) (caches : PriceCaches N) (found : List (Text × Payload N) × List Text)
        → (us : List (Option Text)) → IsComplete now caches found us
        → All
            (λ t. (is_empty (clean t) ≡ true) ⊎ IsAnswered (outcome done caches found).0 (clean t))
            us
    outcome_complete now done caches found [] c = tt
    outcome_complete now done caches found (u ∷ us) c = (
      elim c.0 [
        | inl e ↦ inl e
        | inr a ↦ inr (outcome-IsAnswered now done caches found (clean u) a)
      ],
      outcome_complete now done caches found us c.1,
    )

    pub fetch_batch_prices-IsServed :
        (ts : List (Option Text)) (now done : ℕ) (caches : PriceCaches N)
        → IsSound world now caches
        → let batch = (fetch_batch_prices world ts now done caches).0 in
          All (λ e. IsServed world now done e.0 e.1) batch
          × All (λ t. (is_empty (clean t) ≡ true) ⊎ IsAnswered batch (clean t)) ts
    unfolding fetch_batch_prices
    fetch_batch_prices-IsServed ts now done caches h =
        let found = scan now caches ts [] [] in
        (
          outcome-IsServed now done caches found (
              scan-All now caches (IsServed world now done)
                (λ k q e. inr (known_price-IsRecent world now k q caches h e)) ts [] [] tt),
          outcome_complete now done caches found ts (scan-IsComplete now caches ts [] []),
        )

    pub fetch_batch_prices-IsSound :
        (later : ℕ) (ts : List (Option Text)) (now done : ℕ) (caches : PriceCaches N)
        → done ≤ later
        → IsSound world later caches
        → IsSound world later (fetch_batch_prices world ts now done caches).1
    unfolding fetch_batch_prices
    fetch_batch_prices-IsSound later ts now done caches p h =
        outcome-IsSound later done caches (scan now caches ts [] []) p h
