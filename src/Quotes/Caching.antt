-- ===== src/Quotes/Caching.antt =====
-- Which prices the caches of backend/services/market_data.py may serve, after any requests.
use stock_monitor.Base.{
  ℕ, ◌-◌, ◌≤◌, ◌<◌, ◌≡◌, refl, ap, sym, ◌+◌, ◌∙◌, Bool, true, false, if◌then◌else◌, Option, none,
  some, List, [], ◌∷◌, arith, ◌⊎◌, inl, inr, length, All, Option-cases,
}
use stock_monitor.Base.Text.{Text}
use stock_monitor.Float.{Float}
use stock_monitor.Analytics.Caches.{Cache, max_entries, cache_store, cached}
use stock_monitor.Analytics.Caches.Entries.{
  cache_store-length, Entries, Entries-store, Entries-lookup, cached-lookup,
}
use stock_monitor.Quotes.{
  Payload, World, genuine_quote, framed, generate_fallback_price, sync_fetch, batch_quote,
}
use stock_monitor.Quotes.Kinds.{genuine_quote_unmarked, framed_unmarked}
use mathlib.Core.Path.{subst}
use stock_monitor.Quotes.Store.{
  PriceCaches, cache_ttl, fallback_ttl, keep, known_price, keep_all, fetch_current_price,
  fetch_batch_prices,
}
pub mod Batch
pub mod Answers
pub mod Served

module _ {N : Type 0} ⦃f : Float N⦄ (world : ℕ → World N) where
  -- What Yahoo answered at the time gives the price of the ticker, asked alone or in a batch.
  abbrev pub IsGenuine : Text → Payload N × ℕ → Type 0
  IsGenuine k (q, t) =
      (genuine_quote ((world t).history k) ((world t).fast_info k) ≡ some q)
      ⊎ (framed ((world t).frame k) ≡ some q)

  -- The price was made up at the time.
  abbrev pub IsSynthetic : Text → Payload N × ℕ → Type 0
  IsSynthetic k (q, t) = q ≡ generate_fallback_price (world t).seed k

  abbrev pub Made : ℕ → Text → Payload N → Type 0
  Made t k q = IsGenuine k (q, t) ⊎ IsSynthetic k (q, t)

  -- An entry made until a time, of the kind of its cache.
  abbrev pub IsFresh : ℕ → Text → Payload N × ℕ → Type 0
  IsFresh now k e = (e.1 ≤ now) × IsGenuine k e

  abbrev pub IsFallback : ℕ → Text → Payload N × ℕ → Type 0
  IsFallback now k e = (e.1 ≤ now) × IsSynthetic k e

  -- Caches within their limits, each with prices of its kind.
  abbrev pub IsSound : ℕ → PriceCaches N → Type 0
  IsSound now caches =
      (length caches.fresh ≤ max_entries)
      × (length caches.fallback ≤ max_entries)
      × Entries (IsFresh now) caches.fresh
      × Entries (IsFallback now) caches.fallback

  -- A genuine price less than a minute old, or a synthetic one less than ten seconds old.
  abbrev pub IsRecent : ℕ → Text → Payload N → Type 0
  IsRecent now k q =
      (t : ℕ) × (t ≤ now)
      × ((IsGenuine k (q, t) × (now < t + cache_ttl))
          ⊎ (IsSynthetic k (q, t) × (now < t + fallback_ttl)))

  -- What may be answered for a ticker: a price made now, or a recent one.
  abbrev pub IsServed : ℕ → ℕ → Text → Payload N → Type 0
  IsServed now done k q = Made done k q ⊎ IsRecent now k q

  pub sync_fetch-Made : (t : ℕ) (k : Text) → Made t k (sync_fetch (world t) k)
  unfolding sync_fetch
  sync_fetch-Made t k =
      elim (Option-cases (genuine_quote ((world t).history k) ((world t).fast_info k))) [
        | inl e ↦ inr (rw (sync_fetch, e) refl)
        | inr (q, e) ↦ inl (inl (e ∙ ap some (rw (sync_fetch, e) refl)))
      ]

  pub batch_quote-Made : (t : ℕ) (k : Text) → Made t k (batch_quote (world t) k)
  unfolding batch_quote
  batch_quote-Made t k = elim (Option-cases (framed ((world t).frame k))) [
    | inl e ↦ inr (rw (batch_quote, e) refl)
    | inr (q, e) ↦ inl (inr (e ∙ ap some (rw (batch_quote, e) refl)))
  ]

  genuine_unmarked : (k : Text) (q : Payload N) (t : ℕ) → IsGenuine k (q, t) → q.stale ≡ false
  genuine_unmarked k q t (inl e) =
      genuine_quote_unmarked ((world t).history k) ((world t).fast_info k) q e
  genuine_unmarked k q t (inr e) = framed_unmarked ((world t).frame k) q e

  synthetic_marked : (k : Text) (q : Payload N) (t : ℕ) → IsSynthetic k (q, t) → q.stale ≡ true
  unfolding generate_fallback_price
  synthetic_marked k q t e = ap (λ p. p.stale) e

  keep_fallback :
      (now : ℕ) (k : Text) (q : Payload N) (caches : PriceCaches N)
      → q.stale ≡ true
      → keep now k q caches ≡ record caches { fallback = cache_store k (q, now) caches.fallback }
  unfolding keep
  keep_fallback now k q caches e =
      ap
        (λ b.
          if b
          then record caches { fallback = cache_store k (q, now) caches.fallback }
          else record caches { fresh = cache_store k (q, now) caches.fresh })
        e

  keep_fresh :
      (now : ℕ) (k : Text) (q : Payload N) (caches : PriceCaches N)
      → q.stale ≡ false
      → keep now k q caches ≡ record caches { fresh = cache_store k (q, now) caches.fresh }
  unfolding keep
  keep_fresh now k q caches e =
      ap
        (λ b.
          if b
          then record caches { fallback = cache_store k (q, now) caches.fallback }
          else record caches { fresh = cache_store k (q, now) caches.fresh })
        e

  pub keep-IsSound :
      (now t : ℕ) (k : Text) (q : Payload N) (caches : PriceCaches N)
      → t ≤ now
      → Made t k q
      → IsSound now caches
      → IsSound now (keep t k q caches)
  keep-IsSound now t k q caches past (inl m) h =
      subst (IsSound now) (sym (keep_fresh t k q caches (genuine_unmarked k q t m))) (
        cache_store-length k (q, t) caches.fresh,
        h.1,
        Entries-store (IsFresh now) k (q, t) caches.fresh (past, m) h.2,
        h.3,
      )
  keep-IsSound now t k q caches past (inr m) h =
      subst (IsSound now) (sym (keep_fallback t k q caches (synthetic_marked k q t m))) (
        h.0,
        cache_store-length k (q, t) caches.fallback,
        h.2,
        Entries-store (IsFallback now) k (q, t) caches.fallback (past, m) h.3,
      )

  fresh-IsRecent :
      (now : ℕ) (k : Text) (q : Payload N) (cache : Cache (Payload N))
      → Entries (IsFresh now) cache
      → cached cache_ttl now k cache ≡ some q
      → IsRecent now k q
  fresh-IsRecent now k q cache h e =
      let (t, young, found) = cached-lookup cache_ttl now k cache q e in
      let (past, made) = Entries-lookup (IsFresh now) k (q, t) cache h found in
      (t, past, inl (made, omega (arith, young)))

  fallback-IsRecent :
      (now : ℕ) (k : Text) (q : Payload N) (cache : Cache (Payload N))
      → Entries (IsFallback now) cache
      → cached fallback_ttl now k cache ≡ some q
      → IsRecent now k q
  fallback-IsRecent now k q cache h e =
      let (t, young, found) = cached-lookup fallback_ttl now k cache q e in
      let (past, made) = Entries-lookup (IsFallback now) k (q, t) cache h found in
      (t, past, inr (made, omega (arith, young)))

  pub known_price-IsRecent :
      (now : ℕ) (k : Text) (q : Payload N) (caches : PriceCaches N)
      → IsSound now caches
      → known_price now k caches ≡ some q
      → IsRecent now k q
  unfolding known_price
  known_price-IsRecent now k q caches h e =
      elim (Option-cases (cached cache_ttl now k caches.fresh)) [
        | inl n ↦ fallback-IsRecent now k q caches.fallback h.3 (rw (known_price, n) at e)
        | inr (p, n) ↦
            let same : some p ≡ some q = rw (known_price, n) at e in
            fresh-IsRecent now k q caches.fresh h.2 (n ∙ same)
      ]

  pub fetch_current_price-IsServed :
      (k : Text) (now done : ℕ) (caches : PriceCaches N)
      → IsSound now caches
      → IsServed now done k (fetch_current_price world k now done caches).0
  unfolding fetch_current_price
  fetch_current_price-IsServed k now done caches h =
      elim (Option-cases (known_price now k caches)) [
        | inl n ↦ rw (fetch_current_price, n) (inl (sync_fetch-Made done k))
        | inr (q, n) ↦ rw (fetch_current_price, n) (inr (known_price-IsRecent now k q caches h n))
      ]

  pub fetch_current_price-IsSound :
      (later : ℕ) (k : Text) (now done : ℕ) (caches : PriceCaches N)
      → done ≤ later
      → IsSound later caches
      → IsSound later (fetch_current_price world k now done caches).1
  unfolding fetch_current_price
  fetch_current_price-IsSound later k now done caches past h =
      elim (Option-cases (known_price now k caches)) [
        | inl n ↦
            rw (fetch_current_price, n)
              (keep-IsSound later done k (sync_fetch (world done) k) caches past
                (sync_fetch-Made done k) h)
        | inr (q, n) ↦ rw (fetch_current_price, n) h
      ]
