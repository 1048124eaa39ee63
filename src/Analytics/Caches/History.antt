-- ===== src/Analytics/Caches/History.antt =====
-- The caches over any history of requests, whose computations may overlap: their size, and which
-- results they may answer with.
use stock_monitor.Base.{
  ℕ, ◌+◌, ◌≤◌, ◌<◌, ◌≡◌, refl, ap, sym, ◌∙◌, false, Option, none, some, List, [], ◌∷◌, arith, ◌⊎◌,
  inl, inr, length, All, Option-cases,
}
use stock_monitor.Base.Text.{Text}
use stock_monitor.Analytics.Caches.{
  Cache, Caches, max_entries, series_cache_ttl, risk_cache_ttl, risk_key, series_key, cached,
  is_stale_key, invalidate, invalidate_user_caches, look_up_series, store_series, look_up_risk,
  store_risk,
}
use stock_monitor.Analytics.Caches.Keys.{
  same_user, is_stale_key-series, is_stale_key-risk, series_key-injective, risk_key-injective,
}
use stock_monitor.Analytics.Caches.Entries.{
  cache_store-length, Entries, Entries-store, Entries-lookup, Entries-invalidate, Entries-impl,
  invalidate-length, cached-lookup,
}

-- What changes the caches. A request that does not find its result computes it, while other events
-- happen, and changes the caches at its end alone: the event has the time of its start.
pub data Event (A B : Type 0) : Type 0 where
  end_series : Option ℕ → ℕ → ℕ → A → Event A B
  end_risk : Option ℕ → ℕ → ℕ → B → Event A B
  changed : Option ℕ → Event A B

module _ {A B : Type 0} where
  unfoldable pub after : Event A B → Caches A B → Caches A B
  unfolding store_series store_risk invalidate_user_caches
  after (end_series user days started answer) = store_series user days started answer
  after (end_risk user days started answer) = store_risk user days started answer
  after (changed user) = invalidate_user_caches user

  -- The caches after a history, the latest event first.
  unfoldable pub caches_after : List (Event A B) → Caches A B
  unfolding after
  caches_after [] = record { series = []; risk = [] }
  caches_after (e ∷ past) = after e (caches_after past)

  -- The requests of a history had started by the time.
  abbrev pub IsStarted : ℕ → Event A B → Type 0
  IsStarted now (end_series user days started answer) = started ≤ now
  IsStarted now (end_risk user days started answer) = started ≤ now
  IsStarted now (changed user) = Unit

  -- A request for the series of the user and the days that started at the time ended with the value,
  -- and the user's portfolio has not changed since that end.
  abbrev pub IsSeries : List (Event A B) → Option ℕ → ℕ → ℕ → A → Type 0
  IsSeries [] user days t v = ⊥
  IsSeries (end_series u d started answer ∷ past) user days t v =
      ((u ≡ user) × (d ≡ days) × (started ≡ t) × (answer ≡ v)) ⊎ IsSeries past user days t v
  IsSeries (end_risk u d started answer ∷ past) user days t v = IsSeries past user days t v
  IsSeries (changed u ∷ past) user days t v =
      (same_user u user ≡ false) × IsSeries past user days t v

  -- The same for the risk.
  abbrev pub IsRisk : List (Event A B) → Option ℕ → ℕ → ℕ → B → Type 0
  IsRisk [] user days t v = ⊥
  IsRisk (end_series u d started answer ∷ past) user days t v = IsRisk past user days t v
  IsRisk (end_risk u d started answer ∷ past) user days t v =
      ((u ≡ user) × (d ≡ days) × (started ≡ t) × (answer ≡ v)) ⊎ IsRisk past user days t v
  IsRisk (changed u ∷ past) user days t v = (same_user u user ≡ false) × IsRisk past user days t v

-- An entry of a cache whose keys are made by a function: a value that is known for some user and
-- days, from a time that has come.
module _ {C : Type 0} (key_of : Option ℕ → ℕ → Text) where
  IsEntry : ℕ → (Option ℕ → ℕ → ℕ → C → Type 0) → Text → C × ℕ → Type 0
  IsEntry now Known key (v, t) =
      (t ≤ now) × (user : Option ℕ) × (days : ℕ) × (key ≡ key_of user days) × Known user days t v

  module _ (now : ℕ) (Known Known' : Option ℕ → ℕ → ℕ → C → Type 0) where
    IsEntry-impl :
        (cache : Cache C)
        → ((user : Option ℕ) (days t : ℕ) (v : C) → Known user days t v → Known' user days t v)
        → Entries (IsEntry now Known) cache
        → Entries (IsEntry now Known') cache
    unfolding IsEntry
    IsEntry-impl cache f =
        Entries-impl (IsEntry now Known) cache (λ k (v, t) (past, user, days, same, known).
          (past, user, days, same, f user days t v known))

    -- An invalidation leaves what is known of other users.
    IsEntry-invalidate :
        (user : Option ℕ) (cache : Cache C)
        → ((other : Option ℕ) (days : ℕ)
            → is_stale_key user (key_of other days) ≡ same_user user other)
        → ((other : Option ℕ) (days t : ℕ) (v : C)
            → same_user user other ≡ false
            → Known other days t v
            → Known' other days t v)
        → Entries (IsEntry now Known) cache
        → Entries (IsEntry now Known') (invalidate user cache)
    unfolding IsEntry
    IsEntry-invalidate user cache key f h =
        Entries-impl (λ k v. IsEntry now Known k v × (is_stale_key user k ≡ false))
          (invalidate user cache)
          (λ k (v, t) r. (
            r.0.0,
            r.0.1,
            r.0.2,
            r.0.3,
            f r.0.1 r.0.2 t v (sym (key r.0.1 r.0.2) ∙ ap (is_stale_key user) (sym r.0.3) ∙ r.1)
                r.0.4,
          ))
          (Entries-invalidate (IsEntry now Known) user cache h)

  -- What a lookup answers with.
  cached-IsEntry :
      (now ttl : ℕ) (Known : Option ℕ → ℕ → ℕ → C → Type 0) (cache : Cache C) (user : Option ℕ)
      (days : ℕ) (answer : C)
      → ((u v : Option ℕ) (d e : ℕ) → key_of u d ≡ key_of v e → (u ≡ v) × (d ≡ e))
      → Entries (IsEntry now Known) cache
      → cached ttl now (key_of user days) cache ≡ some answer
      → (t : ℕ) × (t ≤ now) × (now < t + ttl) × Known user days t answer
  unfolding IsEntry
  cached-IsEntry now ttl Known cache user days answer injective h e =
      let (t, young, found) = cached-lookup ttl now (key_of user days) cache answer e in
      let (past, u, d, same, known) =
        Entries-lookup (IsEntry now Known) (key_of user days) (answer, t) cache h found in
      let (same_user, same_days) = injective user u days d same in
      (t, past, omega (arith, young), rw (same_user, same_days) known)

module _ {A B : Type 0} where
  -- Caches within their limits, with entries of the history.
  IsSound : ℕ → List (Event A B) → Caches A B → Type 0
  IsSound now past caches =
      (length caches.series ≤ max_entries)
      × (length caches.risk ≤ max_entries)
      × Entries (IsEntry series_key now (IsSeries past)) caches.series
      × Entries (IsEntry risk_key now (IsRisk past)) caches.risk

  after-IsSound :
      (now : ℕ) (e : Event A B) (past : List (Event A B)) (caches : Caches A B)
      → IsStarted now e
      → IsSound now past caches
      → IsSound now (e ∷ past) (after e caches)
  unfolding after IsSound IsEntry
  after-IsSound now (end_series user days started answer) past caches s h =
      let e = end_series user days started answer in
      (
        cache_store-length (series_key user days) (answer, started) caches.series,
        h.1,
        Entries-store (IsEntry series_key now (IsSeries (e ∷ past))) (series_key user days)
            (answer, started) caches.series (s, user, days, refl, inl (refl, refl, refl, refl))
            (IsEntry-impl series_key now (IsSeries past) (IsSeries (e ∷ past)) caches.series
              (λ u d t v k. inr k) h.2),
        h.3,
      )
  after-IsSound now (end_risk user days started answer) past caches s h =
      let e = end_risk user days started answer in
      (
        h.0,
        cache_store-length (risk_key user days) (answer, started) caches.risk,
        h.2,
        Entries-store (IsEntry risk_key now (IsRisk (e ∷ past))) (risk_key user days)
            (answer, started) caches.risk (s, user, days, refl, inl (refl, refl, refl, refl))
            (IsEntry-impl risk_key now (IsRisk past) (IsRisk (e ∷ past)) caches.risk
              (λ u d t v k. inr k) h.3),
      )
  after-IsSound now (changed user) past caches s h = (
    omega (arith, h.0, invalidate-length (λ k (v : A × ℕ). Unit {0}) user caches.series),
    omega (arith, h.1, invalidate-length (λ k (v : B × ℕ). Unit {0}) user caches.risk),
    IsEntry-invalidate series_key now (IsSeries past) (IsSeries (changed user ∷ past)) user
        caches.series (is_stale_key-series user) (λ other days t v d k. (d, k)) h.2,
    IsEntry-invalidate risk_key now (IsRisk past) (IsRisk (changed user ∷ past)) user caches.risk
        (is_stale_key-risk user) (λ other days t v d k. (d, k)) h.3,
  )

  caches_after-IsSound :
      (now : ℕ) (past : List (Event A B))
      → All (IsStarted now) past
      → IsSound now past (caches_after past)
  unfolding caches_after IsSound
  caches_after-IsSound now [] s = (omega arith, omega arith, tt, tt)
  caches_after-IsSound now (e ∷ past) s =
      after-IsSound now e past (caches_after past) s.0 (caches_after-IsSound now past s.1)

  -- After any history of requests that overlap and of changes of portfolios, each of the two caches
  -- has at most 256 entries. If one answers a request for the series or for the risk, the answer is
  -- the result of a request of the same kind, user and number of days, which started less than 120
  -- seconds before, or 300 for the risk; and the user's portfolio has not changed since that result
  -- was stored.
  pub served_recent :
      (past : List (Event A B)) (user : Option ℕ) (days now : ℕ)
      → All (IsStarted now) past
      → let caches = caches_after past in
        (length caches.series ≤ max_entries)
        × (length caches.risk ≤ max_entries)
        × ((look_up_series user days now caches ≡ none)
            ⊎ ((answer : A) × (look_up_series user days now caches ≡ some answer)
                × ((t : ℕ) × (t ≤ now)
                    × (now < t + series_cache_ttl)
                    × IsSeries past user days t answer)))
        × ((look_up_risk user days now caches ≡ none)
            ⊎ ((answer : B) × (look_up_risk user days now caches ≡ some answer)
                × ((t : ℕ) × (t ≤ now)
                    × (now < t + risk_cache_ttl)
                    × IsRisk past user days t answer)))
  unfolding look_up_series look_up_risk IsSound
  served_recent past user days now s =
      let sound = caches_after-IsSound now past s in
      let caches = caches_after past in
      (
        sound.0,
        sound.1,
        elim (Option-cases (cached series_cache_ttl now (series_key user days) caches.series)) [
          | inl e ↦ inl e
          | inr (answer, e) ↦ inr (
            answer,
            e,
            cached-IsEntry series_key now series_cache_ttl (IsSeries past) caches.series user days
                answer series_key-injective sound.2 e,
          )
        ],
        elim (Option-cases (cached risk_cache_ttl now (risk_key user days) caches.risk)) [
          | inl e ↦ inl e
          | inr (answer, e) ↦ inr (
            answer,
            e,
            cached-IsEntry risk_key now risk_cache_ttl (IsRisk past) caches.risk user days answer
                risk_key-injective sound.3 e,
          )
        ],
      )
