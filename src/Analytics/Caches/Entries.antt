-- ===== src/Analytics/Caches/Entries.antt =====
-- The entries of a cache: their number, what holds of each, and which of them an invalidation drops.
use mathlib.Core.Path.{subst}
use stock_monitor.Base.{
  ℕ, ◌-◌, ◌≤◌, ◌<◌, ◌≡◌, refl, ap, sym, ◌∙◌, Bool, true, false, not, Option, none, some, [], ◌∷◌,
  arith, inl, inr, ltb, if◌then◌else◌, filter, length, length-filter-le, All, Bool-cases,
  Option-cases, ltb→lt, ltb→le,
}
use stock_monitor.Base.Text.{Text, text_eq, text_eq_iff}
use stock_monitor.Analytics.Caches.{
  Cache, Caches, max_entries, series_key, risk_key, lookup, put, trim, cache_store, cached,
  is_stale_key, invalidate, invalidate_user_caches,
}
use stock_monitor.Analytics.Caches.Keys.{same_user, is_stale_key-series, is_stale_key-risk}

pub some-injective : {A : Type 0} (a b : A) → some a ≡ some b → a ≡ b
some-injective a b e = cc

same_test : (p : Text → Bool) (key k : Text) → text_eq k key ≡ true → p key ≡ p k
same_test p key k same = ap p (sym ((text_eq_iff k key).0 same))

module _ {A : Type 0} where
  -- What a filter on the keys leaves of a lookup.
  module _ (p : Text → Bool) (key : Text) where
    lookup-filter :
        (cache : Cache A)
        → lookup key (filter (λ (k, v). not (p k)) cache)
          ≡ (if p key then none else lookup key cache)
    lookup-filter [] = elim (Bool-cases (p key)) [ inl e ↦ rw e refl | inr e ↦ rw e refl ]
    lookup-filter ((k, v) ∷ cache) =
        let rest = lookup-filter cache in
        elim (Bool-cases (p k)) [
          | inl e ↦ elim (Bool-cases (text_eq k key)) [
            | inl same ↦
                let gone : p key ≡ true = same_test p key k same ∙ e in
                let empty : lookup key (filter (λ (k, v). not (p k)) cache) ≡ none =
                  rw gone at rest in
                rw (e, gone) empty
            | inr other ↦ rw (e, other) rest
          ]
          | inr e ↦ elim (Bool-cases (text_eq k key)) [
            | inl same ↦ rw (e, same, same_test p key k same ∙ e) refl
            | inr other ↦ rw (e, other) rest
          ]
        ]

  lookup-invalidate :
      (user : Option ℕ) (key : Text) (cache : Cache A)
      → lookup key (invalidate user cache)
        ≡ (if is_stale_key user key then none else lookup key cache)
  unfolding invalidate
  lookup-invalidate user key cache = lookup-filter (is_stale_key user) key cache

  -- A result that the cache gives is in it, and is not too old.
  pub cached-lookup :
      (ttl now : ℕ) (key : Text) (cache : Cache A) (answer : A)
      → cached ttl now key cache ≡ some answer
      → (t : ℕ) × (now - t < ttl) × (lookup key cache ≡ some (answer, t))
  unfolding cached
  cached-lookup ttl now key cache answer e = elim (Option-cases (lookup key cache)) [
    | inl n ↦ absurd (cc (rw (cached, n) at e))
    | inr ((v, t), n) ↦
        let served : (if ltb (now - t) ttl then some v else none) ≡ some answer =
          rw (cached, n) at e in
        elim (Bool-cases (ltb (now - t) ttl)) [
          | inl good ↦
              let same : some v ≡ some answer = rw good at served in
              (
                t,
                ltb→lt (now - t) ttl good,
                n ∙ ap (λ a. some (a, t)) (some-injective v answer same),
              )
          | inr old ↦ absurd (cc (rw old at served))
        ]
  ]

  trim-length : (most : ℕ) (cache : Cache A) → length (trim most cache) ≤ most
  trim-length most [] = omega arith
  trim-length most (e ∷ cache) = elim (Bool-cases (ltb most (length (e ∷ cache)))) [
    | inl long ↦ rw long (trim-length most cache)
    | inr short ↦ rw short (ltb→le most (length (e ∷ cache)) short)
  ]

  pub cache_store-length :
      (key : Text) (v : A × ℕ) (cache : Cache A) → length (cache_store key v cache) ≤ max_entries
  unfolding cache_store
  cache_store-length key v cache = trim-length max_entries (put key v cache)

  -- What holds of every entry, and of a new one, holds after the store.
  module _ (P : Text → A × ℕ → Type 0) where
    abbrev pub Entries : Cache A → Type 0
    Entries = All (λ e. P e.0 e.1)

    Entries-trim : (most : ℕ) (cache : Cache A) → Entries cache → Entries (trim most cache)
    Entries-trim most [] h = h
    Entries-trim most (e ∷ cache) h = elim (Bool-cases (ltb most (length (e ∷ cache)))) [
      | inl long ↦ rw long (Entries-trim most cache h.1)
      | inr short ↦ rw short h
    ]

    Entries-put :
        (key : Text) (v : A × ℕ) (cache : Cache A)
        → P key v
        → Entries cache
        → Entries (put key v cache)
    Entries-put key v [] p h = (p, tt)
    Entries-put key v ((k, w) ∷ cache) p h = elim (Bool-cases (text_eq k key)) [
      | inl same ↦ rw same (subst (λ j. P j v) (sym ((text_eq_iff k key).0 same)) p, h.1)
      | inr other ↦ rw other (h.0, Entries-put key v cache p h.1)
    ]

    pub Entries-store :
        (key : Text) (v : A × ℕ) (cache : Cache A)
        → P key v
        → Entries cache
        → Entries (cache_store key v cache)
    unfolding cache_store
    Entries-store key v cache p h =
        Entries-trim max_entries (put key v cache) (Entries-put key v cache p h)

    -- The entry that a lookup finds.
    pub Entries-lookup :
        (key : Text) (v : A × ℕ) (cache : Cache A)
        → Entries cache
        → lookup key cache ≡ some v
        → P key v
    Entries-lookup key v [] h e = cc
    Entries-lookup key v ((k, w) ∷ cache) h e = elim (Bool-cases (text_eq k key)) [
      | inl same ↦
          let found : some w ≡ some v = rw same at e in
          subst (P key) (some-injective w v found)
            (subst (λ j. P j w) ((text_eq_iff k key).0 same) h.0)
      | inr other ↦ Entries-lookup key v cache h.1 (rw other at e)
    ]

-- `invalidate_user_caches` drops every result of its user, whatever its number of days, and leaves
-- those of every other user as they were, in both caches; a user is an id or None.
pub invalidate_user_caches_exact :
    {A B : Type 0} (user other : Option ℕ) (days : ℕ) (caches : Caches A B)
    → (lookup (series_key other days) (invalidate_user_caches user caches).series
        ≡ (if same_user user other then none else lookup (series_key other days) caches.series))
      × (lookup (risk_key other days) (invalidate_user_caches user caches).risk
          ≡ (if same_user user other then none else lookup (risk_key other days) caches.risk))
unfolding invalidate_user_caches
invalidate_user_caches_exact user other days caches = (
  lookup-invalidate user (series_key other days) caches.series
      ∙ ap (λ b. if b then none else lookup (series_key other days) caches.series)
          (is_stale_key-series user other days),
  lookup-invalidate user (risk_key other days) caches.risk
      ∙ ap (λ b. if b then none else lookup (risk_key other days) caches.risk)
          (is_stale_key-risk user other days),
)

module _ {A : Type 0} (P : Text → A × ℕ → Type 0) where
  -- What is left after an invalidation satisfies what all satisfied, and is not the user's.
  pub Entries-invalidate :
      (user : Option ℕ) (cache : Cache A)
      → Entries P cache
      → Entries (λ k v. P k v × (is_stale_key user k ≡ false)) (invalidate user cache)
  unfolding invalidate
  Entries-invalidate user [] h = tt
  Entries-invalidate user ((k, v) ∷ cache) h = elim (Bool-cases (is_stale_key user k)) [
    | inl e ↦ rw e (Entries-invalidate user cache h.1)
    | inr e ↦ rw e ((h.0, e), Entries-invalidate user cache h.1)
  ]

  pub Entries-impl :
      {Q : Text → A × ℕ → Type 0} (cache : Cache A)
      → ((k : Text) (v : A × ℕ) → P k v → Q k v)
      → Entries P cache
      → Entries Q cache
  Entries-impl [] f h = tt
  Entries-impl ((k, v) ∷ cache) f h = (f k v h.0, Entries-impl cache f h.1)

  pub invalidate-length :
      (user : Option ℕ) (cache : Cache A) → length (invalidate user cache) ≤ length cache
  unfolding invalidate
  invalidate-length user cache = length-filter-le (λ (k, v). not (is_stale_key user k)) cache
