-- ===== src/Analytics/Caches/Tests.antt =====
-- Requests against the caches, with the theorems at them.
use stock_monitor.Base.{
  ℕ, ◌≤◌, ◌<◌, ◌+◌, arith, ◌≡◌, refl, ◌⊎◌, none, some, List, [], ◌∷◌, length, if◌then◌else◌,
}
use stock_monitor.Base.Text.{text_eq, codes}
use stock_monitor.Base.Digits.{str}
use stock_monitor.Analytics.Caches.{
  Caches, max_entries, series_cache_ttl, user_str, series_key, risk_key, lookup,
  invalidate_user_caches, look_up_series, look_up_risk, risk_cache_ttl,
}
use stock_monitor.Analytics.Caches.Keys.{same_user}
use stock_monitor.Analytics.Caches.Entries.{invalidate_user_caches_exact}
use stock_monitor.Analytics.Caches.History.{
  Event, end_series, end_risk, changed, caches_after, IsSeries, IsRisk, served_recent,
}

keys :
    (series_key (some 12) 180 ≡ codes "series:12:180") × (risk_key none 30 ≡ codes "risk:None:30")
unfolding user_str str
keys = (refl, refl)

-- Two series of user 1 and one of user 12 are stored, with a risk; then the portfolio of user 1
-- changes. The latest event comes first.
abbrev past : List (Event ℕ ℕ)
past =
    changed (some 1)
    ∷ end_risk (some 12) 30 1030 8
    ∷ end_series (some 12) 30 1030 7
    ∷ end_series (some 1) 90 1020 6
    ∷ end_series (some 1) 30 1010 5
    ∷ []

-- The series of user 12 is still good 119 seconds later, and not after 120; that of user 1 is gone.
answers :
    (look_up_series (some 12) 30 1149 (caches_after past) ≡ some 7)
    × (look_up_series (some 12) 30 1150 (caches_after past) ≡ none)
    × (look_up_series (some 1) 30 1031 (caches_after past) ≡ none)
    × (look_up_risk (some 12) 30 1329 (caches_after past) ≡ some 8)
unfolding look_up_series look_up_risk caches_after text_eq user_str str
answers = (refl, refl, refl, refl)

-- The portfolio changes while a series is computed from the old one: the invalidation finds nothing,
-- the old series is stored behind it, and is answered for 120 seconds.
old_answer :
    look_up_series {A = ℕ} {B = ℕ}
      (some 1)
      30
      1100
      (caches_after (end_series (some 1) 30 1000 5 ∷ changed (some 1) ∷ []))
    ≡ some 5
unfolding look_up_series caches_after text_eq user_str str
old_answer = refl

served_recent_example :
    let caches = caches_after past in
    (length caches.series ≤ max_entries)
    × (length caches.risk ≤ max_entries)
    × ((look_up_series (some 12) 30 1149 caches ≡ none)
        ⊎ ((answer : ℕ) × (look_up_series (some 12) 30 1149 caches ≡ some answer)
            × ((t : ℕ) × (t ≤ 1149)
                × (1149 < t + series_cache_ttl)
                × IsSeries past (some 12) 30 t answer)))
    × ((look_up_risk (some 12) 30 1149 caches ≡ none)
        ⊎ ((answer : ℕ) × (look_up_risk (some 12) 30 1149 caches ≡ some answer)
            × ((t : ℕ) × (t ≤ 1149)
                × (1149 < t + risk_cache_ttl)
                × IsRisk past (some 12) 30 t answer)))
served_recent_example =
    served_recent past (some 12) 30 1149
      (tt, (omega arith, (omega arith, (omega arith, (omega arith, tt)))))

abbrev caches : Caches ℕ ℕ
caches = caches_after past

invalidate_user_caches_exact_example :
    (lookup (series_key (some 12) 30) (invalidate_user_caches (some 1) caches).series ≡ (
      if same_user (some 1) (some 12)
      then none
      else lookup (series_key (some 12) 30) caches.series))
    × (lookup (risk_key (some 12) 30) (invalidate_user_caches (some 1) caches).risk ≡ (
        if same_user (some 1) (some 12) then none else lookup (risk_key (some 12) 30) caches.risk))
invalidate_user_caches_exact_example = invalidate_user_caches_exact (some 1) (some 12) 30 caches
