-- ===== src/Alerting/Genuine.antt =====
-- Which prices are alerted: never those that the market service makes up.
use stock_monitor.Base.{
  ◌≡◌, ◌⊎◌, refl, Bool, true, false, not, ◌||◌, Option, none, some, List, [], ◌∷◌, arith,
  if◌then◌else◌, filter, All, inl, inr, Bool-cases, Option-cases, IsAmong, filter-at,
}
use stock_monitor.Base.Text.{Text, codes, text_eq, text_eq_refl, or_else}
use stock_monitor.Float.{Float, lt, le, zero, decimal}
use stock_monitor.Float.Laws.{IsOrder, IsMonotone, IsOpposed}
use stock_monitor.Portfolio.{Stock, Holding}
use stock_monitor.Portfolio.Ledger.{text_of}
use stock_monitor.Portfolio.Valuation.{Price}
use stock_monitor.Alerting.{AlertRule, WatchlistItem, Entry, Alert, moved, stop_loss, take_profit}
use stock_monitor.Alerting.Run.{
  last_db_price, is_missing, valid_price, replaced, prices_map, price_in, crosses, rule_check,
  item_check, holding_check, pnl_of, name_of,
}

module _ {N : Type 0} ⦃f : Float N⦄ where
  -- The entry is made of the last closes of a stock of that ticker.
  abbrev pub IsStored : List (Price N) → List Stock → Text → Entry N → Type 0
  IsStored ps [] t e = ⊥
  IsStored ps (s ∷ ss) t e =
      ((text_eq t s.ticker ≡ true) × (last_db_price ps s.id ≡ some e)) ⊎ IsStored ps ss t e

  replaced_cases :
      (ps : List (Price N)) (ss : List Stock) (m : Text → Option (Entry N)) (t : Text) (e : Entry N)
      → replaced ps ss m t ≡ some e
      → IsStored ps ss t e ⊎ ((m t ≡ some e) × All (λ s. text_eq t s.ticker ≡ false) ss)
  unfolding replaced
  replaced_cases ps [] m t e h = inr (h, tt)
  replaced_cases ps (s ∷ ss) m t e h =
      elim (replaced_cases ps ss (λ u. if text_eq u s.ticker then last_db_price ps s.id else m u) t
        e h) [
          | inl k ↦ inl (inr k)
          | inr (k, a) ↦ elim (Bool-cases (text_eq t s.ticker)) [
            | inl q ↦ let k' : last_db_price ps s.id ≡ some e = rw q at k in inl (inl (q, k'))
            | inr q ↦ let k' : m t ≡ some e = rw q at k in inr (k', (q, a))
          ]
        ]

  IsStored-filter :
      (ps : List (Price N)) (p : Stock → Bool) (ss : List Stock) (t : Text) (e : Entry N)
      → IsStored ps (filter p ss) t e
      → IsStored ps ss t e
  IsStored-filter ps p [] t e h = h
  IsStored-filter ps p (s ∷ ss) t e h = elim (Bool-cases (p s)) [
    | inl q ↦
        let h' : ((text_eq t s.ticker ≡ true) × (last_db_price ps s.id ≡ some e))
            ⊎ IsStored ps (filter p ss) t e =
          rw q at h in
        elim h' [ inl k ↦ inl k | inr k ↦ inr (IsStored-filter ps p ss t e k) ]
    | inr q ↦
        let h' : IsStored ps (filter p ss) t e = rw q at h in inr (IsStored-filter ps p ss t e h')
  ]

  -- The entry is one of the batch, with a price above zero and not marked stale.
  abbrev pub IsLive : (Text → Option (Entry N)) → Text → Entry N → Type 0
  IsLive batch t e = (batch t ≡ some e) × (valid_price e.close ≡ true) × (e.stale ≡ false)

  entry_cases :
      (ps : List (Price N)) (ss : List Stock) (batch : Text → Option (Entry N)) (s : Stock)
      (e : Entry N)
      → IsAmong s ss
      → prices_map ps ss batch s.ticker ≡ some e
      → IsStored ps ss s.ticker e ⊎ IsLive batch s.ticker e
  unfolding prices_map
  entry_cases ps ss batch s e a h =
      elim (replaced_cases ps (filter (is_missing batch) ss) batch s.ticker e h) [
        | inl k ↦ inl (IsStored-filter ps (is_missing batch) ss s.ticker e k)
        | inr (k, none_of) ↦ elim (Bool-cases (is_missing batch s)) [
          | inl q ↦ absurd (
              ground (
                arith,
                text_eq_refl s.ticker,
                filter-at (λ u. text_eq s.ticker u.ticker ≡ false) (is_missing batch) ss s none_of q
                    a,
              ))
          | inr q ↦
              let q' : (not (valid_price e.close) || e.stale) ≡ false = rw k at q in
              inr (k, ground (arith, q'), ground (arith, q'))
        ]
      ]

  -- An alert is on a price of the batch that is live, or on the last close that is stored.
  abbrev pub IsFrom : List (Price N) → List Stock → (Text → Option (Entry N)) → Text → N → Type 0
  IsFrom ps ss batch t price =
      (e : Entry N) × (price ≡ price_in (some e)) × (IsStored ps ss t e ⊎ IsLive batch t e)

  abbrev pub IsGenuine : List (Price N) → List Stock → (Text → Option (Entry N)) → Alert N → Type 0
  IsGenuine ps ss batch (moved name t change price) = IsFrom ps ss batch t price
  IsGenuine ps ss batch (stop_loss name t pnl price avg) = IsFrom ps ss batch t price
  IsGenuine ps ss batch (take_profit name t pnl price avg) = IsFrom ps ss batch t price

  module _ (ps : List (Price N)) (ss : List Stock) (batch : Text → Option (Entry N)) where
    unfoldable pub AreGenuine : Option (Alert N) → Type 0
    AreGenuine none = Unit
    AreGenuine (some a) = IsGenuine ps ss batch a

    none-AreGenuine : AreGenuine none
    unfolding AreGenuine
    none-AreGenuine = tt

    pub some-AreGenuine : (a : Alert N) → AreGenuine (some a) → IsGenuine ps ss batch a
    unfolding AreGenuine
    some-AreGenuine a h = h

    -- The alerts under a test.
    if-AreGenuine :
        (b : Bool) (a : Alert N) (o : Option (Alert N))
        → IsGenuine ps ss batch a
        → AreGenuine o
        → AreGenuine (if b then some a else o)
    unfolding AreGenuine
    if-AreGenuine true a o h k = h
    if-AreGenuine false a o h k = k

    unless-AreGenuine :
        (b : Bool) (o : Option (Alert N)) → AreGenuine o → AreGenuine (if b then none else o)
    unfolding AreGenuine
    unless-AreGenuine true o h = tt
    unless-AreGenuine false o h = h

    IsFrom-entry :
        (s : Stock) (e : Entry N)
        → IsAmong s ss
        → prices_map ps ss batch s.ticker ≡ some e
        → IsFrom ps ss batch s.ticker (price_in (some e))
    IsFrom-entry s e a h = (e, refl, entry_cases ps ss batch s e a h)

  -- The threshold of a rule is above zero, if there is one.
  abbrev pub HasThreshold : AlertRule N → Type 0
  HasThreshold r = elim r.threshold_percent [ none ↦ Unit | some x ↦ lt zero x ≡ true ]

  module _ (order : IsOrder f) (mono : IsMonotone f) (opposed : IsOpposed f) where
    le_positive : (x : N) → lt zero x ≡ true → le x zero ≡ false
    le_positive x h = elim (Bool-cases (le x zero)) [
      | inl e ↦ let k = order.not_lt_of_le x zero e in cc
      | inr e ↦ e
    ]

    -- A change of 0.0 crosses no threshold.
    no_cross : (d : Text) (x : N) → lt zero x ≡ true → crosses d zero x ≡ false
    no_cross d x h = ground (arith, le_positive x h, opposed.neg_below x h, opposed.abs_zero)

    module _ (ps : List (Price N)) (ss : List Stock) (batch : Text → Option (Entry N)) where
      abbrev m : Text → Option (Entry N)
      m = prices_map ps ss batch

      pub rule_check-AreGenuine :
          (r : AlertRule N) (s : Stock)
          → HasThreshold r
          → IsAmong s ss
          → AreGenuine ps ss batch (rule_check m (r, s)).alert
      unfolding rule_check
      rule_check-AreGenuine r s t a = elim (Option-cases r.threshold_percent) [
        | inl q ↦ rw q (none-AreGenuine ps ss batch)
        | inr (x, q) ↦
            let d = or_else (text_of r.direction) (codes "BOTH") in
            let t' : lt zero x ≡ true = rw q at t in
            elim (Option-cases (m s.ticker)) [
              | inl k ↦ rw (q, k, no_cross d x t') (none-AreGenuine ps ss batch)
              | inr (e, k) ↦
                  rw (q, k)
                    (if-AreGenuine ps ss batch _ _ none (IsFrom-entry ps ss batch s e a k)
                      (none-AreGenuine ps ss batch))
            ]
      ]

      pub item_check-AreGenuine :
          (i : WatchlistItem N) (s : Stock)
          → IsAmong s ss
          → AreGenuine ps ss batch (item_check m (i, s)).alert
      unfolding item_check
      item_check-AreGenuine i s a = elim (Option-cases (m s.ticker)) [
        | inl k ↦ rw (k, mono.zero_self) (none-AreGenuine ps ss batch)
        | inr (e, k) ↦ rw k (
            unless-AreGenuine ps ss batch _ _ (
              if-AreGenuine ps ss batch _ _ none (IsFrom-entry ps ss batch s e a k)
                (none-AreGenuine ps ss batch)))
      ]

      pub holding_check-AreGenuine :
          (h : Holding N) (s : Stock)
          → IsAmong s ss
          → AreGenuine ps ss batch (holding_check m (h, s)).alert
      unfolding holding_check
      holding_check-AreGenuine h s a = elim (Option-cases (m s.ticker)) [
        | inl k ↦ rw k (flat (le h.avg_purchase_price zero) _ _ mono.zero_self)
        | inr (e, k) ↦
            let g = IsFrom-entry ps ss batch s e a k in
            let price = price_in (some e) in
            let avg = h.avg_purchase_price in
            let pnl = pnl_of price avg in
            let gains = le (decimal 15 0) pnl in
            let profit = take_profit (name_of s) s.ticker pnl price avg in
            rw k (
              unless-AreGenuine ps ss batch _ _ (
                if-AreGenuine ps ss batch (le pnl (f.neg (decimal 8 0)))
                  (stop_loss (name_of s) s.ticker pnl price avg)
                  (if gains then some profit else none) g
                  (if-AreGenuine ps ss batch gains profit none g (none-AreGenuine ps ss batch))))
      ]
        where
          flat :
              (b c : Bool) (o : Option (Alert N))
              → c ≡ true
              → AreGenuine ps ss batch (if b || c then none else o)
          flat true c o h = none-AreGenuine ps ss batch
          flat false c o h = rw h (none-AreGenuine ps ss batch)
