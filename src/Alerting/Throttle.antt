-- ===== src/Alerting/Throttle.antt =====
-- The throttle: how far apart two messages of one rule, item or position are.
use mathlib.Core.Path.{sym, subst}
use stock_monitor.Base.{
  ℕ, zero, suc, ◌+◌, ◌≤◌, ◌≡◌, ◌⊎◌, refl, Bool, true, false, Option, none, some, List, [], ◌∷◌,
  arith, if◌then◌else◌, any, All, inl, inr, Bool-cases, Option-cases,
}
use stock_monitor.Base.Text.{Text}
use stock_monitor.Float.{Float}
use stock_monitor.Portfolio.{Stock}
use stock_monitor.Alerting.{
  Key, rule_key, item_key, holding_key, key_eq, pause, Times, set_time, evict, is_throttled, Alert,
  Check, Watched, Entry, resolve_admin_user_id,
}
use stock_monitor.Alerting.Run.{
  settle_check, perform, valid_keys, run_over, run_user, check_alerts, stocks_of, tickers,
  checks_of, prices_map,
}

key_eq_refl : (k : Key) → key_eq k k ≡ true
key_eq_refl (rule_key a) = ground arith
key_eq_refl (item_key a) = ground arith
key_eq_refl (holding_key a) = ground arith

key_eq_sound : (j k : Key) → key_eq j k ≡ true → j ≡ k
key_eq_sound (rule_key a) (rule_key b) h = let e : a ≡ b = ground (arith, h) in rw e refl
key_eq_sound (item_key a) (item_key b) h = let e : a ≡ b = ground (arith, h) in rw e refl
key_eq_sound (holding_key a) (holding_key b) h = let e : a ≡ b = ground (arith, h) in rw e refl
key_eq_sound (rule_key a) (item_key b) h = absurd (ground (arith, h))
key_eq_sound (rule_key a) (holding_key b) h = absurd (ground (arith, h))
key_eq_sound (item_key a) (rule_key b) h = absurd (ground (arith, h))
key_eq_sound (item_key a) (holding_key b) h = absurd (ground (arith, h))
key_eq_sound (holding_key a) (rule_key b) h = absurd (ground (arith, h))
key_eq_sound (holding_key a) (item_key b) h = absurd (ground (arith, h))

-- The pause since the last time, if there was one, is over.
abbrev pub IsDue : Key → ℕ → Option ℕ → Type 0
IsDue k now none = Unit
IsDue k now (some t) = t + pause k ≤ now

-- Each time is due behind the one before it, the first behind the one given.
abbrev pub IsSpaced : Key → Option ℕ → List ℕ → Type 0
IsSpaced k o [] = Unit
IsSpaced k o (t ∷ ts) = IsDue k t o × IsSpaced k (some t) ts

due : (k : Key) (now : ℕ) (o : Option ℕ) → is_throttled (pause k) now o ≡ false → IsDue k now o
due k now none h = tt
due (rule_key a) now (some t) h = ground (arith, h)
due (item_key a) now (some t) h = ground (arith, h)
due (holding_key a) now (some t) h = ground (arith, h)

throttled_now : (k : Key) (now : ℕ) → is_throttled (pause k) now (some now) ≡ true
throttled_now (rule_key a) now = ground arith
throttled_now (item_key a) now = ground arith
throttled_now (holding_key a) now = ground arith

set_time_same :
    (k j : Key) (now : ℕ) (times : Times) → key_eq k j ≡ true → set_time j now times k ≡ some now
unfolding set_time
set_time_same k j now times e = rw e refl

set_time_other :
    (k j : Key) (now : ℕ) (times : Times) → key_eq k j ≡ false → set_time j now times k ≡ times k
unfolding set_time
set_time_other k j now times e = rw e refl

not_due_now : (k : Key) (now : ℕ) → IsDue k now (some now) → ⊥
not_due_now (rule_key a) now h = absurd (omega (arith, h))
not_due_now (item_key a) now h = absurd (omega (arith, h))
not_due_now (holding_key a) now h = absurd (omega (arith, h))

module _ {N : Type 0} where
  -- How many messages of a run stand under a key.
  abbrev pub count_of : Key → List (Key × Alert N) → ℕ
  count_of k [] = 0
  count_of k ((j, a) ∷ log) = if key_eq k j then suc (count_of k log) else count_of k log

  -- A run sends nothing under the key and keeps its time, or sends one message, at a time when it
  -- is due, and records that time.
  abbrev pub IsPaced : Key → ℕ → Option ℕ → Times × List (Key × Alert N) → Type 0
  IsPaced k now o (times, log) =
      ((count_of k log ≡ 0) × (times k ≡ o))
      ⊎ ((count_of k log ≡ 1) × (times k ≡ some now) × IsDue k now o)

  pub settle_cases :
      (now : ℕ) (c : Check N) (times : Times)
      → (settle_check now c times ≡ (times, []))
        ⊎ ((a : Alert N) × (c.alert ≡ some a)
            × (settle_check now c times ≡ (set_time c.key now times, (c.key, a) ∷ []))
            × (is_throttled (pause c.key) now (times c.key) ≡ false))
  unfolding settle_check
  settle_cases now c times = elim (Option-cases c.alert) [
    | inl e ↦ inl (rw (e, settle_check) refl)
    | inr (a, e) ↦ elim (Bool-cases (is_throttled (pause c.key) now (times c.key))) [
      | inl t ↦ inl (rw (e, t, settle_check) refl)
      | inr t ↦ inr (a, e, rw (e, t, settle_check) refl, t)
    ]
  ]

  -- A message, and then the rest of the run.
  message-IsPaced :
      (k j : Key) (now : ℕ) (times : Times) (a : Alert N) (rest : Times × List (Key × Alert N))
      → is_throttled (pause j) now (times j) ≡ false
      → IsPaced k now (set_time j now times k) rest
      → IsPaced k now (times k) (rest.0, (j, a) ∷ rest.1)
  message-IsPaced k j now times a rest t h = elim (Bool-cases (key_eq k j)) [
    | inl e ↦
        let same = key_eq_sound k j e in
        let h' : IsPaced k now (some now) rest = rw (set_time_same k j now times e) at h in
        let d : IsDue k now (times k) = due k now (times k) (rw same t) in
        rw e (elim h' [
          | inl (n, l) ↦ inr (rw n refl, l, d)
          | inr (n, l, d') ↦ absurd (not_due_now k now d')
        ])
    | inr e ↦ rw (e, sym (set_time_other k j now times e)) h
  ]

  perform-IsPaced :
      (k : Key) (now : ℕ) (cs : List (Check N)) (times : Times)
      → IsPaced k now (times k) (perform now cs times)
  unfolding perform
  perform-IsPaced k now [] times = inl (refl, refl)
  perform-IsPaced k now (c ∷ cs) times = elim (settle_cases now c times) [
    | inl e ↦ rw (e, perform) (perform-IsPaced k now cs times)
    | inr (a, s, e, t) ↦
        rw (e, perform)
          (message-IsPaced k c.key now times a (perform now cs (set_time c.key now times)) t
            (perform-IsPaced k now cs (set_time c.key now times)))
  ]

kept_time :
    (k : Key) (valid : List Key) (times : Times)
    → any (key_eq k) valid ≡ true
    → evict valid times k ≡ times k
unfolding evict
kept_time k valid times h = rw h refl

abbrev pub repeated : ℕ → ℕ → List ℕ → List ℕ
repeated zero now rest = rest
repeated (suc n) now rest = now ∷ repeated n now rest

-- A run: what it is given and what it reads.
pub record Turn (N : Type 0) : Type 0 where
  pub is_open : Bool
  pub admin_name : Text
  pub fetch : List Text → Text → Option (Entry N)
  pub now : ℕ
  pub db : Watched N

module _ {N : Type 0} ⦃f : Float N⦄ where
  abbrev pub turn : Turn N → Times → Times × List (Key × Alert N)
  turn t = check_alerts t.is_open t.admin_name t.fetch t.now t.db

  -- The rule, item or position of the key is among those that the run looks at, if it looks.
  abbrev pub Stays : Key → Turn N → Type 0
  Stays k t =
      (user : ℕ)
      → resolve_admin_user_id t.admin_name t.db.users ≡ some user
      → any (key_eq k) (valid_keys user t.db) ≡ true

  run_over-IsPaced :
      (k : Key) (fetch : List Text → Text → Option (Entry N)) (user now : ℕ) (db : Watched N)
      (ss : List Stock) (times : Times)
      → IsPaced k now (times k) (run_over fetch user now db ss times)
  unfolding run_over
  run_over-IsPaced k fetch user now db [] times = inl (refl, refl)
  run_over-IsPaced k fetch user now db (s ∷ ss) times =
      let batch = fetch (tickers (s ∷ ss)) in
      perform-IsPaced k now (checks_of user db (prices_map db.prices (s ∷ ss) batch)) times

  run_user-IsPaced :
      (k : Key) (fetch : List Text → Text → Option (Entry N)) (user now : ℕ) (db : Watched N)
      (times : Times)
      → any (key_eq k) (valid_keys user db) ≡ true
      → IsPaced k now (times k) (run_user fetch user now db times)
  unfolding run_user
  run_user-IsPaced k fetch user now db times h =
      let kept = evict (valid_keys user db) times in
      subst (λ o. IsPaced k now o (run_over fetch user now db (stocks_of user db) kept))
        (kept_time k (valid_keys user db) times h)
        (run_over-IsPaced k fetch user now db (stocks_of user db) kept)

  turn-IsPaced :
      (k : Key) (t : Turn N) (times : Times) → Stays k t → IsPaced k t.now (times k) (turn t times)
  unfolding check_alerts
  turn-IsPaced k t times h = elim (Bool-cases t.is_open) [
    | inr e ↦ rw (e, check_alerts) (inl (refl, refl))
    | inl e ↦ elim (Option-cases (resolve_admin_user_id t.admin_name t.db.users)) [
      | inl u ↦ rw (e, u, check_alerts) (inl (refl, refl))
      | inr (user, u) ↦
          rw (e, u, check_alerts) (run_user-IsPaced k t.fetch user t.now t.db times (h user u))
    ]
  ]

  -- When the messages under a key are sent, over a sequence of runs.
  unfoldable pub sent_at : Key → List (Turn N) → Times → List ℕ
  sent_at k [] times = []
  sent_at k (t ∷ later) times =
      repeated (count_of k (turn t times).1) t.now (sent_at k later (turn t times).0)

  -- Over any sequence of runs that all look at a rule, an item or a position, the messages on it
  -- are at least one, two or four hours apart, in this order, and the first is as far from the
  -- time recorded before; whatever the prices, and wherever the clock goes.
  pub alerts_apart :
      (k : Key) (turns : List (Turn N)) (times : Times)
      → All (Stays k) turns
      → IsSpaced k (times k) (sent_at k turns times)
  unfolding sent_at
  alerts_apart k [] times h = tt
  alerts_apart k (t ∷ later) times h = elim (turn-IsPaced k t times h.0) [
    | inl (n, l) ↦ rw n (
        subst (λ o. IsSpaced k o (sent_at k later (turn t times).0)) l
          (alerts_apart k later (turn t times).0 h.1))
    | inr (n, l, d) ↦ rw n (
      d,
      subst (λ o. IsSpaced k o (sent_at k later (turn t times).0)) l
          (alerts_apart k later (turn t times).0 h.1),
    )
  ]
