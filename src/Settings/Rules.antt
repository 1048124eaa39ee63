-- ===== src/Settings/Rules.antt =====
-- The rules that the requests leave.
use stock_monitor.Base.{
  ◌==◌, ℕ, ◌≡◌, true, false, not, none, some, List, [], ◌∷◌, find, All, All-append, All-filter, inl,
  inr, Bool-cases, Option-cases,
}
use stock_monitor.Base.Text.{Text}
use stock_monitor.Float.{Float, le, lt, zero}
use stock_monitor.Float.Laws.{IsMonotone, IsTotal}
use stock_monitor.Http.{Reply, ok, fail, Returns, Returns-then, Returns-bind}
use stock_monitor.Market.{Info}
use stock_monitor.Portfolio.{Stock, CurrentUser, can_access}
use stock_monitor.Alerting.{AlertRule}
use stock_monitor.Watchlist.{or_old}
use stock_monitor.Settings.Alerts.{
  AlertRuleCreate, RuleDb, direction_of, is_direction, checked, rule_stock_id, add_rule,
  create_alert, is_rule, delete_alert, new_rule, active_or,
}

pub data RuleRequest (N : Type 0) : Type 0 where
  create : CurrentUser → AlertRuleCreate N → (Text → Info) → List Stock → RuleRequest N
  delete : CurrentUser → ℕ → RuleRequest N

module _ {N : Type 0} ⦃f : Float N⦄ where
  unfoldable pub serve : RuleRequest N → RuleDb N → RuleDb N
  serve (create user rule info race) db = (create_alert user rule info race db).1
  serve (delete user id) db = (delete_alert user id db).1

  unfoldable pub serve_all : List (RuleRequest N) → RuleDb N → RuleDb N
  unfolding serve
  serve_all [] db = db
  serve_all (r ∷ rs) db = serve_all rs (serve r db)

  -- A threshold, if one is sent, is a number: NaN is no order relation's member.
  abbrev pub SendsNumber : RuleRequest N → Type 0
  SendsNumber (create user rule info race) = elim (or_old rule.threshold_percent rule.threshold) [
    | none ↦ Unit
    | some x ↦ le x x ≡ true
  ]
  SendsNumber (delete user id) = Unit

  -- A rule that the alerting can use: its threshold is above zero, and its direction is UP, DOWN or
  -- BOTH.
  abbrev pub IsReady : AlertRule N → Type 0
  IsReady r =
      elim r.threshold_percent as (λ o. Type 0) [ none ↦ ⊥ | some x ↦ lt zero x ≡ true ]
      × elim r.direction as (λ d. Type 0) [ none ↦ ⊥ | some d ↦ is_direction d ≡ true ]

  reply-IsReady :
      (m : Reply (ℕ × RuleDb N)) (db : RuleDb N)
      → Returns (λ (id, left). All IsReady left.rules) m
      → All IsReady db.rules
      → All IsReady
          (elim m as (λ r. Reply ℕ × RuleDb N) [
            | fail c ↦ (fail c, db)
            | ok (id, left) ↦ (ok id, left)
          ]).1.rules
  reply-IsReady (fail c) db q h = h
  reply-IsReady (ok (id, left)) db q h = q

  module _ (total : IsTotal f) (mono : IsMonotone f) where
    above_zero : (x : N) → le x x ≡ true → le x zero ≡ false → lt zero x ≡ true
    above_zero x n h = elim (Bool-cases (lt zero x)) [
      | inl e ↦ e
      | inr e ↦ let k = total.le_of_not_lt zero x mono.zero_self n e in cc
    ]

    checked_sound :
        (rule : AlertRuleCreate N) (x : N)
        → or_old rule.threshold_percent rule.threshold ≡ some x
        → le x x ≡ true
        → Returns (λ (t, d). (lt zero t ≡ true) × (is_direction d ≡ true)) (checked rule)
    unfolding checked
    checked_sound rule x e n = elim (Bool-cases (le x zero)) [
      | inl low ↦ rw (e, low) tt
      | inr high ↦ elim (Bool-cases (is_direction (direction_of rule.direction))) [
        | inl d ↦ rw (e, high, d) (above_zero x n high, d)
        | inr d ↦ rw (e, high, d) tt
      ]
    ]

    checked-IsReady :
        (rule : AlertRuleCreate N)
        → elim (or_old rule.threshold_percent rule.threshold) as (λ o. Type 0) [
          | none ↦ Unit
          | some x ↦ le x x ≡ true
        ]
        → Returns (λ (t, d). (lt zero t ≡ true) × (is_direction d ≡ true)) (checked rule)
    unfolding checked
    checked-IsReady rule n = elim (Option-cases (or_old rule.threshold_percent rule.threshold)) [
      | inl e ↦ rw (checked, e) tt
      | inr (x, e) ↦ let k : le x x ≡ true = rw e at n in checked_sound rule x e k
    ]

    add_rule-IsReady :
        (user : CurrentUser) (rule : AlertRuleCreate N) (info : Text → Info) (race : List Stock)
        (db : RuleDb N)
        → Returns (λ (t, d). (lt zero t ≡ true) × (is_direction d ≡ true)) (checked rule)
        → All IsReady db.rules
        → Returns (λ (id, left). All IsReady left.rules) (add_rule user rule info race db)
    unfolding add_rule
    add_rule-IsReady user rule info race db c h =
        Returns-then (λ (id, left). All IsReady left.rules)
          (λ (t, d). (lt zero t ≡ true) × (is_direction d ≡ true)) (checked rule) _ c
          (λ (t, d) q.
            Returns-bind (λ (id, left). All IsReady left.rules)
              (rule_stock_id rule info race db.stocks) _
              (λ stock e. elim (Option-cases (find (λ (s : Stock). s.id == stock.0) stock.1)) [
                | inl n ↦ rw n tt
                | inr (s, n) ↦ rw n (
                    All-append IsReady db.rules
                      (new_rule user.id stock.0 t d (active_or rule.active) db.rules ∷ []) h
                      (q, tt))
              ]))

    serve-IsReady :
        (r : RuleRequest N) (db : RuleDb N)
        → SendsNumber r
        → All IsReady db.rules
        → All IsReady (serve r db).rules
    unfolding serve create_alert delete_alert
    serve-IsReady (create user rule info race) db n h =
        let q = add_rule-IsReady user rule info race db (checked-IsReady rule n) h in
        reply-IsReady (add_rule user rule info race db) db q h
    serve-IsReady (delete user id) db n h = elim (Option-cases (find (is_rule id) db.rules)) [
      | inl e ↦ rw (serve, delete_alert, e) h
      | inr (r, e) ↦ elim (Bool-cases (can_access r.user_id user)) [
        | inl a ↦
            rw (serve, delete_alert, e, a) (All-filter IsReady (λ r. not (is_rule id r)) db.rules h)
        | inr a ↦ rw (serve, delete_alert, e, a) h
      ]
    ]

    -- Let rules be created and deleted by any requests, from a table of ready rules, each threshold
    -- that is sent being a number. Then every rule left has a threshold, which is above zero, and the
    -- direction UP, DOWN or BOTH.
    pub serve_all-IsReady :
        (rs : List (RuleRequest N)) (db : RuleDb N)
        → All SendsNumber rs
        → All IsReady db.rules
        → All IsReady (serve_all rs db).rules
    unfolding serve_all
    serve_all-IsReady [] db n h = h
    serve_all-IsReady (r ∷ rs) db n h =
        serve_all-IsReady rs (serve r db) n.1 (serve-IsReady r db n.0 h)
