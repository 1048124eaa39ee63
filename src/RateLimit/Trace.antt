-- ===== src/RateLimit/Trace.antt =====
-- A sequence of calls of the limiter, beside a limiter that keeps the whole log of each client.
use stock_monitor.Base.{
  ℕ, ◌+◌, ◌≤◌, ◌<◌, ◌≡◌, false, ◌&&◌, List, [], ◌∷◌, ◌++◌, arith, ltb, leb, ◌==◌, if◌then◌else◌,
  length, inl, inr, Bool-cases, length-filter-le, length-append, sym, ap, ◌∙◌,
}
use stock_monitor.Http.{is_ok}
use stock_monitor.RateLimit.{max_calls, Calls, get, put, prune, is_recent, recent, check_rate_limit}
use stock_monitor.RateLimit.Window.{
  IsDict, Ordered, get-put_self, get-put_ne, prune-IsDict, put-IsDict, recent-get-prune,
  recent-recent, recent-append, Ordered-later, Ordered-filter, Ordered-append, Ordered-get-prune,
}

-- A call: the client and the time.
abbrev pub Call : Type 0
Call = ℕ × ℕ

-- The times of the calls of one client that are admitted.
unfoldable pub admitted : ℕ → List Call → Calls → List ℕ
admitted client [] calls = []
admitted client ((c, now) ∷ later) calls =
    let r = check_rate_limit c now calls in
    let rest = admitted client later r.1 in if (c == client) && is_ok r.0 then now ∷ rest else rest

-- What is asked of the limiter: a call is admitted if fewer than twelve of the admitted calls of
-- the same client are less than 60 seconds old. `log` is the whole log of one client, and nothing
-- is ever dropped from it.
unfoldable pub ideal : ℕ → List Call → List ℕ → List ℕ
ideal client [] log = []
ideal client ((c, now) ∷ later) log =
    let admit = ideal client later (log ++ now ∷ []) in
    let skip = ideal client later log in
    if (c == client) && ltb (length (recent now log)) max_calls then now ∷ admit else skip

-- The clock does not go back, and `last` is after all calls.
abbrev pub InOrder : ℕ → List Call → ℕ → Type 0
InOrder before [] last = before ≤ last
InOrder before ((c, now) ∷ later) last = (before ≤ now) × InOrder now later last

-- The dictionary agrees with the log of the admitted calls of a client on what is recent.
abbrev pub Agrees : ℕ → ℕ → Calls → List ℕ → Type 0
Agrees client now calls log =
    IsDict calls
    × Ordered (get client calls) now
    × (recent now (get client calls) ≡ recent now log)
    × (length (recent now log) ≤ max_calls)

recent_agree :
    (now later : ℕ) (ts us : List ℕ)
    → now ≤ later
    → recent now ts ≡ recent now us
    → recent later ts ≡ recent later us
recent_agree now later ts us h e =
    sym (recent-recent now later ts h) ∙ ap (recent later) e ∙ recent-recent now later us h

pub recent_fewer :
    (now later : ℕ) (ts : List ℕ) → now ≤ later → length (recent later ts) ≤ length (recent now ts)
recent_fewer now later ts h =
    rw (sym (recent-recent now later ts h)) (length-filter-le (is_recent later) (recent now ts))

-- What a client's list has to be after a call.
prune-Agrees :
    (client before now : ℕ) (calls : Calls) (log : List ℕ)
    → before ≤ now
    → Agrees client before calls log
    → Agrees client now (prune now calls) log
prune-Agrees client before now calls log h a =
    let ordered = Ordered-later before now (get client calls) h a.1 in
    (
      prune-IsDict now calls a.0,
      Ordered-get-prune client now now calls a.0 ordered,
      recent-get-prune client now calls a.0 ordered
          ∙ recent_agree before now (get client calls) log h a.2,
      omega (arith, a.3, recent_fewer before now log h),
    )

refuse-Agrees :
    (client now : ℕ) (pruned : Calls) (log : List ℕ)
    → Agrees client now pruned log
    → Agrees client now (put client (recent now (get client pruned)) pruned) log
refuse-Agrees client now pruned log a =
    let ts = recent now (get client pruned) in
    (
      put-IsDict client ts pruned a.0,
      rw (get-put_self client ts pruned) (Ordered-filter now now (get client pruned) a.1),
      rw (get-put_self client ts pruned)
          (recent-recent now now (get client pruned) (omega arith) ∙ a.2),
      a.3,
    )

admit-Agrees :
    (client now : ℕ) (pruned : Calls) (log : List ℕ)
    → length (recent now (get client pruned)) < max_calls
    → Agrees client now pruned log
    → Agrees client now
        (put client (recent now (get client pruned) ++ now ∷ []) pruned)
        (log ++ now ∷ [])
admit-Agrees client now pruned log few a =
    let ts = recent now (get client pruned) in
    let same : recent now ts ≡ recent now log =
      recent-recent now now (get client pruned) (omega arith) ∙ a.2 in
    let few_now : length (recent now log) + length (recent now (now ∷ [])) ≤ max_calls =
      ground (arith, few, a.2) in
    (
      put-IsDict client (ts ++ now ∷ []) pruned a.0,
      rw (get-put_self client (ts ++ now ∷ []) pruned)
          (Ordered-append now ts (Ordered-filter now now (get client pruned) a.1)),
      rw (get-put_self client (ts ++ now ∷ []) pruned) (
          recent-append now ts (now ∷ [])
          ∙ ap (λ us. us ++ recent now (now ∷ [])) same
          ∙ sym (recent-append now log (now ∷ []))),
      rw (recent-append now log (now ∷ []))
          (rw (length-append (recent now log) (recent now (now ∷ []))) few_now),
    )

other-Agrees :
    (client c now : ℕ) (ts : List ℕ) (pruned : Calls) (log : List ℕ)
    → (client == c) ≡ false
    → Agrees client now pruned log
    → Agrees client now (put c ts pruned) log
other-Agrees client c now ts pruned log ne a = (
  put-IsDict c ts pruned a.0,
  rw (get-put_ne c client ts pruned ne) a.1,
  rw (get-put_ne c client ts pruned ne) a.2,
  a.3,
)

pub check_other :
    (client c before now : ℕ) (calls : Calls) (log : List ℕ)
    → before ≤ now
    → (client == c) ≡ false
    → Agrees client before calls log
    → Agrees client now (check_rate_limit c now calls).1 log
unfolding check_rate_limit
check_other client c before now calls log h ne a =
    let pruned = prune now calls in
    let ts = recent now (get c pruned) in
    let ok_pruned = prune-Agrees client before now calls log h a in
    elim (Bool-cases (leb max_calls (length ts))) [
      | inl full ↦ rw full (other-Agrees client c now ts pruned log ne ok_pruned)
      | inr room ↦ rw room (other-Agrees client c now (ts ++ now ∷ []) pruned log ne ok_pruned)
    ]

pub check_own :
    (client before now : ℕ) (calls : Calls) (log : List ℕ)
    → before ≤ now
    → Agrees client before calls log
    → Agrees client now
        (check_rate_limit client now calls).1
        (if is_ok (check_rate_limit client now calls).0 then log ++ now ∷ [] else log)
unfolding check_rate_limit
check_own client before now calls log h a =
    let pruned = prune now calls in
    let ts = recent now (get client pruned) in
    let ok_pruned = prune-Agrees client before now calls log h a in
    elim (Bool-cases (leb max_calls (length ts))) [
      | inl full ↦ rw full (refuse-Agrees client now pruned log ok_pruned)
      | inr room ↦ rw room (admit-Agrees client now pruned log (ground (arith, room)) ok_pruned)
    ]

-- The limiter decides as its whole log would.
pub check_decision :
    (client before now : ℕ) (calls : Calls) (log : List ℕ)
    → before ≤ now
    → Agrees client before calls log
    → is_ok (check_rate_limit client now calls).0 ≡ ltb (length (recent now log)) max_calls
unfolding check_rate_limit
check_decision client before now calls log h a =
    let ok_pruned = prune-Agrees client before now calls log h a in
    let same : length (recent now (get client (prune now calls))) ≡ length (recent now log) =
      ap length ok_pruned.2 in
    ground (arith, same)
