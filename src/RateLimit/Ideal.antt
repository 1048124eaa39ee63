-- ===== src/RateLimit/Ideal.antt =====
-- The limiter against one that forgets nothing: it decides every call alike, and so admits at most
-- twelve calls of a client in any 60 seconds.
use mathlib.Core.Path.{subst}
use mathlib.Core.List.{append-nil}
use stock_monitor.Base.{
  ℕ, ◌≤◌, ◌<◌, ◌≡◌, refl, Bool, true, false, ◌&&◌, List, [], ◌∷◌, ◌++◌, arith, ltb, ◌==◌,
  if◌then◌else◌, length, inl, inr, Bool-cases, length-append,
}
use stock_monitor.Http.{is_ok}
use stock_monitor.RateLimit.{max_calls, Calls, get, recent, check_rate_limit}
use stock_monitor.RateLimit.Window.{recent-append}
use stock_monitor.RateLimit.Trace.{
  Call, admitted, ideal, InOrder, Agrees, recent_fewer, check_other, check_own, check_decision,
}

append_one : (log : List ℕ) (t : ℕ) (ts : List ℕ) → log ++ t ∷ ts ≡ (log ++ t ∷ []) ++ ts
append_one [] t ts = refl
append_one (u ∷ log) t ts = rw (append_one log t ts) refl

module _ (client before now : ℕ) (later : List Call) (calls : Calls) (log : List ℕ)
    (h : before ≤ now) (a : Agrees client before calls log) where
  abbrev next : Calls
  next = (check_rate_limit client now calls).1

  log_after : Bool → List ℕ
  log_after b = if b then log ++ now ∷ [] else log

  own_next :
      (b : Bool)
      → is_ok (check_rate_limit client now calls).0 ≡ b
      → Agrees client now next (log_after b)
  unfolding log_after
  own_next b o = rw o at (check_own client before now calls log h a)

  admitted-ideal_own :
      ((ls : List ℕ)
        → Agrees client now next ls
        → admitted client later next ≡ ideal client later ls)
      → admitted client ((client, now) ∷ later) calls ≡ ideal client ((client, now) ∷ later) log
  unfolding admitted ideal log_after
  admitted-ideal_own ih =
      let decision = check_decision client before now calls log h a in
      elim (Bool-cases (is_ok (check_rate_limit client now calls).0)) [
        | inl o ↦ ground (arith, decision, o, ih (log ++ now ∷ []) (own_next true o))
        | inr o ↦ ground (arith, decision, o, ih log (own_next false o))
      ]

-- From any dictionary that agrees with the log, the limiter admits what the whole log would.
admitted-ideal :
    (client before last : ℕ) (trace : List Call) (calls : Calls) (log : List ℕ)
    → InOrder before trace last
    → Agrees client before calls log
    → admitted client trace calls ≡ ideal client trace log
unfolding admitted ideal
admitted-ideal client before last [] calls log h a = refl
admitted-ideal client before last ((c, now) ∷ later) calls log h a =
    elim (Bool-cases (c == client)) [
      | inl e ↦
          let same : client ≡ c = ground (arith, e) in
          subst
            (λ d. admitted client ((d, now) ∷ later) calls ≡ ideal client ((d, now) ∷ later) log)
            same
            (admitted-ideal_own client before now later calls log h.0 a (λ ls.
              admitted-ideal client now last later (check_rate_limit client now calls).1 ls h.1))
      | inr e ↦ rw e (
          admitted-ideal client now last later (check_rate_limit c now calls).1 log h.1
            (check_other client c before now calls log h.0 (ground (arith, e)) a))
    ]

-- Starting with an empty dictionary, and with a clock that does not go back, the limiter admits of
-- any sequence of calls, for each client, exactly the calls that the limiter with the whole log
-- admits: pruning keys and dropping old timestamps changes no decision.
pub admitted-eq-ideal :
    (client last : ℕ) (trace : List Call)
    → InOrder 0 trace last
    → admitted client trace [] ≡ ideal client trace []
unfolding get
admitted-eq-ideal client last trace h =
    admitted-ideal client 0 last trace [] [] h (tt, tt, refl, omega arith)

one_more :
    (now : ℕ) (log : List ℕ)
    → length (recent now log) < max_calls
    → length (recent now (log ++ now ∷ [])) ≤ max_calls
one_more now log h =
    rw (recent-append now log (now ∷ []))
      (rw (length-append (recent now log) (recent now (now ∷ []))) (ground (arith, h)))

ideal_few :
    (client before last : ℕ) (trace : List Call) (log : List ℕ)
    → InOrder before trace last
    → length (recent before log) ≤ max_calls
    → length (recent last (log ++ ideal client trace log)) ≤ max_calls
unfolding ideal
ideal_few client before last [] log h few =
    rw append-nil (omega (arith, few, recent_fewer before last log h))
ideal_few client before last ((c, now) ∷ later) log h few =
    let fewer = recent_fewer before now log h.0 in
    let skip = ideal_few client now last later log h.1 (omega (arith, few, fewer)) in
    elim (Bool-cases ((c == client) && ltb (length (recent now log)) max_calls)) [
      | inl e ↦
          rw (e, append_one log now (ideal client later (log ++ now ∷ [])))
            (ideal_few client now last later (log ++ now ∷ []) h.1
              (one_more now log (ground (arith, e))))
      | inr e ↦ rw e skip
    ]

-- At any moment, at most twelve of the calls of a client that were admitted so far are less than 60
-- seconds old.
pub admitted_bounded :
    (client last : ℕ) (trace : List Call)
    → InOrder 0 trace last
    → length (recent last (admitted client trace [])) ≤ max_calls
admitted_bounded client last trace h =
    rw (admitted-eq-ideal client last trace h) (ideal_few client 0 last trace [] h (omega arith))
