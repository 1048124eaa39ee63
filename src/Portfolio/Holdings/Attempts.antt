-- ===== src/Portfolio/Holdings/Attempts.antt =====
-- What `add_holding` leaves, whatever the other sessions do between its attempts.
use mathlib.Core.Path.{subst}
use stock_monitor.Base.{
  sym, ℕ, zero, suc, ◌≡◌, refl, false, Option, none, some, List, arith, find, inl, inr, Bool-cases,
  Option-cases,
}
use stock_monitor.Float.{Float, ◌+◌, le, zero as nought}
use stock_monitor.Http.{Reply, ok, fail, Returns, Returns-bind, Returns-then}
use stock_monitor.Table.{insert, update_where, find-some}
use stock_monitor.Portfolio.{Holding, Db, CurrentUser, Commit, committed, busy, conflict}
use stock_monitor.Portfolio.Positions.{held_by, others}
use stock_monitor.Portfolio.Positions.Lookup.{
  IsValid, update-IsValid, insert-IsValid, find-update, find-insert, others-update, others-insert,
  Touches-row,
}
use stock_monitor.Portfolio.Holdings.{
  HoldingCreate, Turn, is_row, resolve_stock_id, merge_lot, new_holding, place, attempt, settle,
  attempts, add_holding, is_positive_lot,
}

module _ {N : Type 0} ⦃f : Float N⦄ where
  -- The row that the request leaves for the position that was there before.
  abbrev pub Placed : HoldingCreate N → Option (Holding N) → Holding N → Type 0
  Placed data' none h =
      (h.quantity ≡ data'.quantity)
      × (h.avg_purchase_price ≡ data'.avg_purchase_price)
      × (h.notes ≡ data'.notes)
  Placed data' (some old) h =
      (le (old.quantity + data'.quantity) nought ≡ false) × (h ≡ merge_lot data' old)

  abbrev pub PlacedIn :
      ℕ
      → HoldingCreate N
      → ℕ
      → List (Holding N)
      → Option (Holding N)
      → Holding N
      → List (Holding N)
      → Type 0
  PlacedIn user data' stock hs old h hs' =
      IsValid hs'
      × (others user hs' ≡ others user hs)
      × (find (held_by user stock) hs' ≡ some h)
      × Placed data' old h

  module _ (user : ℕ) (data' : HoldingCreate N) (today stock : ℕ) (hs : List (Holding N))
      (valid : IsValid hs) where
    merged :
        (h : Holding N)
        → find (held_by user stock) hs ≡ some h
        → le (h.quantity + data'.quantity) nought ≡ false
        → PlacedIn user data' stock hs
            (some h)
            (merge_lot data' h)
            (update_where (is_row h.id) (merge_lot data') hs)
    merged h e positive = (
      update-IsValid (is_row h.id) (merge_lot data') hs (λ g. (refl, refl, refl)) valid,
      others-update user (is_row h.id) (merge_lot data') hs (λ g. (refl, refl, refl))
          (Touches-row user stock hs h valid.keys e),
      ground (
        arith,
        find-update (held_by user stock) (is_row h.id) (merge_lot data') hs h (λ g. refl) e,
      ),
      (positive, refl),
    )

    opened :
        find (held_by user stock) hs ≡ none
        → PlacedIn user data' stock hs none
            (new_holding user data' today stock hs)
            (insert (new_holding user data' today stock hs) hs)
    opened e =
        let z = new_holding user data' today stock hs in
        (
          insert-IsValid user stock z hs refl refl refl e valid,
          others-insert user z hs (ground arith),
          find-insert (held_by user stock) z hs e (ground arith),
          (refl, refl, refl),
        )

    place-PlacedIn :
        Returns
          (λ (h, hs'). PlacedIn user data' stock hs (find (held_by user stock) hs) h hs')
          (place user data' today stock hs)
    unfolding place
    place-PlacedIn = elim (Option-cases (find (held_by user stock) hs)) [
      | inl e ↦ rw (e, place) (opened e)
      | inr (h, e) ↦ elim (Bool-cases (le (h.quantity + data'.quantity) nought)) [
        | inl t ↦ rw (e, t, place) tt
        | inr t ↦ let m = merged h e t in rw (e, t, place) (m.0, m.1, m.2, (refl, m.3.1))
      ]
    ]

  -- The database that the last of the attempts finds, with the attempts that are left at it: each one
  -- before it has ended with a conflict.
  pub data Found (env : ℕ → Turn N) : ℕ → Db N → ℕ → Db N → Type 0 where
    first : {n : ℕ} {db : Db N} → Found env n db n db
    again :
        {n m : ℕ} {db b : Db N}
        → (env (suc n)).commit ≡ conflict
        → Found env n (env (suc n)).seen m b
        → Found env (suc n) db m b

  -- A position is answered with only if the attempt has committed.
  abbrev pub IsCommitted : Commit → Reply (Holding N) × Db N → Type 0
  IsCommitted c (fail s, db') = Unit
  IsCommitted c (ok h, db') = c ≡ committed

  -- What an attempt at the database `b` has done to it, by how the request ended.
  abbrev pub Added : ℕ → HoldingCreate N → Db N → Reply (Holding N) × Db N → Type 0
  Added user data' b (fail c, db') = db' ≡ b
  Added user data' b (ok h, db') =
      PlacedIn user data' h.stock_id b.holdings (find (held_by user h.stock_id) b.holdings) h
        db'.holdings
      × (db'.transactions ≡ b.transactions)
      × (db'.targets ≡ b.targets)

  abbrev PendingRow : ℕ → HoldingCreate N → Db N → Holding N × Db N → Type 0
  PendingRow user data' b (h, db') = Added user data' b (ok h, db')

  attempt_effect :
      (user : ℕ) (data' : HoldingCreate N) (today : ℕ) (turn : Turn N) (db : Db N)
      → IsValid db.holdings
      → Returns (PendingRow user data' db) (attempt user data' today turn db)
  unfolding attempt
  attempt_effect user data' today turn db valid =
      let P = PendingRow user data' db in
      Returns-bind P (resolve_stock_id data' turn.info turn.races db.stocks) _ λ s _.
        Returns-then P
          (λ (h, hs').
            PlacedIn user data' s.0 db.holdings (find (held_by user s.0) db.holdings) h hs')
          (place user data' today s.0 db.holdings) _
          (place-PlacedIn user data' today s.0 db.holdings valid)
          (λ r k.
            let held = find-some (held_by user s.0) r.1 r.0 k.2 in
            let same : r.0.stock_id ≡ s.0 = ground (arith, held) in
            (
              subst
                  (λ i.
                    PlacedIn user data' i db.holdings (find (held_by user i) db.holdings) r.0 r.1)
                  (sym same) k,
              refl,
              refl,
            ))

  module _ (n user : ℕ) (data' : HoldingCreate N) (env : ℕ → Turn N) (db : Db N) where
    abbrev Ends : ℕ → Db N → Reply (Holding N) × Db N → Type 0
    Ends k d r =
        (m : ℕ) × (b : Db N) × Found env k d m b
        × Added user data' b r
        × IsCommitted (env m).commit r

    settle-Ends :
        (c : Commit) (m : Reply (Holding N × Db N)) (next : Reply (Holding N) × Db N)
        → (env (suc n)).commit ≡ c
        → Returns (PendingRow user data' db) m
        → Ends n (env (suc n)).seen next
        → Ends (suc n) db (settle c db m next)
    settle-Ends c (fail s) next k h e = (suc n, db, first, refl, tt)
    settle-Ends committed (ok r) next k h e = (suc n, db, first, h, k)
    settle-Ends busy (ok r) next k h e = (suc n, db, first, refl, tt)
    settle-Ends conflict (ok r) next k h e = (e.0, e.1, again k e.2, e.3, e.4)

  attempts_effect :
      (n user : ℕ) (data' : HoldingCreate N) (today : ℕ) (env : ℕ → Turn N) (db : Db N)
      → ((k : ℕ) → IsValid (env k).seen.holdings)
      → IsValid db.holdings
      → let r = attempts n user data' today env db in
        (m : ℕ) × (b : Db N) × Found env n db m b
        × Added user data' b r
        × IsCommitted (env m).commit r
  unfolding attempts
  attempts_effect zero user data' today env db others valid = (zero, db, first, refl, tt)
  attempts_effect (suc n) user data' today env db others valid =
      settle-Ends n user data' env db (env (suc n)).commit
        (attempt user data' today (env (suc n)) db) _ refl
        (attempt_effect user data' today (env (suc n)) db valid)
        (attempts_effect n user data' today env (env (suc n)).seen others (others (suc n)))

  -- Whatever the other sessions do between the attempts of `add_holding`, if the tables of holdings
  -- that it sees are valid: there is a last attempt, at the first database or, behind a conflict of
  -- every attempt before it, at the one that was visible after the rollback. The request either fails
  -- and leaves that database; or the attempt has committed, and leaves there a valid table in which
  -- the user's position in the stock is the one answered with. That is a new one with the lot of the
  -- request, or the old one merged with the lot, whose total is then not at most zero. No holding of
  -- another user, no transaction and no target changes.
  pub add_holding_effect :
      (user : CurrentUser) (data' : HoldingCreate N) (today : ℕ) (env : ℕ → Turn N) (db : Db N)
      → ((k : ℕ) → IsValid (env k).seen.holdings)
      → IsValid db.holdings
      → let r = add_holding user data' today env db in
        (m : ℕ) × (b : Db N) × Found env 3 db m b
        × Added user.id data' b r
        × IsCommitted (env m).commit r
  unfolding add_holding
  add_holding_effect user data' today env db others valid =
      elim (Bool-cases (is_positive_lot data'.quantity data'.avg_purchase_price)) [
        | inl e ↦ rw e (attempts_effect 3 user.id data' today env db others valid)
        | inr e ↦ rw e (3, db, first, refl, tt)
      ]
