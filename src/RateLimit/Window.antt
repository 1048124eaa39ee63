-- ===== src/RateLimit/Window.antt =====
-- What the limiter's dictionary holds for a client, before and after a call.
use stock_monitor.Base.{
  ℕ, ◌≤◌, ◌≡◌, refl, Bool, true, false, not, List, [], ◌∷◌, ◌++◌, arith, ◌==◌, filter, All, inl,
  inr, Bool-cases, All-append, All-filter, sym,
}
use stock_monitor.RateLimit.{Calls, get, put, is_stale, prune, is_recent, recent}

-- The keys of a dictionary are distinct.
abbrev pub Absent : ℕ → Calls → Type 0
Absent k [] = Unit
Absent k ((j, ts) ∷ d) = ((j == k) ≡ false) × Absent k d

abbrev pub IsDict : Calls → Type 0
IsDict [] = Unit
IsDict ((k, ts) ∷ d) = Absent k d × IsDict d

-- Timestamps in the order of time, none after `now`.
abbrev pub Ordered : List ℕ → ℕ → Type 0
Ordered [] now = Unit
Ordered (t ∷ ts) now = (t ≤ now) × All (λ u. t ≤ u) ts × Ordered ts now

pub get-put_self : (k : ℕ) (ts : List ℕ) (d : Calls) → get k (put k ts d) ≡ ts
unfolding get put
get-put_self k ts [] = ground arith
get-put_self k ts ((j, us) ∷ d) = ground (arith, get-put_self k ts d)

pub get-put_ne :
    (k j : ℕ) (ts : List ℕ) (d : Calls) → (j == k) ≡ false → get j (put k ts d) ≡ get j d
unfolding get put
get-put_ne k j ts [] h = ground arith
get-put_ne k j ts ((i, us) ∷ d) h = ground (arith, get-put_ne k j ts d h)

get-Absent : (k : ℕ) (d : Calls) → Absent k d → get k d ≡ []
unfolding get
get-Absent k [] a = refl
get-Absent k ((j, ts) ∷ d) a = rw a.0 (get-Absent k d a.1)

Absent-filter : (p : ℕ × List ℕ → Bool) (k : ℕ) (d : Calls) → Absent k d → Absent k (filter p d)
Absent-filter p k [] a = tt
Absent-filter p k (e ∷ d) a = elim (Bool-cases (p e)) [
  | inl h ↦ rw h (a.0, Absent-filter p k d a.1)
  | inr h ↦ rw h (Absent-filter p k d a.1)
]

pub prune-IsDict : (now : ℕ) (d : Calls) → IsDict d → IsDict (prune now d)
unfolding prune
prune-IsDict now [] h = tt
prune-IsDict now ((k, ts) ∷ d) h = elim (Bool-cases (is_stale now ts)) [
  | inl e ↦ rw e (prune-IsDict now d h.1)
  | inr e ↦ rw e (Absent-filter (λ (j, us). not (is_stale now us)) k d h.0, prune-IsDict now d h.1)
]

Absent-put :
    (k j : ℕ) (ts : List ℕ) (d : Calls) → (k == j) ≡ false → Absent j d → Absent j (put k ts d)
unfolding put
Absent-put k j ts [] h a = (h, tt)
Absent-put k j ts ((i, us) ∷ d) h a = elim (Bool-cases (i == k)) [
  | inl e ↦ rw e a
  | inr e ↦ rw e (a.0, Absent-put k j ts d h a.1)
]

pub put-IsDict : (k : ℕ) (ts : List ℕ) (d : Calls) → IsDict d → IsDict (put k ts d)
unfolding put
put-IsDict k ts [] h = (tt, tt)
put-IsDict k ts ((i, us) ∷ d) h = elim (Bool-cases (i == k)) [
  | inl e ↦ rw e h
  | inr e ↦ rw e (Absent-put k i ts d (ground arith) h.0, put-IsDict k ts d h.1)
]

-- What is stale holds no recent timestamp.
stale_recent :
    (now : ℕ) (ts : List ℕ) → Ordered ts now → is_stale now ts ≡ true → recent now ts ≡ []
unfolding is_stale
stale_recent now [] o e = refl
stale_recent now (t ∷ []) o e = ground (arith, e)
stale_recent now (t ∷ u ∷ ts) o e =
    let ih : recent now (u ∷ ts) ≡ [] = stale_recent now (u ∷ ts) o.2 e in
    let old : is_recent now u ≡ false = ground (arith, ih) in ground (arith, ih, old, o.1.0)

-- Pruning loses no recent timestamp.
pub recent-get-prune :
    (client now : ℕ) (d : Calls)
    → IsDict d
    → Ordered (get client d) now
    → recent now (get client (prune now d)) ≡ recent now (get client d)
unfolding get prune
recent-get-prune client now [] h o = refl
recent-get-prune client now ((k, ts) ∷ d) h o = elim (Bool-cases (k == client)) [
  | inl e ↦
      let same : k ≡ client = ground (arith, e) in
      let none_left : get client (prune now d) ≡ [] =
        get-Absent client (prune now d)
          (Absent-filter (λ (j, us). not (is_stale now us)) client d (rw same at h.0)) in
      let ordered : Ordered ts now = rw (e, get) at o in
      elim (Bool-cases (is_stale now ts)) [
        | inl b ↦ rw (b, e) (rw none_left (sym (stale_recent now ts ordered b)))
        | inr b ↦ rw (b, e)
      ]
  | inr e ↦
      let ih = recent-get-prune client now d h.1 (rw (e, get) at o) in
      elim (Bool-cases (is_stale now ts)) [ inl b ↦ rw (b, e) ih | inr b ↦ rw (b, e) ih ]
]

pub recent-recent :
    (now later : ℕ) (ts : List ℕ) → now ≤ later → recent later (recent now ts) ≡ recent later ts
recent-recent now later [] h = refl
recent-recent now later (t ∷ ts) h = ground (arith, recent-recent now later ts h)

pub recent-append :
    (now : ℕ) (ts us : List ℕ) → recent now (ts ++ us) ≡ recent now ts ++ recent now us
recent-append now [] us = refl
recent-append now (t ∷ ts) us = ground (arith, recent-append now ts us)

pub Ordered-later : (now later : ℕ) (ts : List ℕ) → now ≤ later → Ordered ts now → Ordered ts later
Ordered-later now later [] h o = tt
Ordered-later now later (t ∷ ts) h o = (omega arith, o.1, Ordered-later now later ts h o.2)

pub Ordered-filter : (now at : ℕ) (ts : List ℕ) → Ordered ts now → Ordered (recent at ts) now
Ordered-filter now at [] o = tt
Ordered-filter now at (t ∷ ts) o = elim (Bool-cases (is_recent at t)) [
  | inl e ↦ rw e (o.0, All-filter (λ u. t ≤ u) (is_recent at) ts o.1, Ordered-filter now at ts o.2)
  | inr e ↦ rw e (Ordered-filter now at ts o.2)
]

pub Ordered-append : (now : ℕ) (ts : List ℕ) → Ordered ts now → Ordered (ts ++ now ∷ []) now
Ordered-append now [] o = (omega arith, tt, tt)
Ordered-append now (t ∷ ts) o =
    (o.0, All-append (λ u. t ≤ u) ts (now ∷ []) o.1 (o.0, tt), Ordered-append now ts o.2)

pub Ordered-get-prune :
    (client now at : ℕ) (d : Calls)
    → IsDict d
    → Ordered (get client d) now
    → Ordered (get client (prune at d)) now
unfolding get prune
Ordered-get-prune client now at [] h o = tt
Ordered-get-prune client now at ((k, ts) ∷ d) h o = elim (Bool-cases (k == client)) [
  | inl e ↦
      let same : k ≡ client = ground (arith, e) in
      let none_left : get client (prune at d) ≡ [] =
        get-Absent client (prune at d)
          (Absent-filter (λ (j, us). not (is_stale at us)) client d (rw same at h.0)) in
      elim (Bool-cases (is_stale at ts)) [
        | inl b ↦ rw b (rw none_left tt)
        | inr b ↦ rw b (rw e (rw (e, get) at o))
      ]
  | inr e ↦
      let ih = Ordered-get-prune client now at d h.1 (rw (e, get) at o) in
      elim (Bool-cases (is_stale at ts)) [ inl b ↦ rw b ih | inr b ↦ rw b (rw e ih) ]
]
