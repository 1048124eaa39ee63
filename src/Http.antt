-- ===== src/Http.antt =====
-- What a request handler of backend/routers returns: a body, or an HTTPException with its status
-- code. The texts of the error messages are not modelled.
use stock_monitor.Base.{ℕ, ◌≡◌, refl, Bool, true, false, Option, none, some, if◌then◌else◌}

pub data Reply (A : Type 0) : Type 0 where
  ok : A → Reply A
  fail : ℕ → Reply A

infixl 5 ◌>>=◌ ◌>>◌
abbrev pub ◌>>=◌ : {A B : Type 0} → Reply A → (A → Reply B) → Reply B
ok a >>= k = k a
fail c >>= k = fail c

abbrev pub ◌>>◌ : {B : Type 0} → Reply (Unit {0}) → Reply B → Reply B
m >> k = m >>= λ _. k

-- `if test: raise HTTPException(status)`
abbrev pub fail_if : Bool → ℕ → Reply (Unit {0})
fail_if true c = fail c
fail_if false c = ok tt

abbrev pub or_fail : {A : Type 0} → Option A → ℕ → Reply A
or_fail none c = fail c
or_fail (some a) c = ok a

abbrev pub is_ok : {A : Type 0} → Reply A → Bool
is_ok (ok a) = true
is_ok (fail c) = false

-- What a successful reply carries satisfies `P`.
abbrev pub Returns : {A : Type 0} → (A → Type 0) → Reply A → Type 0
Returns P (ok a) = P a
Returns P (fail c) = Unit

-- A property of each branch's reply is one of the whole.
pub Returns-if :
    {A : Type 0} (P : A → Type 0) (b : Bool) (m n : Reply A)
    → Returns P m
    → Returns P n
    → Returns P (if b then m else n)
Returns-if P true m n hm hn = hm
Returns-if P false m n hm hn = hn

pub Returns-bind :
    {A B : Type 0} (P : B → Type 0) (m : Reply A) (k : A → Reply B)
    → ((a : A) → m ≡ ok a → Returns P (k a))
    → Returns P (m >>= k)
Returns-bind P (ok a) k h = h a refl
Returns-bind P (fail c) k h = tt

pub Returns-then :
    {A B : Type 0} (P : B → Type 0) (Q : A → Type 0) (m : Reply A) (k : A → Reply B)
    → Returns Q m
    → ((a : A) → Q a → Returns P (k a))
    → Returns P (m >>= k)
Returns-then P Q (ok a) k q h = h a q
Returns-then P Q (fail c) k q h = tt

-- A successful chain: its first step succeeded, and so did the rest.
pub bind-eq-ok :
    {A B : Type 0} (m : Reply A) (k : A → Reply B) {b : B}
    → (m >>= k) ≡ ok b
    → (a : A) × (m ≡ ok a) × (k a ≡ ok b)
bind-eq-ok (ok a) k h = (a, refl, h)
bind-eq-ok (fail c) k h = cc

-- Behind a guard its test has failed.
pub Returns-guard :
    {B : Type 0} (P : B → Type 0) (b : Bool) (c : ℕ) (k : Unit {0} → Reply B)
    → (b ≡ false → Returns P (k tt))
    → Returns P (fail_if b c >>= k)
Returns-guard P true c k h = tt
Returns-guard P false c k h = h refl
