-- ===== src/Base/Lists.antt =====
-- Lists measured by native numbers, searches by Boolean tests, and predicates over all elements.
use Prim.Native.Nat.{ℕ, zero, suc, ◌+◌, ◌≤◌}
use mathlib.Core.Path.{◌≡◌, refl, sym, subst}
use mathlib.Core.Logic.{◌⊎◌, inl, inr}
use mathlib.Core.Bool.{Bool, true, false, ◌||◌}
use mathlib.Core.Option.{Option, none, some}
use mathlib.Core.List.{List, [], ◌∷◌, ◌++◌}
use native.Mathlib.Omega.{arith}
use stock_monitor.Base.Tests.{if◌then◌else◌, Bool-cases}

module _ {ℓ} {A : Type ℓ} where
  abbrev pub length : List A → ℕ
  length [] = 0
  length (x ∷ xs) = suc (length xs)

  abbrev pub take : ℕ → List A → List A
  take zero xs = []
  take (suc n) [] = []
  take (suc n) (x ∷ xs) = x ∷ take n xs

  abbrev pub drop : ℕ → List A → List A
  drop zero xs = xs
  drop (suc n) [] = []
  drop (suc n) (x ∷ xs) = drop n xs

  -- The elements that pass a test, in order.
  abbrev pub filter : (A → Bool) → List A → List A
  filter p [] = []
  filter p (x ∷ xs) = let rest = filter p xs in if p x then x ∷ rest else rest

  -- The first element that passes a test.
  abbrev pub find : (A → Bool) → List A → Option A
  find p [] = none
  find p (x ∷ xs) = if p x then some x else find p xs

  abbrev pub any : (A → Bool) → List A → Bool
  any p [] = false
  any p (x ∷ xs) = p x || any p xs

  abbrev pub All {κ} : (A → Type κ) → List A → Type κ
  All P [] = Unit
  All P (x ∷ xs) = P x × All P xs

  pub length-append : (xs ys : List A) → length (xs ++ ys) ≡ length xs + length ys
  length-append [] ys = omega arith
  length-append (x ∷ xs) ys = omega (arith, length-append xs ys)

  pub All-append {κ} : (P : A → Type κ) (xs ys : List A) → All P xs → All P ys → All P (xs ++ ys)
  All-append P [] ys hx hy = hy
  All-append P (x ∷ xs) ys hx hy = (hx.0, All-append P xs ys hx.1 hy)

  pub length-filter-le : (p : A → Bool) (xs : List A) → length (filter p xs) ≤ length xs
  length-filter-le p [] = omega arith
  length-filter-le p (x ∷ xs) = ground (arith, length-filter-le p xs)

  -- What a filter keeps still satisfies what all elements satisfied.
  pub All-filter {κ} :
      (P : A → Type κ) (p : A → Bool) (xs : List A) → All P xs → All P (filter p xs)
  All-filter P p [] h = h
  All-filter P p (x ∷ xs) h = keep (p x) (All-filter P p xs h.1)
    where
      keep : (b : Bool) → All P (filter p xs) → All P (if b then x ∷ filter p xs else filter p xs)
      keep true r = (h.0, r)
      keep false r = r

  -- What a filter keeps passes its test.
  pub filter_sound : (p : A → Bool) (xs : List A) → All (λ x. p x ≡ true) (filter p xs)
  filter_sound p [] = tt
  filter_sound p (x ∷ xs) = keep (p x) refl (filter_sound p xs)
    where
      keep :
          (b : Bool)
          → p x ≡ b
          → All (λ y. p y ≡ true) (filter p xs)
          → All (λ y. p y ≡ true) (if b then x ∷ filter p xs else filter p xs)
      keep true e r = (e, r)
      keep false e r = r

Bool_clash : (b : Bool) → b ≡ true → b ≡ false → ⊥
Bool_clash b h k = cc

module _ {A : Type 0} where
  -- The element is one of the list's.
  abbrev pub IsAmong : A → List A → Type 0
  IsAmong x [] = ⊥
  IsAmong x (y ∷ ys) = (x ≡ y) ⊎ IsAmong x ys

  pub All-IsAmong :
      (xs ys : List A) → ((x : A) → IsAmong x xs → IsAmong x ys) → All (λ x. IsAmong x ys) xs
  All-IsAmong [] ys f = tt
  All-IsAmong (x ∷ xs) ys f = (f x (inl refl), All-IsAmong xs ys (λ y h. f y (inr h)))

  pub IsAmong-left : (x : A) (xs ys : List A) → IsAmong x xs → IsAmong x (xs ++ ys)
  IsAmong-left x [] ys h = absurd h
  IsAmong-left x (z ∷ xs) ys (inl e) = inl e
  IsAmong-left x (z ∷ xs) ys (inr h) = inr (IsAmong-left x xs ys h)

  pub IsAmong-right : (x : A) (xs ys : List A) → IsAmong x ys → IsAmong x (xs ++ ys)
  IsAmong-right x [] ys h = h
  IsAmong-right x (z ∷ xs) ys h = inr (IsAmong-right x xs ys h)

  pub All-at : (P : A → Type 0) (xs : List A) (x : A) → All P xs → IsAmong x xs → P x
  All-at P [] x a h = absurd h
  All-at P (y ∷ xs) x a (inl e) = subst P (sym e) a.0
  All-at P (y ∷ xs) x a (inr h) = All-at P xs x a.1 h

  -- What holds of all that a filter keeps holds of each element that passes its test.
  pub filter-at :
      (P : A → Type 0) (p : A → Bool) (xs : List A) (x : A)
      → All P (filter p xs)
      → p x ≡ true
      → IsAmong x xs
      → P x
  filter-at P p [] x a e h = absurd h
  filter-at P p (y ∷ xs) x a e h = elim (Bool-cases (p y)) [
    | inl k ↦
        let b : P y × All P (filter p xs) = rw k at a in
        elim h [ inl same ↦ subst P (sym same) b.0 | inr h' ↦ filter-at P p xs x b.1 e h' ]
    | inr k ↦
        let b : All P (filter p xs) = rw k at a in
        elim h [
          | inl same ↦ absurd (Bool_clash (p y) (subst (λ z. p z ≡ true) same e) k)
          | inr h' ↦ filter-at P p xs x b e h'
        ]
  ]
