-- ===== src/Analytics/Caches/Keys.antt =====
-- The keys of the caches: which are a user's, and that different requests have different keys.
use mathlib.Core.Path.{subst}
use stock_monitor.Base.{
  ℕ, ◌≡◌, refl, ap, sym, ◌∙◌, Bool, true, false, ◌&&◌, ◌||◌, Option, none, some, [], ◌∷◌, ◌++◌,
  arith, ◌==◌, ==_iff, All, inl, inr, Bool-cases,
}
use stock_monitor.Base.Text.{Text, codes, text_eq, text_eq_iff, text_eq_refl, starts_with}
use stock_monitor.Base.Digits.{str, str-injective, str-IsDigit, IsDigit}
use stock_monitor.Analytics.Caches.{user_str, series_prefix, series_key, risk_key, is_stale_key}

abbrev HasNoColon : Text → Type 0
HasNoColon = All (λ c. (c == b':') ≡ false)

All-impl : {P Q : ℕ → Type 0} → ((c : ℕ) → P c → Q c) → (cs : Text) → All P cs → All Q cs
All-impl f [] h = h
All-impl f (c ∷ cs) h = (f c h.0, All-impl f cs h.1)

digit-no_colon : (c : ℕ) → IsDigit c → (c == b':') ≡ false
digit-no_colon c h = ground arith

user_str-HasNoColon : (user : Option ℕ) → HasNoColon (user_str user)
unfolding user_str
user_str-HasNoColon none = (refl, (refl, (refl, (refl, tt))))
user_str-HasNoColon (some id) = All-impl digit-no_colon (str id) (str-IsDigit id)

-- A name with a colon behind it is a prefix of another only if the names are the same.
prefix-eq :
    (u v rest : Text)
    → HasNoColon u
    → HasNoColon v
    → starts_with (u ++ codes ":") (v ++ (codes ":" ++ rest)) ≡ text_eq u v
unfolding starts_with text_eq
prefix-eq [] [] rest h k = refl
prefix-eq [] (c ∷ v) rest h k = ground (arith, k.0)
prefix-eq (c ∷ u) [] rest h k = rw h.0 refl
prefix-eq (c ∷ u) (d ∷ v) rest h k = ap (c == d &&◌) (prefix-eq u v rest h.1 k.1)

-- The owner of a key: no user, or the user of that id.
abbrev pub same_user : Option ℕ → Option ℕ → Bool
same_user none none = true
same_user none (some v) = false
same_user (some u) none = false
same_user (some u) (some v) = u == v

Bool_ext : (a b : Bool) → (a ≡ true → b ≡ true) → (b ≡ true → a ≡ true) → a ≡ b
Bool_ext true true f g = refl
Bool_ext true false f g = sym (f refl)
Bool_ext false true f g = g refl
Bool_ext false false f g = refl

None-no_digits : (id : ℕ) → codes "None" ≡ str id → ⊥
None-no_digits id e =
    let d : All IsDigit (codes "None") = subst (All IsDigit) (sym e) (str-IsDigit id) in
    omega (arith, d.0)

str-eq : (u v : ℕ) → text_eq (str u) (str v) ≡ (u == v)
str-eq u v =
    Bool_ext (text_eq (str u) (str v)) (u == v)
      (λ e. (==_iff u v).1 (str-injective u v ((text_eq_iff (str u) (str v)).0 e)))
      (λ e. (text_eq_iff (str u) (str v)).1 (ap str ((==_iff u v).0 e)))

None-eq : (id : ℕ) → text_eq (codes "None") (str id) ≡ false
None-eq id = elim (Bool-cases (text_eq (codes "None") (str id))) [
  | inl e ↦ absurd (None-no_digits id ((text_eq_iff (codes "None") (str id)).0 e))
  | inr e ↦ e
]

eq-None : (id : ℕ) → text_eq (str id) (codes "None") ≡ false
eq-None id = elim (Bool-cases (text_eq (str id) (codes "None"))) [
  | inl e ↦ absurd (None-no_digits id (sym ((text_eq_iff (str id) (codes "None")).0 e)))
  | inr e ↦ e
]

same_user-eq : (u v : Option ℕ) → text_eq (user_str u) (user_str v) ≡ same_user u v
unfolding user_str
same_user-eq none none = text_eq_refl (codes "None")
same_user-eq none (some v) = None-eq v
same_user-eq (some u) none = eq-None u
same_user-eq (some u) (some v) = str-eq u v

or_false : (b : Bool) → b || false ≡ b
or_false true = refl
or_false false = refl

-- The keys that an invalidation drops are those of its user, and of no other.
pub is_stale_key-series :
    (u v : Option ℕ) (days : ℕ) → is_stale_key u (series_key v days) ≡ same_user u v
unfolding starts_with
is_stale_key-series u v days =
    or_false (starts_with (series_prefix u) (series_key v days))
    ∙ prefix-eq (user_str u) (user_str v) (str days) (user_str-HasNoColon u) (user_str-HasNoColon v)
    ∙ same_user-eq u v

pub is_stale_key-risk :
    (u v : Option ℕ) (days : ℕ) → is_stale_key u (risk_key v days) ≡ same_user u v
unfolding starts_with
is_stale_key-risk u v days =
    prefix-eq (user_str u) (user_str v) (str days) (user_str-HasNoColon u) (user_str-HasNoColon v)
    ∙ same_user-eq u v

-- Two texts without a colon, each with a colon and a rest behind it, are equal part by part.
parts-eq :
    (u v d e : Text)
    → HasNoColon u
    → HasNoColon v
    → text_eq (u ++ (codes ":" ++ d)) (v ++ (codes ":" ++ e)) ≡ text_eq u v && text_eq d e
unfolding text_eq
parts-eq [] [] d e h k = refl
parts-eq [] (c ∷ v) d e h k = ground (arith, k.0)
parts-eq (c ∷ u) [] d e h k = rw h.0 refl
parts-eq (c ∷ u) (b ∷ v) d e h k = ground (arith, parts-eq u v d e h.1 k.1)

-- Keys of a cache are equal for the same user and days only.
series_key-eq :
    (u v : Option ℕ) (d e : ℕ) → text_eq (series_key u d) (series_key v e) ≡ same_user u v && d == e
unfolding text_eq
series_key-eq u v d e =
    parts-eq (user_str u) (user_str v) (str d) (str e) (user_str-HasNoColon u)
      (user_str-HasNoColon v)
    ∙ ground (arith, same_user-eq u v, str-eq d e)

same_user-id : (u v : Option ℕ) → same_user u v ≡ true → u ≡ v
same_user-id none none e = refl
same_user-id none (some v) e = cc
same_user-id (some u) none e = cc
same_user-id (some u) (some v) e = ap some ((==_iff u v).0 e)

both_true : (a b : Bool) → a && b ≡ true → (a ≡ true) × (b ≡ true)
both_true a b e = ground arith

pub series_key-injective :
    (u v : Option ℕ) (d e : ℕ) → series_key u d ≡ series_key v e → (u ≡ v) × (d ≡ e)
series_key-injective u v d e same =
    let both =
      both_true (same_user u v) (d == e)
        (sym (series_key-eq u v d e) ∙ (text_eq_iff (series_key u d) (series_key v e)).1 same) in
    (same_user-id u v both.0, (==_iff d e).0 both.1)

risk_key-eq :
    (u v : Option ℕ) (d e : ℕ) → text_eq (risk_key u d) (risk_key v e) ≡ same_user u v && d == e
unfolding text_eq
risk_key-eq u v d e =
    parts-eq (user_str u) (user_str v) (str d) (str e) (user_str-HasNoColon u)
      (user_str-HasNoColon v)
    ∙ ground (arith, same_user-eq u v, str-eq d e)

pub risk_key-injective :
    (u v : Option ℕ) (d e : ℕ) → risk_key u d ≡ risk_key v e → (u ≡ v) × (d ≡ e)
risk_key-injective u v d e same =
    let both =
      both_true (same_user u v) (d == e)
        (sym (risk_key-eq u v d e) ∙ (text_eq_iff (risk_key u d) (risk_key v e)).1 same) in
    (same_user-id u v both.0, (==_iff d e).0 both.1)
