-- ===== src/Settings/Columns.antt =====
-- Searches after an update or an insertion, and lists of words saved in one column.
use stock_monitor.Base.{
  ◌≡◌, refl, ap, ◌∙◌, Bool, false, ◌&&◌, some, List, [], ◌∷◌, ◌++◌, arith, ◌==◌, if◌then◌else◌,
  find, All, inl, inr, Bool-cases,
}
use stock_monitor.Base.Text.{Text, codes, is_empty, split, join}
use stock_monitor.Table.{update_where}
use stock_monitor.Analytics.Caches.Entries.{some-injective}
use stock_monitor.Settings.{words_of}

module _ {A : Type 0} where
  updated_test :
      (p q : A → Bool) (g : A → A)
      → ((x : A) → p (g x) ≡ p x)
      → (y : A) → p (if q y then g y else y) ≡ p y
  updated_test p q g keeps y = elim (Bool-cases (q y)) [
    | inl e ↦ rw e (keeps y)
    | inr e ↦ rw e refl
  ]

  pub find-update :
      (p q : A → Bool) (g : A → A)
      → ((x : A) → p (g x) ≡ p x)
      → (xs : List A) (x : A) → find p xs ≡ some x
      → find p (update_where q g xs) ≡ some (if q x then g x else x)
  find-update p q g keeps [] x e = cc
  find-update p q g keeps (y ∷ ys) x e =
      let test = updated_test p q g keeps y in
      elim (Bool-cases (p y)) [
        | inl h ↦
            let same : some y ≡ some x = rw h at e in
            rw (test, h) (ap (λ z. some (if q z then g z else z)) (some-injective y x same))
        | inr h ↦
            let rest : find p ys ≡ some x = rw h at e in
            rw (test, h) (find-update p q g keeps ys x rest)
      ]

-- A word of a list that is saved: without a comma.
abbrev pub HasNoComma : Text → Type 0
HasNoComma = All (λ c. (c == b',') ≡ false)

split-word : (w : Text) → HasNoComma w → split b',' w ≡ w ∷ []
unfolding split
split-word [] h = refl
split-word (c ∷ w) h = rw (h.0, split-word w h.1) refl

split-comma :
    (w rest : Text) → HasNoComma w → split b',' (w ++ (codes "," ++ rest)) ≡ w ∷ split b',' rest
unfolding split
split-comma [] rest h = refl
split-comma (c ∷ w) rest h = rw (h.0, split-comma w rest h.1) refl

split-join :
    (v : Text) (ws : List Text)
    → All HasNoComma (v ∷ ws)
    → split b',' (join (codes ",") (v ∷ ws)) ≡ v ∷ ws
unfolding join
split-join v [] h = split-word v h.0
split-join v (w ∷ ws) h =
    split-comma v (join (codes ",") (w ∷ ws)) h.0 ∙ ap (◌∷◌ v) (split-join w ws h.1)

pub and_false : (a b c : Bool) → b ≡ false → (a && b) && c ≡ false
and_false a b c h = ground (arith, h)

pub words_of-join :
    (ws default : List Text)
    → All HasNoComma ws
    → is_empty (join (codes ",") ws) ≡ false
    → words_of (some (join (codes ",") ws)) default ≡ ws
unfolding join
words_of-join [] default h e = cc
words_of-join (w ∷ ws) default h e = rw e (split-join w ws h)
