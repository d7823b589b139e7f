-- ===== src/Prelude/Effects.antt =====
-- Fallible, stateful code: a handler runs over a state, and an exception keeps what was written
-- before it. A transaction that throws writes nothing.
use mathlib.Core.Path.{◌≡◌, refl, ap, ◌∙◌}
use mathlib.Core.Logic.{◌⊎◌, inl, inr}
use mathlib.Core.Bool.{Bool, true, false}
use mathlib.Core.Option.{Option, none, some}
use mathlib.Core.List.{List, [], ◌∷◌}

pub data Result (E A : Type 0) : Type 0 where
  ok : A → Result E A
  err : E → Result E A

abbrev pub Exec : Type 0 → Type 0 → Type 0 → Type 0
Exec S E A = S → Result E A × S

module _ {S E : Type 0} where
  abbrev pub return : {A : Type 0} → A → Exec S E A
  return a s = (ok a, s)

  abbrev pub throw : {A : Type 0} → E → Exec S E A
  throw e s = (err e, s)

  abbrev pub then_do : {A B : Type 0} → Result E A × S → (A → Exec S E B) → Result E B × S
  then_do (ok a, s) f = f a s
  then_do (err e, s) f = (err e, s)

  infixl 5 ◌>>=◌ ◌>>◌
  abbrev pub ◌>>=◌ : {A B : Type 0} → Exec S E A → (A → Exec S E B) → Exec S E B
  ◌>>=◌ m f s = then_do (m s) f

  abbrev pub ◌>>◌ : {A B : Type 0} → Exec S E A → Exec S E B → Exec S E B
  ◌>>◌ m k s = then_do (m s) (λ _. k)

  abbrev pub modify : (S → S) → Exec S E (Unit {0})
  modify f s = (ok tt, f s)

  abbrev pub read : {A : Type 0} → (S → A) → Exec S E A
  read f s = (ok (f s), s)

  -- `if (!test) throw e`
  abbrev pub require : Bool → E → Exec S E (Unit {0})
  require true e s = (ok tt, s)
  require false e s = (err e, s)

  -- `if (!value) throw e`, and the value after it
  abbrev pub require_some : {A : Type 0} → Option A → E → Exec S E A
  require_some (some a) e s = (ok a, s)
  require_some none e s = (err e, s)

  -- `for (const x of xs) await body(x)`
  unfoldable pub for_each : {A : Type 0} → List A → (A → Exec S E (Unit {0})) → Exec S E (Unit {0})
  for_each [] body s = (ok tt, s)
  for_each (x ∷ xs) body s = then_do (body x s) (λ _. for_each xs body)

  abbrev pub settle : {A : Type 0} → S → Result E A × S → Result E A × S
  settle s (ok a, t) = (ok a, t)
  settle s (err e, t) = (err e, s)

  abbrev pub transaction : {A : Type 0} → Exec S E A → Exec S E A
  transaction m s = settle s (m s)

module _ {S E A B : Type 0} where
  -- A step that goes on to a result returned.
  pub then_do-eq-ok :
      (r : Result E A × S) (f : A → Exec S E B) {b : B} {t : S}
      → then_do r f ≡ (ok b, t)
      → (a : A) × (s : S) × (r ≡ (ok a, s)) × (f a s ≡ (ok b, t))
  then_do-eq-ok (ok a, s) f h = (a, s, refl, h)
  then_do-eq-ok (err e, s) f h = absurd (cc (ap (λ (x : Result E B × S). x.0) h))

module _ {S E B : Type 0} (keep : S → B) where
  pub then_do_keeps :
      (r : Result E (Unit {0}) × S) (f : Unit {0} → Exec S E (Unit {0}))
      → ((u : Unit {0}) (t : S) → keep (f u t).1 ≡ keep t)
      → keep (then_do r f).1 ≡ keep r.1
  then_do_keeps (ok u, s) f h = h u s
  then_do_keeps (err e, s) f h = refl

  -- What every round of a loop keeps, the loop keeps.
  pub for_each-keeps :
      {A : Type 0} (body : A → Exec S E (Unit {0}))
      → ((x : A) (s : S) → keep (body x s).1 ≡ keep s)
      → (xs : List A) (s : S) → keep (for_each xs body s).1 ≡ keep s
  unfolding for_each
  for_each-keeps body h [] s = refl
  for_each-keeps body h (x ∷ xs) s =
      then_do_keeps (body x s) (λ u. for_each xs body) (λ u t. for_each-keeps body h xs t) ∙ h x s

pub Result-cases :
    {E A S : Type 0} (r : Result E A × S)
    → ((e : E) × (s : S) × (r ≡ (err e, s))) ⊎ ((a : A) × (s : S) × (r ≡ (ok a, s)))
Result-cases (err e, s) = inl (e, s, refl)
Result-cases (ok a, s) = inr (a, s, refl)
