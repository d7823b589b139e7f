-- ===== src/Prelude/Table.antt =====
-- A table of the database: its rows, oldest first, and the queries that the services make of it.
-- `find_first` is Prisma's findFirst and findUnique, `update_where` its update and updateMany,
-- `count_where` its count, `select_where` its findMany.
use Prim.Native.Nat.{ℕ, suc, ◌+◌, ◌≤◌}
use mathlib.Core.Path.{◌≡◌, refl, ap}
use mathlib.Core.Bool.{Bool, true, false}
use mathlib.Core.Option.{Option, none, some}
use mathlib.Core.List.{List, [], ◌∷◌, ◌++◌}
use native.Mathlib.Omega.{arith}
use tool_messager.Prelude.Tests.{Bool-cases, if◌then◌else◌, is_some}
use tool_messager.Prelude.Lists.{All, any, length, take}
use mathlib.Core.Logic.{inl, inr}

module _ {ℓ} {A : Type ℓ} where
  unfoldable pub find_first : (A → Bool) → List A → Option A
  find_first p [] = none
  find_first p (x ∷ xs) = if p x then some x else find_first p xs

  unfoldable pub update_where : (A → Bool) → (A → A) → List A → List A
  update_where p f [] = []
  update_where p f (x ∷ xs) = (if p x then f x else x) ∷ update_where p f xs

  unfoldable pub count_where : (A → Bool) → List A → ℕ
  count_where p [] = 0
  count_where p (x ∷ xs) = let rest = count_where p xs in if p x then suc rest else rest

  unfoldable pub select_where : (A → Bool) → List A → List A
  select_where p [] = []
  select_where p (x ∷ xs) = let rest = select_where p xs in if p x then x ∷ rest else rest

  -- deleteMany
  unfoldable pub delete_where : (A → Bool) → List A → List A
  delete_where p [] = []
  delete_where p (x ∷ xs) = let rest = delete_where p xs in if p x then rest else x ∷ rest

  -- upsert: the rows that fit `p` are updated; if there is none, `new` is added.
  unfoldable pub upsert : (A → Bool) → (A → A) → A → List A → List A
  upsert p f new xs = if any p xs then update_where p f xs else xs ++ new ∷ []

  pub find_first_fits : (p : A → Bool) (xs : List A) {x : A} → find_first p xs ≡ some x → p x ≡ true
  unfolding find_first
  find_first_fits p [] e = absurd (cc)
  find_first_fits p (y ∷ ys) {x} e = elim (Bool-cases (p y)) [
    | inl h ↦ ground (arith)
    | inr h ↦ find_first_fits p ys (rw h at e)
  ]

  pub any-find_first : (p : A → Bool) (xs : List A) → any p xs ≡ is_some (find_first p xs)
  unfolding find_first
  any-find_first p [] = refl
  any-find_first p (x ∷ xs) = ground (arith, any-find_first p xs)

  pub length-update_where :
      (p : A → Bool) (f : A → A) (xs : List A) → length (update_where p f xs) ≡ length xs
  unfolding update_where
  length-update_where p f [] = refl
  length-update_where p f (x ∷ xs) = ap suc (length-update_where p f xs)

  pub count_where-le : (p : A → Bool) (xs : List A) → count_where p xs ≤ length xs
  unfolding count_where
  count_where-le p [] = omega arith
  count_where-le p (x ∷ xs) = ground (arith, count_where-le p xs)

  pub count_where-append :
      (p : A → Bool) (xs ys : List A)
      → count_where p (xs ++ ys) ≡ count_where p xs + count_where p ys
  unfolding count_where
  count_where-append p [] ys = omega arith
  count_where-append p (x ∷ xs) ys = ground (arith, count_where-append p xs ys)

  -- No row fits the test any more, when the update takes each row that fitted out of it.
  pub any-update_where :
      (p q : A → Bool) (f : A → A)
      → ((x : A) → p x ≡ true → q (f x) ≡ false)
      → ((x : A) → p x ≡ false → q x ≡ false)
      → (xs : List A) → any q (update_where p f xs) ≡ false
  unfolding update_where
  any-update_where p q f h k [] = refl
  any-update_where p q f h k (x ∷ xs) = ground (arith, h x, k x, any-update_where p q f h k xs)

  -- An update that does not change a test does not change what it counts.
  pub count-update_where :
      (p q : A → Bool) (f : A → A)
      → ((x : A) → p x ≡ true → q (f x) ≡ q x)
      → (xs : List A) → count_where q (update_where p f xs) ≡ count_where q xs
  unfolding update_where count_where
  count-update_where p q f h [] = refl
  count-update_where p q f h (x ∷ xs) = ground (arith, h x, count-update_where p q f h xs)

  -- Where no row fits, an update changes nothing.
  pub update_where_none :
      (p : A → Bool) (f : A → A) (xs : List A) → any p xs ≡ false → update_where p f xs ≡ xs
  unfolding update_where
  update_where_none p f [] h = refl
  update_where_none p f (x ∷ xs) h = ground (arith, update_where_none p f xs)

-- The row that a query finds after an update that takes it in and keeps the query's test.
pub find_first-update_where {ℓ} :
    {A : Type ℓ} (p q : A → Bool) (f : A → A)
    → ((x : A) → p (f x) ≡ p x)
    → ((x : A) → p x ≡ true → q x ≡ true)
    → (xs : List A) {x : A} → find_first p xs ≡ some x
    → find_first p (update_where q f xs) ≡ some (f x)
unfolding find_first update_where
find_first-update_where p q f keep take [] e = absurd (cc)
find_first-update_where p q f keep take (y ∷ ys) {x} e = elim (Bool-cases (p y)) [
  | inl h ↦ ground (arith, keep y, take y)
  | inr h ↦ ground (arith, keep y, find_first-update_where p q f keep take ys {x = x})
]

module _ {ℓ} {A : Type ℓ} where
  -- The row that a query finds, after an update that takes it in and keeps the query's test.
  pub find_first-update_found :
      (p q : A → Bool) (f : A → A)
      → ((x : A) → p (f x) ≡ p x)
      → (xs : List A) {a : A} → find_first p xs ≡ some a
      → q a ≡ true
      → find_first p (update_where q f xs) ≡ some (f a)
  unfolding find_first update_where
  find_first-update_found p q f keep [] e t = absurd (cc)
  find_first-update_found p q f keep (x ∷ xs) {a} e t = elim (Bool-cases (p x)) [
    | inl h ↦ ground (arith, e, t, keep x)
    | inr h ↦ ground (arith, e, t, keep x, find_first-update_found p q f keep xs {a = a})
  ]

  -- A row that is added where the query found none.
  pub find_first-append_new :
      (p : A → Bool) (xs : List A) (a : A)
      → find_first p xs ≡ none
      → p a ≡ true
      → find_first p (xs ++ a ∷ []) ≡ some a
  unfolding find_first
  find_first-append_new p [] a h t = ground (arith, t)
  find_first-append_new p (x ∷ xs) a h t = ground (arith, h, t, find_first-append_new p xs a)

  pub find_first-append_none :
      (p : A → Bool) (xs : List A) (a : A)
      → find_first p xs ≡ none
      → find_first p (xs ++ a ∷ []) ≡ (if p a then some a else none)
  unfolding find_first
  find_first-append_none p [] a h = refl
  find_first-append_none p (x ∷ xs) a h = ground (arith, h, find_first-append_none p xs a)

  pub find_first-append_found :
      (p : A → Bool) (xs : List A) (a : A) {x : A}
      → find_first p xs ≡ some x
      → find_first p (xs ++ a ∷ []) ≡ some x
  unfolding find_first
  find_first-append_found p [] a h = absurd (cc)
  find_first-append_found p (y ∷ ys) a {x} h =
      ground (arith, h, find_first-append_found p ys a {x = x})

  none_left :
      (p q h : A → Bool) (f : A → A)
      → ((x : A) → q (f x) ≡ false)
      → ((x : A) → q x ≡ true → h x ≡ true)
      → (xs : List A) → count_where h xs ≡ 0
      → any q (update_where p f xs) ≡ false
  unfolding update_where count_where
  none_left p q h f closed could [] zero_left = refl
  none_left p q h f closed could (x ∷ xs) zero_left =
      ground (arith, zero_left, closed x, could x, none_left p q h f closed could xs)

  -- Where at most one row could fit, an update that takes in the one that fits leaves none.
  pub any-update_found :
      (p q h : A → Bool) (f : A → A)
      → ((x : A) → q (f x) ≡ false)
      → ((x : A) → q x ≡ true → h x ≡ true)
      → (xs : List A) {a : A} → find_first q xs ≡ some a
      → p a ≡ true
      → count_where h xs ≤ 1
      → any q (update_where p f xs) ≡ false
  unfolding find_first update_where count_where
  any-update_found p q h f closed could [] e t one = absurd (cc)
  any-update_found p q h f closed could (x ∷ xs) {a} e t one = elim (Bool-cases (q x)) [
    | inl fits ↦
        ground (arith, e, t, closed x, could x fits, one, fits, none_left p q h f closed could xs)
    | inr no_fit ↦
        ground
          (arith, e, t, closed x, one, no_fit, any-update_found p q h f closed could xs {a = a})
  ]

module _ {ℓ κ} {A : Type ℓ} (P : A → Type κ) where
  pub All-update_where :
      (p : A → Bool) (f : A → A)
      → ((x : A) → p x ≡ true → P x → P (f x))
      → (xs : List A) → All P xs
      → All P (update_where p f xs)
  unfolding update_where
  All-update_where p f h [] a = tt
  All-update_where p f h (x ∷ xs) a = elim (Bool-cases (p x)) [
    | inl e ↦ rw e (h x e a.0, All-update_where p f h xs a.1)
    | inr e ↦ rw e (a.0, All-update_where p f h xs a.1)
  ]
