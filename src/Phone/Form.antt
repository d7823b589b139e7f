-- ===== src/Phone/Form.antt =====
-- The form of a normalised phone number.
use mathlib.Core.Path.{subst}
use tool_messager.Prelude.{
  Bool, Bool-cases, Option, Text, [], all, arith, digits_of, drop, false, inl, inr, is_digit,
  is_empty, length, ltb, none, refl, some, starts_with, true, ℕ, ◌++◌, ◌-◌, ◌||◌, ◌∷◌, ◌≡◌, ◌≤◌,
  ◌⊎◌,
}
use tool_messager.Phone.{
  Phone, country, international, invalid, missing, normalize_digits, normalize_phone, valid,
}

abbrev pub all_digits : Text → Bool
all_digits = all is_digit

digits_of-all : (t : Text) → all_digits (digits_of t) ≡ true
unfolding digits_of
digits_of-all [] = refl
digits_of-all (c ∷ t) = ground (arith, digits_of-all t)

digits_of-id : (t : Text) → all_digits t ≡ true → digits_of t ≡ t
unfolding digits_of
digits_of-id [] h = refl
digits_of-id (c ∷ t) h = ground (arith, digits_of-id t)

all_digits-tail : (c : ℕ) (t : Text) → all_digits (c ∷ t) ≡ true → all_digits t ≡ true
all_digits-tail c t h = ground arith

drop_digits : (d : Text) → all_digits d ≡ true → all_digits (drop 1 d) ≡ true
drop_digits [] h = refl
drop_digits (c ∷ t) h = ground arith

-- Only digits behind the plus, 9 to 16 of them: a national number of 15 digits becomes one of 16.
pub IsInternational : Text → Type 0
IsInternational p =
    (d : Text) × (p ≡ 43 ∷ d) × (all_digits d ≡ true) × (9 ≤ length d) × (length d ≤ 16)

length-drop_one : (d : Text) → (length d - 1) ≡ length (drop 1 d)
length-drop_one [] = refl
length-drop_one (c ∷ t) = ground arith

international-IsInternational :
    (d : Text)
    → all_digits d ≡ true
    → 9 ≤ length d
    → length d ≤ 15
    → IsInternational (international d)
unfolding IsInternational international
international-IsInternational d h lo hi = elim (Bool-cases (starts_with country d)) [
  | inl is_84 ↦ rw is_84 (d, refl, h, lo, ground arith)
  | inr not_84 ↦ elim (Bool-cases (starts_with (48 ∷ []) d)) [
    | inl national ↦
        rw (not_84, national)
          (
            country ++ drop 1 d,
            refl,
            ground (arith, drop_digits d h),
            ground (arith, length-drop_one d),
            ground (arith, length-drop_one d),
          )
    | inr plain ↦ rw (not_84, plain) (d, refl, h, lo, ground arith)
  ]
]

-- A normalised phone number is a plus and 9 to 16 digits.
pub normalize_phone-IsInternational :
    (t : Option Text) (p : Text) → normalize_phone t ≡ valid p → IsInternational p
unfolding normalize_phone normalize_digits
normalize_phone-IsInternational none p h = absurd (ground arith)
normalize_phone-IsInternational (some t) p h =
    elim (Bool-cases (ltb (length (digits_of t)) 9 || ltb 15 (length (digits_of t)))) [
      | inl bad ↦ absurd (ground (arith, bad))
      | inr fits ↦ subst IsInternational (grind (arith, fits)) (
          international-IsInternational (digits_of t) (digits_of-all t) (ground arith)
            (ground arith))
    ]

pub valid-not_empty :
    (t : Option Text) (p : Text) → normalize_phone t ≡ valid p → is_empty p ≡ false
unfolding IsInternational
valid-not_empty t p h =
    let (d, form, digits, low, high) = normalize_phone-IsInternational t p h in ground (arith, form)

pub Phone-cases : (n : Phone) → (n ≡ missing) ⊎ (n ≡ invalid) ⊎ ((p : Text) × (n ≡ valid p))
Phone-cases missing = inl refl
Phone-cases invalid = inr (inl refl)
Phone-cases (valid p) = inr (inr (p, refl))
