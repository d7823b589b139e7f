-- ===== src/Phone.antt =====
-- `normalizePhone` of apps/worker/src/main.ts and of apps/api/src/contacts/import-engine.service.ts:
-- a Vietnamese phone number in international form.
pub mod Form
use tool_messager.Prelude.{
  Option, Text, [], digits_of, drop, if◌then◌else◌, is_empty, length, ltb, none, some, starts_with,
  trim, ℕ, ◌++◌, ◌||◌, ◌∷◌,
}

pub data Phone : Type 0 where
  missing invalid : Phone
  valid : Text → Phone

-- A text that is there and not empty.
abbrev pub given : Option Text → Option Text
given none = none
given (some t) = if is_empty t then none else some t

abbrev plus : ℕ
plus = 43

abbrev country : Text
country = 56 ∷ 52 ∷ []

-- The international form of a run of digits.
unfoldable pub international : Text → Text
international d =
    if starts_with country d
    then plus ∷ d
    else (if starts_with (48 ∷ []) d then plus ∷ country ++ drop 1 d else plus ∷ d)

unfoldable pub normalize_digits : Text → Phone
normalize_digits d =
    if ltb (length d) 9 || ltb 15 (length d) then invalid else valid (international d)

unfoldable pub normalize_phone : Option Text → Phone
normalize_phone none = missing
normalize_phone (some t) = normalize_digits (digits_of t)

-- The import engine first asks whether the text is blank.
unfoldable pub normalize_phone_text : Text → Phone
normalize_phone_text t = if is_empty (trim t) then missing else normalize_digits (digits_of t)
