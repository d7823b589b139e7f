-- ===== src/Imports/Normal.antt =====
-- apps/api/src/contacts/import-engine.service.ts: `normalizeRow`, `autoMapping` and `escapeCsv`.
use tool_messager.Prelude.{
  Bool, List, Option, Result, Text, [], any, codes, decimal, delete_where, err, false, find_first,
  get_or_else, if◌then◌else◌, is_digit, is_empty, is_some, is_space, leb, none, not, ok,
  select_where, some, text_eq, to_lower, trim, true, ℕ, ◌&&◌, ◌++◌, ◌==◌, ◌||◌, ◌∷◌,
}
use tool_messager.Shared.{ConsentStatus, opted_in, opted_out, unknown, zalo}
use tool_messager.Store.{
  RowError, StagedContact, email_invalid, find_last, identity_missing, name_missing, phone_invalid,
}
use tool_messager.Phone.{given, invalid, missing, normalize_phone_text, valid}

-- importTargets, and the mapping's 'IGNORE'
pub data Target : Type 0 where
  to_display_name to_phone to_platform_user_id to_username to_email to_gender to_source : Target
  to_consent_status ignored_column other_target : Target

abbrev target_rank : Target → ℕ
target_rank to_display_name = 0
target_rank to_phone = 1
target_rank to_platform_user_id = 2
target_rank to_username = 3
target_rank to_email = 4
target_rank to_gender = 5
target_rank to_source = 6
target_rank to_consent_status = 7
target_rank ignored_column = 8
target_rank other_target = 9

abbrev pub same_target : Target → Target → Bool
same_target a b = target_rank a == target_rank b

abbrev import_targets : List Target
import_targets =
    to_display_name ∷ to_phone ∷ to_platform_user_id ∷ to_username ∷ to_email ∷ to_gender
    ∷ to_source ∷ to_consent_status ∷ []

abbrev header_aliases : Target → List Text
header_aliases to_display_name =
    codes "name"
    ∷ codes "fullname"
    ∷ codes "displayname"
    ∷ codes "ten"
    ∷ codes "hoten"
    ∷ codes "khachhang"
    ∷ codes "customer"
    ∷ []
header_aliases to_phone =
    codes "phone"
    ∷ codes "mobile"
    ∷ codes "telephone"
    ∷ codes "sdt"
    ∷ codes "sodienthoai"
    ∷ codes "dienthoai"
    ∷ []
header_aliases to_platform_user_id =
    codes "zaloid"
    ∷ codes "zalo"
    ∷ codes "userid"
    ∷ codes "uid"
    ∷ codes "platformuserid"
    ∷ codes "oauserid"
    ∷ []
header_aliases to_username = codes "username" ∷ codes "nickname" ∷ codes "alias" ∷ codes "user" ∷ []
header_aliases to_email = codes "email" ∷ codes "mail" ∷ codes "emailaddress" ∷ []
header_aliases to_gender = codes "gender" ∷ codes "sex" ∷ codes "gioitinh" ∷ []
header_aliases to_source = codes "source" ∷ codes "nguon" ∷ codes "leadsource" ∷ []
header_aliases to_consent_status =
    codes "consent"
    ∷ codes "consentstatus"
    ∷ codes "optin"
    ∷ codes "permission"
    ∷ codes "dongy"
    ∷ []
header_aliases _ = []

abbrev pub is_one_of : List Text → Text → Bool
is_one_of ts t = any (text_eq t) ts

-- A mapping's entries, in the order of `Object.entries`.
abbrev pub Mapped : Type 0
Mapped = List (Text × Target)

abbrev cell_of : List (Text × Text) → Text → Text
cell_of raw column = elim (find_first (λ c. text_eq c.0 column) raw) [
  | none ↦ []
  | some c ↦ trim c.1
]

-- The last column that is mapped to the target gives its value.
unfoldable pub value_of : Mapped → List (Text × Text) → Target → Option Text
value_of m raw target = elim (find_last (λ e. same_target e.1 target) m) [
  | none ↦ none
  | some e ↦ some (cell_of raw e.0)
]

abbrev d_stroke : ℕ → ℕ
d_stroke c = if c == 273 || c == 272 then 100 else c

abbrev map_text : (ℕ → ℕ) → Text → Text
map_text f [] = []
map_text f (c ∷ s) = f c ∷ map_text f s

abbrev is_mark : ℕ → Bool
is_mark c = leb 768 c && leb c 879

abbrev is_alphanumeric : ℕ → Bool
is_alphanumeric c = is_digit c || (leb 97 c && leb c 122)

-- `cleanHeader`; `decompose` is `normalize('NFD')` of the JavaScript library.
unfoldable pub clean_header : (decompose : Text → Text) → Text → Text
clean_header decompose t =
    select_where is_alphanumeric (to_lower (delete_where is_mark (decompose (map_text d_stroke t))))

abbrev optional_trim : Option Text → Option Text
optional_trim none = none
optional_trim (some t) = given (some (trim t))

-- A dot with a text before it, here already seen, and a text behind it.
abbrev dot_follows : Text → Bool
dot_follows [] = false
dot_follows (c ∷ s) = (c == 46 && not (is_empty s)) || dot_follows s

abbrev is_domain : Text → Bool
is_domain [] = false
is_domain (c ∷ s) = dot_follows s && not (any (λ d. is_space d || d == 64) (c ∷ s))

after_at : Text → Text
after_at [] = []
after_at (c ∷ s) = if c == 64 then s else after_at s

-- `/^[^\s@]+@[^\s@]+\.[^\s@]+$/`
unfoldable pub is_email : Text → Bool
unfolding after_at
is_email [] = false
is_email (c ∷ s) = not (c == 64) && not (any is_space (c ∷ s)) && is_domain (after_at s)

unfoldable pub consent_of : Text → ConsentStatus
consent_of t =
    if is_one_of
      (codes "optedin"
        ∷ codes "yes"
        ∷ codes "true"
        ∷ codes "1"
        ∷ codes "dongy"
        ∷ codes "consent"
        ∷ [])
      t
    then opted_in
    else (if is_one_of
          (codes "optedout" ∷ codes "no" ∷ codes "false" ∷ codes "0" ∷ codes "tuchoi" ∷ []) t
        then opted_out
        else unknown)

abbrev valid_email : Option Text → Bool
valid_email none = true
valid_email (some t) = is_email t

abbrev pub Normalized : Type 0
Normalized = Result RowError StagedContact

-- The texts of a row by their targets, with the phone normalised.
staged_row :
    (decompose : Text → Text)
    → (job : ℕ) → (values : Target → Option Text) → (name : Text) → (phone : Option Text)
    → StagedContact
staged_row decompose job values name phone = record {
  platform = zalo;
  platform_user_id = optional_trim (values to_platform_user_id);
  display_name = name;
  username = given (values to_username);
  phone = given (values to_phone);
  normalized_phone = phone;
  email = lower_email (optional_trim (values to_email));
  gender = given (values to_gender);
  source = get_or_else (given (values to_source)) (codes "IMPORT:" ++ decimal job);
  consent_status = consent_of (clean_header decompose (get_or_else (values to_consent_status) []));
}
  where
    lower_email : Option Text → Option Text
    lower_email none = none
    lower_email (some t) = some (to_lower t)

check_row :
    (decompose : Text → Text)
    → (job : ℕ) → (values : Target → Option Text) → (name : Text) → (phone : Option Text)
    → Normalized
unfolding staged_row
check_row decompose job values name phone =
    let row = staged_row decompose job values name phone in
    if not (is_some phone) && not (is_some row.platform_user_id)
    then err identity_missing
    else (if valid_email row.email then ok row else err email_invalid)

unfoldable pub normalize_row :
    (decompose : Text → Text) → (job : ℕ) → Mapped → List (Text × Text) → Normalized
unfolding check_row
normalize_row decompose job m raw = elim (optional_trim (value_of m raw to_display_name)) [
  | none ↦ err name_missing
  | some name ↦ elim (normalize_phone_text (get_or_else (value_of m raw to_phone) [])) [
    | invalid ↦ err phone_invalid
    | missing ↦ check_row decompose job (value_of m raw) name none
    | valid phone ↦ check_row decompose job (value_of m raw) name (some phone)
  ]
]

abbrev is_candidate : List Target → Text → Target → Bool
is_candidate used header target =
    not (any (same_target target) used) && is_one_of (header_aliases target) header

add_columns : (decompose : Text → Text) → (used : List Target) → List Text → Mapped
add_columns decompose used [] = []
add_columns decompose used (column ∷ columns) =
    let found = find_first (is_candidate used (clean_header decompose column)) import_targets in
    let rest =
      add_columns decompose (elim found [ none ↦ used | some target ↦ target ∷ used ]) columns in
    (column, get_or_else found ignored_column) ∷ rest

-- Every target goes to the first column with one of its names.
unfoldable pub auto_mapping : (decompose : Text → Text) → List Text → Mapped
unfolding add_columns
auto_mapping decompose columns = add_columns decompose [] columns

abbrev quote : ℕ
quote = 34

-- The quote, the comma, the carriage return and the line feed.
abbrev pub is_special : ℕ → Bool
is_special c = c == quote || c == 44 || c == 13 || c == 10

unfoldable pub double_quotes : Text → Text
double_quotes [] = []
double_quotes (c ∷ s) =
    let rest = double_quotes s in if c == quote then quote ∷ quote ∷ rest else c ∷ rest

-- `escapeCsv` of a text.
unfoldable pub escape_csv : Text → Text
escape_csv t = if any is_special t then quote ∷ double_quotes t ++ quote ∷ [] else t
