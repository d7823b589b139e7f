-- ===== src/Admin/Listed.antt =====
-- Whom a global suppression of apps/api/src/admin/admin.service.ts reaches, as
-- apps/api/src/messages/messages.service.ts and apps/worker/src/main.ts read the list.
use tool_messager.Prelude.{
  Bool, List, Option, Option-cases, Text, [], any, any-append, any-find_first, arith, false,
  find_first, inl, inr, is_empty, none, not, ok, refl, some, text_eq_self, true, ℕ, ◌∷◌, ◌≡◌,
}
use tool_messager.Store.{Contact, Db, SuppressionEntry}
use tool_messager.Outbound.{entry_holds, is_on_suppression_list, is_suppressed}
use tool_messager.Phone.{given, normalize_phone}
use tool_messager.Phone.Form.{Phone-cases, valid-not_empty}
use tool_messager.Worker.Optout.{text_is-some}
use tool_messager.Contacts.{SuppressionInput}
use tool_messager.Admin.Suppression.{
  GlobalTarget, add_global_suppression, admin_phone, by_phone, by_user, global_entry,
  is_global_entry, list_globally, names_contact, target_of,
}

-- What a global entry names is not empty.
target_is_given : GlobalTarget → Bool
target_is_given (by_phone phone) = not (is_empty phone)
target_is_given (by_user p user) = not (is_empty user)

named_globally :
    (workspace id : ℕ) (t : GlobalTarget) (c : Contact)
    → target_is_given t ≡ true
    → names_contact t c ≡ true
    → entry_holds workspace c (global_entry id t) ≡ true
unfolding entry_holds target_is_given
named_globally workspace id (by_phone phone) c g h =
    ground (arith, g, h, text_is-some c.normalized_phone phone h, text_eq_self phone)
named_globally workspace id (by_user p user) c g h =
    ground
      (arith, g, h, text_is-some c.platform_user_id user (ground (arith, h)), text_eq_self user)

listed_globally :
    (workspace : ℕ) (t : GlobalTarget) (c : Contact) (e : SuppressionEntry)
    → target_is_given t ≡ true
    → names_contact t c ≡ true
    → is_global_entry t e ≡ true
    → entry_holds workspace c e ≡ true
unfolding entry_holds target_is_given
listed_globally workspace (by_phone phone) c e g h k = ground (
  arith,
  g,
  h,
  k,
  text_is-some c.normalized_phone phone h,
  text_is-some e.normalized_phone phone (ground (arith, k)),
  text_eq_self phone,
)
listed_globally workspace (by_user p user) c e g h k = ground (
  arith,
  g,
  h,
  k,
  text_is-some c.platform_user_id user (ground (arith, h)),
  text_is-some e.platform_user_id user (ground (arith, k)),
  text_eq_self user,
)

any-implied :
    {A : Type 0} (p q : A → Bool)
    → ((x : A) → p x ≡ true → q x ≡ true)
    → (xs : List A) → any p xs ≡ true
    → any q xs ≡ true
any-implied p q imp [] h = h
any-implied p q imp (x ∷ xs) h = ground (arith, h, imp x, any-implied p q imp xs)

list_globally-covers :
    (admin_user workspace : ℕ) (t : GlobalTarget) (c : Contact) (db : Db)
    → target_is_given t ≡ true
    → names_contact t c ≡ true
    → any (entry_holds workspace c) (list_globally admin_user t db).suppressions ≡ true
unfolding list_globally
list_globally-covers admin_user workspace t c db g h =
    elim (Option-cases (find_first (is_global_entry t) db.suppressions)) [
      | inl new_one ↦ ground (
        arith,
        new_one,
        named_globally workspace db.next_id t c g h,
        any-append (entry_holds workspace c) db.suppressions (global_entry db.next_id t ∷ []),
      )
      | inr (e, found) ↦ ground (
        arith,
        found,
        any-find_first (is_global_entry t) db.suppressions,
        any-implied (is_global_entry t) (entry_holds workspace c)
            (λ x k. listed_globally workspace t c x g h k) db.suppressions,
      )
    ]

admin_phone-given :
    (phone : Option Text) (db : Db) {o : Option Text} {s : Db}
    → admin_phone phone db ≡ (ok o, s)
    → (s ≡ db) × ((t : Text) → o ≡ some t → is_empty t ≡ false)
admin_phone-given phone db h = elim (Phone-cases (normalize_phone (given phone))) [
  | inl none_given ↦
      (ground (arith, h, none_given), λ t e. absurd (ground (arith, h, none_given, e)))
  | inr (inl bad) ↦ absurd (ground (arith, h, bad))
  | inr (inr (p, good)) ↦ (
    ground (arith, h, good),
    λ t e. ground (arith, h, good, e, valid-not_empty (given phone) p good),
  )
]

target_of-given :
    (phone : Option Text) (input : SuppressionInput) {t : GlobalTarget}
    → ((p : Text) → phone ≡ some p → is_empty p ≡ false)
    → target_of phone input ≡ some t
    → target_is_given t ≡ true
unfolding target_is_given
target_of-given (some p) input full h = ground (arith, h, full p refl)
target_of-given none input full h = ground (arith, h)

-- A global suppression holds in every workspace: once one is added, every contact with the phone that was
-- given or, where none was, with the user id on the platform that were given, counts as suppressed
-- wherever it is.
pub globally_listed-is_suppressed :
    (admin_user workspace : ℕ) (input : SuppressionInput) (c : Contact) (db : Db)
    {phone : Option Text} {t : GlobalTarget} {e : SuppressionEntry} {db' : Db}
    → admin_phone input.phone db ≡ (ok phone, db)
    → target_of phone input ≡ some t
    → add_global_suppression admin_user input db ≡ (ok e, db')
    → names_contact t c ≡ true
    → is_suppressed db' workspace c ≡ true
unfolding add_global_suppression is_suppressed is_on_suppression_list
globally_listed-is_suppressed admin_user workspace input c db {phone} {t} normal aimed h named =
    let (same, full) = admin_phone-given input.phone db normal in
    ground (
      arith,
      h,
      normal,
      aimed,
      list_globally-covers admin_user workspace t c db (target_of-given phone input full aimed)
          named,
    )
