-- ===== src/Outbound.antt =====
-- What apps/api/src/messages/messages.service.ts and apps/worker/src/main.ts share: whom the
-- suppression list holds, and how an adapter's capability is read.
use tool_messager.Prelude.{
  Bool, Option, Text, any, codes, false, is_empty, none, not, some, text_eq, true, ℕ, ◌&&◌, ◌||◌,
}
use tool_messager.Shared.{CapabilityStatus, Platform, permission_required, same_platform, supported}
use tool_messager.Store.{
  Contact, Db, SocialAccount, SuppressionEntry, global, is_do_not_contact, number_is, tenant,
  text_is,
}

-- `...(value ? [matcher] : [])`, and the matcher's equality with an optional column
abbrev pub matches_text : Option Text → Option Text → Bool
matches_text none column = false
matches_text (some t) column = not (is_empty t) && text_is column t

abbrev pub platform_is : Option Platform → Platform → Bool
platform_is none p = false
platform_is (some q) p = same_platform q p

abbrev pub scope_covers : (workspace : ℕ) → SuppressionEntry → Bool
scope_covers workspace e = elim e.scope [
  | global ↦ true
  | tenant ↦ number_is e.workspace_id workspace
]

unfoldable pub entry_holds : (workspace : ℕ) → Contact → SuppressionEntry → Bool
entry_holds workspace c e =
    scope_covers workspace e
    && (matches_text c.normalized_phone e.normalized_phone
        || (platform_is e.platform c.platform
            && matches_text c.platform_user_id e.platform_user_id))

unfoldable pub is_on_suppression_list : Db → (workspace : ℕ) → Contact → Bool
is_on_suppression_list db workspace c = any (entry_holds workspace c) db.suppressions

-- `Boolean(suppression) || contact.suppressed || contact.status === 'DO_NOT_CONTACT'`
unfoldable pub is_suppressed : Db → (workspace : ℕ) → Contact → Bool
is_suppressed db workspace c =
    is_on_suppression_list db workspace c || c.suppressed || is_do_not_contact c.status

unfoldable pub has_messaging_permission : SocialAccount → Bool
has_messaging_permission a = any (text_eq (codes "MESSAGING")) a.permissions

-- A capability that needs a permission counts as supported where the account has it.
unfoldable pub granted_capability : CapabilityStatus → (has : Bool) → CapabilityStatus
granted_capability permission_required true = supported
granted_capability c _ = c
