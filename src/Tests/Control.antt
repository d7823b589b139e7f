-- ===== src/Tests/Control.antt =====
-- Contacts, administration, operations and the rate counter at concrete inputs.
use tool_messager.Operations.{TemplateInput, create_template, latest_version}
use tool_messager.Prelude.{
  [], any, codes, count_where, err, false, find_first, if◌then◌else◌, leb, ltb, min, none, ok, refl,
  some, text_eq, trim, true, update_where, ◌&&◌, ◌*◌, ◌++◌, ◌+◌, ◌-◌, ◌==◌, ◌∷◌, ◌≡◌, ◌≤◌,
}
use tool_messager.Shared.{contact_suppressed, evaluate_message_safety, opted_out, refused, zalo}
use tool_messager.Access.{admin, has_permission}
use tool_messager.Store.{
  Db, Message, MessageTemplate, blocked, find_last, latest_subscription, outbound_since,
  unsafe_to_send, workspace_of,
}
use tool_messager.Outbound.{is_on_suppression_list, is_suppressed}
use tool_messager.Policy.{assert_outbound_allowed, entitlements, override_bytes, override_number}
use tool_messager.Workspaces.{
  access_denied, assert_membership, assert_permission, is_active_membership, membership_of,
  role_allowed, support_session_of, with_policy,
}
use tool_messager.Messages.{
  hand_over, message_by_key, requested_message, send, send_context, send_new, store_message,
}
use tool_messager.Worker.{account_rate_allowed, minute_of, open_conversation, rate_of}
use tool_messager.Worker.Rate.{account_rate-refines, allowed_calls, allowed_calls-min, bump}
use tool_messager.Campaigns.Creation.{eligible, in_segment}
use tool_messager.Phone.{normalize_phone}
use tool_messager.Contacts.{add_suppression, contact_of, contact_phone, suppress, update_consent}
use tool_messager.Contacts.Segments.{segment_matches, segment_size}
use tool_messager.Contacts.Suppressed.{listed-is_suppressed, opted_out-send_blocked}
use tool_messager.Contacts.Preview.{audience_within_preview}
use tool_messager.Admin.Suppression.{add_global_suppression, by_user, global_entry}
use tool_messager.Admin.Tenants.{set_tenant_status}
use tool_messager.Admin.Support.{new_session, start_support_session}
use tool_messager.Admin.Entering.{support_session_window}
use tool_messager.Admin.Listed.{globally_listed-is_suppressed}
use tool_messager.Operations.Posts.{publish_now}
use tool_messager.Operations.Publishing.{create_template-fresh}
use tool_messager.Tests.Samples.{contact, quiet_db, template}
use tool_messager.Tests.Situations.{running_db, send_env, send_input, sent_message, world}
use tool_messager.Tests.Fixtures.{
  all_capable, everybody, post_db, segment_db, segment_input, sourced_contact, user_entry,
}

abbrev consent_db : Db
consent_db = (update_consent 20 2 1 6 opted_out quiet_db).1

abbrev blocked_message : Message
blocked_message = record sent_message {
  status = blocked;
  error_code = some (unsafe_to_send contact_suppressed);
  created_at = 30;
  timestamp = 30;
}

opted_out-send_blocked_example : blocked_message.status ≡ blocked
unfolding update_consent assert_permission assert_membership is_active_membership membership_of
    find_first role_allowed has_permission contact_of send message_by_key send_new with_policy
    assert_outbound_allowed entitlements workspace_of latest_subscription find_last override_bytes
    override_number outbound_since count_where update_where store_message hand_over
    evaluate_message_safety send_context is_suppressed is_on_suppression_list requested_message
    open_conversation
opted_out-send_blocked_example =
    opted_out-send_blocked send_env 20 30 2 2 1 send_input quiet_db {m = blocked_message}
      {d = refused contact_suppressed} {db' = consent_db}
      {s = (send send_env 30 2 1 send_input consent_db).1} refl refl

listed-is_suppressed_example :
    is_suppressed (suppress 20 2 1 user_entry quiet_db).1 1 contact ≡ true
unfolding contact_phone normalize_phone suppress assert_permission assert_membership
    is_active_membership membership_of find_first role_allowed has_permission add_suppression
    text_eq
listed-is_suppressed_example =
    listed-is_suppressed 20 2 1 user_entry none contact quiet_db {id = 100}
      {db' = (suppress 20 2 1 user_entry quiet_db).1} refl refl refl

audience_within_preview_example :
    (segment_matches segment_db 1 everybody.filter sourced_contact ≡ true)
    × (count_where (eligible segment_db 1 segment_input (some everybody) zalo) segment_db.contacts
        ≤ segment_size segment_db 1 everybody.filter)
unfolding eligible in_segment text_eq
audience_within_preview_example =
    audience_within_preview segment_db 1 segment_input everybody zalo sourced_contact refl

abbrev suspended_db : Db
suspended_db = (set_tenant_status 20 9 1 true running_db).1

abbrev support_db : Db
support_db = (start_support_session 20 9 1 (some 30) quiet_db).1

support_session_window_example :
    (assert_membership 50 9 1 none support_db).0
    ≡ (if ltb 50 (20 + 30 * 60000) then ok admin else err access_denied)
unfolding start_support_session workspace_of find_first is_active_membership membership_of
    support_session_of
support_session_window_example =
    support_session_window 20 50 9 1 (some 30) quiet_db {s = new_session 20 100 9 1 (some 30)}
      {db' = support_db} refl refl refl

globally_listed-is_suppressed_example :
    is_suppressed (add_global_suppression 9 user_entry quiet_db).1 1 contact ≡ true
unfolding add_global_suppression normalize_phone trim text_eq find_first
globally_listed-is_suppressed_example =
    globally_listed-is_suppressed 9 1 user_entry contact quiet_db {phone = none}
      {t = by_user zalo (codes "u6")} {e = global_entry 100 (by_user zalo (codes "u6"))}
      {db' = (add_global_suppression 9 user_entry quiet_db).1} refl refl refl refl

account_rate-refines_example :
    ((account_rate_allowed world 20 5 quiet_db).0
      ≡ ok (leb (bump 5 (minute_of 20) (rate_of quiet_db) 5 (minute_of 20)) 3))
    × (rate_of (account_rate_allowed world 20 5 quiet_db).1 5 0
        ≡ bump 5 (minute_of 20) (rate_of quiet_db) 5 0)
account_rate-refines_example = account_rate-refines world 20 5 5 0 quiet_db

allowed_calls-min_example :
    allowed_calls world 20 5 7 quiet_db ≡ min 7 (3 - rate_of quiet_db 5 (minute_of 20))
allowed_calls-min_example = allowed_calls-min world 20 5 7 quiet_db

abbrev queued_post_db : Db
queued_post_db = (publish_now all_capable true 20 2 1 30 post_db).1

abbrev template_input : TemplateInput
template_input = record { name = template.name; content = codes "Hello"; variables = none }

abbrev new_template : MessageTemplate
new_template = record template { id = 100; content = codes "Hello"; version = 2 }

abbrev templated_db : Db
templated_db = (create_template 20 2 1 template_input quiet_db).1

create_template-fresh_example :
    (templated_db.templates ≡ quiet_db.templates ++ new_template ∷ [])
    × (any
          (λ (u : MessageTemplate).
            (u.workspace_id == 1 && text_eq u.name template.name)
            && leb new_template.version u.version)
          quiet_db.templates
        ≡ false)
unfolding create_template assert_membership is_active_membership membership_of find_first
    role_allowed latest_version text_eq workspace_of
create_template-fresh_example =
    create_template-fresh 20 2 1 template_input quiet_db {t = new_template} {db' = templated_db}
      refl
