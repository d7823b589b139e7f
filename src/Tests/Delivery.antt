-- ===== src/Tests/Delivery.antt =====
-- Messages, the worker and the scheduler at concrete inputs.
use tool_messager.Prelude.{
  [], any, codes, count_where, err, false, find_first, ok, refl, some, starts_with, text_eq, true,
  update_where, upsert, ◌++◌, ◌∷◌, ◌≡◌, ◌⊎◌,
}
use tool_messager.Shared.{allowed, evaluate_message_safety, opted_in}
use tool_messager.Shared.Safety.{IsSendable}
use tool_messager.Access.{Permission, WorkspaceRole, has_permission}
use tool_messager.Store.{
  Contact, Db, SocialAccount, contact_by_id, day_of_month, day_start, find_last, is_connected,
  latest_subscription, launch_campaign_job, month_start, outbound_since, update_job, webhook_job,
  workspace_of,
}
use tool_messager.Policy.{assert_outbound_allowed, entitlements, override_bytes, override_number}
use tool_messager.Zalo.{zalo_adapter}
use tool_messager.Outbound.{granted_capability, is_on_suppression_list, is_suppressed}
use tool_messager.Worker.{
  access_token_for, account_by_id, account_rate_allowed, campaign_status_of, check_policy,
  check_safety, contact_of_message, decide, linked_message, message_by_id, message_context,
  open_conversation, outbound_block_reason, process_campaign, process_message, process_open_message,
  process_zalo_webhook, rate_of, record_sent, run_event, send_if_within_rate, transmit,
  update_campaign_progress, update_message,
}
use tool_messager.Worker.Guarded.{IsGuarded, handed_over-IsGuarded}
use tool_messager.Worker.Once.{AtMostOne, AtMostOne-empty, process_campaign-AtMostOne}
use tool_messager.Worker.Optout.{opted_out-is_suppressed}
use tool_messager.Messages.{
  duplicate_prevented, hand_over, message_by_key, own_account, own_contact, recent_messages,
  requested_message, send, send_context, send_new, store_message,
}
use tool_messager.Messages.Safe.{send_queued-IsSendable}
use tool_messager.Messages.Idempotent.{send-send}
use tool_messager.Scheduler.{has_lapsed, tick}
use tool_messager.Scheduler.Lapsed.{tick-closes_lapsed}
use tool_messager.Tests.Samples.{account, contact, message, message_db, quiet_db}
use tool_messager.Tests.Situations.{
  event_db, idle_scheduler, running_db, scheduler_env, send_env, send_input, sent_db, sent_message,
  told_db, unfollow_event, world,
}
use tool_messager.Workspaces.{
  ServiceError, assert_membership, assert_permission, is_active_membership, membership_of,
  role_allowed, with_policy,
}

handed_over-IsGuarded_example :
    (a : SocialAccount) × (c : Contact) × IsGuarded world 20 message_db message a c
unfolding message_by_id find_first process_message process_open_message campaign_status_of
    linked_message account_by_id check_policy outbound_block_reason workspace_of latest_subscription
    find_last override_number outbound_since count_where day_start month_start day_of_month
    check_safety contact_of_message contact_by_id decide evaluate_message_safety message_context
    is_suppressed is_on_suppression_list zalo_adapter granted_capability send_if_within_rate
    account_rate_allowed rate_of upsert transmit access_token_for record_sent
    update_campaign_progress update_job update_message update_where
handed_over-IsGuarded_example =
    handed_over-IsGuarded world 20 true message_db message refl refl refl

process_campaign-AtMostOne_example :
    AtMostOne 8 (process_campaign 20 (launch_campaign_job 8) 8 running_db)
process_campaign-AtMostOne_example =
    process_campaign-AtMostOne 20 (launch_campaign_job 8) 8 running_db
      (AtMostOne-empty 8 running_db refl)

opted_out-is_suppressed_example : is_suppressed told_db 1 contact ≡ true
unfolding find_first text_eq process_zalo_webhook run_event starts_with
opted_out-is_suppressed_example =
    opted_out-is_suppressed 20 (webhook_job 5 (codes "w")) 60 5 event_db {e = unfollow_event}
      {a = account} {s = told_db} contact refl refl refl refl refl refl

send_queued-IsSendable_example :
    (a : SocialAccount) × (c : Contact) × (sent_db.messages
      ≡ quiet_db.messages ++ sent_message ∷ [])
    × (own_account quiet_db 1 5 ≡ some a)
    × (own_contact quiet_db 1 6 ≡ some c)
    × (is_connected a.status ≡ true)
    × (c.suppressed ≡ false)
    × (is_on_suppression_list quiet_db 1 c ≡ false)
    × (true ≡ true → c.consent_status ≡ opted_in)
    × IsSendable (send_context send_env 20 1 quiet_db a c true)
unfolding send assert_permission assert_membership is_active_membership membership_of find_first
    role_allowed has_permission message_by_key send_new with_policy assert_outbound_allowed
    entitlements workspace_of latest_subscription find_last override_bytes override_number
    outbound_since count_where store_message hand_over evaluate_message_safety send_context
    is_suppressed is_on_suppression_list zalo_adapter granted_capability recent_messages
    requested_message open_conversation
send_queued-IsSendable_example =
    send_queued-IsSendable send_env 20 2 1 send_input quiet_db {m = sent_message} {d = allowed}
      {s = sent_db} refl refl

send-send_example :
    (t : Db) × (t ≡ record sent_db { audits = t.audits })
    × (((role : WorkspaceRole) × (assert_permission 30 2 1 Permission.message_send sent_db
            ≡ (ok role, t))
          × (send send_env 30 2 1 send_input sent_db ≡ (ok (duplicate_prevented sent_message), t)))
        ⊎ ((e : ServiceError) × (assert_permission 30 2 1 Permission.message_send sent_db
              ≡ (err e, t))
            × (send send_env 30 2 1 send_input sent_db ≡ (err e, t))))
unfolding send assert_permission assert_membership is_active_membership membership_of find_first
    role_allowed has_permission message_by_key send_new with_policy assert_outbound_allowed
    entitlements workspace_of latest_subscription find_last override_bytes override_number
    outbound_since count_where store_message hand_over evaluate_message_safety send_context
    is_suppressed is_on_suppression_list zalo_adapter granted_capability recent_messages
    requested_message open_conversation
send-send_example =
    send-send send_env 20 2 1 send_input quiet_db send_env 30 2 send_input {m = sent_message}
      {d = allowed} {s = sent_db} refl refl

tick-closes_lapsed_example :
    any
      (has_lapsed 90000000000)
      (tick scheduler_env 90000000000 (idle_scheduler, quiet_db)).1.subscriptions
    ≡ false
tick-closes_lapsed_example =
    tick-closes_lapsed scheduler_env 90000000000 idle_scheduler quiet_db refl
