-- ===== src/Worker/Dispatch.antt =====
-- The workers of apps/worker/src/main.ts and the queues that they take their jobs from.
use tool_messager.Prelude.{ok, true, ℕ}
use tool_messager.Store.{
  JobKey, JobPayload, QueueEntry, QueueName, for_campaign, for_event, for_import, for_message,
  for_post,
}
use tool_messager.Worker.Base.{Work, World}
use tool_messager.Worker.Send.{process_message}
use tool_messager.Worker.Campaign.{process_campaign}
use tool_messager.Worker.Jobs.{process_post}
use tool_messager.Worker.Staged.{route_contact_import, staged_file}
use tool_messager.Worker.Webhook.{process_zalo_webhook}

-- `new Worker(queues.<queue>, <processor>)`: the processor of a queue reads its arguments from the data
-- of the job. No code puts data of another kind on a queue. BullMQ gives every running job a token.
run_payload : World → (now : ℕ) → QueueName → JobKey → JobPayload → Work (Unit {0})
run_payload w now QueueName.message_send key (for_message id) db = process_message w now true id db
run_payload w now QueueName.automation_execute key (for_campaign id) db =
    (ok tt, process_campaign now key id db)
run_payload w now QueueName.post_publish key (for_post id) db = process_post w now id db
run_payload w now QueueName.contact_import key (for_import id) db =
    route_contact_import now key (staged_file id) db
run_payload w now QueueName.webhook_process key (for_event event account) db =
    process_zalo_webhook now key event account db
run_payload w now _ _ _ db = (ok tt, db)

-- A worker that takes the job of a call of `queue.add`.
unfoldable pub run_entry : World → (now : ℕ) → QueueEntry → Work (Unit {0})
unfolding run_payload
run_entry w now e = run_payload w now e.queue e.job_id e.payload
