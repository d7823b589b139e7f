-- ===== src/Scheduler/Quiet.antt =====
-- What a tick leaves alone: the queue while outbound is paused, and what was notified before.
use tool_messager.Prelude.{
  List, Option-cases, [], arith, inl, inr, refl, select_where, true, ℕ, ◌∷◌, ◌≡◌,
}
use tool_messager.Store.{Db, NotificationEvent, NotificationKey, Subscription, is_outbound_paused}
use tool_messager.Scheduler.{
  Scheduler, SchedulerEnv, close_subscriptions, expire_all, expire_subscription, finish_tick,
  has_lapsed, is_ending, maintain, notify_once, queue_due, tick, warn, warn_all, warn_subscription,
}
use tool_messager.Shared.{subscription_warning_threshold}

notify_once-queue :
    (now workspace : ℕ) (key : NotificationKey) (event : NotificationEvent) (db : Db)
    → (notify_once now workspace key event db).queue ≡ db.queue
unfolding notify_once
notify_once-queue now workspace key event db = ground arith

expire_all-queue :
    (now : ℕ) (ss : List Subscription) (db : Db) → (expire_all now ss db).queue ≡ db.queue
unfolding expire_all expire_subscription notify_once
expire_all-queue now [] db = refl
expire_all-queue now (s ∷ ss) db =
    ground (arith, expire_all-queue now ss (expire_subscription now s db))

warn_subscription-queue :
    (now : ℕ) (s : Subscription) (db : Db) → (warn_subscription now s db).queue ≡ db.queue
unfolding warn_subscription warn notify_once
warn_subscription-queue now s db =
    elim (Option-cases (subscription_warning_threshold s.end_at now)) [
      | inl gone ↦ ground (arith, gone)
      | inr (day, h) ↦ ground (arith, h)
    ]

warn_all-queue :
    (now : ℕ) (ss : List Subscription) (db : Db) → (warn_all now ss db).queue ≡ db.queue
unfolding warn_all
warn_all-queue now [] db = refl
warn_all-queue now (s ∷ ss) db =
    ground
      (arith, warn_all-queue now ss (warn_subscription now s db), warn_subscription-queue now s db)

-- While outbound work is paused, a tick adds nothing to the queue.
pub tick-paused :
    (env : SchedulerEnv) (now : ℕ) (s : Scheduler) (db : Db)
    → is_outbound_paused db.control ≡ true
    → (tick env now (s, db)).1.queue ≡ db.queue
unfolding tick finish_tick queue_due close_subscriptions maintain
tick-paused env now s db h = ground (
  arith,
  warn_all-queue now (select_where (is_ending now) db.subscriptions)
      (expire_all now (select_where (has_lapsed now) db.subscriptions) db),
  expire_all-queue now (select_where (has_lapsed now) db.subscriptions) db,
)
