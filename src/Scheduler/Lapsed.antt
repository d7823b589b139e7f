-- ===== src/Scheduler/Lapsed.antt =====
-- After a tick no subscription that has ended is live.
use tool_messager.Prelude.{
  Bool, Bool-cases, List, Option-cases, Result, [], any, arith, err, false, for_each-keeps, inl,
  inr, not, ok, refl, select_where, then_do_keeps, update_where, update_where_none, ℕ, ◌&&◌, ◌==◌,
  ◌∙◌, ◌∷◌, ◌≡◌,
}
use tool_messager.Store.{BackgroundJob, Db, Subscription, SubscriptionStatus, is_outbound_paused}
use tool_messager.Scheduler.{
  Scheduler, SchedulerEnv, SchedulerError, campaign_job, close_subscriptions, expire_all,
  expire_subscription, finish_tick, has_lapsed, is_active_row, is_ending, is_live_row, maintain,
  notify_once, post_job, queue_due, set_status, start_scheduled, tick, warn, warn_all,
  warn_subscription,
}
use tool_messager.Shared.{subscription_warning_threshold}

-- A live row that has ended and is not among those still to be closed.
abbrev is_missed : (now : ℕ) → List Subscription → Subscription → Bool
is_missed now ss r = has_lapsed now r && not (any (λ s. s.id == r.id) ss)

expire_subscription-subscriptions :
    (now : ℕ) (s : Subscription) (db : Db)
    → (expire_subscription now s db).subscriptions
      ≡ update_where (is_live_row s.id) (set_status SubscriptionStatus.expired) db.subscriptions
unfolding expire_subscription notify_once
expire_subscription-subscriptions now s db =
    elim (Bool-cases (any (is_live_row s.id) db.subscriptions)) [
      | inl live ↦ ground (arith, live)
      | inr gone ↦ ground (
        arith,
        gone,
        update_where_none (is_live_row s.id) (set_status SubscriptionStatus.expired)
            db.subscriptions gone,
      )
    ]

missed_update :
    (now : ℕ) (s : Subscription) (ss rows : List Subscription)
    → any (is_missed now (s ∷ ss)) rows ≡ false
    → any
        (is_missed now ss)
        (update_where (is_live_row s.id) (set_status SubscriptionStatus.expired) rows)
      ≡ false
unfolding update_where
missed_update now s ss [] h = refl
missed_update now s ss (r ∷ rows) h = elim (Bool-cases (is_live_row s.id r)) [
  | inl u ↦ grind (arith, missed_update now s ss rows, u, h)
  | inr u ↦ grind (arith, missed_update now s ss rows, u, h)
]

expire_all-missed :
    (now : ℕ) (ss : List Subscription) (db : Db)
    → any (is_missed now ss) db.subscriptions ≡ false
    → any (is_missed now []) (expire_all now ss db).subscriptions ≡ false
unfolding expire_all
expire_all-missed now [] db h = h
expire_all-missed now (s ∷ ss) db h =
    expire_all-missed now ss (expire_subscription now s db)
      (rw (expire_subscription-subscriptions now s db) (missed_update now s ss db.subscriptions h))

lapsed_update :
    (now id : ℕ) (rows : List Subscription)
    → any (has_lapsed now) rows ≡ false
    → any
        (has_lapsed now)
        (update_where (is_active_row id) (set_status SubscriptionStatus.expiring) rows)
      ≡ false
unfolding update_where
lapsed_update now id [] h = refl
lapsed_update now id (r ∷ rows) h = ground (arith, lapsed_update now id rows)

warn_subscription-subscriptions :
    (now : ℕ) (s : Subscription) (db : Db)
    → (warn_subscription now s db).subscriptions
      ≡ update_where (is_active_row s.id) (set_status SubscriptionStatus.expiring) db.subscriptions
unfolding warn_subscription warn notify_once
warn_subscription-subscriptions now s db =
    elim (Option-cases (subscription_warning_threshold s.end_at now)) [
      | inl gone ↦ ground (arith, gone)
      | inr (day, h) ↦ ground (arith, h)
    ]

warn_all-lapsed :
    (now : ℕ) (ss : List Subscription) (db : Db)
    → any (has_lapsed now) db.subscriptions ≡ false
    → any (has_lapsed now) (warn_all now ss db).subscriptions ≡ false
unfolding warn_all
warn_all-lapsed now [] db h = h
warn_all-lapsed now (s ∷ ss) db h =
    warn_all-lapsed now ss (warn_subscription now s db)
      (rw (warn_subscription-subscriptions now s db) (lapsed_update now s.id db.subscriptions h))

not_missed_nil :
    (now : ℕ) (rows : List Subscription)
    → any (is_missed now []) rows ≡ false
    → any (has_lapsed now) rows ≡ false
not_missed_nil now [] h = refl
not_missed_nil now (r ∷ rows) h = ground (arith, not_missed_nil now rows)

missed_more :
    (now : ℕ) (s : Subscription) (ss rows : List Subscription)
    → any (is_missed now ss) rows ≡ false
    → any (is_missed now (s ∷ ss)) rows ≡ false
missed_more now s ss [] h = refl
missed_more now s ss (r ∷ rows) h = ground (arith, missed_more now s ss rows)

-- Every row that has lapsed is among those selected.
none_missed :
    (now : ℕ) (rows : List Subscription)
    → any (is_missed now (select_where (has_lapsed now) rows)) rows ≡ false
unfolding select_where
none_missed now [] = refl
none_missed now (r ∷ rows) = elim (Bool-cases (has_lapsed now r)) [
  | inl lapsed_row ↦ grind (
    arith,
    lapsed_row,
    missed_more now r (select_where (has_lapsed now) rows) rows (none_missed now rows),
  )
  | inr open_row ↦ grind (arith, open_row, none_missed now rows)
]

close_subscriptions-lapsed :
    (now : ℕ) (db : Db) → any (has_lapsed now) (close_subscriptions now db).subscriptions ≡ false
unfolding close_subscriptions
close_subscriptions-lapsed now db =
    warn_all-lapsed now (select_where (is_ending now) db.subscriptions)
      (expire_all now (select_where (has_lapsed now) db.subscriptions) db)
      (not_missed_nil now
        (expire_all now (select_where (has_lapsed now) db.subscriptions) db).subscriptions
        (expire_all-missed now (select_where (has_lapsed now) db.subscriptions) db
          (none_missed now db.subscriptions)))

start_scheduled-subscriptions :
    (env : SchedulerEnv) (j : BackgroundJob) (db : Db)
    → (start_scheduled env j db).1.subscriptions ≡ db.subscriptions
unfolding start_scheduled
start_scheduled-subscriptions env j db = ground arith

queue_due-subscriptions :
    (env : SchedulerEnv) (now : ℕ) (before db : Db)
    → (queue_due env now before db).1.subscriptions ≡ db.subscriptions
unfolding queue_due
queue_due-subscriptions env now before db = elim (Bool-cases (is_outbound_paused before.control)) [
  | inl halted ↦ rw halted refl
  | inr runs ↦ rw runs (
      then_do_keeps (λ t. t.subscriptions) _ _
        (λ u.
          for_each-keeps (λ t. t.subscriptions) _
            (λ p. start_scheduled-subscriptions env (post_job p)) _)
      ∙ for_each-keeps (λ t. t.subscriptions) _
          (λ c. start_scheduled-subscriptions env (campaign_job c)) _ db)
]

finish_tick-subscriptions :
    (env : SchedulerEnv) (now : ℕ) (s : Scheduler) (r : Result SchedulerError (Unit {0}) × Db)
    → (finish_tick env now s r).1.subscriptions ≡ r.1.subscriptions
unfolding finish_tick maintain
finish_tick-subscriptions env now s (err e, db) = refl
finish_tick-subscriptions env now s (ok u, db) = ground arith

-- After a tick that found no other one running, no subscription is live whose end has come, whether
-- or not the queue can be reached and outbound work is paused.
pub tick-closes_lapsed :
    (env : SchedulerEnv) (now : ℕ) (s : Scheduler) (db : Db)
    → s.is_busy ≡ false
    → any (has_lapsed now) (tick env now (s, db)).1.subscriptions ≡ false
unfolding tick
tick-closes_lapsed env now s db h =
    let after = queue_due env now db (close_subscriptions now db) in
    ground (
      arith,
      h,
      finish_tick-subscriptions env now s after,
      queue_due-subscriptions env now db (close_subscriptions now db),
      close_subscriptions-lapsed now db,
    )
