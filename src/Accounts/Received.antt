-- ===== src/Accounts/Received.antt =====
-- What apps/api/src/accounts/zalo-webhook.service.ts stores of the events that are posted to it.
use tool_messager.Prelude.{
  ==_self, Bool, Bool-cases, Option, Option-cases, Result, Text, [], any, any-append, ap, arith,
  codes, err, false, find_first, get_or_else, if◌then◌else◌, inl, inr, is_empty, none, ok, refl,
  some, take, text_eq, text_eq_iff, text_eq_self, trim, true, ℕ, ◌++◌, ◌+◌, ◌∙◌, ◌∷◌, ◌≡◌, ◌≤◌, ◌⊎◌,
}
use tool_messager.Zalo.{non_empty, scalar_number}
use tool_messager.Store.{
  Db, JobStatus, QueueEntry, SocialAccount, for_event, has_job_key, new_job, webhook_process,
}
use tool_messager.Accounts.Intake.{
  Accepted, IntakeEnv, ZaloWebhookPayload, accept, accepted, duplicate, event_job, event_key,
  expected_mac, is_official_account, is_probe, is_recent, judge_envelope, official_account_of,
  receive, receive_once, secret_of, store_event, stored_payload, text_of,
}
use tool_messager.Workspaces.{ServiceError, service_unavailable}

pub record IsGenuine (env : IntakeEnv) (now : ℕ) (raw signature : Option Text)
    (p : ZaloWebhookPayload) : Type 0 where
  pub has_secret : is_empty (secret_of env) ≡ false
  pub for_this_app : text_of p.app_id ≡ trim env.client_id
  pub sent_at : ℕ
  pub dated : scalar_number p.timestamp ≡ some sent_at
  pub not_old : now ≤ sent_at + 600000
  pub not_early : sent_at ≤ now + 600000
  pub signed :
      signature
      ≡ some (
          codes "mac="
          ++ env.hash (
              trim env.client_id ++ (get_or_else raw [] ++ (text_of p.timestamp ++ secret_of env))))

abbrev is_accepted : Result ServiceError Accepted → Bool
is_accepted (ok accepted) = true
is_accepted _ = false

non_empty-some : (o : Option Text) {t : Text} → non_empty o ≡ some t → o ≡ some t
non_empty-some none h = absurd (cc)
non_empty-some (some s) h = ground arith

recent_at :
    (now : ℕ) (o : Option ℕ)
    → is_recent now o ≡ true
    → (t : ℕ) × (o ≡ some t) × (now ≤ t + 600000) × (t ≤ now + 600000)
recent_at now none h = absurd (cc)
recent_at now (some t) h = (t, refl, ground (arith, h), ground (arith, h))

mac_of :
    (env : IntakeEnv) (raw : Text) (p : ZaloWebhookPayload)
    → expected_mac env raw p
      ≡ codes "mac="
        ++ env.hash (trim env.client_id ++ (raw ++ (text_of p.timestamp ++ secret_of env)))
unfolding expected_mac
mac_of env raw p = refl

module _ (env : IntakeEnv) (now : ℕ) (raw signature : Option Text) (p : ZaloWebhookPayload)
    (db : Db) where
  -- A call leaves the database alone, or passes every check and goes on to the rows.
  reaches_rows :
      ((is_accepted (accept env now raw signature p db).0 ≡ false)
        × ((accept env now raw signature p db).1 ≡ db))
      ⊎ (IsGenuine env now raw signature p
          × (accept env now raw signature p db ≡ receive env now p db))
  unfolding accept judge_envelope
  reaches_rows = elim (Bool-cases (is_probe raw p)) [
    | inl unsigned ↦ inl (ground (arith, unsigned))
    | inr event ↦ elim (Option-cases (non_empty signature)) [
      | inl missing ↦ inl (ground (arith, event, missing))
      | inr (s, there) ↦ elim (Bool-cases (text_eq s (expected_mac env (get_or_else raw []) p))) [
        | inl right ↦ elim (Bool-cases (text_eq (text_of p.app_id) (trim env.client_id))) [
          | inl ours ↦ elim (Bool-cases (is_recent now (scalar_number p.timestamp))) [
            | inl recent ↦ elim (Bool-cases (is_empty (secret_of env))) [
              | inl bare ↦ inl (ground (arith, event, there, right, ours, recent, bare))
              | inr sealed ↦ elim (Bool-cases (is_empty (trim env.client_id))) [
                | inl bare ↦ inl (ground (arith, event, there, right, ours, recent, sealed, bare))
                | inr named ↦
                    let (at, dated, late, early) = recent_at now _ recent in
                    inr (
                      record {
                        has_secret = sealed;
                        for_this_app = (text_eq_iff _ _).0 ours;
                        sent_at = at;
                        dated = dated;
                        not_old = late;
                        not_early = early;
                        signed =
                            non_empty-some signature there
                            ∙ ap some
                                ((text_eq_iff _ _).0 right ∙ mac_of env (get_or_else raw []) p);
                      },
                      ground (arith, event, there, right, ours, recent, sealed, named),
                    )
              ]
            ]
            | inr stale ↦ inl (ground (arith, event, there, right, ours, stale))
          ]
          | inr other ↦ inl (ground (arith, event, there, right, other))
        ]
        | inr wrong ↦ inl (ground (arith, event, there, wrong))
      ]
    ]
  ]

-- The entry by which the worker learns of an event, and of the account that it is for.
abbrev pub entry_for : IntakeEnv → ZaloWebhookPayload → SocialAccount → (event : ℕ) → QueueEntry
entry_for env p a event = record {
  queue = webhook_process;
  job_id = event_job env a.id p;
  payload = for_event event a.id;
}

-- The database with the event and its job, both pending, in the account's workspace and, where the
-- queue takes it, the entry for the worker.
abbrev pub with_event : IntakeEnv → (now : ℕ) → ZaloWebhookPayload → SocialAccount → Db → Db
with_event env now p a db = record db {
  next_id = db.next_id + 1;
  webhook_events =
      db.webhook_events
      ++ record {
        id = db.next_id;
        workspace_id = a.workspace_id;
        event_type = get_or_else p.event_name [];
        payload = stored_payload p;
        status = JobStatus.pending;
        attempts = 0;
        last_attempt_at = none;
        created_at = now;
      }
        ∷ [];
  jobs =
      db.jobs
      ++ record {
        workspace_id = a.workspace_id;
        queue = webhook_process;
        external_id = event_job env a.id p;
        payload = for_event db.next_id a.id;
        status = JobStatus.pending;
        attempts = 0;
        completed_at = none;
      }
        ∷ [];
  queue = if env.queue_up then db.queue ++ entry_for env p a db.next_id ∷ [] else db.queue;
}

-- What a delivery that is new stores.
stores_event :
    (env : IntakeEnv) (now : ℕ) (p : ZaloWebhookPayload) (a : SocialAccount) (db : Db)
    → any (has_job_key (event_job env a.id p)) db.jobs ≡ false
    → receive_once env now p a db
      ≡ (if env.queue_up then ok accepted else err service_unavailable, with_event env now p a db)
unfolding receive_once store_event
stores_event env now p a db unseen = elim (Bool-cases env.queue_up) [
  | inl up ↦ rw unseen (rw up refl)
  | inr down ↦ rw unseen (rw down refl)
]

-- The account that an event is for, where it is new to it.
pub record IsFirst (env : IntakeEnv) (p : ZaloWebhookPayload) (db : Db) (a : SocialAccount)
    : Type 0 where
  pub oa : Text
  pub names_oa : official_account_of p ≡ some oa
  pub is_for : find_first (is_official_account oa) db.accounts ≡ some a
  pub unseen : any (has_job_key (event_job env a.id p)) db.jobs ≡ false

module _ (env : IntakeEnv) (now : ℕ) (p : ZaloWebhookPayload) (db : Db) where
  receive_cases :
      ((is_accepted (receive env now p db).0 ≡ false) × ((receive env now p db).1 ≡ db))
      ⊎ ((a : SocialAccount) × IsFirst env p db a
          × (receive env now p db ≡ (
            if env.queue_up then ok accepted else err service_unavailable,
            with_event env now p a db,
          )))
  unfolding receive
  receive_cases = elim (Option-cases (official_account_of p)) [
    | inl nobody ↦ inl (ground (arith, nobody))
    | inr (oa, named) ↦ elim (Option-cases (find_first (is_official_account oa) db.accounts)) [
      | inl unknown ↦ inl (ground (arith, named, unknown))
      | inr (a, found) ↦ elim (Bool-cases (any (has_job_key (event_job env a.id p)) db.jobs)) [
        | inl repeated ↦ inl (unfold receive_once in ground (arith, named, found, repeated))
        | inr unseen ↦ inr (
          a,
          record { oa = oa; names_oa = named; is_for = found; unseen = unseen },
          ground (arith, named, found, stores_event env now p a db unseen),
        )
      ]
    ]
  ]

-- An event changes the database only if it is signed with the secret of the app, names the app and is
-- no more than ten minutes off; then it is for an official account that is stored, not deleted and has
-- not seen it, and the change is exactly the event and its job, both pending, in the account's
-- workspace, and the entry for the worker if the queue is up, else the call fails.
pub accept_guarded :
    (env : IntakeEnv) (now : ℕ) (raw signature : Option Text) (p : ZaloWebhookPayload) (db : Db)
    → ((accept env now raw signature p db).1 ≡ db)
      ⊎ (IsGenuine env now raw signature p
          × ((a : SocialAccount) × IsFirst env p db a
              × (accept env now raw signature p db ≡ (
                if env.queue_up then ok accepted else err service_unavailable,
                with_event env now p a db,
              ))))
accept_guarded env now raw signature p db = elim (reaches_rows env now raw signature p db) [
  | inl same ↦ inl same.1
  | inr (genuine, goes_on) ↦ elim (receive_cases env now p db) [
    | inl same ↦ inl (rw goes_on same.1)
    | inr (a, first, stored) ↦ inr (genuine, (a, first, goes_on ∙ stored))
  ]
]

with_event-seen :
    (env : IntakeEnv) (now : ℕ) (p : ZaloWebhookPayload) (a : SocialAccount) (db : Db)
    → any (has_job_key (event_job env a.id p)) (with_event env now p a db).jobs ≡ true
unfolding event_job
with_event-seen env now p a db = ground (
  arith,
  ==_self a.id,
  text_eq_self (take 32 (env.hash (event_key p))),
  any-append (has_job_key (event_job env a.id p)) db.jobs (
      new_job a.workspace_id webhook_process (event_job env a.id p) (for_event db.next_id a.id)
      ∷ []),
)

-- An event that its account has seen is a duplicate.
receive_again :
    (env : IntakeEnv) (later : ℕ) (p : ZaloWebhookPayload) (db : Db) {oa : Text} {a : SocialAccount}
    → official_account_of p ≡ some oa
    → find_first (is_official_account oa) db.accounts ≡ some a
    → any (has_job_key (event_job env a.id p)) db.jobs ≡ true
    → receive env later p db ≡ (ok duplicate, db)
unfolding receive receive_once
receive_again env later p db named found repeated = ground (arith, named, found, repeated)

with_event-accounts :
    (env : IntakeEnv) (now : ℕ) (p : ZaloWebhookPayload) (a : SocialAccount) (db : Db)
    → (with_event env now p a db).accounts ≡ db.accounts
with_event-accounts env now p a db = refl

-- The accounts are as they were, so a later delivery is for the account that has seen the event.
with_event_again :
    (env : IntakeEnv) (now later : ℕ) (up : Bool) (p : ZaloWebhookPayload) (a : SocialAccount)
    (db : Db)
    → IsFirst env p db a
    → receive (record env { queue_up = up }) later p (with_event env now p a db)
      ≡ (ok duplicate, with_event env now p a db)
unfolding event_job
with_event_again env now later up p a db first =
    receive_again (record env { queue_up = up }) later p (with_event env now p a db) first.names_oa
      (ap (find_first (is_official_account first.oa)) (with_event-accounts env now p a db)
        ∙ first.is_for)
      (with_event-seen env now p a db)

repeated_delivery :
    (env : IntakeEnv) (now later : ℕ) (up : Bool) (raw signature : Option Text)
    (p : ZaloWebhookPayload) (a : SocialAccount) (db : Db)
    → IsFirst env p db a
    → (accept (record env { queue_up = up }) later raw signature p (with_event env now p a db)).1
      ≡ with_event env now p a db
repeated_delivery env now later up raw signature p a db first =
    elim (reaches_rows (record env { queue_up = up }) later raw signature p
      (with_event env now p a db)) [
        | inl same ↦ same.1
        | inr (genuine, goes_on) ↦
            ap (λ r. r.1) (goes_on ∙ with_event_again env now later up p a db first)
      ]

-- Once an event was delivered, no later delivery of it changes the database, whenever it comes,
-- however it is signed, and whether or not the queue took the first one.
pub accept_twice :
    (env : IntakeEnv) (now later : ℕ) (up : Bool) (raw signature raw' signature' : Option Text)
    (p : ZaloWebhookPayload) (db : Db)
    → ((accept env now raw signature p db).1 ≡ db)
      ⊎ ((accept
            (record env { queue_up = up })
            later
            raw'
            signature'
            p
            (accept env now raw signature p db).1).1
          ≡ (accept env now raw signature p db).1)
accept_twice env now later up raw signature raw' signature' p db =
    elim (accept_guarded env now raw signature p db) [
      | inl same ↦ inl same
      | inr (genuine, (a, first, stored)) ↦
          inr (rw stored (repeated_delivery env now later up raw' signature' p a db first))
    ]

-- Every event that is accepted is queued for the worker.
pub accepted_queued :
    (env : IntakeEnv) (now : ℕ) (raw signature : Option Text) (p : ZaloWebhookPayload) (db : Db)
    {db' : Db}
    → accept env now raw signature p db ≡ (ok accepted, db')
    → (a : SocialAccount) × IsFirst env p db a
      × (db' ≡ with_event env now p a db)
      × (env.queue_up ≡ true)
accepted_queued env now raw signature p db h = elim (reaches_rows env now raw signature p db) [
  | inl (refused, same) ↦ absurd (ground (arith, h, refused))
  | inr (genuine, goes_on) ↦ elim (receive_cases env now p db) [
    | inl (refused, same) ↦ absurd (ground (arith, h, goes_on, refused))
    | inr (a, first, stored) ↦
        (a, first, ground (arith, h, goes_on, stored), ground (arith, h, goes_on, stored))
  ]
]
