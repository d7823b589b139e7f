-- ===== src/Operations/Publishing.antt =====
-- What the operations of apps/api/src/operations/operations.service.ts do to posts and templates, and
-- what the worker (apps/worker/src/main.ts) makes of a post that is let pass.
use tool_messager.Prelude.{
  List, Option, Option-cases, Result, Result-cases, Text, [], any, ap, arith, false, find_first,
  find_first-update_found, find_first_fits, inl, inr, leb, ok, refl, some, sym, text_eq, true, ℕ,
  ◌&&◌, ◌++◌, ◌+◌, ◌<◌, ◌==◌, ◌∙◌, ◌∷◌, ◌≡◌,
}
use tool_messager.Store.{
  Db, MessageTemplate, Post, QueueEntry, QueueName, for_post, publish_post_job,
}
use tool_messager.Workspaces.Frame.{assert_membership_writes}
use tool_messager.Shared.{Platform}
use tool_messager.Access.{WorkspaceRole}
use tool_messager.Operations.{TemplateInput, create_template, latest_version}
use tool_messager.Operations.Posts.{is_live_post, schedulable, schedule_post, scheduled_post}
use tool_messager.Workspaces.{ServiceError, assert_membership}
use tool_messager.Accounts.{management_roles}

-- A new template's version is above every version that its name has in the workspace, so that name and
-- version stay unique.
latest_version-most :
    (workspace : ℕ) (name : Text) (ts : List MessageTemplate) (n : ℕ)
    → latest_version workspace name ts < n
    → any (λ t. (t.workspace_id == workspace && text_eq t.name name) && leb n t.version) ts ≡ false
unfolding latest_version
latest_version-most workspace name [] n h = refl
latest_version-most workspace name (t ∷ ts) n h =
    ground (arith, h, latest_version-most workspace name ts n)

entered_posts :
    (now user workspace : ℕ) (roles : Option (List WorkspaceRole)) (db : Db)
    {r : Result ServiceError WorkspaceRole} {s : Db}
    → assert_membership now user workspace roles db ≡ (r, s)
    → s.posts ≡ db.posts
entered_posts now user workspace roles db entered =
    sym (ap (λ (x : Result ServiceError WorkspaceRole × Db). x.1.posts) entered)
    ∙ ap (λ (d : Db). d.posts) (assert_membership_writes now user workspace roles db)

-- A template that is created has a version above every version of its name in the workspace, so that
-- name and version stay unique, and is the only row that is added.
pub create_template-fresh :
    (now user workspace : ℕ) (input : TemplateInput) (db : Db) {t : MessageTemplate} {db' : Db}
    → create_template now user workspace input db ≡ (ok t, db')
    → (db'.templates ≡ db.templates ++ t ∷ [])
      × (any
            (λ (u : MessageTemplate).
              (u.workspace_id == workspace && text_eq u.name input.name) && leb t.version u.version)
            db.templates
          ≡ false)
unfolding create_template
create_template-fresh now user workspace input db h =
    elim (Result-cases (assert_membership now user workspace (some management_roles) db)) [
      | inl (e, s, denied) ↦ absurd (ground (arith, h, denied))
      | inr (role, s, entered) ↦
          let kept : s.templates ≡ db.templates =
            sym (ap (λ r. r.1.templates) entered)
            ∙ ap (λ (d : Db). d.templates)
                (assert_membership_writes now user workspace (some management_roles) db) in
          (
            ground (arith, h, entered, kept),
            ground (
              arith,
              h,
              entered,
              kept,
              latest_version-most workspace input.name db.templates
                  (latest_version workspace input.name db.templates + 1) (omega arith),
            ),
          )
    ]

live_post-id :
    (workspace id : ℕ) (p : Post) → is_live_post workspace id p ≡ true → (p.id == id) ≡ true
live_post-id workspace id p h = ground arith

-- A post is scheduled only for the future and only as a draft, approved or failed.
pub schedule_post_sound :
    (now user workspace id scheduled_at : ℕ) (db : Db) {db' : Db}
    → schedule_post now user workspace id scheduled_at db ≡ (ok tt, db')
    → (p : Post) × (find_first (is_live_post workspace id) db.posts ≡ some p)
      × (now < scheduled_at)
      × (schedulable p.status ≡ true)
      × (find_first (is_live_post workspace id) db'.posts
          ≡ some (scheduled_post now user scheduled_at p))
unfolding schedule_post
schedule_post_sound now user workspace id scheduled_at db h =
    elim (Result-cases (assert_membership now user workspace (some management_roles) db)) [
      | inl (e, s, denied) ↦ absurd (ground (arith, h, denied))
      | inr (role, s, entered) ↦
          elim (Option-cases (find_first (is_live_post workspace id) s.posts)) [
            | inl gone ↦ absurd (ground (arith, h, entered, gone))
            | inr (p, found) ↦
                let kept : s.posts ≡ db.posts =
                  entered_posts now user workspace (some management_roles) db entered in
                let fits = find_first_fits (is_live_post workspace id) s.posts found in
                let updated =
                  find_first-update_found (is_live_post workspace id) (λ (r : Post). r.id == id)
                    (scheduled_post now user scheduled_at) (λ x. refl) s.posts found
                    (live_post-id workspace id p fits) in
                (
                  p,
                  ap (find_first (is_live_post workspace id)) (sym kept) ∙ found,
                  ground (arith, h, entered, found),
                  ground (arith, h, entered, found),
                  ground (arith, h, entered, found, updated),
                )
          ]
    ]

-- The entry by which the worker learns that a post is to be published.
abbrev post_entry : ℕ → QueueEntry
post_entry id = record {
  queue = QueueName.post_publish;
  job_id = publish_post_job id;
  payload = for_post id;
}
