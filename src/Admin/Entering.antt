-- ===== src/Admin/Entering.antt =====
-- How long a support session of apps/api/src/admin/admin.service.ts lets its administrator into a
-- workspace (apps/api/src/workspaces/workspaces.service.ts).
use tool_messager.Prelude.{
  ==_self, Bool, Option, Option-cases, [], ap, arith, err, false, find_first,
  find_first-append_none, get_or_else, if◌then◌else◌, inl, inr, is_some, ltb, none, ok, refl, some,
  true, ℕ, ◌&&◌, ◌*◌, ◌++◌, ◌+◌, ◌==◌, ◌∙◌, ◌∷◌, ◌≡◌,
}
use tool_messager.Access.{admin}
use tool_messager.Store.{Db, SupportSession, WorkspaceMember, is_active_session, workspace_of}
use tool_messager.Workspaces.{
  access_denied, assert_membership, is_active_membership, membership_of, role_allowed,
  support_session_of,
}
use tool_messager.Admin.Support.{new_session, session_length, start_support_session}

started :
    (now admin_user workspace : ℕ) (minutes : Option ℕ) (db : Db) {s : SupportSession} {db' : Db}
    → start_support_session now admin_user workspace minutes db ≡ (ok s, db')
    → (s ≡ new_session now db.next_id admin_user workspace minutes)
      × (is_some (workspace_of db workspace) ≡ true)
      × (db'.support_sessions ≡ db.support_sessions ++ s ∷ [])
      × (db'.workspaces ≡ db.workspaces)
      × (db'.members ≡ db.members)
unfolding start_support_session
started now admin_user workspace minutes db h = elim (Option-cases (workspace_of db workspace)) [
  | inl gone ↦ absurd (ground (arith, h, gone))
  | inr (w, found) ↦ (
    ground (arith, h, found),
    ground (arith, found),
    ground (arith, h, found),
    ground (arith, h, found),
    ground (arith, h, found),
  )
]

abbrev may_support : (later : ℕ) → Db → (admin_user workspace : ℕ) → SupportSession → Bool
may_support later db admin_user workspace s =
    s.admin_id == admin_user
    && s.workspace_id == workspace
    && is_active_session s.status
    && ltb later s.expires_at
    && is_some (workspace_of db workspace)

session_found :
    (now later admin_user workspace : ℕ) (minutes : Option ℕ) (db db' : Db)
    → support_session_of later db admin_user workspace ≡ none
    → is_some (workspace_of db workspace) ≡ true
    → db'.support_sessions
      ≡ db.support_sessions ++ new_session now db.next_id admin_user workspace minutes ∷ []
    → db'.workspaces ≡ db.workspaces
    → support_session_of later db' admin_user workspace ≡ (
        if ltb later (now + session_length minutes)
        then some (new_session now db.next_id admin_user workspace minutes)
        else none)
unfolding support_session_of workspace_of
session_found now later admin_user workspace minutes db db' none_yet there rows same =
    rw (rows, same)
      (find_first-append_none (may_support later db admin_user workspace) db.support_sessions
          (new_session now db.next_id admin_user workspace minutes) none_yet
        ∙ ground (arith, there, ==_self admin_user, ==_self workspace))

role_in_session :
    (later admin_user workspace : ℕ) (db : Db)
    → is_active_membership db workspace (membership_of db admin_user workspace) ≡ false
    → (assert_membership later admin_user workspace none db).0 ≡ (
        if is_some (support_session_of later db admin_user workspace)
        then ok admin
        else err access_denied)
unfolding assert_membership role_allowed
role_in_session later admin_user workspace db outside =
    elim (Option-cases (support_session_of later db admin_user workspace)) [
      | inl nobody ↦ ground (arith, outside, nobody)
      | inr (s, found) ↦ ground (arith, outside, found)
    ]

membership_unchanged :
    (db db' : Db) (user workspace : ℕ)
    → db'.members ≡ db.members
    → db'.workspaces ≡ db.workspaces
    → is_active_membership db' workspace (membership_of db' user workspace)
      ≡ is_active_membership db workspace (membership_of db user workspace)
unfolding membership_of
membership_unchanged db db' user workspace members rows =
    ap
      (λ ms.
        is_active_membership db' workspace (
          find_first (λ (m : WorkspaceMember). m.workspace_id == workspace && m.user_id == user)
            ms))
      members
    ∙ same_rows (
        find_first (λ (m : WorkspaceMember). m.workspace_id == workspace && m.user_id == user)
          db.members)
  where
    same_rows :
        (m : Option WorkspaceMember)
        → is_active_membership db' workspace m ≡ is_active_membership db workspace m
    same_rows none = unfold is_active_membership in refl
    same_rows (some m) = unfold is_active_membership in rw rows refl

-- An administrator who is not an active member and has no running session enters a workspace by the
-- session that was started: as ADMIN while its minutes last, 60 where none are given, and not after.
pub support_session_window :
    (now later admin_user workspace : ℕ) (minutes : Option ℕ) (db : Db) {s : SupportSession}
    {db' : Db}
    → start_support_session now admin_user workspace minutes db ≡ (ok s, db')
    → is_active_membership db workspace (membership_of db admin_user workspace) ≡ false
    → support_session_of later db admin_user workspace ≡ none
    → (assert_membership later admin_user workspace none db').0
      ≡ (if ltb later (now + get_or_else minutes 60 * 60000) then ok admin else err access_denied)
support_session_window now later admin_user workspace minutes db {db' = db'} h outside none_yet =
    let (session, there, rows, same, members) = started now admin_user workspace minutes db h in
    let window =
      session_found now later admin_user workspace minutes db db' none_yet there
        (rows ∙ ap (λ x. db.support_sessions ++ x ∷ []) session) same in
    let out = membership_unchanged db db' admin_user workspace members same ∙ outside in
    ground (arith, role_in_session later admin_user workspace db' out, window)
