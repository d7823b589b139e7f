-- ===== src/Admin/Support.antt =====
-- The support sessions of apps/api/src/admin/admin.service.ts.
use tool_messager.Prelude.{
  Bool, Exec, List, Option, [], find_first, get_or_else, leb, ltb, modify, read, require_some,
  return, select_where, some, update_where, ℕ, ◌&&◌, ◌*◌, ◌++◌, ◌+◌, ◌==◌, ◌>>=◌, ◌>>◌, ◌∷◌,
}
use tool_messager.Store.{
  Db, SupportSession, SupportStatus, is_active_session, support_session_ended,
  support_session_started, workspace_of,
}
use tool_messager.Workspaces.{ServiceError, not_found}
use tool_messager.Admin.{add_admin_audit}

-- `durationMinutes ?? 60`
abbrev pub session_length : Option ℕ → ℕ
session_length minutes = get_or_else minutes 60 * 60000

abbrev pub new_session : (now id admin workspace : ℕ) → Option ℕ → SupportSession
new_session now id admin workspace minutes = record {
  id = id;
  admin_id = admin;
  workspace_id = workspace;
  status = SupportStatus.active;
  expires_at = now + session_length minutes;
}

unfoldable pub start_support_session :
    (now admin workspace : ℕ) → (minutes : Option ℕ) → Exec Db ServiceError SupportSession
start_support_session now admin workspace minutes = do
  w ← read (λ db. workspace_of db workspace)
  w ← require_some w not_found
  session ← read (λ db. new_session now db.next_id admin workspace minutes)
  modify (λ db. record db {
    next_id = db.next_id + 1;
    support_sessions = db.support_sessions ++ session ∷ [];
  })
  modify (add_admin_audit (some workspace) admin support_session_started session.id)
  return session

abbrev is_session_of : (admin : ℕ) → SupportSession → Bool
is_session_of admin s = s.admin_id == admin && is_active_session s.status

abbrev set_session_status : SupportStatus → SupportSession → SupportSession
set_session_status status s = record s { status = status }

-- The sessions that run, once those that ran out are closed.
unfoldable pub support_sessions : (now admin : ℕ) → Exec Db ServiceError (List SupportSession)
support_sessions now admin = do
  modify (λ db. record db {
    support_sessions =
        update_where (λ s. is_session_of admin s && leb s.expires_at now)
          (set_session_status SupportStatus.expired) db.support_sessions;
  })
  read (λ db. select_where (λ s. is_session_of admin s && ltb now s.expires_at) db.support_sessions)

unfoldable pub end_support_session : (admin id : ℕ) → Exec Db ServiceError (Unit {0})
end_support_session admin id = do
  s ← read (λ db. find_first (λ r. r.id == id && is_session_of admin r) db.support_sessions)
  s ← require_some s not_found
  modify (λ db. record db {
    support_sessions =
        update_where (λ r. r.id == id) (set_session_status SupportStatus.ended) db.support_sessions;
  })
  modify (add_admin_audit (some s.workspace_id) admin support_session_ended id)
