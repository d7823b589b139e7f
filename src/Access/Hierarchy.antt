-- ===== src/Access/Hierarchy.antt =====
-- The roles of packages/auth/src/index.ts are ranked: a higher role can do whatever a lower one can.
use tool_messager.Prelude.{arith, refl, true, ℕ, ◌≡◌, ◌≤◌}
use tool_messager.Access.{
  Permission, WorkspaceRole, admin, has_permission, manager, operator, owner, viewer,
}

abbrev pub rank : WorkspaceRole → ℕ
rank owner = 4
rank admin = 3
rank manager = 2
rank operator = 1
rank viewer = 0

-- Of two roles the higher one, in the order viewer, operator, manager, admin, owner, holds every
-- permission of the lower one.
pub has_permission_mono :
    (low high : WorkspaceRole) (p : Permission)
    → rank low ≤ rank high
    → has_permission low p ≡ true
    → has_permission high p ≡ true
unfolding has_permission
has_permission_mono low owner p h e = refl
has_permission_mono low high p h e = ground arith
