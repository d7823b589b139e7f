-- ===== src/Access.antt =====
-- packages/auth/src/index.ts: workspace roles, permissions, and which role holds which permission.
pub mod Hierarchy
use tool_messager.Prelude.{Bool, false, not, true}

pub data WorkspaceRole : Type 0 where
  owner admin manager operator viewer : WorkspaceRole

pub data Permission : Type 0 where
  workspace_read workspace_manage member_invite account_read account_manage : Permission
  contact_read contact_manage contact_export message_read message_send : Permission
  campaign_read campaign_manage campaign_approve post_read post_manage post_publish : Permission
  proxy_manage audit_read : Permission

abbrev is_workspace_manage : Permission → Bool
is_workspace_manage workspace_manage = true
is_workspace_manage _ = false

-- What a MANAGER lacks.
abbrev is_administrative : Permission → Bool
is_administrative workspace_manage = true
is_administrative member_invite = true
is_administrative proxy_manage = true
is_administrative _ = false

abbrev operator_set : Permission → Bool
operator_set workspace_read = true
operator_set account_read = true
operator_set contact_read = true
operator_set contact_manage = true
operator_set message_read = true
operator_set message_send = true
operator_set campaign_read = true
operator_set post_read = true
operator_set _ = false

abbrev viewer_set : Permission → Bool
viewer_set workspace_read = true
viewer_set account_read = true
viewer_set contact_read = true
viewer_set message_read = true
viewer_set campaign_read = true
viewer_set post_read = true
viewer_set _ = false

unfoldable pub has_permission : WorkspaceRole → Permission → Bool
has_permission owner p = true
has_permission admin p = not (is_workspace_manage p)
has_permission manager p = not (is_administrative p)
has_permission operator p = operator_set p
has_permission viewer p = viewer_set p
