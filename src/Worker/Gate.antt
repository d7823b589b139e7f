-- ===== src/Worker/Gate.antt =====
-- The two outbound gates agree: that of apps/api/src/common/subscription-policy.service.ts, which
-- throws, and `outboundBlockReason` of apps/worker/src/main.ts.
use tool_messager.Prelude.{arith, none, ok, some, ℕ, ◌≡◌, ◌≤◌}
use tool_messager.Store.{Db, Subscription, Workspace, latest_subscription, workspace_of}
use tool_messager.Policy.{Entitlements, assert_outbound_allowed, entitlements_of, limits_of}
use tool_messager.Policy.Entitled.{
  HasStorage, IsEntitled, IsEntitled-of_ok, entitlements_complete, entitlements_sound,
  message_limits_of_ok,
}
use tool_messager.Policy.Quota.{outbound_allowed_sound}
use tool_messager.Worker.Base.{outbound_block_reason}

module _ (now : ℕ) (db : Db) (id additional : ℕ) where
  gate_of_subscription :
      (w : Workspace) (s : Subscription) {e : Entitlements} {db' : Db}
      → workspace_of db id ≡ some w
      → latest_subscription db id ≡ some s
      → assert_outbound_allowed now id additional db ≡ (ok e, db')
      → outbound_block_reason now db id additional ≡ none
  unfolding outbound_block_reason
  gate_of_subscription w s hw hs h =
      let q = outbound_allowed_sound now db id additional h in
      let r = (IsEntitled-of_ok now db id w s hw hs q.1).0 in
      let l = message_limits_of_ok now db id w s hw hs q.1 in ground arith

  -- What the API lets out, the worker does not hold back.
  pub api_allows-worker_allows :
      {e : Entitlements} {db' : Db}
      → assert_outbound_allowed now id additional db ≡ (ok e, db')
      → outbound_block_reason now db id additional ≡ none
  api_allows-worker_allows h =
      let q = outbound_allowed_sound now db id additional h in
      let r = entitlements_sound now db id q.1 in
      gate_of_subscription r.0 r.1 r.2.tenant r.2.subscribed h

  IsEntitled-of_gate :
      (w : Workspace) (s : Subscription)
      → workspace_of db id ≡ some w
      → latest_subscription db id ≡ some s
      → s.start_at ≤ now
      → outbound_block_reason now db id additional ≡ none
      → IsEntitled now db id w s
  unfolding outbound_block_reason
  IsEntitled-of_gate w s hw hs started h = record {
    tenant = hw;
    tenant_active = ground arith;
    not_suspended = ground arith;
    subscribed = hs;
    started = started;
    not_ended = ground arith;
    live = ground arith;
  }

  -- What the worker lets out, the API allows too, if the subscription has started, which only the API
  -- checks, and its storage override can be read.
  pub worker_allows-api_allows :
      (w : Workspace) (s : Subscription) {bytes : ℕ}
      → workspace_of db id ≡ some w
      → latest_subscription db id ≡ some s
      → s.start_at ≤ now
      → HasStorage s bytes
      → outbound_block_reason now db id additional ≡ none
      → assert_outbound_allowed now id additional db ≡ (ok (entitlements_of now s bytes), db)
  unfolding outbound_block_reason assert_outbound_allowed entitlements_of limits_of
  worker_allows-api_allows w s hw hs started storage h =
      let full =
        entitlements_complete now db id w s (IsEntitled-of_gate w s hw hs started h) storage in
      ground arith
