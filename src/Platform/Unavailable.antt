-- ===== src/Platform/Unavailable.antt =====
-- An adapter that implements no operation never reports a success
-- (packages/platform-core/src/index.ts).
use tool_messager.Prelude.{Text, arith, false, none, true, ◌↔◌, ◌≡◌, ◌≢◌}
use tool_messager.Shared.{supported}
use tool_messager.Platform.{
  Adapter, Operation, official_operation, required_capability, success, unconfigured, unsupported,
}

-- Without an implementation every operation ends in a failure with a code and no payload:
-- NOT_CONFIGURED exactly when the adapter is not configured, NOT_SUPPORTED exactly when it is
-- configured and the operation's capability is not SUPPORTED, and FAILED otherwise.
pub official_operation_outcome :
    (a : Adapter) (op : Operation)
    → let r = official_operation {T = Text} a op in
      (r.status ≢ success)
      × (r.payload ≡ none)
      × ((r.status ≡ unconfigured) ↔ (a.is_configured ≡ false))
      × ((r.status ≡ unsupported)
          ↔ ((a.is_configured ≡ true) × (a.capabilities (required_capability op) ≢ supported)))
unfolding official_operation
official_operation_outcome a op = (
  λ e. ground arith,
  ground arith,
  (λ e. ground arith, λ e. ground arith),
  (λ e. (ground arith, λ k. ground arith), λ h. ground (arith, h.1)),
)
