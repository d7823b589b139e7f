-- ===== src/Shared/Safety.antt =====
-- What passes the gate of evaluateMessageSafety (packages/shared/src/index.ts), and which refusal
-- is given.
use tool_messager.Prelude.{
  Bool, List, [], arith, false, if◌then◌else◌, not, true, ◌&&◌, ◌↔◌, ◌∷◌, ◌≡◌, ◌≢◌,
}
use tool_messager.Shared.{
  SafetyCode, SafetyContext, SafetyDecision, account_permission_denied, allowed, consent_required,
  contact_suppressed, evaluate_message_safety, is_not_configured, is_opted_in, is_opted_out,
  is_supported, opted_in, opted_out, platform_not_configured, platform_not_supported,
  platform_rate_limit, refused, supported,
}

pub record IsSendable (c : SafetyContext) : Type 0 where
  pub not_suppressed : c.suppressed ≡ false
  pub not_opted_out : c.consent_status ≢ opted_out
  pub consented : c.promotional ≡ true → c.consent_status ≡ opted_in
  pub permitted : c.has_permission ≡ true
  pub capable : c.capability ≡ supported
  pub within_limit : c.within_rate_limit ≡ true

allowed_sound : (c : SafetyContext) → evaluate_message_safety c ≡ allowed → IsSendable c
unfolding evaluate_message_safety
allowed_sound c h = record {
  not_suppressed = ground arith;
  not_opted_out = λ e. ground arith;
  consented = λ e. ground arith;
  permitted = ground arith;
  capable = ground arith;
  within_limit = ground arith;
}

allowed_complete : (c : SafetyContext) → IsSendable c → evaluate_message_safety c ≡ allowed
unfolding evaluate_message_safety
allowed_complete c h = ground (arith, h.not_opted_out, h.consented)

-- A message is allowed exactly when the contact is neither suppressed nor opted out, has opted in if
-- the message is promotional, the account holds the permission, the platform supports messaging and
-- the rate limit is not reached.
pub safety_allowed_iff : (c : SafetyContext) → (evaluate_message_safety c ≡ allowed) ↔ IsSendable c
safety_allowed_iff c = (allowed_sound c, allowed_complete c)

-- The checks as a table: what stands against a message, the weightiest first.
abbrev pub Objection : Type 0
Objection = Bool × SafetyCode

pub objections : SafetyContext → List Objection
objections c =
    (c.suppressed, contact_suppressed)
    ∷ (is_opted_out c.consent_status, contact_suppressed)
    ∷ (c.promotional && not (is_opted_in c.consent_status), consent_required)
    ∷ (not c.has_permission, account_permission_denied)
    ∷ (is_not_configured c.capability, platform_not_configured)
    ∷ (not (is_supported c.capability), platform_not_supported)
    ∷ (not c.within_rate_limit, platform_rate_limit)
    ∷ []

pub first_objection : List Objection → SafetyDecision
first_objection [] = allowed
first_objection ((holds, code) ∷ rest) = if holds then refused code else first_objection rest

-- The gate answers with the first objection that holds, in the order suppression, consent,
-- permission, configuration, support, rate; and allows a message to which none holds.
pub safety-first_objection :
    (c : SafetyContext) → evaluate_message_safety c ≡ first_objection (objections c)
unfolding evaluate_message_safety objections first_objection
safety-first_objection c = ground arith
