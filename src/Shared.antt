-- ===== src/Shared.antt =====
-- packages/shared/src/index.ts: the enums that every service speaks, the gate that each outbound
-- message passes, and the life of a subscription.
pub mod Safety
pub mod Lifecycle
use tool_messager.Prelude.{
  Bool, List, Option, [], false, find_first, if◌then◌else◌, leb, not, true, ℕ, ◌&&◌, ◌+◌, ◌-◌, ◌/◌,
  ◌==◌, ◌||◌, ◌∷◌,
}

pub data Platform : Type 0 where
  zalo facebook tiktok : Platform

pub data ConsentStatus : Type 0 where
  unknown opted_in opted_out : ConsentStatus

pub data CapabilityStatus : Type 0 where
  supported not_supported not_configured permission_required : CapabilityStatus

-- `===` on the enums
abbrev pub same_platform : Platform → Platform → Bool
same_platform zalo zalo = true
same_platform facebook facebook = true
same_platform tiktok tiktok = true
same_platform _ _ = false

abbrev pub is_opted_in : ConsentStatus → Bool
is_opted_in opted_in = true
is_opted_in _ = false

abbrev pub is_opted_out : ConsentStatus → Bool
is_opted_out opted_out = true
is_opted_out _ = false

abbrev pub is_supported : CapabilityStatus → Bool
is_supported supported = true
is_supported _ = false

abbrev pub is_not_configured : CapabilityStatus → Bool
is_not_configured not_configured = true
is_not_configured _ = false

abbrev pub is_permission_required : CapabilityStatus → Bool
is_permission_required permission_required = true
is_permission_required _ = false

pub record SafetyContext : Type 0 where
  pub consent_status : ConsentStatus
  pub suppressed : Bool
  pub has_permission : Bool
  pub capability : CapabilityStatus
  pub within_rate_limit : Bool
  pub promotional : Bool

pub data SafetyCode : Type 0 where
  consent_required contact_suppressed account_permission_denied platform_not_configured : SafetyCode
  platform_not_supported platform_rate_limit : SafetyCode

-- A refusal's `reason` is a constant text for each code, and is not carried.
pub data SafetyDecision : Type 0 where
  allowed : SafetyDecision
  refused : SafetyCode → SafetyDecision

unfoldable pub evaluate_message_safety : SafetyContext → SafetyDecision
evaluate_message_safety c =
    if c.suppressed || is_opted_out c.consent_status
    then refused contact_suppressed
    else (if c.promotional && not (is_opted_in c.consent_status)
        then refused consent_required
        else (if not c.has_permission
            then refused account_permission_denied
            else (if is_not_configured c.capability
                then refused platform_not_configured
                else (if not (is_supported c.capability)
                    then refused platform_not_supported
                    else (if not c.within_rate_limit
                        then refused platform_rate_limit
                        else allowed)))))

abbrev pub milliseconds_per_day : ℕ
milliseconds_per_day = 86400000

-- subscriptionWarningDays, and its first entry
abbrev pub subscription_warning_days : List ℕ
subscription_warning_days = 30 ∷ 15 ∷ 7 ∷ 3 ∷ 1 ∷ []

abbrev pub longest_warning : ℕ
longest_warning = 30

pub data LifecycleStatus : Type 0 where
  active expiring expired : LifecycleStatus

-- Dates are milliseconds since 1970. `Math.ceil` of a quotient that is at most 0 is at most 0, which
-- `Math.max` lifts to 0; the truncated difference gives 0 there too.
unfoldable pub subscription_days_remaining : ℕ → ℕ → ℕ
subscription_days_remaining end_at now =
    (end_at - now + (milliseconds_per_day - 1)) / milliseconds_per_day

unfoldable pub subscription_lifecycle_status : ℕ → ℕ → LifecycleStatus
unfolding subscription_days_remaining
subscription_lifecycle_status end_at now =
    if leb end_at now
    then expired
    else (if leb (subscription_days_remaining end_at now) longest_warning then expiring else active)

unfoldable pub subscription_warning_threshold : ℕ → ℕ → Option ℕ
unfolding subscription_days_remaining find_first
subscription_warning_threshold end_at now =
    let remaining = subscription_days_remaining end_at now in
    find_first (λ days. days == remaining) subscription_warning_days
