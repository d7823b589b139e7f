-- ===== src/Shared/Lifecycle.antt =====
-- The subscription clock of packages/shared/src/index.ts.
use tool_messager.Prelude.{arith, some, ℕ, ◌*◌, ◌+◌, ◌<◌, ◌↔◌, ◌≡◌, ◌≤◌, ◌⊎◌}
use tool_messager.Shared.{
  active, expired, expiring, milliseconds_per_day, subscription_days_remaining,
  subscription_lifecycle_status, subscription_warning_threshold,
}

-- The days remaining are the least number of whole days after which the subscription has ended.
pub days_remaining_least :
    (end_at now n : ℕ)
    → (subscription_days_remaining end_at now ≤ n) ↔ (end_at ≤ now + n * milliseconds_per_day)
unfolding subscription_days_remaining
days_remaining_least end_at now n = (λ h. omega arith, λ h. omega arith)

-- A subscription is expired from its end on, expiring in the 30 days before (the window that the
-- scheduler selects), and active until then.
pub lifecycle_windows :
    (end_at now : ℕ)
    → ((subscription_lifecycle_status end_at now ≡ expired) ↔ (end_at ≤ now))
      × ((subscription_lifecycle_status end_at now ≡ expiring)
          ↔ ((now < end_at) × (end_at ≤ now + 30 * milliseconds_per_day)))
      × ((subscription_lifecycle_status end_at now ≡ active)
          ↔ (now + 30 * milliseconds_per_day < end_at))
unfolding subscription_lifecycle_status
lifecycle_windows end_at now = (
  (λ h. ground arith, λ h. ground arith),
  (λ h. (ground arith, ground arith), λ h. ground arith),
  (λ h. ground arith, λ h. ground arith),
)

pub IsWarningDay : ℕ → Type 0
IsWarningDay d = (d ≡ 30) ⊎ (d ≡ 15) ⊎ (d ≡ 7) ⊎ (d ≡ 3) ⊎ (d ≡ 1)

-- A warning is due exactly on the days 30, 15, 7, 3 and 1 before the end, and names the days that
-- remain.
pub warning_exact :
    (end_at now d : ℕ)
    → (subscription_warning_threshold end_at now ≡ some d)
      ↔ ((subscription_days_remaining end_at now ≡ d) × IsWarningDay d)
unfolding subscription_warning_threshold IsWarningDay
warning_exact end_at now d = (λ h. (ground arith, ground arith), λ h. ground arith)
