-- ===== src/Policy/Windows.antt =====
-- The quota windows of apps/api/src/common/subscription-policy.service.ts and apps/worker/src/main.ts.
use tool_messager.Prelude.{arith, ℕ, ◌*◌, ◌+◌, ◌/◌, ◌<◌, ◌≤◌}
use tool_messager.Shared.{milliseconds_per_day}
use tool_messager.Store.{day_of_month, day_start, month_start}

day_of_month_bounds : (days : ℕ) → (1 ≤ day_of_month days) × (day_of_month days ≤ 31)
unfolding day_of_month
day_of_month_bounds days = omega arith

-- The month's window starts no later than the day's, which holds the present instant and is less
-- than a day long; the month's is less than 31 days long.
pub window_order :
    (now : ℕ)
    → (month_start now ≤ day_start now)
      × (day_start now ≤ now)
      × (now < day_start now + milliseconds_per_day)
      × (now < month_start now + 31 * milliseconds_per_day)
unfolding month_start day_start
window_order now = omega (arith, day_of_month_bounds (now / milliseconds_per_day))
