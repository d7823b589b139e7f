-- ===== src/Worker.antt =====
-- apps/worker/src/main.ts: the queue workers. What they do not implement is a parameter, `World`: the
-- adapters' network calls, the secret box and the environment. A job runs at one instant `now`.
mod Base
mod Progress
mod Send
mod Campaign
mod Jobs
mod Staged
mod Webhook
mod Dispatch
pub mod Gate
pub mod Rate
pub mod Guarded
pub mod Once
pub mod Staging
pub mod Optout
unfoldable pub use Base.*
unfoldable pub use Progress.*
unfoldable pub use Send.*
unfoldable pub use Campaign.*
unfoldable pub use Jobs.*
unfoldable pub use Staged.*
unfoldable pub use Webhook.*
unfoldable pub use Dispatch.*
