-- ===== src/Sessions.antt =====
-- apps/api/src/auth/auth.service.ts: sessions, passwords and verified addresses. The service keeps
-- its tables as a state of its own, `AuthDb`.
mod Tokens
mod Rotation
pub mod Family
unfoldable pub use Tokens.*
unfoldable pub use Rotation.*
