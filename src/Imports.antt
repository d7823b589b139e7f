-- ===== src/Imports.antt =====
-- apps/api/src/contacts/import-engine.service.ts: rows are normalised by a mapping of columns, and
-- classified as valid, invalid or duplicate; an import is committed to the queue, or cancelled.
mod Normal
mod Mapping
mod Flow
pub mod Distinct
pub mod Judged
pub mod Rounds
pub mod Csv
unfoldable pub use Normal.*
unfoldable pub use Mapping.*
unfoldable pub use Flow.*
