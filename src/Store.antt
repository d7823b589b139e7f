-- ===== src/Store.antt =====
-- The tables of prisma/schema.prisma that the services and workers share, as one record. Rows stand
-- oldest first. Ids are numbers that the database hands out in order; keys that the source builds as
-- template strings are data types with a constructor for each template. Texts that are only shown to
-- people (titles, bodies, audit metadata) are not carried.
mod Enums
mod Rows
mod Outreach
mod Staging
mod Work
mod Tables
unfoldable pub use Enums.*
unfoldable pub use Rows.*
unfoldable pub use Outreach.*
unfoldable pub use Staging.*
unfoldable pub use Work.*
unfoldable pub use Tables.*
