-- ===== src/Lib.antt =====
-- Lou-trinh/tool-messager: an assistant that sends messages and campaigns through the official APIs
-- of Zalo, Facebook and TikTok for many tenants, with consent, quotas and approval.
--
-- The program is a NestJS API (apps/api), a queue worker (apps/worker), a scheduler (apps/scheduler)
-- and packages that these share (packages); all of them work on one database (prisma/schema.prisma).
-- The API's services check access and policy, write rows and put jobs on queues; the scheduler closes
-- subscriptions and queues what is due; the worker takes the jobs and calls the platforms.
--
-- Which file models which part:
--   Shared      packages/shared/src/index.ts: message safety, the lifecycle of subscriptions
--   Access      packages/auth/src/index.ts: roles and permissions
--   Platform    packages/platform-core, platform-facebook and platform-tiktok (src/index.ts)
--   Zalo        packages/platform-zalo/src/index.ts: the Zalo OA adapter; Grants has the requests for
--               tokens, Calls getAccountInfo and sendMessage
--   Store       prisma/schema.prisma: the tables, as the record `Db`, and small queries
--   Policy      apps/api/src/common/subscription-policy.service.ts; Usage has usage
--   Workspaces  apps/api/src/workspaces/workspaces.service.ts: assertMembership, assertPermission
--   Campaigns   apps/api/src/campaigns/campaigns.service.ts; Creation has create
--   Messages    apps/api/src/messages/messages.service.ts: send
--   Outbound    what messages.service.ts and the worker share: suppression and capability
--   Phone       normalizePhone of the worker and of the import engine
--   Imports     apps/api/src/contacts/import-engine.service.ts: Normal, Mapping and Flow
--   Sessions    apps/api/src/auth/auth.service.ts, on tables of its own, `AuthDb`
--   Worker      apps/worker/src/main.ts: Send has processMessage, Campaign processCampaign, Jobs posts
--               and contact lists, Staged the staged imports, Webhook the Zalo events,
--               Dispatch which queue each of them serves
--   Scheduler   apps/scheduler/src/main.ts: tick
--   Accounts    apps/api/src/accounts: Oauth and Refresh have zalo-oauth.service.ts, Service has
--               accounts.service.ts, Intake has zalo-webhook.service.ts
--   Contacts    apps/api/src/contacts/contacts.service.ts: contacts, consent and suppression; Segments
--               and Bulk have its segments, tags and bulk actions
--   Admin       apps/api/src/admin/admin.service.ts: the emergency stop and pauses;
--               Suppression has the global list, Tenants and Support suspension and support sessions
--   Operations  apps/api/src/operations/operations.service.ts: templates; Posts has posts
--   Prelude     tests, lists, tables, effects and texts; Tests has sample data and examples
--
-- How the code is modelled. A function of the source has the same name in snake case. A service call is
-- a function from the state to a result or an error and the new state; what was written before an
-- exception stays, and a transaction that throws writes nothing. The time of a call is one argument
-- `now`, in milliseconds since 1970. Ids are numbers in the order in which rows are made. Keys that
-- the source builds as template strings (external ids of jobs, idempotency keys, dedupe keys) are data
-- types. A text is the list of its UTF-16 code units; letters are changed in case for ASCII only. A job
-- runs alone; that jobs may come again and in any order is in the theorems, which hold from every state.
--
-- The queue is the list of the calls of `queue.add` that it took; whether BullMQ starts a job for a call
-- whose `jobId` it still knows is not modelled. Numbers of JSON columns and of Zalo's answers are whole
-- and not negative, as the requests that write the overrides demand; other spellings that Number and
-- BigInt read are outside the model. The pages in which the worker reads the rows of an import are one
-- list.
--
-- Parameters: the network (`ZaloApi`, `World`), the queue (whether it takes a job), the JWT, hash,
-- random and sealing functions (`AuthEnv`, `OauthEnv`, `IntakeEnv`), the environment variables, the
-- adapters of the platforms where the API asks them, and Unicode decomposition (`decompose`).
--
-- Bounds and fuel: the rounds of 500 rows of an import's mapping have the number of rows as fuel, and
-- judge_batches_lem shows that rows up to 500 for each unit of fuel are all judged; the replacement of
-- a placeholder has the length of the text as fuel, one unit for each step over at least one unit of it.
--
-- Not modelled: the web application, controllers and validation, OpenAPI, reading of uploaded files,
-- health servers and shutdown, seed data, reports that only read; the queueing of a contact list, the
-- creation and the editing of tenants and plans, automations, groups, proxies and exports; registration
-- and the editing of workspaces; the address that a login redirects to, and the map by which callers
-- share one running renewal of tokens. Prose (titles, reasons, sources of entries, metadata shown to
-- people) is not carried.
mod Prelude
pub mod Shared
pub mod Access
pub mod Accounts
pub mod Contacts
pub mod Admin
pub mod Operations
pub mod Platform
pub mod Zalo
pub mod Store
pub mod Policy
pub mod Workspaces
pub mod Campaigns
pub mod Outbound
pub mod Phone
pub mod Worker
pub mod Scheduler
pub mod Sessions
pub mod Messages
mod Tests
pub mod Imports
