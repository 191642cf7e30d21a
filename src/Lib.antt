-- ===== src/Lib.antt =====
-- Lead management for a multi-branch sales organisation: where a lead goes that comes in, who may
-- move it, and who sees it. A tenant has branches (organizations); a branch has leads, members with
-- roles, and campaigns; a campaign type names a pool of weighted members who receive its leads.
--
-- How the parts meet. An incoming lead (Intake) is deduplicated in its branch, typed by Campaign,
-- handed to a member by AutoAssign, and written. When a campaign's type is corrected, Reclassify
-- relabels its leads and calls AutoAssign again for those that have to move. People then hand leads
-- on through Assign, which asks Authz; History reports on leads, within the reach that Authz and the
-- coverage of Assign give. Notify tells the connected sessions of changes and of due follow-ups.
-- Leads of Meta's forms come through another service (Meta): a pull is queued (Runs), its leads are
-- routed to branches (Routing), given a verdict (Reconcile) and, when someone presses Apply, imported
-- one by one (Apply, Sync), which calls Intake. What does not land is kept (Inbox), and stage changes
-- are reported back (Capi).
--
-- Files and code (paths below services/leads-service/src unless they start with packages or
-- services):
-- - Base: Booleans on numbers, nullable values, lists, and queries as list comprehensions.
-- - Db: the tables, as lists of rows with the columns that the modelled statements name.
-- - Errors: lib/errors.ts, the error classes, and the result of a call that may throw.
-- - AutoAssign: lib/assignment.ts, resolveAutoAssignedUser. The query of the pool (in_pool,
--   pool_rows), the department and capability filters, the loop over deficits (consider, scan), and
--   the draw. AutoAssign/Best, Pool, Reasons, Pick and Available hold the proofs.
-- - Campaign: lib/campaign-resolution.ts, resolveCampaignForLead. The ladder of types (Ladder) and
--   the branch's row of a Meta campaign (Projection).
-- - Reclassify: services/campaign-reclassify.service.ts, reclassifyCampaign, dry run and real run.
-- - Intake: api/v1/intake/intake.repository.ts, createWebhookLead.
-- - Authz: packages/lms-authz/src, the assignment ladder, the tenant rules and the report's scope.
-- - Assign: lib/lead-write-scope.ts and the writes of api/v1/assignments (service and repository):
--   createAssignment, reassignLead, unassignLead, and bulkAssignLeads in Assign/Bulk.
-- - History: listLeadsHistory and listAssignmentsFiltered of api/v1/assignments.
-- - Notify: services/notifications-service/src/connections/manager.ts and, beside connections,
--   services/followup-checker.ts.
-- - Meta: services/meta-conversion-api/src, its tables. Meta/Runs: workers/pull-poller.ts, with
--   createPullRun and queueApply; a relation of the statements that any workers and requests run in
--   any order. Meta/Contact: which answer of a form is the phone, as services/lead-sync.service.ts and
--   as the query of services/lead-reconcile.service.ts find it. Meta/Sync: syncLeadToDatabase.
--   Meta/Reconcile: classifyRunLeads. Meta/Apply: applyRun. Meta/Inbox: services/lead-inbox.service.ts.
--   Meta/Routing: services/page-org-map.service.ts, with resolveMapping and the join of remapRun.
--   Meta/Capi: services/capi-trigger.service.ts. Meta/Secret: lib/crypto.ts. Meta/Typing:
--   resolveCampaignType of services/campaign-mapping.service.ts; its rule matching is a parameter.
-- A child named Tests holds runs on a sample branch and the instances of the theorems.
--
-- Conventions. A uuid is a natural number, as is a text that the code only compares. null, an
-- absent field and, where the code tests for truth, an empty text are `none`; the phone and the
-- email of an incoming lead, which are stored even when empty, keep the empty text as the number
-- 0. A transaction is a function from the tables to the tables; a statement is a comprehension
-- over the rows in the order of the table, and LIMIT 1 without ORDER BY takes the first, or
-- (`choose`, in Meta/Reconcile) any. A thrown error carries no tables, since the transaction is
-- rolled back. Loops are structural recursion over lists, so no fuel is needed anywhere.
--
-- Parameters, for what lies outside these sources: hasCapability of @platform/db; the arithmetic
-- of doubles in the pick (`Deficits`, with the order laws that the proofs need), and Math.random
-- (`draw`); string operations (`Texts`) and localeCompare in sorting; the ids that the database
-- gives to new rows; `can`, isTenantWideRole and the rank numbers of @platform; `sees`, which
-- leads row-level security lets a database role see; trim of JavaScript and btrim of SQL, BigInt
-- and the test of a text for digits or for Meta's placeholder; and Node's cipher and encodings
-- (`Crypto`, with their laws).
--
-- Not modelled: log lines, activity records, published events and the settings that audit triggers
-- read; triggers of the database, which may refuse an update; unique indexes, whose conflict a
-- concurrent request could meet; dates, paging and ordering of reports. The rows that a run of the
-- follow-up checker reads are its argument. Of the Meta service: what resolveCampaignForIntake
-- answers is an argument of the import; the call of the intake over HTTP is taken to return what
-- the intake answers; requests to Meta, the page walk of a pull, the retry of an inbox entry
-- before its last write, and the administration of mappings and integrations are left out. The web
-- application and the scripts are not part of this library.
pub mod Base
pub mod Db
pub mod Errors
pub mod AutoAssign
pub mod Campaign
pub mod Reclassify
pub mod Intake
pub mod Authz
pub mod Assign
pub mod History
pub mod Notify
pub mod Meta
