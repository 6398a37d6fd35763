-- ===== src/Lib.antt =====
-- The core of CareerScope: what its services in packages/core keep in Postgres, and what protects
-- it when several workers, retries and crashed processes act on it. Each part of the program is a
-- module.
--
-- - Search, from packages/core/src/database.ts and jobs.ts: the outbox of commands, the fenced
--   leases on them, and the search runs. State holds the rows; Lease is claim, renew, release,
--   published and the test of unpublished; Settle is startSearch, settle, complete and fail; Cancel
--   is getSearch and cancelSearch; Collection is completeCollection with the rules of jobs.ts;
--   Create is createSearch with matchingProfile of profile.ts. Trace makes every call one
--   constructor of Call, so that `after` runs any calls of any processes in a row; Fences, Runs and
--   Exclusion are about such sequences and Idempotency about a repeated createSearch. A transaction
--   is one step: the source locks the rows that it reads.
-- - Commands, from packages/core/src/commands.ts: the schema of a search request and retryDelay.
-- - Dispatch, from packages/core/src/dispatch.ts: publishPending, consumeMessage and
--   reconcileDeadLetter. It uses Search for the database and Commands for the delay. What the
--   handler, the heartbeat and other workers do to the database while a message is processed is a
--   sequence of calls of Search.Trace; the queue is seen through the calls made to it.
-- - Otp, from packages/core/src/email-otp.ts (Code) and email-otp-challenges.ts (Challenges and
--   Consume).
-- - Sessions, from packages/core/src/auth.ts and test-users.ts. State holds the tables with the
--   keys that Postgres enforces; Issue is createSession and session; Login and Accounts are the
--   ways to sign in; Rotation is refresh; Revocation is logout, revokeSession, revokeOtherSessions,
--   the sweep, listSessions and isNewDevice. Trace makes every call one constructor of AuthCall. A
--   sign-in that reads before its transaction, or that another request can overtake, has the tables
--   that it saw as an argument. Kept, KeptSignIn and KeptCalls carry a condition on rows over every
--   call; RowLaws is what they ask of it.
-- - Leads, from packages/core/src/leads.ts: Schema is the input of an edit, Save, Update and Read
--   the operations, Trace the calls that change leads. Cases lists what an operation can do to the
--   tables, Replay says what a history tells of a lead.
-- - Profiles, from packages/core/src/profile.ts: the repository; Register is what it promises to
--   one user, a list of accepted profiles. Stored and Refinement relate the two.
-- - EmailChange, from packages/core/src/email-change-requests.ts; it uses createEmailOtp and
--   verifyEmailOtp of Otp.Code. Begin and Laws are about begin and verify.
-- - Notify, from packages/core/src/notification-delivery.ts: Channels is notificationChannels,
--   Quiet is quietHoursDefer, Outbox is NotificationOutbox.
-- - Reminders, from packages/core/src/notifications.ts: publishDueInterviewReminders, markRead and
--   the preference. Rows that another publisher has locked are skipped, as the argument is_free
--   tells. Published is about the notifications that a pass adds, Reached about the rounds it is
--   for.
-- - Interviews, from packages/core/src/interviews.ts: create, update and listForLead. It reads
--   Leads, and an update retires notifications of Reminders. The rows of a list have their
--   documents from the table of documents.
-- - Base: tests on numbers, SQL statements on lists of rows (Table), and the rows that a query
--   answers (Rows).
--
-- A table is a list of rows. Identifiers, hashes, addresses and texts that are only compared are
-- numbers; in Sessions, Leads and Interviews addresses, tokens and texts are lists of characters.
-- Times are milliseconds, in Sessions and Leads seconds, and the time of a transaction is an
-- argument. A thrown error is `none`, a constructor, or a result with a failure; the transaction is
-- then rolled back, so the tables are the ones before. HMACs, schemas of addresses and identifiers,
-- trimming, the hash of a request, SHA-256, Argon2, the draw of the jitter, the transports and the
-- local time of a zone are parameters, since their code is not in the repository. Recursion is on
-- lists; the one bounded loop, the search for the end of the quiet hours, has the 1560 rounds of
-- the source: 26 hours of minutes, where a window is shorter than the 1440 minutes of a day.
--
-- Not modelled: the HTTP API and the web application (apps), the readers of job boards and the
-- search worker, the scores of packages/matching (floating point), resumes, file storage, and
-- BullMQ behind packages/core/src/queue.ts. Other programs that write the same tables are not among
-- the calls, such as the retention job in scripts/jobs. In Notify what follows the claim of a
-- delivery, two statements outside a transaction, is one step. In EmailChange the unique violation
-- that a concurrent registration may cause is left out; in Search the reports backlog and
-- recentSourceStatuses are; in Reminders the list is. In Leads rows are answered before hydrate
-- reads them again, and getByJob and the acknowledgements of employers are left out; in Sessions
-- the comparison of CSRF tokens and the policies of test access are.
pub mod Base
pub mod Commands
pub mod Search
pub mod Sessions
pub mod Otp
pub mod EmailChange
pub mod Dispatch
pub mod Leads
pub mod Profiles
pub mod Notify
pub mod Reminders
pub mod Interviews
