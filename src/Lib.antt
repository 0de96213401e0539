-- ===== src/Lib.antt =====
-- A model of the single sign-on server dreamsso, of the parts that decide who may do what and that
-- carry those decisions to the clients.
--
-- Parts and files:
-- - Common, Json, Store: shared tests, lists, results and texts; parsed JSON bodies; the tables of
--   db/schema.sql that roles and events use, as one value (a keyed table is a function, a table that is
--   walked is a list in reading order; uuids and digests are numbers, instants are milliseconds).
-- - Rbac: src/rbac. Catalog is catalog.ts, Authz and Patterns are index.ts, AppRoles is appRoles.ts,
--   Changes is roleChanges.ts, Administration is roleAdministration.ts with its children UserAccess
--   (applyUserAccess), RoleAccess (applyRoleAccess) and OrgRoles (create, patch, delete, default, and
--   createOrgUser). A throw is an error value, and a transaction that throws keeps the old store.
-- - Events: src/events/outboxStore.ts. Outbox is PostgresOutboxStore (claim, renew, settle, release),
--   Intake is insertEvents and insertLegacyEvent, Delivery is boundedBatch, backoffMs,
--   deliverDestination and drainDestination, History is any sequence of these operations.
-- - Sync: src/backchannel/rolesSync.ts. Order is assertEnvelopeCurrent and catalogOrder, Catalog is
--   applyCatalog, Inbox is processIncomingEvents, Reports is normalizeRoleCatalog and
--   validateIncomingEvents.
-- - Otp: src/emailOtp.ts, issueEmailOtp and verifyEmailOtp.
-- - Keys: src/signingKeyRotation.ts, the reading of the rows, bootstrap and reconcile, and in Status
--   current, status and schedule.
-- - Redis: what the program relies on of Redis, as a record of operations and laws, with a table of
--   values and ends of lives as an instance. Each use of Redis takes it as a parameter.
-- - Limiter: the send limiters of src/registration.ts and src/passwordReset.ts, both scripts as one
--   abstract limiter, and the mails of a day (Daily).
-- - Registration: the rest of src/registration.ts: pending registrations (Pending), invitation codes
--   with their sweep (Invites for one step on a row, Codes for runs).
-- - PasswordReset: the rest of src/passwordReset.ts. EmailChange: src/emailChange.ts.
-- - Sessions: src/oidc/sessions.ts (Windows for the settings, Live for loading and cleaning), the
--   update of src/routes/sessionActivity.ts (Activity), src/oidc/stepupRules.ts and
--   src/oidc/stepupPolicy.ts (Stepup).
-- - Login: src/oidc/transactions.ts and src/oidc/codes.ts. Mfa: src/mfa.ts. Settings: src/settings.ts,
--   with the steps of its cache between waits.
-- - Access: src/backchannel/accessStateStore.ts, one statement over the tables of Store, and in Query
--   the signed read of src/backchannel/accessState.ts (Complete, Answers). Token: in
--   src/routes/token.ts, the exchange of a code (Exchange for a granted one, Replay for a second one).
-- Role changes of Administration and of Sync.Catalog are published by Rbac.Changes. Sessions reads its
-- windows from the settings, and its identities are those of Store. Token joins the parts of a login:
-- a code of Login, the rows of Sessions and the answer of Access.
--
-- Parameters stand for libraries and for files outside these: JSON.stringify with its byte count,
-- SHA-256 of canonical JSON, random uuids and codes, the sealing of codes, Number on a JSON value, the
-- case folding of citext, signing and sending, lower case, the hash of PKCE, the number of a subject's
-- uuid, jose's decoding and verification of a token with the keys it resolves (one parameter, so what
-- jwtVerify itself tests of the claims is in it), and otplib's verification of a code. A
-- record in Redis is a value: JSON.stringify and JSON.parse of the program's own records are not modelled. Locks are left out, since a transaction runs alone under the role lock; the delivery side,
-- where processes interleave, is a relation of single transactions with their own clocks. A sum of
-- columns that PostgreSQL would refuse as out of range (the integer attempts and failures) is not
-- bounded here; the authority revision is, at the largest bigint. A call of the Redis parts, of Otp and
-- of Registration runs alone, but for two exchanges of a code (Login), two verifications of a one-time
-- code (Otp), a challenge whose attempt is counted later than its record was read
-- (PasswordReset.Attempts), a claim of an invitation that was read earlier (Registration.Invites) and
-- the steps of a cached read or write (Settings).
-- The loop of drainDestination runs on its own bound of eight claims, so it needs no other fuel; all
-- other recursion is on lists.
--
-- Not modelled: the other HTTP routes and views, the account portal and the admin interface, mail,
-- credentials and client keys; of the files above, the parsing of legacy events, the scan of the earlier
-- queue, cookies and the signed verdict of an activity report; of src/routes/token.ts, the client's assertion,
-- the claims by scope, userinfo and the key set. Audit rows have no labels and no detail,
-- and an error carries its status and word without the item it names.
pub mod Common
pub mod Json
pub mod Store
pub mod Rbac
pub mod Events
pub mod Sync
pub mod Otp
pub mod Keys
pub mod Redis
pub mod Limiter
pub mod Registration
pub mod PasswordReset
pub mod EmailChange
pub mod Sessions
pub mod Login
pub mod Mfa
pub mod Settings
pub mod Access
pub mod Token
