-- ===== src/Lib.antt =====
-- Argus, the monitoring platform: a verification library of its TypeScript packages.
--
-- The program. Agents on hosts, and probes that the server runs itself, report samples of units to the
-- backend (apps/backend), a Fastify service over two databases. The backend derives events from the
-- samples, keeps a baseline and uptime buckets, and writes notifications; operators and wall displays
-- read them through routes that a login, a session and a permission check guard. The decisions that
-- need no database are in packages/core, the contracts of both sides in packages/shared.
--
-- The files. Prelude and its children hold the tests on numbers, lists, tables and text that the other
-- modules share.
--   Shared, Shared/Schedule     packages/shared/src/common.ts and monitor.ts (monitorSchedule)
--   Shared/Backups              packages/shared/src/backup.ts (backupsToPrune)
--   Core/Authorize              packages/core/src/authorize.ts (authorize, can, satisfiesAttributes)
--   Core/Rollup                 packages/core/src/state.ts (rollup)
--   Core/Uptime                 packages/core/src/uptime.ts (accumulate, uptimePct)
--   Core/Protection             packages/core/src/protection.ts (assertMutable)
--   Core/Diff                   packages/core/src/diff.ts (diffStates, diffClients, isStale)
--   Core/Audit                  packages/core/src/audit.ts (redact, buildAuditEntry)
--   Core/Ticker                 packages/core/src/ticker.ts (isTickerActive, activeTickers)
--   Core/Base32, Core/Totp      packages/core/src/totp.ts (base32Encode, base32Decode, totpCode,
--                               verifyTotp, generateRecoveryCodes)
--   Core/Envelope               packages/core/src/crypto.ts (encryptSecret, decryptSecret, rewrap)
--   Backend/Schema              packages/db/src/master/schema.ts, the rows
--   Backend/Subject             apps/backend/src/services/subject.ts (resolveSubject)
--   Backend/Rbac                apps/backend/src/plugins/rbac.ts (requirePermission)
--   Backend/Authenticate        apps/backend/src/plugins/auth.ts (authenticate)
--   Backend/Auth                apps/backend/src/services/auth.ts, accounts and refresh tokens
--   Backend/Sessions            apps/backend/src/services/sessions.ts
--   Backend/Lockout             apps/backend/src/services/lockout.ts
--   Backend/TwoFactor           apps/backend/src/services/twofa.ts
--   Backend/Login               apps/backend/src/routes/auth.routes.ts (login, refresh, logout)
--   Backend/Devices, Backend/DeviceGroups
--                               apps/backend/src/services/devices.ts
--   Backend/Commands            apps/backend/src/services/agent-commands.ts and agent-hub.ts, and in
--                               Backend/Commands/Interleaving plugins/agent-ws.ts
--   Backend/Wallboards          apps/backend/src/services/wallboards.ts
--   Backend/Pipeline, Backend/Notifications
--                               apps/backend/src/services/pipeline.ts (processUnits)
--   Backend/Users, Backend/Roles, Backend/Groups
--                               apps/backend/src/services/users.ts, roles.ts and groups.ts, and in
--                               Backend/Users/Security routes/users.routes.ts (2FA reset, unlock) and
--                               routes/sessions.routes.ts (the end of all sessions of a user)
--   Backend/Scheduler           apps/backend/src/services/server-monitor-scheduler.ts
--   Backend/Scans               apps/backend/src/services/scan-manager.ts
--   Backend/Monitors            apps/backend/src/services/monitors.ts, and the filters of the schedulers
--   Backend/Agents              apps/backend/src/services/agents.ts and agent-keys.ts, and the gate of
--                               routes/agent-ingest.routes.ts
--   Backend/TickerMessages      apps/backend/src/services/ticker.ts
--   Backend/Mib, Backend/MibStore
--                               apps/backend/src/services/mib.ts (parseMib, importMib, resolveOidNames)
--   Backend/PublicStatus        apps/backend/src/services/public-status.ts
--   Backend/Retention           apps/backend/src/services/retention.ts, retention-sweeper.ts and units.ts,
--                               packages/db/src/retention.ts
-- A module's children hold its proofs, but Backend/PublicStatus/Page, Backend/Commands/Interleaving and
-- Backend/Users/Security hold definitions; Core/Tests, Shared/Tests and Backend/Tests hold concrete runs.
--
-- The state. A database is a record of tables, a table is a list of rows in the order of insertion,
-- and a query with LIMIT 1 takes the first row that passes. An operation takes the state and returns
-- the new one with its result. The instant of a call, the id that the database gives to a row, and the
-- random text that a call draws are arguments. An instant is a number of milliseconds since the epoch;
-- a difference of instants that the code compares with a bound that is not negative stops at 0. A
-- thrown error is a constructor of the result (Guarded, Checked, Reply, Result), or `none`. An operation is
-- one step: an interleaving of two operations at an `await` is modelled for the scans and for the
-- commands of agents only, as a step relation; the latter has the registration, the changes of state and
-- the close of sockets as steps too.
--
-- The bounds. Numbers are unbounded natural numbers, except the 32-bit words of the base32 codec and of
-- the counter of a time-based code, whose wrap-around is written out. Every loop is structural
-- recursion on a list or on the number of rounds that are left, but the one that resolves the
-- definitions of a MIB module until nothing changes: it has fuel for one round more than there are
-- definitions, since every round but the last resolves one of them.
--
-- What is not modelled. The hash, the cipher, the password check and the TOTP check are the fields of
-- the record of Backend/Crypto, and the JWT library is a field of the configuration of
-- Backend/Authenticate. Core/Envelope has AES-GCM, base64 and `Number` as the fields of a record, and
-- Core/Totp the HMAC as a parameter. What a regular expression finds in the text of a MIB module is the
-- argument of its resolution. Violations of constraints of the database, the audit trail, the text of error
-- messages, network probes, the walk of a share, the agent, the frontend, OIDC, reports, the making of
-- backups and the SNMP protocol are left out.
pub mod Prelude
pub mod Shared
pub mod Core
pub mod Backend
