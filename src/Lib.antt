-- ===== src/Lib.antt =====
-- The smart-platform services. libs/identity: accounts, one-time codes, sign-up, sign-in, password
-- recovery, passwords, signed tokens, sessions, the rate limiter, the guards and the outbox worker.
-- libs/property with the controller of the owner API: properties, rooms and their statuses.
-- libs/contract: the rentals of a renter. The profile of the renter API. libs/media: the assets of
-- listings. libs/common: the configuration, and what a failure answers and logs.
--
-- The services of libs/identity/src/services and libs/identity/src/security keep no state of their own:
-- all of it is in the database, which libs/identity/src/persistence/postgres-identity.repository.ts
-- reads and writes. The model has one record, Store, with a list of rows for each table and the value of
-- the database's now(). A method is a function of the store; one that may throw is an Exec, which
-- answers with a value or an error and with the store it leaves. A transaction that throws leaves the
-- store it started from.
--
-- Parts:
--   Common                 Boolean tests, tables as lists of rows (SELECT, UPDATE, DELETE, COUNT) with
--                          their lemmas, and JavaScript strings as lists of code points
--   Identity.Contracts     libs/identity/src/public/identity.contracts.ts, and the exceptions
--   Identity.Exec          methods that read, write and throw; transactions and catch clauses
--   Identity.Store         the tables (identity.repository.ts, database/migrations)
--   Identity.Runtime       what the platform and the configuration give: digests, password hashes, the
--                          client's context and the auth section of the configuration
--   Identity.Throttle      security/rate-limiter.service.ts with findThrottle, recordThrottleFailure
--                          and clearThrottle of the repository; children: Window (one failure of one
--                          key), Lockout (a run of failures), Limiter (who is turned away), Keys
--                          (several keys at once), Frame (the other tables), Refinement (the
--                          table as a function from scopes and digests to buckets)
--   Identity.Otp           the one-time-code statements of the repository; children: Replace (the
--                          three replace…Challenge methods and the outbox insertion), Statements
--                          (histories of the statements that write one-time codes), Invariant, Exchanges
--                          (issuePasswordResetToken and completeEmailSignup among them), History, Retired,
--                          SingleUse, Replacement
--   Identity.Session       insertSession, rotateSession, isSessionActive and the revocations; children:
--                          Rotation, Family
--   Identity.Users         account lookups and updates; child Create: createPhoneUser,
--                          completeEmailSignup, createSocialUser, with its children Unique and Histories
--                          (sequences of statements on accounts)
--   Identity.Reset         issuePasswordResetToken, findPasswordResetToken, resetPasswordWithToken;
--                          children: Issue, SingleUse
--   Identity.Passwords     security/password-hasher.service.ts
--   Identity.Jwt           security/jwt-session.service.ts: sign and the verify methods
--   Identity.Tokens        the same file: create, refresh, logout and authenticateAccess; children:
--                          RoundTrip, Authenticate, Lasting, Refresh
--   Identity.Auth          services/auth.service.ts, its keys and digests, and
--                          services/recovery-otp-code.service.ts; children with the flows: SignIn (login,
--                          changePassword, logoutAll, socialLogin), Signup (requestSignupOtp),
--                          Verification (verifySignupOtp, completeSignup), Recovery
--                          (requestPasswordRecovery, verifyPasswordRecovery), NewPassword
--                          (completePasswordRecovery), Legacy (the phone flows); children with the
--                          proofs: Refusal, Requests, Sessions, Admission, Completion, Disabled, Codes
--   Identity.Access        services/identity-query.service.ts, security/jwt-auth.guard.ts and
--                          security/roles.guard.ts; child: Guards
--   Identity.Outbox        services/password-recovery-outbox.service.ts; children: Claims,
--                          Draining (one drain), Delivery (drains until nothing is due)
--   Identity.Controller    http/auth.controller.ts; child: LogOut
--   Identity.Bodies        http/auth.dto.ts: patterns and transforms; child: Normal
--   Identity.Ports         providers/otp-delivery.port.ts; children: Disclosure (where a code may go),
--                          Answers
--   Property               libs/property/src/public/property.contracts.ts and postgres-property.repository.ts:
--                          properties, rooms and the statements that find and save them; children:
--                          Insertion (its INSERTs and the list of an owner), Writes, Service
--                          (libs/property/src/property.service.ts: who may do what, statuses, deletion),
--                          Owner (the rest of that service), Bookable, Status, Snapshots. Its tables are
--                          PropertyStore; a room that saveRoom answers has no owner, since that statement
--                          does not return it
--   Property.Owner         children: Requests (apps/owner-api/src/property.controller.ts with the bodies of
--                          libs/property/src/http/property.dto.ts), Writing, Operations and Isolation (which
--                          rows an operation may write), History (sequences of requests), Patch
--   Contract               the rows of contracts; children: Query
--                          (libs/contract/src/postgres-contract.repository.ts and
--                          contract-query.service.ts), Rentals
--   Profile                apps/renter-api/src/profile-read.service.ts, profile-update.service.ts and
--                          profile-update.dto.ts; children: RoundTrip, Errors
--   Media                  libs/media/src/media.contracts.ts, over its three interfaces; child: Publishing
--   Configuration          libs/common/src/config/environment.ts: the schema; children: Sections (what is
--                          read), Bounds
--   Http                   libs/common/src/http (api-exception.filter.ts, http-logging.interceptor.ts,
--                          request-id.middleware.ts) and libs/common/src/logging; child: Filter
--   Examples               tests, and the theorems at concrete inputs
--
-- How they interact: a flow of Identity.Auth asks Identity.Throttle whether the request may pass, reads
-- and writes through Identity.Otp, Identity.Users and Identity.Reset, counts or clears failures, and
-- opens or ends sessions through Identity.Tokens, which stores them with Identity.Session. The guards of
-- Identity.Access authenticate a request through Identity.Tokens. The challenges that Identity.Otp
-- stores queue mail that Identity.Outbox claims and sends. Profile reads and writes an account through
-- Identity.Users and lists rentals through Contract.Query, which joins the tables of Property. What a
-- service throws reaches the client through Http.
--
-- Representation. A date is its number of milliseconds, a uuid a number, a hexadecimal digest the number
-- that it spells. An amount of money is the text that was written, an address the list of its keys with
-- their values. An UPDATE … RETURNING answers the rows that it wrote. SQL NULL, null and undefined are
-- none. The unique indexes of the migrations are checks of the insertions that meet them. Ids that the
-- database or randomUUID draws, times that new Date() reads, and what the mail, SMS and social providers
-- answer are arguments. JSON, base64url, HMAC, scrypt, Joi and Number are parameters (Codec, Runtime,
-- Scrypt, Reading); the laws that a theorem needs of them are its hypotheses. A loop is a recursion on a
-- list, so that no fuel is needed. Methods that the source starts together with Promise.all run in the
-- order of the list.
--
-- Not modelled: routing and, beyond the patterns of Identity.Bodies, the validation of bodies (decorators that the framework runs), dependency
-- injection, health checks, the worker's timer, the CHECK constraints of the tables, and the booking,
-- billing, payment and audit libraries, which are contracts without code. Text is lowered on ASCII only,
-- and a string is a list of code points, not of UTF-16 units. A number in a token is a natural. Row
-- locks are not modelled: a transaction runs alone. The profile rows of a new account and the seeded
-- roles are not kept.
pub mod Common
pub mod Http
pub mod Configuration
pub mod Identity
pub mod Contract
pub mod Property
pub mod Media
pub mod Profile
pub mod Examples
