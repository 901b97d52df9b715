-- ===== src/Lib.antt =====
-- The account backend of BACKEND/src: registration, its mails, activation, login with lockout,
-- sessions, password recovery, one-time codes with a rate limit, and account deletion.
--
-- Correspondence, with paths from the repository's root:
-- - Model: the entities of BACKEND/src/types and the tables of BACKEND/db/migrations (Entities),
--   the exceptions of BACKEND/src/errors (Errors), and what a service method does (Effects): it
--   maps the state to a result, a value or an exception, and a new state. `with_transaction` is
--   BACKEND/src/db/with-transaction.ts.
-- - Table: SELECT ... LIMIT 1, COUNT, UPDATE ... WHERE and INSERT on a list of rows.
-- - Repositories: a module for each file of BACKEND/src/repositories, a function for each method.
-- - Validators: BACKEND/src/validators, where PasswordPolicy is password-policy.evaluator.ts; the
--   expression for email addresses is a `Regex` of Common.Regex.
-- - Services: a module for each of auth.service.ts, login-guard.ts, session.service.ts,
--   password-recovery.service.ts, activation.service.ts, email-dispatch.service.ts,
--   account-deletion.service.ts, rate-limit.guard.ts and otp.service.ts of BACKEND/src/services,
--   the last with BACKEND/src/adapters/email-otp-delivery.adapter.ts; their child modules hold the
--   proofs.
--   SessionService.Abstract is what the session service promises, a map from token hashes to
--   sessions. RegistrationService and UserProfileService are registration.service.ts and
--   user-profile.service.ts.
-- - Workers: BACKEND/src/workers, one polling tick of each.
-- - Middleware: BACKEND/src/middleware/session-validation.middleware.ts, and in ErrorHandler the error
--   handler of BACKEND/src/app.ts.
-- - Config: how BACKEND/src/config reads a variable, and the loading of password-policy.config.ts,
--   lockout.config.ts and session.config.ts. The other configurations are records of the services;
--   a number of theirs is taken not to be negative, which the code does not check.
-- - Http: the fields of a JSON body, the responses, and the try block of a handler. Controllers: a
--   module for each file of BACKEND/src/controllers, AdminController with
--   BACKEND/src/middleware/admin-auth.middleware.ts.
-- - System: BACKEND/src/app.ts and BACKEND/src/routes as one state machine. `handle` is the handler
--   of every route, `Step` a request, a tick of a worker or what a login, a reset or a registration
--   does after its wait for bcrypt, and `Reach` a run of any length. System.Rules says what a relation between
--   databases must allow for all steps to move along it, and System.Advance holds the proofs for
--   each step; Lifecycle and Invariants are two such relations. Refusals is about what a run cannot
--   undo, and Answers about which requests are answered and who is let in.
-- - Accounts: what holds of several services together.
-- - Common and Common.Text: shared names, Boolean tests, and JavaScript strings as UTF-16 units. A
--   string holds whole characters, so a lone surrogate is not modelled.
-- - Examples: concrete states to which the theorems apply.
--
-- How the code is read:
-- - A table is the list of its rows in the order of insertion. An INSERT or UPDATE that breaks a
--   constraint writes nothing and throws; the exception carries all the constraints that are
--   broken, of which SQLite's message names one. Other faults of the database are not modelled.
-- - A Date is its number of milliseconds, which toISOString() and back preserves. Each
--   `new Date()`, uuid and random token that a method reads, and the answer of the mail provider to
--   a code, is an argument. The mails handed to the delivery port are a list.
-- - SHA-256, HMAC and bcrypt are the parameter `Crypto`; of bcrypt two theorems assume that
--   a password matches its own hash. Redis is a record of INCR and EXPIRE with the laws that its
--   documentation states, and `lower` stands for toLowerCase(); `named` is the choice of the
--   constraint that SQLite's message names, and one theorem assumes that it names the only one that
--   is broken. No theorem assumes more of them.
-- - The service methods whose calls all answer at once are taken as one step. `login`,
--   `resetPassword` and `register` wait for bcrypt. The first two are two functions each. `register`
--   hashes before it reads or writes anything, so that all of `register` is what follows the wait;
--   the uniqueness check of the controller precedes it, and `post_registration` is the run in which
--   nothing comes between. A late step of each may be taken in any state, and three theorems
--   interleave them. `issueOtp` and the workers also wait for Redis or the mail provider; each is
--   taken as one step.
-- - Numbers are natural numbers: the counters and times of the code stay far below 2 ^ 53.
-- - No recursion needs fuel but `decimal`, which prints a number, with the number itself as fuel:
--   each step divides it by ten.
-- - A header has at most one value, and a body is an object whose fields are missing or null, a
--   string, or another value. The routes drop the promises of their handlers, so a handler that
--   throws sends no answer.
--
-- Not modelled: Express, CORS and the Swagger page, the timers of the workers, the loading of the
-- configurations that are not checked, the start of the server, the connection and the migration
-- runner, the SendGrid adapter, and the frontend.
pub mod Common
pub mod Table
pub mod Model
pub mod Repositories
pub mod Validators
pub mod Services
pub mod Accounts
pub mod Config
pub mod Controllers
pub mod Examples
pub mod Http
pub mod Middleware
pub mod System
pub mod Workers
