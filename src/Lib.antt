-- ===== src/Lib.antt =====
-- The services of the Seniors - Empregabilidade backend, a recruiting platform for people of 45 and
-- over, and what makes them correct.
--
-- How it works. FastAPI routers (app/*/router.py) authenticate the caller, validate the request and
-- call one service (app/*/services), which works on a SQLAlchemy session in one transaction. Candidates
-- apply to the jobs of companies, companies move applications on, administrators review companies and
-- block accounts. Services tell users about it through notify_user, which also queues an e-mail, and a
-- background loop calls dispatch_pending_emails to send what is queued.
--
-- How it is modelled. A service is a function from the tables to a result and the tables afterwards
-- (Database/Session: Action). Db (Database/Tables) has one list of rows for each table of app/db/models
-- that these services use. A query is a search of a list, a flushed object is a row in front of a list,
-- an UPDATE replaces rows by key. A try block with a rollback is `transaction`: after an exception the
-- tables are those of its start. The exceptions are Database/Errors, foreign keys and the unique
-- constraint included where a service can violate them. Each call runs alone: row locks make the
-- services take turns on a row, and interleavings are sequences of whole calls
-- (Applications/History). Identifiers are numbers that are compared, instants are seconds, dates are
-- days, and texts are lists of code points.
--
-- What is a parameter. The identifiers and the time that PostgreSQL generates (Server), the calendar
-- day of an instant in the local time zone (to_local_date), the collation of skill names
-- (order_by_name), base64 and the texts of instants and identifiers (Codec), what Python reads in the Unicode tables (is_digit, is_printable, casefold, lower,
-- Unicode), the CHECK constraints that PostgreSQL computes with functions of its own (Checks), and the
-- e-mail provider, the identity provider and the company registry (EmailSender, Register,
-- Environment), which may answer or raise as they like.
--
-- Files and code.
--   Database/Enums, Tables, Errors, AccountErrors, Problems, Session:
--     app/db/models, the exceptions.py files, sessions.
--   Applications/Submit, UpdateStatus, Withdraw: app/applications/services/submit_application.py,
--     update_application_status.py and withdraw_application.py. Each Spec names every outcome of a call.
--     Status has the status tables and the steps of an application's life, Policies has
--     app/applications/domain/policies, Invariant what holds of the application table, History and
--     History/Rows any sequence of calls.
--   Applications/Automatic: app/applications/services/generate_automatic_applications.py,
--     with Insert, Rounds, Table and Trigger on what the round for a job does, and Daily
--     and Settled for the round over all open jobs.
--   Jobs/Open, Records, ChangeStatus, Compatibility: app/jobs/services/open_job.py, job_record.py,
--     job_skills.py, change_job_status.py and app/jobs/domain.
--   Jobs/Publish: app/jobs/services/publish_job.py and update_job.py; Links is on the links of a job.
--   Jobs/Applicants: app/jobs/services/list_job_applicants.py, with Listing for the service, Members
--     and Matches on who is listed, Entries on what an entry says and Counts on the summary.
--   Jobs/Detail: app/jobs/services/get_job_detail.py, with Applicable on how it agrees with a submission.
--   Skills/Name, Resolve: app/skills/domain/skill_name.py and
--     app/skills/services/find_or_create_skills.py.
--   Skills/Catalog: app/skills/services/create_catalog_skill.py and update_catalog_skill.py; its Spec
--     has the outcomes of a call.
--   Contacts: app/contacts/domain/contact_message.py and app/contacts/services/contact_professional.py.
--   Registration: app/candidates/services/register_professional.py and
--     app/companies/services/register_company.py. Rows has the insertions with their constraints,
--     Attempt the try block that both share, Unique any sequence of registrations.
--   Accounts/ChangeStatus: app/account_management/services/change_account_status.py.
--   Companies/Review, Policies, Cnpj, CorporateEmail: app/companies/services/review_company.py,
--     app/companies/domain/policies, value_objects/cnpj.py and value_objects/corporate_email.py.
--   Candidates/Cpf, Age, Completeness, Certificate: app/candidates/domain/cpf.py, minimum_age.py,
--     resume_completeness.py and certificate_document.py. Cpf/Check and Companies/Cnpj/Check say what a
--     CPF and a CNPJ are.
--   Notifications/Notify, Types, Email, Retry, Dispatch, Reading: app/notifications/domain and the
--     services notify_user.py, dispatch_pending_emails.py and the two that mark notifications as read.
--   Notifications/Cursor, Listing: app/notifications/domain/notification_cursor.py and
--     app/notifications/services/list_my_notifications.py. Order is on the order of the rows, Pages on a
--     client that follows the cursors.
--   Auth: app/auth/services/current_user.py and app/auth/dependencies.py.
--   Prelude: shared tests, list, set, text and key lemmas. Tests: runs on concrete data.
--
-- Bounds and fuel. The dispatcher's loop recurses on its batch size, which is the source's own bound.
-- A client that reads page after page (Notifications/Listing/Pages) reads at most one page more than
-- there are notifications. The decimal quotient of a compatibility score looks for its 28 digits within
-- 60 places, which are enough for any number of required skills below 10 ^ 32.
--
-- Not modelled. Routers, schemas beyond the validated values, searches and the listings other
-- than those of applicants and notifications, profiles and résumé records, indicators, exports, logging
-- but for the entry of an incomplete identity, the length limits of text columns, and the clients of
-- the identity, storage, e-mail and company registry providers. The e-mail thread is one dispatcher, so
-- SKIP LOCKED skips nothing.
pub mod Prelude
pub mod Database
pub mod Notifications
pub mod Applications
pub mod Jobs
pub mod Accounts
pub mod Companies
pub mod Registration
pub mod Skills
pub mod Contacts
pub mod Candidates
pub mod Auth
pub mod Tests
