-- ===== src/Lib.antt =====
-- A verification library for Vitae's server, the Python package app/: its job queue and limits, the
-- roles of its users, career profiles, payments, applications and auto-apply batches.
--
-- The parts and their files:
--   * Common: tests, lists, texts, decimal numerals, outcomes and tables of rows. A table is the
--     list of a database table's rows with the next value of its key; `get` is `db.get`, `insert` an
--     `add` with a flush, `save` the assignment to a row. An outcome is a value or the exception that
--     was raised; a request that raises is rolled back.
--   * Queue: app/workers/queue.py, the durable queue that the workers poll, and the retry of a dead
--     job in app/routes/admin.py. Rows that other transactions have locked (SKIP LOCKED) are a Boolean
--     test. Queue.Life has the steps of a row as a relation, Queue.Races two workers on one row.
--   * RateLimit: app/rate_limit.py. What Redis answers is an argument.
--   * Roles: app/roles.py, app/admin_audit.py and the role change of app/routes/admin.py.
--   * Accounts and Profiles: app/accounts/bootstrap.py and app/accounts/profile.py. Every other part
--     asks Accounts for the active profile.
--   * Plans and Billing: app/routes/billing.py with `plan_from_metadata` of app/billing.py: what a
--     payment event does to a billing row, and the webhook with its receipts and its ledger.
--   * Lifecycle, Resumes, Drafts and Applications: app/applications.py and app/accounts/drafts.py.
--   * AutoApply, Batches and Tasks: app/auto_apply.py and app/workers/tasks.py. AutoApply creates
--     batches, Batches starts and steers them and puts their jobs into the queue, Tasks is what a
--     worker does for such a job; an item is handed in through Applications.
--     Tasks.Sessions has the worker's sessions one by one, Batches.Safe the requests one by one.
--   * Catalogue: the sync of the public listings in app/services.py, with app/sources/base.py and the
--     keys of app/sources/utils.py. Catalogue.Sync has the loop over the results of the sources.
--   * Matching: app/matching/filters.py and app/matching/scorer.py. Common.Regex is Python's
--     `re.search` for the patterns that the source writes down; points are counted in halves.
--   * ScoreCache and JobList: app/matching/score_cache.py, and the refresh, the search and the best
--     listings of app/services.py, which read Catalogue's listings and store Matching's scores.
--   * Access: app/accounts/billing_access.py: who may open a listing, the free opens of a profile, the
--     region of prices. Its test of a listing stands beside those of Catalogue and JobList.
--   * Experience: app/profile/experience.py, the stations of a profile and their order.
--   * Llm: app/llm.py with the registry of app/llm_providers.py: the chain of keys, and the gateway that
--     falls back along it. What a provider answers is an argument. Llm.Keys: the users' own keys of
--     app/accounts/llm_keys.py.
--   * Csrf and Ssrf: app/csrf.py and app/ssrf.py. The parsers of addresses, URLs and bodies, and the
--     network, are arguments.
--   * Runner: app/workers/runner.py and app/worker_metrics.py: a round claims a job from Queue and, if
--     the job's row can still be read after the commit, executes it by Tasks and settles it. Whether
--     it can is what app/db.py tells its sessions; Runner.Stuck is about them as they are.
--   * Models: the rows of app/models.py that several parts share, and the store of them all. Samples
--     has concrete rows for the modules named Examples.
--
-- Conventions. Numbers are natural; user ids, UUIDs in the program, are numbers; times are readings
-- of a clock that each operation takes as an argument, in the queue in microseconds. Lower case is
-- that of ASCII letters. Where the database keeps a pair of columns unique, `one_or_none` is the
-- first row found; elsewhere a second row raises. Columns that only order lists or that the database
-- fills in by itself (`updated_at`, `created_at` outside the queue) are left out. The fuel of
-- Common.Decimal is n + 1 digits, enough for n; the four rounds of Ssrf's loop are the source's own.
-- What a search leaves to the database (LIKE, the order of titles, the place of a missing time, the
-- order of rows that tie) is an argument of it. A server that Ssrf meets answers one URL in one way.
--
-- Not modelled: the signature check of the webhook and the reading of its JSON, the checkout
-- session, folders on disk and the CV generator (libraries and outside services), a sync that fails
-- half-way, the browse that fills missing scores, pasted jobs, storage,
-- the clients of the language models, the scraping of sources, pages, sign-in and configuration.
pub mod Access
pub mod Accounts
pub mod Applications
pub mod AutoApply
pub mod Batches
pub mod Billing
pub mod Catalogue
pub mod Common
pub mod Csrf
pub mod Drafts
pub mod Experience
pub mod JobList
pub mod Lifecycle
pub mod Llm
pub mod Matching
pub mod Models
pub mod Plans
pub mod Profiles
pub mod Queue
pub mod RateLimit
pub mod Resumes
pub mod Roles
pub mod Runner
pub mod Samples
pub mod ScoreCache
pub mod Ssrf
pub mod Tasks
