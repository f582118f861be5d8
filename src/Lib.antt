-- ===== src/Lib.antt =====
-- SentinelWP's core: the services that decide what is scanned, what a finding's state is, which
-- deadline it has, and how jobs, events and policies pass through the database.
--
-- The parts and the files that model them. Each module names the code it is about.
--   Lifecycle: the states of a finding (core/lifecycle.py, core/finding_state_machine.py).
--     `validate_transition` guards each change of a status; Lifecycle/Runs has the sequences of
--     changes that it lets through.
--   ScanJob: the table of scan jobs (core/db/repositories/scan_job_repo.py). Queue has the writes,
--     Queries the reads. Workers claim jobs from it, and a job whose worker fell silent is taken
--     back.
--   Outbox: the table of events for other systems (core/db/repositories/outbox_repo.py), claimed in
--     batches, retried with a growing delay, given up after the last attempt. Reassessment has the
--     task that is to dispatch scans from these events (core/tasks/maintenance_tasks.py).
--   CircuitBreaker: the guard around the calls that deliver events
--     (core/integrations/circuit_breaker.py). Threads has the interleavings of its critical
--     sections.
--   RateLimiter: the sliding window of core/rate_limiter.py with its failure policies. Local has the
--     limiters that decide by the window in memory; what Redis counts is not modelled.
--   Sla: policies, due dates and the status of a deadline (core/sla_engine.py).
--   Version: parsing, order and affected ranges of versions
--     (core/vulnerability_intelligence/version_matcher.py). `int` refuses more than 4300 digits, the
--     default of Python.
--   Differential: what changed between two scans (core/differential.py), with the queries it reads
--     by. It stands on the findings' statuses of Lifecycle, as texts.
--   Policy: versioned policies (core/policy/engine.py and the policy methods of
--     core/db/repositories/governance_repo.py). Runs has calls that complete one after the other,
--     Crash those that fail between two of their transactions.
--   Authorization: tenants, roles and the windows of scan authorizations (core/authorization.py and
--     the queries of core/db/repositories/asset_repo.py that it calls).
--   Findings: the storage of findings (core/db/repositories/finding_repo.py), changes of status with
--     their optimistic lock (Transitions) and the entry of a scan's findings (Scans, Reconciliation:
--     process_scan_findings), both of core/db/adapter.py, and the fingerprints that tell findings
--     apart (core/fingerprint.py). It stands on Lifecycle and Sla. A call runs without another in
--     between; only Versions looks at two saves that overlap.
--   RiskAcceptance: accepted risks (core/db/repositories/governance_repo.py) and the task that ends
--     them (core/tasks/remediation_tasks.py). Histories has all that happens to findings, and how
--     Differential reads the result.
--   ScanTask: the worker's task (run_scan_task of core/tasks/scan_tasks.py): the limits and the claim
--     over the table of ScanJob, the checks, the endings, and the entry of the findings in Findings;
--     Recovery has recover_stale_jobs_task of core/tasks/maintenance_tasks.py.
--   Schedule: scheduled scans and their runs (core/db/repositories/scheduler_repo.py), and of
--     core/tasks/maintenance_tasks.py the dispatch (Dispatch), the reconciliation of runs
--     (Reconciliation) and the purge of old jobs (Purge). A due schedule becomes a job of ScanJob.
--   Base: numbers, lists, sorting, tables and texts that the others share.
-- A function of the model has the name of the method it models; a helper below it stands for a
-- branch, a condition or an assignment of that method.
--
-- Encodings. A table is a list of rows found by a primary key; a write replaces a row or adds one.
-- Ids, users and tenants are numbers where the code only compares them, with 0 or `none` for an
-- absent one, and texts where it looks inside. A text is its list of code points, and case folding
-- and white space are those of ASCII. Instants are numbers of ticks; ISO texts in UTC, which the
-- code compares as texts, are compared as instants. An exception is a constructor of the result.
-- The clock, the ids that uuid4 draws, the answers of Redis, the rows that another transaction has
-- locked, the checksum of a definition, SHA-256, Python's equality of JSON values, the path of a
-- URL and `canonicalize_url` (core/canonical.py) are parameters.
-- Stable sorting is insertion sort. Loops go over lists; only the loop of the purge runs on fuel,
-- and more fuel than there are rows to delete is enough.
--
-- Not modelled: what the task of reassessments does over SQLite, the web application and its
-- templates, the scanners, the HTTP clients of feeds and trackers, sessions and passwords, evidence
-- files, the mapping of rows by SQLAlchemy, log messages, audit events, and the scoring of risk
-- (floats; where a finding needs its priority, the score is a parameter).
pub mod Base
pub mod Lifecycle
pub mod CircuitBreaker
pub mod RateLimiter
pub mod ScanJob
pub mod Outbox
pub mod Sla
pub mod Version
pub mod Differential
pub mod Policy
pub mod Authorization
pub mod Findings
pub mod RiskAcceptance
pub mod ScanTask
pub mod Schedule
