-- ===== src/Lib.antt =====
-- Scrapeyard is a web scraping service. Clients submit a configuration over HTTP; a run is queued in
-- SQLite and Redis, a worker claims it, fetches its targets under rate limits, circuit breakers and a
-- budget, stores the results, and announces the end of the run through a webhook outbox. The library
-- models the parts that decide what happens to a run and to a host:
--
-- * Circuit (Circuit.antt and Circuit/) models `CircuitBreaker` of src/scrapeyard/engine/resilience.py:
--   the table of domains that fail, with its states closed, open and half-open, its probes, its pruning
--   and its eviction. Circuit.CircuitBreaker is the state; check, record_success, record_failure,
--   abort_probe and state are the methods, each atomic under its lock and given its reading of the
--   clock. Call, step and run are the calls that the tasks of a process make.
-- * Resilience (Resilience.antt and Resilience/) models the rest of that file: Resilience/Retry has
--   `RetryHandler.execute` as a recursion on the attempts that are left, Resilience/Validator has
--   `ResultValidator`. What is called, slept and checked in between is a parameter; Resilience/Tries
--   is proofs.
-- * Budget (Budget.antt and Budget/) models `RunBudget` of src/scrapeyard/common/budgets.py: the deadline
--   and the counters of one run. A method returns its result beside the new state, as what was written
--   before a raise stays. `wait_for` is the two steps begin_wait and end_wait; Call, perform and run are
--   the calls of the tasks of the run, in any order.
-- * Jobs (Jobs.antt and Jobs/) models the life of a job in src/scrapeyard/storage/job_store.py with
--   job_recovery.py, job_deletion.py, the reconciliation of one candidate in
--   job_terminal_reconciliation.py, the pruning of one run in job_retention.py, and what these use of
--   webhook_outbox.py and database.py in the same folder. Jobs.JobStore holds the tables by primary
--   key; a transaction commits, rolls back or raises. Jobs/Queue has queue_run, admission and the
--   failure of queued runs; Jobs/Claim has claim_run; Jobs/Ownership has heartbeat_run, finalize_owned_run and
--   fail_owned_run; Jobs/Recovery the recovery of queued and running jobs and the rollback of a
--   submission; Jobs/Deletion cancel_job, reserve_job_deletion and finalize_job_deletion;
--   Jobs/Reconcile reconcile_terminal_webhook_candidate and prune_scheduled_run_for_retention. Jobs/Steps
--   makes them the steps that API, workers, reconcilers and cleanup take on one database.
--   Jobs/Rules and Jobs/Running are lemmas; the proofs are in Jobs/Exclusive (who owns a run),
--   Jobs/History (runs that are over) and Jobs/Lifecycle (jobs that are cancelled or deleted).
-- * Outbox (Outbox.antt and Outbox/) models src/scrapeyard/storage/webhook_outbox.py: the table of webhook
--   deliveries, which the finalization of a run fills and the dispatcher empties. Each method of
--   `SQLiteWebhookOutboxStore` that writes is a function from the table to its answer and the table;
--   Outbox/Codec has the conversion of rows with encryption and JSON as the parameter Coding,
--   Outbox/Scrub the scrubbing, Outbox/Deletion the deletion of rows with a job by job_deletion.py or with
--   a run by job_retention.py, Outbox/Steps the steps of all these. Outbox/Roundtrip and the other files
--   are proofs.
-- * Guard (Guard.antt and Guard/) models src/scrapeyard/engine/domain_guard.py. Guard.DomainGuard is the
--   protocol; Guard/Local and Guard/Redis are its two implementations, the latter over Redis as the
--   parameter Server, whose commands are described by IsRedis. Guard/Policy has `RunDomainPolicy`
--   over any guard, with the host names of URLs as a parameter. Guard/Keys and Guard/Entries relate
--   the state of the two guards, Guard/Agreement their answers; Guard/Keeping is about what the calls
--   of a run keep of any guard, and Guard/Limit and Guard/Cooldown use it.
-- * Webhook (Webhook.antt and Webhook/) models the delivery loop of src/scrapeyard/webhook/dispatcher.py
--   over the outbox: Webhook/Send turns one HTTP exchange into a result, Webhook/Process has
--   `_process_delivery` in two halves, before the request and after it, so that other tasks may come
--   between, and the steps of all tasks on the table. Webhook/Attempts and Webhook/Settle are proofs.
-- * AssetCache (AssetCache.antt and AssetCache/) models src/scrapeyard/engine/asset_cache.py: the record of
--   the cache with its entries in order of use, AssetCache/Freshness for `freshness_seconds`, and
--   AssetCache/Store for `store` and its loop. AssetCache/Sizes, AssetCache/Bound and
--   AssetCache/Recency are proofs.
-- * Intake (Intake.antt and Intake/) models the weighted admission of runs: `WeightedPriorityPolicy` of
--   src/scrapeyard/queue/priority.py, and `_admit_one` of src/scrapeyard/queue/pool.py with its script,
--   over the three intake queues and the execution queue. Intake/Scan and Intake/Turns are proofs.
-- * RateLimit (RateLimit.antt and RateLimit/) models `RedisDomainRateLimiter` of
--   src/scrapeyard/engine/rate_limiter.py over the same server as the guard: its script, one try, and
--   the loop of `acquire`, which is given how late each sleep ends. What Lua writes of a time, with 14
--   significant digits, is the parameter written, described by IsRounded. RateLimit/Spacing and
--   RateLimit/Waiting are proofs.
-- * HostVerdicts (HostVerdicts.antt and HostVerdicts/Trust.antt) models
--   src/scrapeyard/common/host_verdicts.py beside a specification of one host with no bound on memory,
--   spec_run.
-- * Target (Target.antt and Target/) models the task of one target of a run. Target/Recorder has the error
--   records and the recorder of src/scrapeyard/queue/error_records.py, Target/Action the awaits and
--   exceptions it runs in, Target/Validation `apply_validation` of
--   src/scrapeyard/queue/validation_policy.py over Resilience/Validator, and Target/Execution
--   `_fetch_and_validate_target` of src/scrapeyard/queue/worker.py with
--   src/scrapeyard/queue/target_execution.py. The breaker's admission is an argument, and the task's calls of
--   it are a list of reports; Target/Release puts them together with Circuit. What the fetch returns or
--   raises is a parameter. Target/Ledger, Target/Probe, Target/Sound, Target/Accounted, Target/Passing
--   and Target/Judged are proofs.
-- * RunResult (RunResult.antt) models what a worker of src/scrapeyard/queue/worker.py makes of the results
--   of a run's targets, `_collect_result_payload`, `_determine_final_status` and the start of
--   `_persist_job_results`; its status is one of the job store. RunResult/Artifact groups the results
--   by target as `_format_output` does, over Budget. RunResult/Status and RunResult/Groups are proofs.
-- * Prelude (Prelude.antt and Prelude/) has what these share: tests on numbers, signed integers, the
--   equality of keys, lists, and dictionaries as association lists.
-- * Examples (Examples.antt and Examples/) runs the code on small inputs.
--
-- Times are whole ticks of a unit as fine as the clocks and the arithmetic on them is exact, byte counts
-- are whole numbers; where the source
-- can go below zero the model has signed integers. The loops are recursion on lists, and sequences of
-- calls or transactions are lists of any length; only the search for a free key of a group runs on fuel,
-- one round for each key that is taken and one more, as the keys it tries differ, and Prelude/Decimal on
-- the number itself, as its digits are fewer. The write lock of SQLite
-- and the locks of the Python objects make the modelled operations atomic. Encryption and SHA-256 are
-- the parameters Jobs.Secrets and Outbox.Codec.Coding, the memory that admission finds is an argument.
--
-- Not modelled: creation and schedule updates of jobs, the listing of candidates for retention and
-- reconciliation and the time of a failed reconciliation, the record of a missed fire, the migrations at
-- startup, the listing of due deliveries, the dispatcher's coordinator, client cache and shutdown, the
-- traffic report of the budget, the local rate limiter, the rest of the engine (page cache,
-- classification of failures, pagination, extraction), the rest of the workers and of the queue pool, the
-- scheduler and the API. They are the repository's own code and left for extensions. Browsers, HTTP
-- clients, Redis, FastAPI, APScheduler and pydantic are third-party code; of these only Redis is used
-- by the models, as a parameter.
mod Prelude
pub mod Circuit
pub mod Budget
pub mod Jobs
pub mod Outbox
pub mod Guard
pub mod Webhook
pub mod AssetCache
pub mod Intake
pub mod RateLimit
pub mod Resilience
pub mod HostVerdicts
pub mod Target
pub mod RunResult
mod Examples
