-- ===== src/Lib.antt =====
-- Ovek's control plane, the Brain (cmd/brain, with the types and paths of internal/brainapi).
--
-- The Brain keeps projects, deployment jobs, deployments, workflows, workflow runs and trigger
-- tokens in an SQLite database, and writes the logs of builds through a redactor of secrets. HTTP
-- requests create jobs and runs; one worker and one workflow manager take them from a queue, call a
-- processor and record how it ended; at a restart, what was running is marked as failed.
--
-- Scrubber        cmd/brain/secret_scrubber.go: newSecretScrubber, Writer, Write, Flush and flush. A
--                 Go string is its list of bytes. The loop of flush runs on fuel, the length of the
--                 tail, of which each round uses one and drops a byte at least. The io.Writer below is
--                 a parameter, and so is the order in which Go walks a map. Scrub is not modelled.
-- Store           cmd/brain/db.go: the tables as lists of rows, their statuses, and the failures.
--                 Store.Sql has the statements on a table, with requireUpdatedRow and nullableString
--                 of cmd/brain/worker.go. A transaction is a chain of results: an error leaves the
--                 tables of before, as a rollback does. Statements fail by constraints alone: failures
--                 of the disk or of the connection are not modelled. created_at columns are compared as
--                 texts, as the queries do. Clock readings and new ids are arguments.
-- Projects        cmd/brain/project_status.go: deriveProjectStatus, setProjectStatus,
--                 syncProjectStatus; and the lookups of cmd/brain/cleanup.go and project_config.go.
-- Jobs            cmd/brain/jobs.go: creation, lookup and listing of deployment jobs.
-- Worker          cmd/brain/worker.go: claimQueuedJob, updateJobPhase, markJobFailed,
--                 markJobSucceeded, processJob and recoverInterruptedJobs. The processor is an argument:
--                 the phases that it sets, its result and its error. The queue channel and the
--                 removal of old images are not modelled.
-- Lifecycle       what holds of projects, jobs and deployments together: the keys of the tables, one
--                 active job for each project, and stored statuses in step with the jobs.
--                 Lifecycle.Transactions has the sequences of the transactions that write projects,
--                 jobs or deployments, and Lifecycle.Reach what they keep. They are those of jobs.go,
--                 worker.go, project_status.go, cleanup.go, reconcile.go and project_config.go, and
--                 the statuses that project_runtime.go stores. Stops and starts
--                 look at no job: with `during_jobs` at true they come at any time, and at false only
--                 for a project that has a current deployment and no queued or running job, without
--                 which the stored statuses do not stay in step, as a stop during a job shows.
--                 createQueuedJob, which lets a second job be active and which only tests call, is no
--                 transaction there.
-- Workflows       cmd/brain/workflows.go: definitions; the listing of cmd/brain/workflow_scheduler.go
--                 and clearProjectWorkflowState of cmd/brain/cleanup.go.
-- WorkflowRuns    cmd/brain/workflows.go: the rows of runs and their insertion.
-- WorkflowQueue   cmd/brain/workflows.go: requests with idempotency keys, the queue cap and scheduled
--                 ticks, and lookups of runs.
-- WorkflowManager cmd/brain/workflow_manager.go: processRun and recoverInterruptedWorkflowRuns, with
--                 the processor as an argument.
-- Credentials     cmd/brain/auth_store.go: newOpaqueCredential and parseOpaqueCredential. The SHA-256
--                 sum is a parameter, and so are the random id and secret.
-- Auth            cmd/brain/auth_store.go: the tables of users, keys, tokens and audit entries.
--                 Auth.Passwords has hashPassword and verifyPassword, Auth.ApiKeys the bootstrap and
--                 API keys, and Auth.Reauth reauthentication, changes of the password and
--                 requireCriticalReauth of cmd/brain/auth_handlers.go. What the code takes from Go's
--                 library (hashes, key derivation, base64, JSON, times) is a record of functions,
--                 Auth.Platform. Auth.History has sequences of all operations.
-- ProjectConfig   cmd/brain/project_config.go: environment entries and their revisions, with the cipher
--                 of secrets as a parameter. A Go map of entries is a list in which each name stands
--                 once. The scrubber of a resolved config is Scrubber's, made of its secret values.
-- Runtime         what the services below ask of the container runtime, the ingress, the files and the
--                 clock, over a type of worlds that is a parameter, with the steps of a service: a call
--                 of the world, a transaction, and their sequence. An error of the runtime carries what
--                 errdefs tells of it.
-- Cleanup         cmd/brain/cleanup.go: Cleanup, RemoveRuntime and retryRuntimeTeardown, with the
--                 listings of cmd/brain/registry_cleanup.go. Delays are in milliseconds; the five
--                 attempts of the loop are counted down. Paths (filepath.Abs, Rel and Join) are
--                 parameters. A query that only reads does not fail.
-- Reconcile       cmd/brain/reconcile.go: Reconcile and the statements that make a deployment current.
-- Scheduler       cmd/brain/workflow_scheduler.go: Start, Replace, Remove and what a job does when it is
--                 due. The cron library is a record of functions, Scheduler.Cron, with what its
--                 documentation says as hypotheses: a new id has no job before, and a removal takes the
--                 job of one id. The lock of the scheduler is not modelled.
-- ProjectRuntime  cmd/brain/project_runtime.go: the view, stop, start and restart of a project's app.
-- TriggerTokens   cmd/brain/workflow_trigger_tokens.go: creation, listing, revocation and validation,
--                 without the audit log.
-- LogStream       cmd/brain/job_logs.go: writeSSELogEvents, streamSSELogReader, readJobLogDelta and
--                 followJobLogStream. The loop over lines runs on fuel, the length of the log, of
--                 which each line uses one and drops a byte at least. A stream is the list of its
--                 reads, and the polls of a log are the list of what each finds.
-- Common          numbers, lists and texts that the other modules share. A text is its sequence of
--                 code points; strings.TrimSpace and unicode.IsSpace are written out.
-- Examples        runs of the parts above, and the theorems at those runs.
--
-- Numbers are natural numbers: counts of rows, lengths, caps and exit codes. A queue cap below 0, which
-- the code replaces as it does 0, is 0 here.
--
-- Not modelled: HTTP handlers, Docker, builds, ingress, encryption, configuration files, the
-- registry's requests, and the command line client.
pub mod Common
pub mod Scrubber
pub mod Store
pub mod Projects
pub mod Jobs
pub mod Worker
pub mod Lifecycle
pub mod Workflows
pub mod WorkflowRuns
pub mod WorkflowQueue
pub mod WorkflowManager
pub mod Credentials
pub mod TriggerTokens
pub mod LogStream
mod Examples
pub mod Auth
pub mod ProjectConfig
pub mod Runtime
pub mod Cleanup
pub mod Reconcile
pub mod ProjectRuntime
pub mod Scheduler
