-- ===== src/Lib.antt =====
-- brigadir: an orchestrator of coding agents on top of Jira. This library models the control plane
-- that decides which runs exist and how they end.
--
-- Layout, with the files of the repository that each part is about:
-- - Domain: the shared data. Domain/Report is packages/contracts/src/report.schema.ts and
--   trigger-event.schema.ts; Domain/Tables is libs/database/src/schema with the two partial unique
--   indexes of `runs`; Domain/Actions is how a service reads and writes the store, with exceptions.
-- - Runs: libs/runs. Runs/Service is runs.service.ts, Runs/StatusMapping is status-mapping.ts,
--   Runs/Trigger is run-trigger.service.ts; the other modules prove their properties,
--   Refinement against an abstract machine on the status of a run.
-- - HumanTasks: libs/human-tasks. HumanTasks/Service is human-task.service.ts with
--   libs/database/src/human-task-queries.ts, HumanTasks/Resume with
--   HumanTasks/Successor is resume.service.ts;
--   HumanTasks/Requests, Resumption and Resolution prove what a request and an answer do.
-- - Pipeline: libs/pipeline. Pipeline/Gate is dependency-gate.ts, and Pipeline/Gate/Laws says what
--   it decides. Pipeline/Decision and Pipeline/Completion are the half of pipeline.service.ts that
--   handles the end of a run, with rework-budget.ts; their child modules are about the runs that
--   a decision mints (Runs, Rework), the rework budget (Budget) and triage (Triage).
--   Pipeline/StatusChange is the other half, the start of runs by a change of status.
--   Pipeline/Triggering says what it is for an action to do no more to the runs than trigger some.
--   Pipeline/Candidates and Pipeline/Release are the pass of dependency-release.service.ts, with
--   what it keeps in Keeps, and Pipeline/Cycles is its search for cycles, with its end in Ends,
--   paths of tickets in Paths and what is marked in Marks.
-- - Worker: apps/worker. Worker/ExecutorGate is executor-gate.ts; Worker/ExecutorGate/Capacity is
--   about the limits that it keeps. Worker/Outbox is outbox-reconcile.service.ts with
--   undelivered-report.ts; Rescue and Sweep are about what becomes of reports and of runs.
--   Worker/RunProcessor is run.processor.ts: Ended says how a run ends after its process, Dropped which
--   jobs change nothing. Worker/CallbackExit is the end of claude-cli-run.processor.ts for runs on the
--   callback channel, and Parked is about those that wait for a human. Worker/Lock is worker-lock.service.ts, and Holders says how many workers hold the lock.
-- - Callback: libs/callback. Callback/Scrub is report-scrub.ts, Callback/CompletionGate is
--   completion-gate.ts with the gate of callback.service.ts, and Callback/Service is the rest of
--   callback.service.ts; Vouched, Completion and Finalized are about what a completion vouches for,
--   leaves alone and ends. Domain/Receipt is packages/contracts/src/verification-receipt.schema.ts.
-- - Setup: how a workspace gets its team. Setup/Keys is packages/contracts/src/agent-key.ts, with the
--   form of a key in Slug and the search for a free one in Free; Setup/Linter is agent-linter.ts
--   beside it. Setup/Validation and Setup/Service are setup-apply.service.ts of libs/pipeline: Sound
--   says what validation can be trusted for, Roster, Landing and Accept that a team is applied as a
--   whole or not at all, Keys and Valid that a valid one is applied.
-- - Ingest: libs/ingest. Ingest/Watchdog is watchdog.service.ts; Reaped says what one turn of a sweep
--   does, Found that the sweep finds what hangs. Ingest/Poller is poller.service.ts with
--   libs/jira/src/scope-jql.ts and the state of libs/database/src/workspace-settings.ts that it keeps;
--   Pass is about the runs that a poll leaves, Diff about statuses seen before, Retries about a change
--   of status that fails. Ingest/DriftRepair is
--   drift-repair.service.ts. Ingest/Reconcile is reconcile.service.ts, the pass that calls all of them,
--   with the board type from libs/jira/src/workspace-connection.service.ts; Isolation says what a pass
--   does when Jira fails.
-- - Jira: libs/jira. Jira/RateLimiter is rate-limiter.ts, with the rate and the retries in Budget and
--   the requests in flight in InFlight; Jira/Jql is jql.ts; Jira/Transitions is
--   transition-discovery.ts, and Posts says what it posts.
--
-- A service method is a function from the store (`World`) to its result, or the failure that it
-- throws, and the new store. A statement `update … where …` is `guarded_update`, which fails with
-- `unique_violation` when the rows after it break an index. Interleavings of processes are
-- sequences of calls, or a step relation for the rate limiter and the worker lock. Timestamps read
-- a clock in the store, and uuids come from a stream in it. A transaction is an action that puts
-- the store back after a throw.
--
-- Code that loops does so over finite lists, except in three places. A request that waits for the
-- rate limiter takes the list of its sleeps, and a thousand of them are always enough. The search
-- for cycles has as many turns as there are tickets and twice their blockers, which is enough too. The
-- search for a free agent key has one turn more than there are keys that it may not give.
--
-- The Jira client is a parameter that may refuse each transition and comment, and that answers the
-- searches of a release pass and a poll; JavaScript's string methods and the scrubber are functions on texts.
-- A text that the pipeline composes is a parameter applied to what it is composed of (`Facts`).
-- The pipeline takes the release of the dependents of a finished ticket as a parameter, which
-- Pipeline/Release fills; the callback and the run processor take the acceptance of a proposed team as
-- one, which Setup/Service fills. The process of an agent is a parameter that may change the store
-- while it runs.
--
-- Not modelled: processes, git worktrees, HTTP, prompt text and the web application, which are
-- input and output around these decisions; the deduplication inside BullMQ, a third-party queue.
pub mod Prelude
pub mod Domain
pub mod Fixtures
pub mod Runs
pub mod HumanTasks
pub mod Callback
pub mod Pipeline
pub mod Worker
pub mod Ingest
pub mod Setup
pub mod Jira
