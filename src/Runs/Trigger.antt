-- ===== src/Runs/Trigger.antt =====
-- libs/runs/src/run-trigger.service.ts: the single place where a run is minted and enqueued.
pub mod Idempotence
use brigadir.Prelude.{
  ℕ, String, Bool, true, false, ◌&&◌, not, Option, none, some, ◌==◌, find_where, is_some, same_id?,
  get_or, if◌then◌else◌,
}
use brigadir.Domain.{
  World, Run, RunStatus, Agent, Executor, Job, TriggerEvent, TriggerSource, manual, human_resume,
  triage, rework, answer_triage, workspace_setup, is_active, queued, Io, Result, ok, throws, pure,
  throw, gets, ◌>>=◌, ◌>>◌, add_run, add_job, unique_violation, agent_not_found, executor_not_found,
}

pub record TriggerInput : Type 0 where
  pub ticket_id : Option ℕ
  pub agent_id : ℕ
  pub trigger_event : Option TriggerEvent

pub data TriggerResult : Type 0 where
  minted : ℕ → TriggerResult
  deduplicated : Option ℕ → TriggerResult

-- `QUEUE_DEDUP_SKIP_SOURCES`.
abbrev pub skips_queue_dedup : TriggerSource → Bool
skips_queue_dedup triage = true
skips_queue_dedup rework = true
skips_queue_dedup human_resume = true
skips_queue_dedup answer_triage = true
skips_queue_dedup workspace_setup = true
skips_queue_dedup _ = false

abbrev pub manual_event : TriggerEvent
manual_event = record {
  source = manual;
  mock_scenario = none;
  failing_run_id = none;
  deciding_run_id = none;
  human_task_id = none;
  target_agent = none;
  task = none;
  resolution = none;
}

abbrev pub event_of : TriggerInput → TriggerEvent
event_of input = get_or input.trigger_event manual_event

abbrev pub new_run : ℕ → Option ℕ → ℕ → String → ℕ → TriggerEvent → ℕ → ℕ → Run
new_run workspace ticket agent executor_type attempt event now id = record {
  id = id;
  workspace_id = workspace;
  ticket_id = ticket;
  agent_id = agent;
  executor_type = executor_type;
  status = queued;
  attempt = attempt;
  created_at = now;
  trigger_event = event;
  external_ref = none;
  started_at = none;
  finished_at = none;
  exit_code = none;
  cost_usd = none;
  usage = none;
  error = none;
  report = none;
  outcome = none;
}

-- The active run that holds the slot of a ticket, or of a workspace's setup.
abbrev pub holder : ℕ → Option ℕ → Run → Bool
holder workspace none r =
    r.workspace_id == workspace && (not (is_some r.ticket_id) && is_active r.status)
holder workspace (some t) r = same_id? r.ticket_id (some t) && is_active r.status

abbrev pub agent_row : ℕ → World → Option Agent
agent_row i w = find_where (λ a. a.id == i) w.agents

abbrev pub executor_row : ℕ → World → Option Executor
executor_row i w = find_where (λ e. e.id == i) w.executors

abbrev pub run_row : TriggerInput → Agent → Executor → ℕ → ℕ → Run
run_row input agent executor =
    new_run agent.workspace_id input.ticket_id input.agent_id executor.type 1 (event_of input)

abbrev pub job_for : TriggerInput → Agent → Executor → ℕ → Job
job_for input agent executor id = record {
  queue = executor.type;
  run_id = id;
  job_id = id;
  deduplication =
      if skips_queue_dedup (event_of input).source
      then none
      else some (input.ticket_id, input.agent_id);
  attempts = some agent.max_attempts;
}

abbrev existing_id : Option Run → Option ℕ
existing_id none = none
existing_id (some r) = some r.id

-- What follows the insertion: the enqueueing, or on 23505 the look-up of the holder.
abbrev pub after_insert :
    TriggerInput → Agent → Executor → Result ℕ × World → Result TriggerResult × World
after_insert input agent executor (ok id, w) =
    (add_job (job_for input agent executor id) >> pure (minted id)) w
after_insert input agent executor (throws unique_violation, w) =
    pure
      (deduplicated (existing_id (find_where (holder agent.workspace_id input.ticket_id) w.runs))) w
after_insert input agent executor (throws e, w) = throw e w

unfoldable pub trigger_on : TriggerInput → Agent → Executor → Io TriggerResult
unfolding add_run
trigger_on input agent executor w =
    after_insert input agent executor (add_run (run_row input agent executor w.clock) w)

abbrev on_executor : TriggerInput → Agent → Option Executor → Io TriggerResult
on_executor input agent none = throw executor_not_found
on_executor input agent (some executor) = trigger_on input agent executor

abbrev on_agent : TriggerInput → Option Agent → Io TriggerResult
on_agent input none w = throw agent_not_found w
on_agent input (some agent) w = on_executor input agent (executor_row agent.executor_id w) w

unfoldable pub trigger : TriggerInput → Io TriggerResult
unfolding trigger_on
trigger input w = on_agent input (agent_row input.agent_id w) w
