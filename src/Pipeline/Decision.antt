-- ===== src/Pipeline/Decision.antt =====
-- libs/pipeline/src/pipeline.service.ts: what the decision of a finished orchestrator run does.
pub mod Runs
pub mod Keeps
pub mod Rework
pub mod Budget
use brigadir.Prelude.{
  ℕ, String, Bool, true, false, ◌&&◌, ◌||◌, not, Option, none, some, ◌==◌, ◌+◌, ltb, find_where,
  count_where, is_some, same_id?, str_eq, if◌then◌else◌,
}
use brigadir.Domain.{
  World, Run, RunStatus, failed, timed_out, awaiting_human, Agent, AgentReport, Outcome, routed,
  needs_human, ReportRouting, TriggerEvent, TriggerSource, rework, answer_triage, is_active,
  blocker, Payload, Io, Result, Failure, no_transition_path, ok, throws, pure, throw, ◌>>=◌, ◌>>◌,
  add_event, JiraClient, transition_to, add_comment, comment,
}
use brigadir.Runs.Trigger.{TriggerInput, TriggerResult, minted, deduplicated, trigger, agent_row}
use brigadir.HumanTasks.Service.{create_non_blocking}

pub record ReworkBudget : Type 0 where
  pub cycle_count : ℕ
  pub max : ℕ
  pub available : Bool

abbrev pub is_rework : TriggerSource → Bool
is_rework rework = true
is_rework _ = false

abbrev pub rework_of : ℕ → Run → Bool
rework_of ticket r = same_id? r.ticket_id (some ticket) && is_rework r.trigger_event.source

unfoldable pub get_rework_budget : ℕ → ℕ → World → ReworkBudget
get_rework_budget ticket workspace w =
    let n = count_where (rework_of ticket) w.runs in
    record {
      cycle_count = n;
      max = w.rework_max workspace;
      available = ltb n (w.rework_max workspace);
    }

abbrev pub decided_by : ℕ → ℕ → Run → Bool
decided_by ticket deciding r =
    same_id? r.ticket_id (some ticket) && same_id? r.trigger_event.deciding_run_id (some deciding)

unfoldable pub find_existing_rework_run : ℕ → ℕ → World → Option Run
find_existing_rework_run ticket deciding w = find_where (decided_by ticket deciding) w.runs

-- The join drops runs without an agent.
abbrev pub other_active : ℕ → ℕ → World → Run → Bool
other_active ticket i w r =
    same_id? r.ticket_id (some ticket)
    && is_active r.status
    && not (r.id == i)
    && is_some (agent_row r.agent_id w)

unfoldable pub find_active_run_on_ticket : ℕ → ℕ → World → Option Run
find_active_run_on_ticket ticket i w = find_where (other_active ticket i w) w.runs

unfoldable pub resolve_routing_target : ℕ → String → World → Option Agent
resolve_routing_target workspace key w =
    find_where
      (λ a.
        a.workspace_id == workspace && (str_eq a.key key && (a.enabled && not a.is_orchestrator)))
      w.agents

-- The decisions that the completion marker names.
pub data Decision : Type 0 where
  orchestrator_failed asks_human orchestrator_invalid is_routed override_budget : Decision
  override_invalid_target override_active_run : Decision

abbrev pub decision_name : Decision → String
decision_name orchestrator_failed = "orchestrator_failed"
decision_name asks_human = "needs_human"
decision_name orchestrator_invalid = "orchestrator_invalid"
decision_name is_routed = "routed"
decision_name override_budget = "override_budget"
decision_name override_invalid_target = "override_invalid_target"
decision_name override_active_run = "override_active_run"

-- What a text that the pipeline writes, the details of a task or a report's summary, is composed of.
pub data Facts : Type 0 where
  did_not_complete : Option String → Facts
  invalid_routed : String → Facts
  budget_exhausted : ReworkBudget → Facts
  setup_failed : String → RunStatus → Option String → Facts
  run_ended : String → RunStatus → Facts
  no_decision : String → Facts
  invalid_target : ReportRouting → Facts
  budget_used : ReportRouting → Bool → ReworkBudget → Facts
  active_run : ReportRouting → Run → Facts
  lost_race : ReportRouting → Option ℕ → Option String → Facts

-- How the processing of a decision ends: with a decision, or with a thrown error that was already
-- recorded on the run (`diagnosed`). An error that was not recorded is a `throws`.
pub data Attempt : Type 0 where
  decided : Decision → Attempt
  diagnosed : Failure → Attempt

abbrev pub failed_or_timed_out : RunStatus → Bool
failed_or_timed_out failed = true
failed_or_timed_out timed_out = true
failed_or_timed_out _ = false

abbrev pub is_awaiting : RunStatus → Bool
is_awaiting awaiting_human = true
is_awaiting _ = false

abbrev pub wants_human : Option AgentReport → Bool
wants_human none = false
wants_human (some r) = elim r.outcome [ needs_human ↦ true | _ ↦ false ]

abbrev pub routing_of : Option AgentReport → Option (AgentReport × ReportRouting)
routing_of none = none
routing_of (some r) = elim r.outcome [
  | routed ↦ elim r.routing [ some routing ↦ some (r, routing) | none ↦ none ]
  | _ ↦ none
]

abbrev pub human_granted : Run → Bool
human_granted run = elim run.trigger_event.source [ answer_triage ↦ true | _ ↦ false ]

-- A step of the decision inside its `try`: an error is recorded under the step's name.
abbrev pub stage_done : {A : Type 0} → ℕ → String → (A → Io Attempt) → Result A → Io Attempt
stage_done i stage next (ok a) w = next a w
stage_done i stage next (throws e) w =
    (add_event i (Payload.stage_error stage) >> pure (diagnosed e)) w

unfoldable pub staged : {A : Type 0} → ℕ → String → Io A → (A → Io Attempt) → Io Attempt
staged i stage m next w = let (result, w') = m w in stage_done i stage next result w'

abbrev pub rework_event : ℕ → Run → Agent → ReportRouting → TriggerEvent
rework_event i run target routing = record {
  source = rework;
  mock_scenario = target.mock_scenario;
  failing_run_id = run.trigger_event.failing_run_id;
  deciding_run_id = some i;
  human_task_id = run.trigger_event.human_task_id;
  target_agent = some routing.target_agent;
  task = some routing.task;
  resolution = none;
}

abbrev pub rework_input : ℕ → Run → ℕ → Agent → ReportRouting → TriggerInput
rework_input i run ticket target routing = record {
  ticket_id = some ticket;
  agent_id = target.id;
  trigger_event = some (rework_event i run target routing);
}

-- The client of the workspace, and the wording of the details of a fallback task.
module _ (jira : JiraClient) (details : Facts → String) where
  unfoldable pub fall_back : ℕ → String → Facts → Decision → Io Attempt
  fall_back i title facts decision =
      create_non_blocking jira i blocker title (some (details facts)) >> pure (decided decision)

  abbrev pub after_trigger : ℕ → Agent → ReportRouting → TriggerResult → Io Attempt
  after_trigger i target routing (minted id) = pure (decided is_routed)
  after_trigger i target routing (deduplicated existing) =
      fall_back i "Routing overridden — another agent is active on this ticket"
        (lost_race routing existing target.status_running) override_active_run

  abbrev pub to_running : String → Option String → Io Unit
  to_running key none = pure tt
  to_running key (some status) = transition_to jira key status

  -- Transition, comment, enqueue, in this order: nothing is enqueued after Jira refused.
  unfoldable pub execute : ℕ → Run → ℕ → String → AgentReport → ReportRouting → Agent → Io Attempt
  execute i run ticket key report routing target =
      staged i "jira_transition" (to_running key target.status_running) (λ _.
        staged i "jira_comment" (add_comment jira key (comment key report)) (λ _.
          staged i "enqueue_rework" (trigger (rework_input i run ticket target routing))
            (after_trigger i target routing)))

  abbrev pub on_conflict :
      ℕ → Run → ℕ → String → AgentReport → ReportRouting → Agent → Option Run → Io Attempt
  on_conflict i run ticket key report routing target (some conflict) =
      fall_back i "Routing overridden — another agent is active on this ticket"
        (active_run routing conflict) override_active_run
  on_conflict i run ticket key report routing target none =
      execute i run ticket key report routing target

  -- The budget, or the one cycle beyond it that a human's answer grants.
  abbrev pub allows : Run → ReworkBudget → Bool
  allows run budget =
      budget.available || (human_granted run && ltb budget.cycle_count (budget.max + 1))

  abbrev pub on_target :
      ℕ → Run → ℕ → String → AgentReport → ReportRouting → Option Agent → ReworkBudget → Io Attempt
  on_target i run ticket key report routing none budget w =
      fall_back i "Routing overridden — manual attention needed" (invalid_target routing)
        override_invalid_target w
  on_target i run ticket key report routing (some target) budget w =
      (if allows run budget
          then on_conflict i run ticket key report routing target
              (find_active_run_on_ticket ticket i w)
          else fall_back i "Routing overridden — manual attention needed"
              (budget_used routing (human_granted run) budget) override_budget)
        w

  abbrev pub on_existing :
      ℕ → Run → ℕ → String → AgentReport → ReportRouting → Option Run → Io Attempt
  on_existing i run ticket key report routing (some existing) w = pure (decided is_routed) w
  on_existing i run ticket key report routing none w =
      on_target i run ticket key report routing
        (resolve_routing_target run.workspace_id routing.target_agent w)
        (get_rework_budget ticket run.workspace_id w) w

  abbrev pub on_routing :
      ℕ → Run → ℕ → Agent → String → Option (AgentReport × ReportRouting) → Io Attempt
  on_routing i run ticket agent key none w =
      fall_back i "Orchestrator returned an unexpected outcome — manual triage needed"
        (no_decision agent.name) orchestrator_invalid w
  on_routing i run ticket agent key (some (report, routing)) w =
      on_existing i run ticket key report routing (find_existing_rework_run ticket i w) w

  unfoldable pub process_orchestrator_decision : ℕ → Run → ℕ → Agent → String → Io Attempt
  process_orchestrator_decision i run ticket agent key =
      if failed_or_timed_out run.status
      then fall_back i "Orchestrator triage run failed — manual triage needed"
          (run_ended agent.name run.status) orchestrator_failed
      else if is_awaiting run.status || wants_human run.report
      then pure (decided asks_human)
      else on_routing i run ticket agent key (routing_of run.report)

  abbrev pub finish_decision : ℕ → Result Attempt → Io Unit
  finish_decision i (ok (decided d)) w = add_event i (Payload.orchestrator_done (decision_name d)) w
  finish_decision i (ok (diagnosed no_transition_path)) w = pure tt w
  finish_decision i (ok (diagnosed e)) w = throw e w
  finish_decision i (throws no_transition_path) w = pure tt w
  finish_decision i (throws e) w =
      (add_event i (Payload.stage_error "orchestrator_completion") >> throw e) w

  unfoldable pub on_orchestrator_finished : ℕ → Run → ℕ → Agent → String → Io Unit
  on_orchestrator_finished i run ticket agent key w =
      let (result, w') = process_orchestrator_decision i run ticket agent key w in
      finish_decision i result w'
