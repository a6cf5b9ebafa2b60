-- ===== src/Pipeline/Completion.antt =====
-- libs/pipeline/src/pipeline.service.ts: what the end of a run does to its ticket.
pub mod Triage
pub mod Keeps
use brigadir.Prelude.{
  ℕ, String, Bool, true, false, ◌&&◌, not, Option, none, some, List, [], ◌==◌, any_where,
  find_where, is_some, if◌then◌else◌, length,
}
use brigadir.Domain.{
  World, Run, RunStatus, succeeded, failed, timed_out, awaiting_human, Agent, Ticket, AgentReport,
  Outcome, routed, failure, team, TriggerEvent, TriggerSource, triage, blocker, Payload, RunEvent,
  run_of, is_team, TeamAgent, Io, Result, Failure, no_transition_path, ok, throws, pure, throw,
  ◌>>=◌, ◌>>◌, add_event, JiraClient, transition_to, add_comment, comment, non_fatal,
}
use brigadir.Runs.Trigger.{TriggerInput, TriggerResult, minted, deduplicated, trigger, agent_row}
use brigadir.HumanTasks.Service.{create_non_blocking, ticket_row}
use brigadir.Pipeline.Decision.{
  Facts, did_not_complete, invalid_routed, budget_exhausted, setup_failed, failed_or_timed_out,
  ReworkBudget, get_rework_budget, on_orchestrator_finished,
}

unfoldable pub find_enabled_orchestrator : ℕ → World → Option Agent
find_enabled_orchestrator workspace w =
    find_where (λ a. a.workspace_id == workspace && (a.is_orchestrator && a.enabled)) w.agents

abbrev is_marker : Payload → Bool
is_marker (Payload.worker_done status decision) = true
is_marker (Payload.orchestrator_done decision) = true
is_marker (Payload.setup_done setup created) = true
is_marker _ = false

abbrev pub marks : ℕ → RunEvent → Bool
marks i e = e.run_id == i && is_marker e.payload

unfoldable pub has_jira_action_marker : ℕ → World → Bool
has_jira_action_marker i w = any_where (marks i) w.run_events

pub data TriageDecision : Type 0 where
  cycle_limit no_orchestrator triage_deduplicated triaged : TriageDecision

abbrev pub triage_name : TriageDecision → String
triage_name cycle_limit = "cycle_limit"
triage_name no_orchestrator = "no_orchestrator"
triage_name triage_deduplicated = "triage_deduplicated"
triage_name triaged = "triaged"

abbrev pub triage_event : ℕ → Agent → TriggerEvent
triage_event failing orchestrator = record {
  source = triage;
  mock_scenario = orchestrator.mock_scenario;
  failing_run_id = some failing;
  deciding_run_id = none;
  human_task_id = none;
  target_agent = orchestrator.route_target;
  task = none;
  resolution = none;
}

abbrev pub triage_input : ℕ → ℕ → Agent → TriggerInput
triage_input failing ticket orchestrator = record {
  ticket_id = some ticket;
  agent_id = orchestrator.id;
  trigger_event = some (triage_event failing orchestrator);
}

abbrev pub triage_of : TriggerResult → TriageDecision
triage_of (minted id) = triaged
triage_of (deduplicated existing) = triage_deduplicated

-- The client of the workspace, the wording of texts, and the release of the dependents of a ticket.
module _ (jira : JiraClient) (text : Facts → String) (release : ℕ → String → Io Unit) where
  abbrev pub triage_by : ℕ → ℕ → Option Agent → Io TriageDecision
  triage_by failing ticket none = pure no_orchestrator
  triage_by failing ticket (some orchestrator) =
      trigger (triage_input failing ticket orchestrator) >>= λ r. pure (triage_of r)

  unfoldable pub decide_triage : ℕ → ℕ → ℕ → Io TriageDecision
  decide_triage failing ticket workspace w =
      (if (get_rework_budget ticket workspace w).available
          then triage_by failing ticket (find_enabled_orchestrator workspace w)
          else (create_non_blocking jira failing blocker
                "Rework budget exhausted — manual attention needed"
                (some (text (budget_exhausted (get_rework_budget ticket workspace w))))
              >> pure cycle_limit))
        w

  abbrev synthetic_failure_report : Option String → AgentReport
  synthetic_failure_report error = record {
    outcome = failure;
    summary = text (did_not_complete error);
    checks = [];
    human_task = none;
    routing = none;
    team = none;
    artifacts = none;
  }

  abbrev invalid_routed_report : AgentReport → AgentReport
  invalid_routed_report report = record {
    outcome = failure;
    summary = text (invalid_routed report.summary);
    checks = report.checks;
    human_task = none;
    routing = none;
    team = none;
    artifacts = report.artifacts;
  }

  abbrev is_routed_report : AgentReport → Bool
  is_routed_report report = elim report.outcome [ routed ↦ true | _ ↦ false ]

  abbrev raw_report : Run → AgentReport
  raw_report run = elim run.report [ some r ↦ r | none ↦ synthetic_failure_report run.error ]

  -- The report that is posted: only an orchestrator may route.
  abbrev pub worker_report : Run → AgentReport
  worker_report run =
      if is_routed_report (raw_report run)
      then invalid_routed_report (raw_report run)
      else raw_report run

  abbrev has_succeeded : RunStatus → Bool
  has_succeeded succeeded = true
  has_succeeded _ = false

  abbrev pub worker_succeeded : Run → Bool
  worker_succeeded run = has_succeeded run.status && not (is_routed_report (raw_report run))

  abbrev pub worker_target : Run → Agent → String
  worker_target run agent =
      if worker_succeeded run then agent.status_success else agent.status_failure

  abbrev pub triage_if_failed : ℕ → Run → ℕ → Io (Option String)
  triage_if_failed i run ticket =
      if failed_or_timed_out run.status
      then (decide_triage i ticket run.workspace_id >>= λ d. pure (some (triage_name d)))
      else pure none

  abbrev release_dependents_safely : Run → String → Bool → Io Unit
  release_dependents_safely run key true = non_fatal (release run.workspace_id key)
  release_dependents_safely run key false = pure tt

  -- The body of the `try`: transition, comment, triage, marker, release, in this order.
  abbrev pub worker_steps : ℕ → Run → ℕ → Agent → String → Io Unit
  worker_steps i run ticket agent key =
      transition_to jira key (worker_target run agent)
      >> add_comment jira key (comment key (worker_report run))
      >> triage_if_failed i run ticket
      >>= λ decision.
          (add_event i (Payload.worker_done (worker_target run agent) decision)
            >> release_dependents_safely run key (worker_succeeded run))

  abbrev pub worker_caught : ℕ → Result {0} Unit → Io Unit
  worker_caught i (throws no_transition_path) w =
      add_event i (Payload.stage_error "jira_transition") w
  worker_caught i r w = (r, w)

  unfoldable pub on_worker_finished : ℕ → Run → ℕ → Agent → String → Io Unit
  on_worker_finished i run ticket agent key w =
      let (result, w') = worker_steps i run ticket agent key w in worker_caught i result w'

  abbrev agents_created : Option AgentReport → ℕ
  agents_created none = 0
  agents_created (some r) =
      if is_team r.outcome then elim r.team [ some agents ↦ length agents | none ↦ 0 ] else 0

  abbrev setup_ended : ℕ → Run → Agent → Io Unit
  setup_ended i run agent =
      create_non_blocking jira i blocker "Workspace setup failed — team not generated"
        (some (text (setup_failed agent.name run.status run.error)))
      >> add_event i (Payload.setup_done "failed" none)

  unfoldable pub on_setup_finished : ℕ → Run → Agent → Io Unit
  on_setup_finished i run agent = elim run.status [
    | failed ↦ setup_ended i run agent
    | timed_out ↦ setup_ended i run agent
    | awaiting_human ↦ add_event i (Payload.setup_done "needs_human" none)
    | _ ↦ add_event i (Payload.setup_done "applied" (some (agents_created run.report)))
  ]

  abbrev pub is_finished : RunStatus → Bool
  is_finished succeeded = true
  is_finished failed = true
  is_finished timed_out = true
  is_finished awaiting_human = true
  is_finished _ = false

  abbrev finish_on_ticket : ℕ → Run → Agent → ℕ → Option Ticket → Io Unit
  finish_on_ticket i run agent t none = pure tt
  finish_on_ticket i run agent t (some ticket) =
      if agent.is_orchestrator
      then on_orchestrator_finished jira text i run t agent ticket.jira_key
      else on_worker_finished i run t agent ticket.jira_key

  abbrev finish_by : ℕ → Run → Agent → Option ℕ → Io Unit
  finish_by i run agent none w =
      (if agent.is_orchestrator then on_setup_finished i run agent else pure tt) w
  finish_by i run agent (some t) w = finish_on_ticket i run agent t (ticket_row t w) w

  abbrev finish_agent : ℕ → Run → Option Agent → Io Unit
  finish_agent i run none = pure tt
  finish_agent i run (some agent) = finish_by i run agent run.ticket_id

  abbrev finish_run : ℕ → Option Run → Io Unit
  finish_run i none w = pure tt w
  finish_run i (some run) w =
      (if is_finished run.status then finish_agent i run (agent_row run.agent_id w) else pure tt) w

  unfoldable pub on_run_finished : ℕ → Io Unit
  on_run_finished i w =
      if has_jira_action_marker i w then pure tt w else finish_run i (run_of i w.runs) w
