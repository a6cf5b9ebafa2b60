-- ===== src/HumanTasks/Successor.antt =====
-- libs/human-tasks/src/resume.service.ts: who continues a parked run, and the event that tells it the
-- answer.
use brigadir.Prelude.{
  ℕ, String, Bool, true, false, Option, none, some, ◌==◌, ◌+◌, or_else, if◌then◌else◌,
}
use brigadir.Domain.{
  Run, Agent, TriggerEvent, TriggerSource, human_resume, answer_triage, workspace_setup,
}

pub record ResumeTarget : Type 0 where
  pub id : ℕ
  pub executor_type : String
  pub is_orchestrator : Bool
  pub mock_scenario : Option String
  pub route_target : Option String

abbrev is_setup : TriggerSource → Bool
is_setup workspace_setup = true
is_setup _ = false

-- Who runs next: the target, or the parked run's own agent.
pub record Successor : Type 0 where
  pub agent_id : ℕ
  pub executor_type : String
  pub attempt : ℕ
  pub is_orchestrator : Bool
  pub mock_scenario : Option String
  pub route_target : Option String

abbrev scenario_of : Option Agent → Option String
scenario_of none = none
scenario_of (some a) = a.mock_scenario

abbrev route_of : Option Agent → Option String
route_of none = none
route_of (some a) = a.route_target

abbrev orchestrates : Option Agent → Bool
orchestrates none = false
orchestrates (some a) = a.is_orchestrator

unfoldable pub successor : Run → Option Agent → Option ResumeTarget → Successor
successor parked agent none = record {
  agent_id = parked.agent_id;
  executor_type = parked.executor_type;
  attempt = parked.attempt + 1;
  is_orchestrator = orchestrates agent;
  mock_scenario = scenario_of agent;
  route_target = route_of agent;
}
successor parked agent (some target) = record {
  agent_id = target.id;
  executor_type = target.executor_type;
  attempt = if target.id == parked.agent_id then parked.attempt + 1 else 1;
  is_orchestrator = target.is_orchestrator;
  mock_scenario = target.mock_scenario;
  route_target = target.route_target;
}

abbrev bare_event : TriggerSource → ℕ → Option String → TriggerEvent
bare_event source task answer = record {
  source = source;
  mock_scenario = none;
  failing_run_id = none;
  deciding_run_id = none;
  human_task_id = some task;
  target_agent = none;
  task = none;
  resolution = answer;
}

unfoldable pub answer_triage_trigger_event :
    ℕ → Run → Bool → ℕ → Option String → Successor → TriggerEvent
answer_triage_trigger_event parked_id parked parked_orchestrator task answer next =
    let forwarded : Option ℕ =
      if parked_orchestrator then parked.trigger_event.failing_run_id else none in
    record (bare_event answer_triage task answer) {
      failing_run_id = or_else forwarded (some parked_id);
      mock_scenario = next.mock_scenario;
      target_agent = next.route_target;
    }

unfoldable pub resume_event : ℕ → Run → Option Agent → ℕ → Option String → Successor → TriggerEvent
unfolding answer_triage_trigger_event
resume_event parked_id parked agent task answer next =
    if is_setup parked.trigger_event.source
    then record (bare_event workspace_setup task answer) { mock_scenario = next.mock_scenario }
    else if next.is_orchestrator
    then answer_triage_trigger_event parked_id parked (orchestrates agent) task answer next
    else bare_event human_resume task answer
