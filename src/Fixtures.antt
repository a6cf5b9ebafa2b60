-- ===== src/Fixtures.antt =====
-- Small stores on which the examples and tests run.
use brigadir.Prelude.{ℕ, String, Bool, true, false, Option, none, some, List, [], ◌∷◌, ◌+◌}
use brigadir.Domain.{
  World, Run, RunStatus, Agent, Ticket, Executor, AgentReport, Outcome, TriggerEvent, TriggerSource,
  kanban, manual, needs_human, team, question, pass,
}

abbrev pub event_from : TriggerSource → TriggerEvent
event_from s = record {
  source = s;
  mock_scenario = none;
  failing_run_id = none;
  deciding_run_id = none;
  human_task_id = none;
  target_agent = none;
  task = none;
  resolution = none;
}

abbrev pub run_with : ℕ → ℕ → ℕ → RunStatus → Run
run_with id ticket agent status = record {
  id = id;
  workspace_id = 1;
  ticket_id = some ticket;
  agent_id = agent;
  executor_type = "mock";
  status = status;
  attempt = 1;
  created_at = 0;
  trigger_event = event_from manual;
  external_ref = none;
  started_at = none;
  finished_at = none;
  exit_code = none;
  cost_usd = none;
  usage = none;
  error = none;
  report = none;
  outcome = none;
}

abbrev pub agent_with : ℕ → String → Bool → Option String → Agent
agent_with id key orchestrator trigger = record {
  id = id;
  workspace_id = 1;
  executor_id = 1;
  name = key;
  role = none;
  key = key;
  description = none;
  instruction = "";
  is_orchestrator = orchestrator;
  trigger_status = trigger;
  trigger_jql = none;
  status_running = some "In Progress";
  status_success = "Review";
  status_failure = "Failed";
  mock_scenario = none;
  route_target = none;
  code_delivery = none;
  max_attempts = 2;
  timeout_minutes = 45;
  enabled = true;
}

abbrev pub ticket_with : ℕ → String → String → Ticket
ticket_with id key status = record {
  id = id;
  workspace_id = 1;
  jira_key = key;
  last_seen_status = some status;
  priority_id = none;
  blocked_by = none;
  blocked_state = none;
  verification = none;
}

abbrev pub mock_executor : Executor
mock_executor = record {
  id = 1;
  type = "mock";
  name = "mock";
  model = none;
  max_parallel_runs = 2;
  enabled = true;
}

abbrev pub blank_report : Outcome → AgentReport
blank_report o = record {
  outcome = o;
  summary = "";
  checks = record { name = "unit"; status = pass; reason = none } ∷ [];
  human_task = none;
  routing = none;
  team = none;
  artifacts = none;
}

abbrev pub asking_report : AgentReport
asking_report = record (blank_report needs_human) {
  human_task =
      some (record { kind = question; title = "Which branch?"; details = none; options = [] });
}

abbrev pub team_report : AgentReport
team_report = record (blank_report team) { team = some [] }

-- A developer (1) and an orchestrator (2), two tickets, and the given runs.
abbrev pub world_with : List Run → World
world_with runs = record {
  runs = runs;
  human_tasks = [];
  run_events = [];
  run_checks = [];
  workspaces =
      record {
        id = 1;
        jira_project_key = "K";
        jira_board_id = none;
        jira_board_type = some kanban;
        enabled = true;
        scope_jql = none;
        high_water_mark = none;
        active_sprint_ids = none;
      }
      ∷ [];
  agents = agent_with 1 "dev" false (some "Ready") ∷ agent_with 2 "brigadir" true none ∷ [];
  tickets = ticket_with 1 "K-1" "Ready" ∷ ticket_with 2 "K-2" "Ready" ∷ [];
  executors = mock_executor ∷ [];
  rework_max = λ _. 2;
  release_status = λ _. none;
  jobs = [];
  jira = [];
  clock = 100;
  uuids = λ n. n + 1000;
  drawn = 0;
}
