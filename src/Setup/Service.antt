-- ===== src/Setup/Service.antt =====
-- libs/pipeline/src/setup-apply.service.ts: a proposed team is created, all or nothing.
pub mod Roster
pub mod Landing
pub mod Accept
pub mod Keys
pub mod Valid
use brigadir.Prelude.{
  ℕ, String, Bool, true, false, ◌&&◌, Option, none, some, List, [], ◌∷◌, map, length, if◌then◌else◌,
}
use brigadir.Domain.{
  World, Run, RunStatus, is_active, Agent, Executor, HumanTask, AgentReport, TeamAgent, failure,
  team, is_team, review, open_task, TriggerSource, workspace_setup, run_of, Io, Result, ok, throws,
  unique_violation, pure, throw, ◌>>=◌, ◌>>◌, guarded_update, add_task, fresh_id, transaction,
  insert_agents, not_null_violation,
}
use brigadir.Runs.Service.{where_status, finish, write_checks}
use brigadir.Runs.Trigger.{agent_row}
use brigadir.Setup.Keys.{ensure_unique_agent_key}
use brigadir.Setup.Linter.{present}
use brigadir.Setup.Validation.{
  TeamIssue, at, missing, duplicate_name, SetupPort, profile_by_name, duplicate_issue, key_of,
  rows_of, validate_team,
}

pub data TeamAcceptResult : Type 0 where
  applied : ℕ → TeamAcceptResult
  team_invalid : List TeamIssue → TeamAcceptResult
  team_conflict recast_failure : TeamAcceptResult

pub data TeamCreateResult : Type 0 where
  created : ℕ → TeamCreateResult
  create_invalid : List TeamIssue → TeamCreateResult

module _ (port : SetupPort) where
  abbrev pub agent_of_proposal : ℕ → Executor → String → TeamAgent → ℕ → Agent
  agent_of_proposal workspace profile key p id = record {
    id = id;
    workspace_id = workspace;
    executor_id = profile.id;
    name = p.name;
    role = p.role;
    key = key;
    description = some p.description;
    instruction = p.instruction;
    is_orchestrator = false;
    trigger_status = some p.trigger_status;
    trigger_jql = none;
    status_running = p.status_running;
    status_success = p.status_success;
    status_failure = p.status_failure;
    mock_scenario = none;
    route_target = none;
    code_delivery = none;
    max_attempts = 2;
    timeout_minutes = 45;
    enabled = true;
  }

  abbrev pub extended :
      Option Executor
      → (Executor → ℕ → Agent)
      → Option (List (ℕ → Agent))
      → Option (List (ℕ → Agent))
  extended (some profile) draft (some rows) = some (draft profile ∷ rows)
  extended _ draft _ = none

  -- The rows that are inserted, each with a key that is free beside those before it; `none` if a
  -- profile is not in the map, so that its identifier is null. `profiles` is the store that the map
  -- was read from.
  unfoldable pub roster : World → ℕ → List String → List TeamAgent → Option (List (ℕ → Agent))
  roster profiles workspace taken [] = some []
  roster profiles workspace taken (p ∷ ps) =
      let key = ensure_unique_agent_key port.suffixed (key_of port p) taken in
      extended (profile_by_name p.executor profiles)
        (λ profile. agent_of_proposal workspace profile key p)
        (roster profiles workspace (key ∷ taken) ps)

  abbrev pub inserted : Option (List (ℕ → Agent)) → Io Unit
  inserted none = throw not_null_violation
  inserted (some rows) = insert_agents rows

  unfoldable pub insert_team_agents : World → ℕ → List TeamAgent → Io Unit
  insert_team_agents profiles workspace proposed w =
      inserted (roster profiles workspace (map (λ a. a.key) (rows_of port workspace w)) proposed) w

  abbrev pub review_task : ℕ → ℕ → List TeamAgent → ℕ → HumanTask
  review_task i workspace proposed id = record {
    id = id;
    workspace_id = workspace;
    run_id = some i;
    ticket_id = none;
    kind = review;
    title = "Team assembled — review the workspace";
    details = some (port.review_details proposed);
    options = [];
    blocking = false;
    status = open_task;
    resolution = none;
    resolved_at = none;
    resolved_by = none;
  }

  abbrev pub team_succeeded : AgentReport → ℕ → Run → Run
  team_succeeded report now r = record (finish RunStatus.succeeded now r) {
    outcome = some team;
    report = some report;
  }

  abbrev pub add_review : ℕ → ℕ → List TeamAgent → Io Unit
  add_review i workspace proposed w = add_task (review_task i workspace proposed (fresh_id w)) w

  abbrev pub after_finalize : World → ℕ → ℕ → AgentReport → List TeamAgent → Bool → Io Bool
  after_finalize profiles i workspace report proposed false = pure false
  after_finalize profiles i workspace report proposed true =
      insert_team_agents profiles workspace proposed
      >> add_review i workspace proposed
      >> write_checks i report
      >> pure true

  -- The body of the transaction.
  unfoldable pub apply_steps : World → ℕ → ℕ → AgentReport → List TeamAgent → Io Bool
  apply_steps profiles i workspace report proposed w =
      (guarded_update (where_status is_active i) (team_succeeded report w.clock)
          >>= after_finalize profiles i workspace report proposed)
        w

  abbrev pub apply_result : ℕ → Result Bool × World → Result TeamAcceptResult × World
  apply_result n (ok true, w) = (ok (applied n), w)
  apply_result n (ok false, w) = (ok team_conflict, w)
  apply_result n (throws unique_violation, w) = (ok (team_invalid duplicate_issue), w)
  apply_result n (throws e, w) = (throws e, w)

  unfoldable pub apply : ℕ → ℕ → AgentReport → List TeamAgent → Io TeamAcceptResult
  apply i workspace report proposed w =
      apply_result (length proposed) (transaction (apply_steps w i workspace report proposed) w)

  abbrev pub recast : AgentReport → AgentReport
  recast report = record {
    outcome = failure;
    summary = port.recast_summary report.summary;
    checks = report.checks;
    human_task = none;
    routing = none;
    team = none;
    artifacts = none;
  }

  abbrev pub recast_row : AgentReport → ℕ → Run → Run
  recast_row report now r = record (finish RunStatus.failed now r) {
    outcome = some failure;
    report = some (recast report);
    error = some "invalid team outcome from a non-setup run";
  }

  unfoldable pub finalize_invalid_outcome : ℕ → AgentReport → Io Bool
  finalize_invalid_outcome i report w =
      guarded_update (where_status is_active i) (recast_row report w.clock) w

  abbrev pub recast_result : Bool → Io TeamAcceptResult
  recast_result true = pure recast_failure
  recast_result false = pure team_conflict

  abbrev pub on_issues : ℕ → ℕ → AgentReport → List TeamAgent → List TeamIssue → Io TeamAcceptResult
  on_issues i workspace report proposed [] = apply i workspace report proposed
  on_issues i workspace report proposed (x ∷ issues) = pure (team_invalid (x ∷ issues))

  abbrev pub is_setup : TriggerSource → Bool
  is_setup workspace_setup = true
  is_setup _ = false

  -- Only an orchestrator's run that sets a workspace up may deliver a team.
  abbrev pub may_propose : Run → Agent → Bool
  may_propose run agent = agent.is_orchestrator && is_setup run.trigger_event.source

  abbrev pub on_active : ℕ → AgentReport → List TeamAgent → Run → Agent → Io TeamAcceptResult
  on_active i report proposed run agent =
      if may_propose run agent
      then validate_team port run.workspace_id proposed
        >>= on_issues i run.workspace_id report proposed
      else finalize_invalid_outcome i report >>= recast_result

  abbrev pub on_proposer :
      ℕ → AgentReport → List TeamAgent → Run → Option Agent → Io TeamAcceptResult
  on_proposer i report proposed run none = pure team_conflict
  on_proposer i report proposed run (some agent) =
      if is_active run.status then on_active i report proposed run agent else pure team_conflict

  -- The inner join of the run and its agent.
  abbrev pub on_joined : ℕ → AgentReport → List TeamAgent → Option Run → Io TeamAcceptResult
  on_joined i report proposed none w = pure team_conflict w
  on_joined i report proposed (some run) w =
      on_proposer i report proposed run (agent_row run.agent_id w) w

  abbrev missing_team : Io TeamAcceptResult
  missing_team = pure (team_invalid (record { path = at "team" ∷ []; code = missing } ∷ []))

  abbrev pub on_proposal : ℕ → AgentReport → Option (List TeamAgent) → Io TeamAcceptResult
  on_proposal i report none w = missing_team w
  on_proposal i report (some proposed) w = on_joined i report proposed (run_of i w.runs) w

  unfoldable pub accept_team_report : ℕ → AgentReport → Io TeamAcceptResult
  accept_team_report i report =
      if is_team report.outcome then on_proposal i report report.team else missing_team

  abbrev create_result : ℕ → Result {0} Unit × World → Result TeamCreateResult × World
  create_result n (ok u, w) = (ok (created n), w)
  create_result n (throws unique_violation, w) =
      (ok (create_invalid (record { path = at "agents" ∷ []; code = duplicate_name } ∷ [])), w)
  create_result n (throws e, w) = (throws e, w)

  abbrev on_direct_issues : ℕ → List TeamAgent → List TeamIssue → Io TeamCreateResult
  on_direct_issues workspace proposed [] w =
      create_result (length proposed) (transaction (insert_team_agents w workspace proposed) w)
  on_direct_issues workspace proposed (x ∷ issues) w = pure (create_invalid (x ∷ issues)) w

  unfoldable pub create_team_direct : ℕ → List TeamAgent → Io TeamCreateResult
  create_team_direct workspace proposed =
      validate_team port workspace proposed >>= on_direct_issues workspace proposed
