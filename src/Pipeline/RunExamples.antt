-- ===== src/Pipeline/RunExamples.antt =====
-- Finished runs on small stores: an orchestrator's decision, a worker's failure.
use brigadir.Prelude.{ℕ, String, true, some, none, [], ◌∷◌, refl, ◌≡◌, ◌≤◌, arith}
use brigadir.Domain.{
  World, Io, Run, succeeded, failed, routed, AgentReport, JiraClient, no_transition_path, ok,
  add_run, insert_run, slot,
}
use brigadir.Fixtures.{run_with, agent_with, world_with, blank_report}
use brigadir.Runs.Trigger.{trigger, trigger_on}
use brigadir.Pipeline.Decision.{
  Facts, decided, is_routed, process_orchestrator_decision, find_existing_rework_run,
  find_active_run_on_ticket, get_rework_budget, resolve_routing_target, execute, staged,
}
use brigadir.Pipeline.Decision.Rework.{routed_twice}
use brigadir.Pipeline.Decision.Budget.{rework_within_budget, rework_cycles}

abbrev open_jira : JiraClient
open_jira = record { transition_fails = λ w key status. none; comment_fails = λ w key. none }

abbrev stuck_jira : JiraClient
stuck_jira = record {
  transition_fails = λ w key status. some no_transition_path;
  comment_fails = λ w key. none;
}

abbrev no_text : Facts → String
no_text facts = ""

abbrev to_dev : AgentReport
to_dev = record (blank_report routed) {
  routing = some (record { target_agent = "dev"; task = "Fix the tests" });
}

-- A triage run of the orchestrator that routes its ticket to the developer.
abbrev deciding : Run
deciding = record (run_with 5 1 2 succeeded) { report = some to_dev }

abbrev deciding_world : World
deciding_world = world_with (run_with 4 1 1 failed ∷ deciding ∷ [])

routed_twice_example :
    let w' =
      (process_orchestrator_decision open_jira no_text 5 deciding 1
        (agent_with 2 "brigadir" true none)
        "K-1"
        deciding_world).1 in
    process_orchestrator_decision open_jira no_text 5 deciding 1
      (agent_with 2 "brigadir" true none)
      "K-1"
      w'
    ≡ (ok (decided is_routed), w')
routed_twice_example =
    routed_twice open_jira no_text 5 deciding 1 (agent_with 2 "brigadir" true none) "K-1"
      deciding_world
      (unfold process_orchestrator_decision find_existing_rework_run find_active_run_on_ticket
          get_rework_budget resolve_routing_target execute staged trigger trigger_on add_run
          insert_run slot in
        refl)

rework_within_budget_example :
    rework_cycles 1
      (process_orchestrator_decision open_jira no_text 5 deciding 1
        (agent_with 2 "brigadir" true none)
        "K-1"
        deciding_world).1
    ≤ 3
rework_within_budget_example =
    rework_within_budget open_jira no_text 5 deciding 1 (agent_with 2 "brigadir" true none) "K-1"
      deciding_world (omega arith)

abbrev no_release : ℕ → String → Io Unit
no_release workspace key w = (ok tt, w)
