-- ===== src/Runs/Examples.antt =====
-- The run service on small stores.
use brigadir.Prelude.{
  true, false, some, none, [], ◌∷◌, refl, ◌≡◌, ◌≤◌, List, any_where, count_where,
}
use brigadir.Domain.{
  World, Run, queued, running, awaiting_human, succeeded, failed, success, run_of, parse_report, ok,
  throws, unique_violation, indexes_ok, slot, update_runs,
}
use brigadir.Runs.Trigger.{TriggerInput, trigger, minted, deduplicated}
use brigadir.Runs.Trigger.Idempotence.{
  minted_world, trigger_twice, trigger_all-one_active, trigger_all, active_on,
}
use brigadir.Fixtures.{
  run_with, agent_with, mock_executor, world_with, blank_report, asking_report, team_report,
}
use brigadir.Runs.StatusMapping.{TerminalStatus}
use brigadir.Runs.Service.{
  no_extra, finalize_with_report, reconcile_with_report, open_task_of, report_terminal_status,
  effects_if, apply_report_effects,
}
use brigadir.Runs.Lifecycle.{
  Call, start, reconcile, finalize_any, perform_all, Kept, settled_absorbs,
}
use brigadir.Runs.Refinement.{Moves, perform_all-refines}
use brigadir.Runs.Rescue.{rescue_rejected, team_rescue_parks}
use brigadir.Runs.Once.{one_finalize_wins}
use brigadir.Runs.Questions.{needs_human_asks}

abbrev finished : Run
finished = run_with 1 1 1 succeeded

abbrev calls : List Call
calls =
    start 1 2
    ∷ reconcile 1 (some (blank_report success)) no_extra
    ∷ finalize_any 1 TerminalStatus.cancelled no_extra
    ∷ []

settled_absorbs_example : Kept 1 finished (perform_all calls (world_with (finished ∷ [])))
settled_absorbs_example = settled_absorbs calls 1 (world_with (finished ∷ [])) finished refl refl

abbrev working : World
working = world_with (run_with 1 1 1 running ∷ run_with 2 2 1 queued ∷ [])

working-indexes_ok : indexes_ok working.runs ≡ true
unfolding indexes_ok slot
working-indexes_ok = refl

asking_parses : parse_report (some asking_report) ≡ some asking_report
unfolding parse_report
asking_parses = refl

success_parses : parse_report (some (blank_report success)) ≡ some (blank_report success)
unfolding parse_report
success_parses = refl

team_parses : parse_report (some team_report) ≡ some team_report
unfolding parse_report
team_parses = refl

-- A failed run, and another run that is active on its ticket.
abbrev contested : World
contested = world_with (run_with 1 1 1 failed ∷ run_with 2 1 2 queued ∷ [])

rescue_rejected_example :
    reconcile_with_report 1 (some asking_report) no_extra contested
    ≡ (throws unique_violation, contested)
unfolding report_terminal_status
rescue_rejected_example =
    rescue_rejected 1 1 (some asking_report) asking_report no_extra contested asking_parses refl
      refl refl

contested-indexes_ok : indexes_ok contested.runs ≡ true
unfolding indexes_ok slot
contested-indexes_ok = refl

perform_all-refines_example :
    (r' : Run) × (run_of 1 (perform_all calls working).runs ≡ some r') × Moves running r'.status
perform_all-refines_example = perform_all-refines calls 1 working (run_with 1 1 1 running) refl

team_rescue_parks_example :
    let w' = (reconcile_with_report 1 (some team_report) no_extra working).1 in
    (r' : Run) × (run_of 1 w'.runs ≡ some r') × (r'.status ≡ awaiting_human) × (w'.human_tasks ≡ [])
unfolding reconcile_with_report update_runs indexes_ok slot parse_report report_terminal_status
    effects_if apply_report_effects
team_rescue_parks_example =
    team_rescue_parks 1 (some team_report) team_report no_extra working (run_with 1 1 1 running)
      team_parses refl refl refl refl

one_finalize_wins_example :
    let (result, w') = finalize_with_report 1 (some (blank_report success)) no_extra working in
    (result ≡ ok true) × (finalize_with_report 1 (some asking_report) no_extra w' ≡ (ok false, w'))
unfolding report_terminal_status
one_finalize_wins_example =
    one_finalize_wins 1 (some (blank_report success)) (some asking_report) (blank_report success)
      asking_report no_extra no_extra working success_parses asking_parses refl working-indexes_ok

needs_human_asks_example :
    let (result, w') = finalize_with_report 1 (some asking_report) no_extra working in
    (result ≡ ok true) × (any_where (open_task_of 1 true) w'.human_tasks ≡ true)
needs_human_asks_example =
    needs_human_asks 1 (some asking_report) asking_report no_extra working asking_parses refl
      working-indexes_ok refl

abbrev ready_dev : TriggerInput
ready_dev = record { ticket_id = some 1; agent_id = 1; trigger_event = none }

abbrev idle : World
idle = world_with (finished ∷ [])

trigger_twice_example :
    let w' = minted_world ready_dev (agent_with 1 "dev" false (some "Ready")) mock_executor idle in
    (trigger ready_dev idle ≡ (ok (minted 1000), w'))
    × (trigger ready_dev w' ≡ (ok (deduplicated (some 1000)), w'))
trigger_twice_example =
    trigger_twice ready_dev (agent_with 1 "dev" false (some "Ready")) mock_executor idle refl refl
      refl

trigger_all-one_active_example :
    count_where
      (active_on 1)
      (trigger_all (ready_dev ∷ record ready_dev { agent_id = 2 } ∷ ready_dev ∷ []) idle).runs
    ≤ 1
trigger_all-one_active_example =
    trigger_all-one_active (ready_dev ∷ record ready_dev { agent_id = 2 } ∷ ready_dev ∷ []) 1 idle
      (unfold indexes_ok slot in refl)
