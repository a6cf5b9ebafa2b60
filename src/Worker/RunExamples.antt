-- ===== src/Worker/RunExamples.antt =====
-- Jobs on small stores.
use brigadir.Prelude.{List, ℕ, String, Option, none, some, [], ◌∷◌, refl, ◌≡◌, ◌⊎◌, false}
use brigadir.Domain.{
  World, Run, AgentReport, JiraClient, TextMethods, Io, ok, pure, cancelled, running,
  awaiting_human, indexes_ok, slot, run_of,
}
use brigadir.Fixtures.{run_with, world_with}
use brigadir.Runs.StatusMapping.{ExitStatus}
use brigadir.Runs.Service.{is_running}
use brigadir.Pipeline.Decision.{Facts}
use brigadir.Pipeline.Candidates.{Board}
use brigadir.Pipeline.Release.{Waiting, release_dependents_of}
use brigadir.Pipeline.Release.Keeps.{release_dependents_of-OnlyTriggers}
use brigadir.Setup.Service.{TeamAcceptResult, team_conflict}
use brigadir.Worker.RunProcessor.{
  ExecutorResult, ExecutorPort, done, waits_again, settle_result, process_job,
}
use brigadir.Worker.RunProcessor.Ended.{settle_result-not_running}
use brigadir.Runs.Lifecycle.{Kept}
use brigadir.Worker.CallbackExit.{settle_channel_run}
use brigadir.Worker.CallbackExit.Parked.{parked_survives}
use brigadir.Worker.RunProcessor.Dropped.{process_job-drops}

abbrev fine : JiraClient
fine = record { transition_fails = λ w key status. none; comment_fails = λ w key. none }

abbrev no_facts : Facts → String
no_facts facts = ""

abbrev ascii : TextMethods
ascii = record { to_lower_case = λ s. s; trim = λ s. s }

abbrev empty_board : Board
empty_board = record {
  search = λ query w. ok [];
  number_of = λ s. none;
  text_before = λ a b. false;
}

abbrev no_comment : Waiting → List String → String × String
no_comment x outside = ("", "")

abbrev release_pass : ℕ → String → Io Unit
release_pass = release_dependents_of ascii empty_board no_comment

abbrev no_team : ℕ → AgentReport → Io TeamAcceptResult
no_team i report = pure team_conflict

abbrev unlimited : String → Option ℕ
unlimited model = none

-- A process that crashes at once.
abbrev crash : ExecutorResult
crash = record {
  exit_status = ExitStatus.crashed;
  report = none;
  external_ref = none;
  cost_usd = none;
  usage = none;
  diagnostics = some "exit 1";
}

abbrev crashing : ExecutorPort
crashing = record {
  handoff = λ run w. ok "";
  run_process = λ run handoff w. (crash, w);
  rate_limit_ttl = λ run. 200;
  invalid_report_error = "invalid report";
  invalid_team_error = "invalid team proposal";
}

abbrev working : World
working = world_with (run_with 1 1 1 running ∷ [])

settle_result-not_running_example :
    let (end, v) =
      settle_result fine no_facts release_pass no_team unlimited none crashing 1
        (run_with 1 1 1 running)
        0
        2
        crash
        working in
    (end ≡ ok (waits_again 200))
    ⊎ ((r : Run) × ((run_of 1 v.runs ≡ some r) × (is_running r.status ≡ false)))
settle_result-not_running_example =
    settle_result-not_running fine no_facts release_pass
      (release_dependents_of-OnlyTriggers ascii empty_board no_comment) no_team unlimited none
      crashing 1 (run_with 1 1 1 running) (run_with 1 1 1 running) 0 2 crash working
      (unfold indexes_ok slot in refl) refl refl

abbrev stopped : World
stopped = world_with (run_with 1 1 1 cancelled ∷ [])

process_job-drops_example :
    let (end, v) =
      process_job fine no_facts release_pass no_team unlimited none crashing 1 0 2 stopped in
    (v ≡ stopped) × ((end ≡ ok done) ⊎ ((ttl : ℕ) × (end ≡ ok (waits_again ttl))))
process_job-drops_example =
    process_job-drops fine no_facts release_pass no_team unlimited none crashing 1 0 2 stopped
      (unfold indexes_ok slot in refl) refl

-- A process that is stopped after its run was parked.
abbrev parked_run : Run
parked_run = run_with 1 1 1 awaiting_human

abbrev waiting_for_human : World
waiting_for_human = world_with (parked_run ∷ [])

abbrev stopped_process : ExecutorResult
stopped_process = record crash { exit_status = ExitStatus.cancelled }

abbrev no_delay : Run → ℕ
no_delay run = 200

parked_survives_example :
    Kept 1 parked_run
      (settle_channel_run fine no_facts release_pass no_delay 1 parked_run 0 2 stopped_process none
        waiting_for_human).1
parked_survives_example =
    parked_survives fine no_facts release_pass
      (release_dependents_of-OnlyTriggers ascii empty_board no_comment) no_delay 1 parked_run refl 1
      parked_run 0 2 stopped_process waiting_for_human refl
