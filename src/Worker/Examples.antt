-- ===== src/Worker/Examples.antt =====
-- The gate on small stores.
use brigadir.Prelude.{ℕ, String, Option, some, none, [], ◌∷◌, ◌≤◌, refl, count_where, arith}
use brigadir.Domain.{World, Executor, queued, running}
use brigadir.Fixtures.{run_with, world_with, mock_executor}
use brigadir.Runs.Service.{mark_running}
use brigadir.Worker.ExecutorGate.{runs_on, check_executor_gate, decide_gate}
use brigadir.Worker.ExecutorGate.Capacity.{admitted-within_profile}

abbrev opus_profile : Executor
opus_profile = record mock_executor { model = some "opus" }

-- Two slots, one of them used; the job of run 2 is picked up.
abbrev half_full : World
half_full = record (world_with (run_with 1 1 1 running ∷ run_with 2 2 1 queued ∷ [])) {
  executors = opus_profile ∷ [];
}

abbrev two_each : String → Option ℕ
two_each model = some 2

admitted-within_profile_example :
    count_where (runs_on half_full 1) (mark_running 2 1 half_full).1.runs ≤ 2
admitted-within_profile_example =
    admitted-within_profile two_each none 2 1 half_full opus_profile (omega arith) refl
      (unfold check_executor_gate decide_gate in refl)
