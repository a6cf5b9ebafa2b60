-- ===== src/Worker/ExecutorGate/Capacity.antt =====
-- The gate keeps the running runs of a profile, and of a model, within their limits.
use brigadir.Prelude.{
  ℕ, String, Bool, true, false, Option, some, ◌≡◌, ◌≤◌, ◌<◌, ◌+◌, sym, arith, inl, inr, ap, ◌∙◌,
  count_where, count_where-update_where, count_where_mono,
}
use brigadir.Domain.{World, Run, has_id, run_of, Executor}
use brigadir.Runs.Service.{mark_running, where_status, is_startable, started}
use brigadir.Runs.Index.{guarded_update-cases}
use brigadir.Worker.ExecutorGate.{
  Verdict, admit, GateInputs, decide_gate, model_cap, check_executor_gate, profile_of_run, runs_on,
  uses_model, inputs_of, gate_of,
}

abbrev pub admits : Verdict → Bool
admits (admit hint) = true
admits _ = false

decide_gate-admits :
    (i : GateInputs)
    → admits (decide_gate i) ≡ true
    → (i.enabled ≡ true) × (i.profile_running < i.max_parallel_runs)
unfolding decide_gate
decide_gate-admits i h = (ground arith, ground arith)

decide_gate-admits_model :
    (i : GateInputs) (cap n : ℕ)
    → admits (decide_gate i) ≡ true
    → model_cap i ≡ some cap
    → i.model_running ≡ some n
    → n < cap
unfolding decide_gate
decide_gate-admits_model i cap n h c r = ground arith

-- A start adds at most one to any count of runs.
start-counts :
    (p : Run → Bool) (i attempt : ℕ) (w : World)
    → count_where (has_id i) w.runs ≤ 1
    → count_where p (mark_running i attempt w).1.runs ≤ count_where p w.runs + 1
unfolding mark_running
start-counts p i attempt w one =
    let q : Run → Bool = where_status is_startable i in
    elim (guarded_update-cases q (started attempt w.clock) w) [
      | inl e ↦ rw e (omega arith)
      | inr e ↦ rw e (
          ground (
            arith,
            count_where-update_where p q (started attempt w.clock) w.runs,
            count_where_mono (has_id i) q w.runs (λ r h. ground arith),
          ))
    ]

-- A job that the gate admits and that then starts its run leaves no more running runs on the run's
-- profile than its limit, if identifiers are unique and no other run starts in between.
pub admitted-within_profile :
    (limits : String → Option ℕ) (ttl : Option ℕ) (i attempt : ℕ) (w : World) (profile : Executor)
    → count_where (has_id i) w.runs ≤ 1
    → profile_of_run w (run_of i w.runs) ≡ some profile
    → admits (check_executor_gate limits ttl i w) ≡ true
    → count_where (runs_on w profile.id) (mark_running i attempt w).1.runs
      ≤ profile.max_parallel_runs
unfolding check_executor_gate
admitted-within_profile limits ttl i attempt w profile one found h =
    let gate =
      decide_gate-admits (inputs_of limits ttl w profile)
        (ap (λ x. admits (gate_of limits ttl w x)) (sym found) ∙ h) in
    let counted = start-counts (runs_on w profile.id) i attempt w one in
    ground (arith, gate.1, counted)

-- If the profile's model has a limit, a job that the gate admits and that then starts its run leaves
-- no more running runs with that model, over all profiles, than that limit, if identifiers are unique
-- and no other run starts in between.
pub admitted-within_model :
    (limits : String → Option ℕ) (ttl : Option ℕ) (i attempt : ℕ) (w : World) (profile : Executor)
    (model : String) (cap : ℕ)
    → count_where (has_id i) w.runs ≤ 1
    → profile_of_run w (run_of i w.runs) ≡ some profile
    → profile.model ≡ some model
    → limits model ≡ some cap
    → admits (check_executor_gate limits ttl i w) ≡ true
    → count_where (uses_model w model) (mark_running i attempt w).1.runs ≤ cap
unfolding check_executor_gate
admitted-within_model limits ttl i attempt w profile model cap one found m c h =
    let gate =
      decide_gate-admits_model (inputs_of limits ttl w profile) cap
        (count_where (uses_model w model) w.runs)
        (ap (λ x. admits (gate_of limits ttl w x)) (sym found) ∙ h) (ground arith) (ground arith) in
    let counted = start-counts (uses_model w model) i attempt w one in ground (arith, gate, counted)
