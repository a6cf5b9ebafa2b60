-- ===== src/Pipeline/Completion/Triage.antt =====
-- What the end of a worker's run mints: one triage run at most, after Jira took the transition.
use brigadir.Prelude.{
  ℕ, String, Bool, true, false, Option, none, some, [], ◌∷◌, ◌++◌, ◌≡◌, refl, arith, ◌⊎◌, inl, inr,
  if-elim,
}
use brigadir.Domain.{
  World, Io, Run, Agent, Executor, JiraClient, Result, Failure, ok, throws, no_transition_path,
  blocker, add_event, Payload,
}
use brigadir.Runs.Trigger.{run_row, job_for}
use brigadir.Runs.Trigger.Idempotence.{trigger-cases}
use brigadir.Pipeline.Decision.{Facts, get_rework_budget, budget_exhausted}
use brigadir.Pipeline.Decision.Runs.{create_non_blocking-runs}
use brigadir.Pipeline.Completion.{
  TriageDecision, triaged, decide_triage, triage_by, triage_input, find_enabled_orchestrator,
  on_worker_finished, worker_target,
}

-- The result says that triage was started.
abbrev pub starts_triage : Result TriageDecision → Bool
starts_triage (ok triaged) = true
starts_triage _ = false

module _ (jira : JiraClient) (text : Facts → String) (release : ℕ → String → Io Unit)
    (i ticket workspace : ℕ) where
  abbrev pub NoTriage : Result TriageDecision × World → World → Type 0
  NoTriage (result, w') w = (starts_triage result ≡ false) × (w'.runs ≡ w.runs) × (w'.jobs ≡ w.jobs)

  abbrev pub Triages : Result TriageDecision × World → World → Type 0
  Triages (result, w') w =
      (orchestrator : Agent) × (agent : Agent) × (executor : Executor) × (find_enabled_orchestrator
          workspace w
        ≡ some orchestrator)
      × ((get_rework_budget ticket workspace w).available ≡ true)
      × (result ≡ ok triaged)
      × (w'.runs
          ≡ w.runs
            ++ run_row (triage_input i ticket orchestrator) agent executor w.clock (w.uuids w.drawn)
              ∷ [])
      × (w'.jobs
          ≡ w.jobs
            ++ job_for (triage_input i ticket orchestrator) agent executor (w.uuids w.drawn) ∷ [])

  triage_by-cases :
      (w : World) (o : Option Agent)
      → find_enabled_orchestrator workspace w ≡ o
      → (get_rework_budget ticket workspace w).available ≡ true
      → NoTriage (triage_by jira text release i ticket o w) w
        ⊎ Triages (triage_by jira text release i ticket o w) w
  triage_by-cases w none e a = inl (refl, refl, refl)
  triage_by-cases w (some orchestrator) e a =
      elim (trigger-cases (triage_input i ticket orchestrator) w) [
        | inl same ↦
            inl (ground (arith, same.0, same.1), ground (arith, same.0), ground (arith, same.0))
        | inr (agent, executor, free, t) ↦ inr (
          orchestrator,
          agent,
          executor,
          e,
          a,
          ground (arith, t),
          ground (arith, t),
          ground (arith, t),
        )
      ]

  -- Triage of a failed run mints nothing; or, with rework budget left and an enabled orchestrator in
  -- the workspace, it adds exactly one queued run of that orchestrator, with its job. Only then is
  -- the decision `triaged`.
  pub decide_triage-cases :
      (w : World)
      → NoTriage (decide_triage jira text release i ticket workspace w) w
        ⊎ Triages (decide_triage jira text release i ticket workspace w) w
  unfolding decide_triage
  decide_triage-cases w =
      if-elim {A = Io TriageDecision} (λ m. NoTriage (m w) w ⊎ Triages (m w) w)
        (get_rework_budget ticket workspace w).available
        (λ a. triage_by-cases w (find_enabled_orchestrator workspace w) refl a)
        (λ a.
          let c =
            create_non_blocking-runs jira i blocker
              "Rework budget exhausted — manual attention needed"
              (some (text (budget_exhausted (get_rework_budget ticket workspace w)))) w in
          inl (ground arith, ground (arith, c.0), ground (arith, c.1)))

-- The store after an event was added.
abbrev pub with_event : ℕ → Payload → World → World
with_event i p w = (add_event i p w).1

-- A worker's run whose transition Jira refuses changes no run, job or task and writes nothing to
-- Jira: for a ticket with no path to the status the refusal is recorded on the run and the call
-- returns, and any other error is thrown.
pub refused_worker_mints_nothing :
    (jira : JiraClient) (text : Facts → String) (release : ℕ → String → Io Unit) (i : ℕ) (run : Run)
    (ticket : ℕ) (agent : Agent) (key : String) (w : World) (e : Failure)
    → jira.transition_fails w key (worker_target jira text release run agent) ≡ some e
    → on_worker_finished jira text release i run ticket agent key w
      ≡ (elim e as (λ _. Result {0} Unit × World) [
        | no_transition_path ↦ (ok tt, with_event i (Payload.stage_error "jira_transition") w)
        | _ ↦ (throws e, w)
      ])
unfolding on_worker_finished
refused_worker_mints_nothing jira text release i run ticket agent key w e h = ground arith
