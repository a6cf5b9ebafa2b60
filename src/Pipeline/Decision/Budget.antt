-- ===== src/Pipeline/Decision/Budget.antt =====
-- The rework budget of a ticket bounds its rework runs.
use brigadir.Prelude.{
  ℕ, String, false, List, [], ◌∷◌, ◌++◌, ◌≡◌, ◌≤◌, arith, inl, inr, ◌+◌, count_where,
  count_where-append,
}
use brigadir.Domain.{World, Run, Agent, Executor, ReportRouting, JiraClient}
use brigadir.Runs.Trigger.{run_row}
use brigadir.Pipeline.Decision.{
  Facts, process_orchestrator_decision, rework_input, get_rework_budget, rework_of, human_granted,
}
use brigadir.Pipeline.Decision.Rework.{decision-cases}

-- The rework runs of a ticket.
abbrev pub rework_cycles : ℕ → World → ℕ
rework_cycles ticket w = count_where (rework_of ticket) w.runs

cycles-minted :
    (i : ℕ) (run : Run) (ticket : ℕ) (target : Agent) (routing : ReportRouting) (agent : Agent)
    (executor : Executor) (now id : ℕ) (rows : List Run)
    → count_where
        (rework_of ticket)
        (rows ++ run_row (rework_input i run ticket target routing) agent executor now id ∷ [])
      ≡ count_where (rework_of ticket) rows + 1
cycles-minted i run ticket target routing agent executor now id rows = ground (
  arith,
  count_where-append (rework_of ticket) rows
      (run_row (rework_input i run ticket target routing) agent executor now id ∷ []),
)

-- A ticket that has no more rework runs than its budget and one allows has no more after any decision
-- of an orchestrator run.
pub rework_within_budget :
    (jira : JiraClient) (details : Facts → String) (i : ℕ) (run : Run) (ticket : ℕ) (agent : Agent)
    (key : String) (w : World)
    → rework_cycles ticket w ≤ w.rework_max run.workspace_id + 1
    → rework_cycles ticket (process_orchestrator_decision jira details i run ticket agent key w).1
      ≤ w.rework_max run.workspace_id + 1
unfolding get_rework_budget
rework_within_budget jira details i run ticket agent key w h =
    elim (decision-cases jira details i run ticket agent key w) [
      | inl n ↦ rw n.1 h
      | inr (inl r) ↦ rw r.0 h
      | inr (inr (target, routing, free, allowed, (owner, executor, r, rows, jobs))) ↦
          rw
            (
              rows,
              cycles-minted i run ticket target routing owner executor w.clock (w.uuids w.drawn)
                  w.runs,
            )
            (ground (arith, allowed))
    ]

-- Without an answer of a human, no decision takes a ticket beyond its rework budget.
pub triage_within_budget :
    (jira : JiraClient) (details : Facts → String) (i : ℕ) (run : Run) (ticket : ℕ) (agent : Agent)
    (key : String) (w : World)
    → human_granted run ≡ false
    → rework_cycles ticket w ≤ w.rework_max run.workspace_id
    → rework_cycles ticket (process_orchestrator_decision jira details i run ticket agent key w).1
      ≤ w.rework_max run.workspace_id
unfolding get_rework_budget
triage_within_budget jira details i run ticket agent key w g h =
    elim (decision-cases jira details i run ticket agent key w) [
      | inl n ↦ rw n.1 h
      | inr (inl r) ↦ rw r.0 h
      | inr (inr (target, routing, free, allowed, (owner, executor, r, rows, jobs))) ↦
          rw
            (
              rows,
              cycles-minted i run ticket target routing owner executor w.clock (w.uuids w.drawn)
                  w.runs,
            )
            (ground (arith, allowed, g))
    ]
