-- ===== src/Pipeline/Decision/Rework.antt =====
-- A decision mints at most one rework run, within the budget, and its replay mints none.
use brigadir.Prelude.{
  ℕ, String, Bool, true, false, Option, none, some, [], ◌∷◌, ◌++◌, ◌≡◌, refl, arith, ◌⊎◌, inl, inr,
  ap, ◌∙◌, find_where, find_where-append, Option-cases, find_where-none, is_some, if-elim, ◌||◌,
}
use brigadir.Domain.{
  World, Io, Run, Agent, Executor, AgentReport, ReportRouting, JiraClient, Result, ok,
}
use brigadir.Runs.Trigger.{run_row}
use brigadir.Pipeline.Decision.{
  Facts, Decision, Attempt, decided, is_routed, fall_back, process_orchestrator_decision,
  rework_input, find_existing_rework_run, find_active_run_on_ticket, get_rework_budget,
  resolve_routing_target, decided_by, allows, on_conflict, on_target, on_existing, on_routing,
  run_ended, no_decision, invalid_target, budget_used, active_run, orchestrator_failed,
  orchestrator_invalid, override_budget, override_invalid_target, override_active_run,
  failed_or_timed_out, is_awaiting, wants_human, routing_of, human_granted,
}
use brigadir.Pipeline.Decision.Runs.{
  MintsNothing, MintsRun, Enqueues, execute-cases, fall_back-MintsNothing, routes,
}

module _ (jira : JiraClient) (details : Facts → String) (i : ℕ) (run : Run) (ticket : ℕ) where
  -- The rework run of this decision that is there already, if any.
  abbrev pub existing : World → Option Run
  existing w = find_existing_rework_run ticket i w

  abbrev pub budget_allows : World → Bool
  budget_allows w = allows jira details run (get_rework_budget ticket run.workspace_id w)

  -- What a decision does: it mints nothing; or it finds its rework run and changes nothing; or it
  -- has none, its budget allows one, and it mints one.
  abbrev pub Decides : Result Attempt × World → World → Type 0
  Decides r w =
      MintsNothing jira details i r w
      ⊎ ((r ≡ (ok (decided is_routed), w)) × (is_some (existing w) ≡ true))
      ⊎ ((target : Agent) × (routing : ReportRouting) × (is_some (existing w) ≡ false)
          × (budget_allows w ≡ true)
          × MintsRun jira details i (rework_input i run ticket target routing) r w)

  on_conflict-cases :
      (key : String) (report : AgentReport) (routing : ReportRouting) (target : Agent) (w : World)
      (c : Option Run)
      → Enqueues jira details i
          (rework_input i run ticket target routing)
          (on_conflict jira details i run ticket key report routing target c w)
          w
  on_conflict-cases key report routing target w none =
      execute-cases jira details i run ticket key report routing target w
  on_conflict-cases key report routing target w (some c) = inl (
      fall_back-MintsNothing jira details i
        "Routing overridden — another agent is active on this ticket" (active_run routing c) w
        override_active_run refl)

  on_target-cases :
      (key : String) (report : AgentReport) (routing : ReportRouting) (w : World) (t : Option Agent)
      → is_some (existing w) ≡ false
      → Decides
          (on_target jira details i run ticket key report routing t
            (get_rework_budget ticket run.workspace_id w)
            w)
          w
  on_target-cases key report routing w none e = inl (
      fall_back-MintsNothing jira details i "Routing overridden — manual attention needed"
        (invalid_target routing) w override_invalid_target refl)
  on_target-cases key report routing w (some target) e =
      if-elim {A = Io Attempt} (λ m. Decides (m w) w) (budget_allows w)
        (λ a.
          elim (on_conflict-cases key report routing target w
            (find_active_run_on_ticket ticket i w)) [
              | inl n ↦ inl n
              | inr m ↦ inr (inr (target, routing, e, a, m))
            ])
        (λ a. inl (
          fall_back-MintsNothing jira details i "Routing overridden — manual attention needed"
            (budget_used routing (human_granted run) (get_rework_budget ticket run.workspace_id w))
            w override_budget refl))

  on_existing-cases :
      (key : String) (report : AgentReport) (routing : ReportRouting) (w : World) (x : Option Run)
      → existing w ≡ x
      → Decides (on_existing jira details i run ticket key report routing x w) w
  on_existing-cases key report routing w none e =
      on_target-cases key report routing w
        (resolve_routing_target run.workspace_id routing.target_agent w) (ap is_some e)
  on_existing-cases key report routing w (some x) e = inr (inl (refl, ap is_some e))

  on_routing-cases :
      (agent : Agent) (key : String) (w : World) (x : Option (AgentReport × ReportRouting))
      → Decides (on_routing jira details i run ticket agent key x w) w
  on_routing-cases agent key w none = inl (
      fall_back-MintsNothing jira details i
        "Orchestrator returned an unexpected outcome — manual triage needed"
        (no_decision agent.name) w orchestrator_invalid refl)
  on_routing-cases agent key w (some (report, routing)) =
      on_existing-cases key report routing w (existing w) refl

  -- Every decision of an orchestrator run mints nothing; or finds the rework run it minted before,
  -- and changes nothing; or has minted none, is allowed one by the budget or by a human's answer, and
  -- adds exactly one queued run for the ticket, with its job. Only the last two are `routed`.
  pub decision-cases :
      (agent : Agent) (key : String) (w : World)
      → Decides (process_orchestrator_decision jira details i run ticket agent key w) w
  unfolding process_orchestrator_decision
  decision-cases agent key w =
      if-elim {A = Io Attempt} (λ m. Decides (m w) w) (failed_or_timed_out run.status)
        (λ f. inl (
          fall_back-MintsNothing jira details i
            "Orchestrator triage run failed — manual triage needed"
            (run_ended agent.name run.status) w orchestrator_failed refl))
        (λ f.
          if-elim {A = Io Attempt} (λ m. Decides (m w) w)
            (is_awaiting run.status || wants_human run.report) (λ a. inl (refl, refl, refl))
            (λ a. on_routing-cases agent key w (routing_of run.report)))

  -- An action that can end as `routed` does, in any store that holds the rework run, just that.
  abbrev Replays : World → World → Io Attempt → Type 0
  Replays w w' m = routes (m w).0 ≡ true → m w' ≡ (ok (decided is_routed), w')

  fall_back-Replays :
      (title : String) (facts : Facts) (w w' : World) (d : Decision)
      → routes (ok (decided d)) ≡ false
      → Replays w w' (fall_back jira details i title facts d)
  fall_back-Replays title facts w w' d h q =
      absurd (ground (arith, (fall_back-MintsNothing jira details i title facts w d h).0))

  on_existing-held :
      (key : String) (report : AgentReport) (routing : ReportRouting) (w : World) (x : Option Run)
      → is_some x ≡ true
      → on_existing jira details i run ticket key report routing x w ≡ (ok (decided is_routed), w)
  on_existing-held key report routing w none h = absurd (ground arith)
  on_existing-held key report routing w (some r) h = refl

  on_routing-Replays :
      (agent : Agent) (key : String) (w w' : World) (x : Option (AgentReport × ReportRouting))
      → is_some (existing w') ≡ true
      → Replays w w' (on_routing jira details i run ticket agent key x)
  on_routing-Replays agent key w w' none e q =
      fall_back-Replays "Orchestrator returned an unexpected outcome — manual triage needed"
        (no_decision agent.name) w w' orchestrator_invalid refl q
  on_routing-Replays agent key w w' (some (report, routing)) e q =
      on_existing-held key report routing w' (existing w') e

  decision-Replays :
      (agent : Agent) (key : String) (w w' : World)
      → is_some (existing w') ≡ true
      → Replays w w' (process_orchestrator_decision jira details i run ticket agent key)
  unfolding process_orchestrator_decision
  decision-Replays agent key w w' e =
      if-elim {A = Io Attempt} (Replays w w') (failed_or_timed_out run.status)
        (λ f.
          fall_back-Replays "Orchestrator triage run failed — manual triage needed"
            (run_ended agent.name run.status) w w' orchestrator_failed refl)
        (λ f.
          if-elim {A = Io Attempt} (Replays w w') (is_awaiting run.status || wants_human run.report)
            (λ a q. absurd (ground arith))
            (λ a. on_routing-Replays agent key w w' (routing_of run.report) e))

  existing-minted :
      (target : Agent) (routing : ReportRouting) (agent : Agent) (executor : Executor) (now id : ℕ)
      (w w' : World)
      → w'.runs
        ≡ w.runs ++ run_row (rework_input i run ticket target routing) agent executor now id ∷ []
      → is_some (existing w) ≡ false
      → is_some (existing w') ≡ true
  unfolding find_existing_rework_run
  existing-minted target routing agent executor now id w w' e n = elim (Option-cases (existing w)) [
    | inl none_yet ↦
        ap (λ rows. is_some (find_where (decided_by ticket i) rows)) e
        ∙ ap is_some (
            find_where-append (decided_by ticket i) w.runs
              (run_row (rework_input i run ticket target routing) agent executor now id ∷ [])
              (find_where-none (decided_by ticket i) w.runs none_yet))
        ∙ ground arith
    | inr (r, found) ↦ absurd (ground (arith, found, n))
  ]

-- A decision that was `routed` and is processed again, because its marker was not written, finds its
-- rework run: it is `routed` again and changes nothing.
pub routed_twice :
    (jira : JiraClient) (details : Facts → String) (i : ℕ) (run : Run) (ticket : ℕ) (agent : Agent)
    (key : String) (w : World)
    → (process_orchestrator_decision jira details i run ticket agent key w).0
      ≡ ok (decided is_routed)
    → let w' = (process_orchestrator_decision jira details i run ticket agent key w).1 in
      process_orchestrator_decision jira details i run ticket agent key w'
      ≡ (ok (decided is_routed), w')
routed_twice jira details i run ticket agent key w h =
    let replays = decision-Replays jira details i run ticket agent key w in
    let w' : World = (process_orchestrator_decision jira details i run ticket agent key w).1 in
    let q : routes (process_orchestrator_decision jira details i run ticket agent key w).0 ≡ true =
      ap routes h in
    elim (decision-cases jira details i run ticket agent key w) [
      | inl n ↦ absurd (ground (arith, n.0, q))
      | inr (inl (same, held)) ↦ replays w' (ground (arith, same, held)) q
      | inr (inr (target, routing, free, allowed, (owner, executor, r, rows, jobs))) ↦
          replays w'
            (existing-minted jira details i run ticket target routing owner executor w.clock
              (w.uuids w.drawn) w w' rows free)
            q
    ]
