-- ===== src/Pipeline/StatusChange/Starts.antt =====
-- What a change of status starts: nothing for a blocked ticket, at most one active run otherwise.
use brigadir.Prelude.{
  ℕ, String, true, Option, none, some, List, [], ◌∷◌, ◌≡◌, ◌≤◌, refl, arith, ◌⊎◌, inl, inr, ◌==◌,
  count_where, update_where,
}
use brigadir.Domain.{
  World, Run, Agent, Ticket, waiting, ok, TextMethods, indexes_ok, bind-keeps, ◌>>◌,
}
use brigadir.Runs.Trigger.{trigger, TriggerInput, TriggerResult}
use brigadir.Runs.Trigger.Idempotence.{trigger-indexes_ok, one_active, active_on}
use brigadir.HumanTasks.Service.{ticket_row}
use brigadir.Pipeline.Triggering.{OnlyTriggers}
use brigadir.Pipeline.Gate.{
  GateVerdict, clear, blocked, evaluate_dependency_gate, all_blocked_by_keys,
  early_release_blockers,
}
use brigadir.Pipeline.StatusChange.{
  StatusChangeSource, OnStatusChangedInput, on_status_changed, on_ticket_changed, for_agents,
  by_verdict, trigger_agents, started_by, status_input, with_blockers, clear_waiting_state,
  annotate, record_early_release,
}

annotate-runs :
    (release : Option String) (early : List (String × String)) (r : TriggerResult) (w : World)
    → (annotate release early r w).1.runs ≡ w.runs
unfolding record_early_release
annotate-runs release early r w = ground arith

-- A property of the table of runs that each trigger keeps.
module _ (P : List Run → Type 0)
    (triggered : (input : TriggerInput) (v : World) → P v.runs → P (trigger input v).1.runs) where
  trigger_agents-keeps :
      (ticket : ℕ) (source : StatusChangeSource) (release : Option String)
      (early : List (String × String)) (agents : List Agent) (w : World)
      → P w.runs
      → P (trigger_agents ticket source release early agents w).1.runs
  trigger_agents-keeps ticket source release early [] w h = h
  trigger_agents-keeps ticket source release early (agent ∷ agents) w h =
      bind-keeps (λ u. P u.runs) (trigger (status_input ticket source agent))
        (λ r. annotate release early r >> trigger_agents ticket source release early agents) w
        (triggered (status_input ticket source agent) w h)
        (λ r v p.
          bind-keeps (λ u. P u.runs) (annotate release early r)
            (λ _. trigger_agents ticket source release early agents) v
            (rw (annotate-runs release early r v) p)
            (λ _ u q. trigger_agents-keeps ticket source release early agents u q))

  module _ (text : TextMethods) (input : OnStatusChangedInput) where
    by_verdict-keeps :
        (release : Option String) (agents : List Agent) (v : GateVerdict) (w : World)
        → P w.runs
        → P (by_verdict text input release agents v w).1.runs
    by_verdict-keeps release agents blocked w h = h
    by_verdict-keeps release agents clear w h =
        trigger_agents-keeps input.ticket_id input.source release
          (early_release_blockers text input.issue release) agents
          (record w {
            tickets =
                update_where (λ t. t.id == input.ticket_id)
                  (with_blockers (all_blocked_by_keys text input.issue) none) w.tickets;
          })
          h

    for_agents-keeps :
        (release : Option String) (agents : List Agent) (w : World)
        → P w.runs
        → P (for_agents text input release agents w).1.runs
    unfolding clear_waiting_state
    for_agents-keeps release [] w h = h
    for_agents-keeps release (agent ∷ agents) w h =
        by_verdict-keeps release (agent ∷ agents)
          (evaluate_dependency_gate text input.issue release) w h

    on_ticket_changed-keeps :
        (t : Option Ticket) (w : World) → P w.runs → P (on_ticket_changed text input t w).1.runs
    on_ticket_changed-keeps none w h = h
    on_ticket_changed-keeps (some ticket) w h =
        for_agents-keeps (w.release_status ticket.workspace_id)
          (started_by ticket.workspace_id input.to_status w) w h

-- A change of status does to the table of runs only what triggers do.
pub on_status_changed-OnlyTriggers :
    (text : TextMethods) (input : OnStatusChangedInput)
    → OnlyTriggers (on_status_changed text input)
unfolding on_status_changed
on_status_changed-OnlyTriggers text input P triggered w h =
    on_ticket_changed-keeps P triggered text input (ticket_row input.ticket_id w) w h

-- However many agents a change of status starts, no ticket has two active runs after it, if the
-- store obeyed the indexes on runs before.
status_change-one_active :
    (text : TextMethods) (input : OnStatusChangedInput) (w : World) (ticket : ℕ)
    → indexes_ok w.runs ≡ true
    → count_where (active_on ticket) (on_status_changed text input w).1.runs ≤ 1
unfolding on_status_changed
status_change-one_active text input w ticket h =
    one_active ticket (on_status_changed text input w).1.runs (
      on_status_changed-OnlyTriggers text input (λ rows. indexes_ok rows ≡ true) trigger-indexes_ok
        w h)

-- A change of status of a ticket that the dependency gate blocks starts nothing: no run, no job
-- and no task is added, and if some agent would have been started the ticket is marked as waiting,
-- with the tickets that it is chained to.
pub blocked-starts_nothing :
    (text : TextMethods) (input : OnStatusChangedInput) (w : World) (ticket : Ticket)
    → ticket_row input.ticket_id w ≡ some ticket
    → evaluate_dependency_gate text input.issue (w.release_status ticket.workspace_id) ≡ blocked
    → let (result, w') = on_status_changed text input w in
      (result ≡ ok tt)
      × (w'.runs ≡ w.runs)
      × (w'.jobs ≡ w.jobs)
      × (w'.human_tasks ≡ w.human_tasks)
      × ((started_by ticket.workspace_id input.to_status w ≡ [])
          ⊎ (w'.tickets
              ≡ update_where
                  (λ t. t.id == input.ticket_id)
                  (with_blockers (all_blocked_by_keys text input.issue) (some waiting))
                  w.tickets))
unfolding on_status_changed clear_waiting_state
blocked-starts_nothing text input w ticket found b =
    go (started_by ticket.workspace_id input.to_status w) refl
  where
    go :
        (agents : List Agent)
        → started_by ticket.workspace_id input.to_status w ≡ agents
        → let (result, w') = on_status_changed text input w in
          (result ≡ ok tt)
          × (w'.runs ≡ w.runs)
          × (w'.jobs ≡ w.jobs)
          × (w'.human_tasks ≡ w.human_tasks)
          × ((started_by ticket.workspace_id input.to_status w ≡ [])
              ⊎ (w'.tickets
                  ≡ update_where
                      (λ t. t.id == input.ticket_id)
                      (with_blockers (all_blocked_by_keys text input.issue) (some waiting))
                      w.tickets))
    go [] e = (ground arith, ground arith, ground arith, ground arith, inl e)
    go (agent ∷ agents) e =
        (ground arith, ground arith, ground arith, ground arith, inr (ground arith))
