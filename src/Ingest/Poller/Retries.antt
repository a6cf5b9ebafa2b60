-- ===== src/Ingest/Poller/Retries.antt =====
-- What an error in a change of status leaves for the next poll.
use brigadir.Prelude.{
  ℕ, String, Bool, Option, none, some, List, [], ◌∷◌, ◌≡◌, refl, ◌∙◌, arith, ap, inl, inr,
  find_where-update_where, Bool-cases, str_eq, eq_iff, ◌==◌, if◌then◌else◌, ◌&&◌, is_some,
}
use brigadir.Domain.{
  World, Ticket, Agent, JiraIssue, TextMethods, Io, Result, ok, throws, Failure, ◌>>=◌, ◌>>◌,
  bind-keeps, update_tickets, waiting,
}
use brigadir.Runs.Trigger.{TriggerResult, trigger}
use brigadir.Runs.Trigger.Idempotence.{trigger-cases}
use brigadir.HumanTasks.Service.{ticket_row}
use brigadir.Pipeline.Candidates.{Board}
use brigadir.Pipeline.Gate.{
  GateVerdict, clear, blocked, evaluate_dependency_gate, all_blocked_by_keys,
  early_release_blockers,
}
use brigadir.Pipeline.StatusChange.{
  StatusChangeSource, by_poll, by_scope_entry, OnStatusChangedInput, on_status_changed,
  on_ticket_changed, for_agents, by_verdict, trigger_agents, started_by, status_input,
  with_blockers, with_state, clear_waiting_state, annotate, record_early_release,
}
use brigadir.Ingest.Poller.{
  Polled, PollPort, newest, upserted, upsert_ticket, cached_issue, diffed, after_upsert,
  process_issues,
}
use brigadir.Ingest.Poller.Diff.{is_of, ticket_of}

-- The ticket of an issue, with its identifier and the status in which it was last seen.
abbrev pub Tracked : ℕ → JiraIssue → ℕ → Option String → World → Type 0
Tracked workspace issue i last w =
    (t : Ticket) × ((ticket_of workspace issue w ≡ some t)
      × ((t.id ≡ i) × (t.last_seen_status ≡ last)))

module _ (workspace : ℕ) (issue : JiraIssue) (i : ℕ) (last : Option String) where
  updated-Tracked :
      (p : Ticket → Bool) (f : Ticket → Ticket) (w : World)
      → ((t : Ticket)
          → (is_of workspace issue (f t) ≡ is_of workspace issue t)
            × (((f t).id ≡ t.id) × ((f t).last_seen_status ≡ t.last_seen_status)))
      → Tracked workspace issue i last w
      → Tracked workspace issue i last (update_tickets p f w).1
  updated-Tracked p f w same (t, (found, (e, l))) = (
    (if p t then f t else t),
    (
      find_where-update_where (is_of workspace issue) p f (λ u. (same u).0) w.tickets found,
      (ground (arith, same t, e), ground (arith, same t, l)),
    ),
  )

  annotate-Tracked :
      (release : Option String) (early : List (String × String)) (r : TriggerResult) (w : World)
      → Tracked workspace issue i last w
      → Tracked workspace issue i last (annotate release early r w).1
  unfolding record_early_release
  annotate-Tracked none early r w h = h
  annotate-Tracked (some s) [] r w h = h
  annotate-Tracked (some s) (b ∷ bs) (TriggerResult.minted run) w h = h
  annotate-Tracked (some s) (b ∷ bs) (TriggerResult.deduplicated run) w h = h

  trigger_agents-Tracked :
      (ticket : ℕ) (source : StatusChangeSource) (release : Option String)
      (early : List (String × String)) (agents : List Agent) (w : World)
      → Tracked workspace issue i last w
      → Tracked workspace issue i last (trigger_agents ticket source release early agents w).1
  trigger_agents-Tracked ticket source release early [] w h = h
  trigger_agents-Tracked ticket source release early (agent ∷ agents) w h =
      bind-keeps (Tracked workspace issue i last) (trigger (status_input ticket source agent))
        (λ r. annotate release early r >> trigger_agents ticket source release early agents) w
        (elim (trigger-cases (status_input ticket source agent) w) [
          | inl same ↦ rw same.0 h
          | inr (a, executor, free, e) ↦ rw e h
        ])
        (λ r v p.
          bind-keeps (Tracked workspace issue i last) (annotate release early r)
            (λ _. trigger_agents ticket source release early agents) v
            (annotate-Tracked release early r v p)
            (λ _ u q. trigger_agents-Tracked ticket source release early agents u q))

module _ (text : TextMethods) (workspace : ℕ) (issue : JiraIssue) (i : ℕ) (last : Option String)
    (input : OnStatusChangedInput) where
  by_verdict-Tracked :
      (release : Option String) (agents : List Agent) (v : GateVerdict) (w : World)
      → Tracked workspace issue i last w
      → Tracked workspace issue i last (by_verdict text input release agents v w).1
  by_verdict-Tracked release agents blocked w h =
      updated-Tracked workspace issue i last (λ t. t.id == input.ticket_id)
        (with_blockers (all_blocked_by_keys text input.issue) (some waiting)) w
        (λ t. (refl, (refl, refl))) h
  by_verdict-Tracked release agents clear w h =
      trigger_agents-Tracked workspace issue i last input.ticket_id input.source release
        (early_release_blockers text input.issue release) agents _
        (updated-Tracked workspace issue i last (λ t. t.id == input.ticket_id)
          (with_blockers (all_blocked_by_keys text input.issue) none) w (λ t. (refl, (refl, refl)))
          h)

  for_agents-Tracked :
      (release : Option String) (agents : List Agent) (w : World)
      → Tracked workspace issue i last w
      → Tracked workspace issue i last (for_agents text input release agents w).1
  unfolding clear_waiting_state
  for_agents-Tracked release [] w h =
      updated-Tracked workspace issue i last
        (λ t. t.id == input.ticket_id && is_some t.blocked_state) (with_state none) w
        (λ t. (refl, (refl, refl))) h
  for_agents-Tracked release (agent ∷ agents) w h =
      by_verdict-Tracked release (agent ∷ agents)
        (evaluate_dependency_gate text input.issue release) w h

  on_ticket_changed-Tracked :
      (o : Option Ticket) (w : World)
      → Tracked workspace issue i last w
      → Tracked workspace issue i last (on_ticket_changed text input o w).1
  on_ticket_changed-Tracked none w h = h
  on_ticket_changed-Tracked (some ticket) w h =
      for_agents-Tracked (w.release_status ticket.workspace_id)
        (started_by ticket.workspace_id input.to_status w) w h

  on_status_changed-Tracked :
      (w : World)
      → Tracked workspace issue i last w
      → Tracked workspace issue i last (on_status_changed text input w).1
  unfolding on_status_changed
  on_status_changed-Tracked w h = on_ticket_changed-Tracked (ticket_row input.ticket_id w) w h

-- How a ticket's status is told to the pipeline: as seen first, or as changed.
abbrev source_of : Option String → StatusChangeSource
source_of none = by_scope_entry
source_of (some seen) = by_poll

abbrev pub change_of : JiraIssue → ℕ → Option String → OnStatusChangedInput
change_of issue i last = record {
  ticket_id = i;
  issue = issue;
  to_status = issue.status.name;
  source = source_of last;
}

module _ (text : TextMethods) (board : Board) (port : PollPort) (workspace : ℕ) where
  -- A status that was not seen before is told to the pipeline.
  diffed-new :
      (issue : JiraIssue) (i : ℕ) (last : Option String)
      → ¬ (last ≡ some issue.status.name)
      → diffed text board port issue i last ≡ on_status_changed text (change_of issue i last)
  diffed-new issue i none n = refl
  diffed-new issue i (some s) n = elim (Bool-cases (str_eq s issue.status.name)) [
    | inl t ↦ absurd (n (ap some ((eq_iff s issue.status.name).0 t)))
    | inr f ↦ rw (f, diffed) refl
  ]

  caught :
      (m : Io Unit) (i : ℕ) (issue : JiraIssue) (w : World) (e : Failure)
      → (m w).0 ≡ throws e
      → ((m >> update_tickets (λ t. t.id == i) (cached_issue text board port issue)) w).1 ≡ (m w).1
  caught m i issue w e failed =
      ap
        (λ r.
          (elim r as (λ _. Result {0} Unit × World) [
            | ok a ↦ update_tickets (λ t. t.id == i) (cached_issue text board port issue) (m w).1
            | throws f ↦ (throws f, (m w).1)
          ]).1)
        failed

  -- When the change of an issue's status fails, the pass goes on with the other issues, in the store that
  -- the failed change left. There the ticket still has the status in which it was last seen, so that the
  -- issue's status is still a new one to the next pass that lists it. The issue has a ticket, and was not
  -- last seen in the status that it has.
  pub failed_change-retried :
      (x : Polled) (xs : List Polled) (latest : Option String) (t : Ticket) (e : Failure)
      (w : World)
      → ticket_of workspace x.issue w ≡ some t
      → ¬ (t.last_seen_status ≡ some x.issue.status.name)
      → (on_status_changed text (change_of x.issue t.id t.last_seen_status) w).0 ≡ throws e
      → let v = (on_status_changed text (change_of x.issue t.id t.last_seen_status) w).1 in
        (process_issues text board port workspace (x ∷ xs) latest w
          ≡ process_issues text board port workspace xs (newest text board port latest x.updated) v)
        × Tracked workspace x.issue t.id t.last_seen_status v
  unfolding process_issues upsert_ticket
  failed_change-retried x xs latest t e w found n failed =
      let issue = x.issue in
      let last = t.last_seen_status in
      let change = on_status_changed text (change_of issue t.id last) in
      let next =
        process_issues text board port workspace xs (newest text board port latest x.updated) in
      (
        ap
              (λ o.
                ((upserted text board port workspace issue o >>= after_upsert text board port issue)
                    >> next)
                  w)
              found
            ∙ (ap
                  (λ m.
                    next
                      ((m
                          >> update_tickets (λ u. u.id == t.id)
                              (cached_issue text board port issue))
                        w).1)
                  (diffed-new issue t.id last n)
                ∙ ap next (caught change t.id issue w e failed)),
        on_status_changed-Tracked text workspace issue t.id last (change_of issue t.id last) w
            (t, (found, (refl, refl))),
      )
