-- ===== src/Pipeline/StatusChange.antt =====
-- libs/pipeline/src/pipeline.service.ts: which agents a change of a ticket's status starts, and what
-- the start of a run does to its ticket.
pub mod Starts
use brigadir.Prelude.{
  ℕ, String, Bool, true, false, ◌&&◌, Option, none, some, List, [], ◌∷◌, ◌==◌, all_where, is_some,
  str_eq, map, if◌then◌else◌,
}
use brigadir.Domain.{
  World, Run, Agent, Ticket, BlockedState, waiting, JiraIssue, TextMethods, TriggerEvent,
  TriggerSource, webhook, poll, Payload, run_of, Io, Result, ok, pure, ◌>>=◌, ◌>>◌, add_event,
  update_tickets, JiraClient,
}
use brigadir.Runs.Trigger.{TriggerInput, TriggerResult, minted, deduplicated, trigger}
use brigadir.HumanTasks.Service.{ticket_row}
use brigadir.HumanTasks.Resume.{transition_to_running}
use brigadir.Pipeline.Gate.{
  GateVerdict, clear, blocked, evaluate_dependency_gate, all_blocked_by_keys,
  early_release_blockers,
}

pub data StatusChangeSource : Type 0 where
  by_webhook by_poll by_scope_entry : StatusChangeSource

pub record OnStatusChangedInput : Type 0 where
  pub ticket_id : ℕ
  pub issue : JiraIssue
  pub to_status : String
  pub source : StatusChangeSource

abbrev event_source : StatusChangeSource → TriggerSource
event_source by_webhook = webhook
event_source by_poll = poll
event_source by_scope_entry = poll

unfoldable pub build_agent_trigger_event : StatusChangeSource → Agent → TriggerEvent
build_agent_trigger_event source agent = record {
  source = event_source source;
  mock_scenario = agent.mock_scenario;
  failing_run_id = none;
  deciding_run_id = none;
  human_task_id = none;
  target_agent = none;
  task = none;
  resolution = none;
}

abbrev is_status : Option String → String → Bool
is_status none status = false
is_status (some s) status = str_eq s status

-- The enabled agents of the workspace that the status starts.
abbrev pub started_by : ℕ → String → World → List Agent
started_by workspace status w =
    all_where (λ a. a.workspace_id == workspace && (is_status a.trigger_status status && a.enabled))
      w.agents

abbrev pub with_state : Option BlockedState → Ticket → Ticket
with_state state t = record t { blocked_state = state }

abbrev pub with_blockers : List String → Option BlockedState → Ticket → Ticket
with_blockers keys state t = record t { blocked_by = some keys; blocked_state = state }

unfoldable pub clear_waiting_state : ℕ → Io Unit
clear_waiting_state i = update_tickets (λ t. t.id == i && is_some t.blocked_state) (with_state none)

unfoldable pub record_early_release : ℕ → String → List (String × String) → Io Unit
record_early_release run status blockers =
    add_event run (Payload.early_release status (map (λ b. b.0) blockers))

-- The annotation of a minted run that a release status let start early.
abbrev pub annotate : Option String → List (String × String) → TriggerResult → Io Unit
annotate (some status) (b ∷ blockers) (minted run) = record_early_release run status (b ∷ blockers)
annotate _ _ _ = pure tt

abbrev pub status_input : ℕ → StatusChangeSource → Agent → TriggerInput
status_input ticket source agent = record {
  ticket_id = some ticket;
  agent_id = agent.id;
  trigger_event = some (build_agent_trigger_event source agent);
}

-- The loop over the agents; an error ends it.
abbrev pub trigger_agents :
    ℕ → StatusChangeSource → Option String → List (String × String) → List Agent → Io Unit
trigger_agents ticket source release early [] = pure tt
trigger_agents ticket source release early (agent ∷ agents) =
    trigger (status_input ticket source agent) >>= λ r.
    (annotate release early r >> trigger_agents ticket source release early agents)

module _ (text : TextMethods) where
  -- A blocked ticket waits; a clear one starts its agents.
  abbrev pub by_verdict : OnStatusChangedInput → Option String → List Agent → GateVerdict → Io Unit
  by_verdict input release agents blocked =
      update_tickets (λ t. t.id == input.ticket_id)
        (with_blockers (all_blocked_by_keys text input.issue) (some waiting))
  by_verdict input release agents clear =
      update_tickets (λ t. t.id == input.ticket_id)
        (with_blockers (all_blocked_by_keys text input.issue) none)
      >> trigger_agents input.ticket_id input.source release
          (early_release_blockers text input.issue release) agents

  abbrev pub for_agents : OnStatusChangedInput → Option String → List Agent → Io Unit
  for_agents input release [] = clear_waiting_state input.ticket_id
  for_agents input release (agent ∷ agents) =
      by_verdict input release (agent ∷ agents) (evaluate_dependency_gate text input.issue release)

  abbrev pub on_ticket_changed : OnStatusChangedInput → Option Ticket → Io Unit
  on_ticket_changed input none w = pure tt w
  on_ticket_changed input (some ticket) w =
      for_agents input (w.release_status ticket.workspace_id)
        (started_by ticket.workspace_id input.to_status w) w

  unfoldable pub on_status_changed : OnStatusChangedInput → Io Unit
  on_status_changed input w = on_ticket_changed input (ticket_row input.ticket_id w) w

abbrev started_run : JiraClient → Option Run → Io Unit
started_run jira none = pure tt
started_run jira (some run) = transition_to_running jira run.agent_id run.ticket_id

-- The same look-ups and the same non-fatal transition as after a resume.
unfoldable pub on_run_started : JiraClient → ℕ → Io Unit
on_run_started jira i w = started_run jira (run_of i w.runs) w
