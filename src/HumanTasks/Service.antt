-- ===== src/HumanTasks/Service.antt =====
-- libs/human-tasks/src/human-task.service.ts: human tasks and the parking of the run that asks.
use brigadir.Prelude.{
  ℕ, String, Bool, true, false, ◌&&◌, not, Option, none, some, List, [], ◌==◌, any_where,
  find_where, is_some, same_id?, str_eq, if◌then◌else◌,
}
use brigadir.Domain.{
  World, Run, RunStatus, HumanTask, HumanTaskKind, blocker, Ticket, Agent, is_open, open_task,
  run_of, Io, pure, throw, ◌>>=◌, ◌>>◌, guarded_update, add_task, add_event, fresh_id,
  run_not_found, Payload, task_comment, JiraClient, transition_to, add_comment, non_fatal,
}
use brigadir.Runs.Service.{open_task_of, where_status, is_running, with_status}

pub record CreateHumanTaskInput : Type 0 where
  pub kind : HumanTaskKind
  pub title : String
  pub details : Option String
  pub blocking : Bool
  pub options : List String

pub record CreateHumanTaskResult : Type 0 where
  pub created : Bool
  pub blocking : Bool
  pub may_finish_without_complete : Bool

abbrev pub ticket_row : ℕ → World → Option Ticket
ticket_row i w = find_where (λ t. t.id == i) w.tickets

abbrev pub agent_of : ℕ → World → Option Agent
agent_of i w = find_where (λ a. a.id == i) w.agents

abbrev pub requested_task : ℕ → Run → CreateHumanTaskInput → ℕ → HumanTask
requested_task i run input id = record {
  id = id;
  workspace_id = run.workspace_id;
  run_id = some i;
  ticket_id = run.ticket_id;
  kind = input.kind;
  title = input.title;
  details = input.details;
  options = input.options;
  blocking = input.blocking;
  status = open_task;
  resolution = none;
  resolved_at = none;
  resolved_by = none;
}

unfoldable pub park_run : ℕ → Io Bool
park_run i = guarded_update (where_status is_running i) (with_status RunStatus.awaiting_human)

abbrev commented : JiraClient → CreateHumanTaskInput → Option Agent → Option Ticket → Io Unit
commented jira input (some agent) (some ticket) = non_fatal (
    transition_to jira ticket.jira_key agent.status_failure
    >> add_comment jira ticket.jira_key (task_comment ticket.jira_key input.title))
commented jira input _ _ = pure tt

abbrev on_ticket_of : JiraClient → CreateHumanTaskInput → ℕ → Option ℕ → Io Unit
on_ticket_of jira input agent none w = pure tt w
on_ticket_of jira input agent (some t) w =
    commented jira input (agent_of agent w) (ticket_row t w) w

-- The ticket moves to the agent's failure status and the question is posted; neither may fail the
-- request.
unfoldable pub transition_and_comment : JiraClient → Run → CreateHumanTaskInput → Io Unit
transition_and_comment jira run input w = on_ticket_of jira input run.agent_id run.ticket_id w

abbrev pub result_of : Bool → Bool → Bool → CreateHumanTaskResult
result_of created blocking may_finish = record {
  created = created;
  blocking = blocking;
  may_finish_without_complete = may_finish;
}

abbrev pub drive_jira : Bool → JiraClient → Run → CreateHumanTaskInput → Io Unit
drive_jira true jira run input = transition_and_comment jira run input
drive_jira false jira run input = pure tt

-- A new task, and for a blocking one the park.
unfoldable pub ask : JiraClient → ℕ → Run → CreateHumanTaskInput → Io CreateHumanTaskResult
ask jira i run input w =
    (add_task (requested_task i run input (fresh_id w))
        >> (if input.blocking
            then (do
              parked ← park_run i
              drive_jira parked jira run input
              pure (result_of true true true))
            else pure (result_of true false false)))
      w

-- The request is a duplicate of an open task: a log event, and for a blocking one the park again.
unfoldable pub repeat_ask : ℕ → HumanTask → CreateHumanTaskInput → Io CreateHumanTaskResult
repeat_ask i open_one input =
    add_event i (Payload.deduplicated open_one.id)
    >> (if input.blocking
        then (do parked ← park_run i; pure (result_of false true true))
        else pure (result_of false false false))

abbrev pub ask_or_repeat :
    JiraClient → ℕ → Run → CreateHumanTaskInput → Option HumanTask → Io CreateHumanTaskResult
ask_or_repeat jira i run input none = ask jira i run input
ask_or_repeat jira i run input (some open_one) = repeat_ask i open_one input

abbrev pub on_run : JiraClient → ℕ → CreateHumanTaskInput → Option Run → Io CreateHumanTaskResult
on_run jira i input none w = throw run_not_found w
on_run jira i input (some run) w =
    ask_or_repeat jira i run input (find_where (open_task_of i input.blocking) w.human_tasks) w

unfoldable pub create_from_request :
    JiraClient → ℕ → CreateHumanTaskInput → Io CreateHumanTaskResult
create_from_request jira i input w = on_run jira i input (run_of i w.runs) w

unfoldable pub create_non_blocking :
    JiraClient → ℕ → HumanTaskKind → String → Option String → Io CreateHumanTaskResult
create_non_blocking jira i kind title details =
    create_from_request jira i
      (record { kind = kind; title = title; details = details; blocking = false; options = [] })

unfoldable pub has_open_blocking_task : ℕ → World → Bool
has_open_blocking_task i w = any_where (open_task_of i true) w.human_tasks

abbrev pub run_less_task : ℕ → ℕ → String → Option String → ℕ → HumanTask
run_less_task workspace ticket title details id = record {
  id = id;
  workspace_id = workspace;
  run_id = none;
  ticket_id = some ticket;
  kind = blocker;
  title = title;
  details = details;
  options = [];
  blocking = false;
  status = open_task;
  resolution = none;
  resolved_at = none;
  resolved_by = none;
}

-- An open task of the ticket that belongs to no run.
abbrev pub run_less_of : ℕ → HumanTask → Bool
run_less_of ticket t =
    same_id? t.ticket_id (some ticket) && (not (is_some t.run_id) && is_open t.status)

-- Whether a task was created: at most one open task without a run for each ticket.
unfoldable pub create_ticket_blocked : ℕ → ℕ → String → Option String → Io Bool
create_ticket_blocked workspace ticket title details w =
    if any_where (run_less_of ticket) w.human_tasks
    then pure false w
    else (add_task (run_less_task workspace ticket title details (fresh_id w)) >> pure true) w

-- An open task of the ticket with the same title: the title carries the whole condition.
abbrev pub keyed_of : ℕ → String → HumanTask → Bool
keyed_of ticket title t = run_less_of ticket t && str_eq t.title title

unfoldable pub create_keyed_ticket_task : ℕ → ℕ → String → Option String → Io Bool
create_keyed_ticket_task workspace ticket title details w =
    if any_where (keyed_of ticket title) w.human_tasks
    then pure false w
    else (add_task (run_less_task workspace ticket title details (fresh_id w)) >> pure true) w
