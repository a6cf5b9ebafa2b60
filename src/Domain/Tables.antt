-- ===== src/Domain/Tables.antt =====
-- libs/database/src/schema: the tables, a row as a record and a table as the list of its rows in
-- order of insertion; with them the queues of BullMQ and the writes made to Jira.
--
-- A uuid is a number. `gen_random_uuid()` gives the entries of `uuids` in turn. Timestamps are
-- readings of `clock`. Columns that no modelled operation reads or writes are left out.
use brigadir.Prelude.{
  ℕ, String, Bool, true, false, ◌&&◌, not, str_eq, Option, none, some, List, [], ◌∷◌, ◌++◌, ◌==◌,
  if◌then◌else◌, any_where, find_where, update_where,
}
use brigadir.Domain.Receipt.{VerificationReceipt}
use brigadir.Domain.Report.{AgentReport, Outcome, TriggerEvent, CheckStatus, HumanTaskKind}

pub data RunStatus : Type 0 where
  queued running awaiting_human succeeded failed cancelled timed_out superseded : RunStatus

pub record Run : Type 0 where
  pub id : ℕ
  pub workspace_id : ℕ
  pub ticket_id : Option ℕ
  pub agent_id : ℕ
  pub executor_type : String
  pub status : RunStatus
  pub attempt : ℕ
  pub created_at : ℕ
  pub trigger_event : TriggerEvent
  pub external_ref : Option String
  pub started_at : Option ℕ
  pub finished_at : Option ℕ
  pub exit_code : Option ℕ
  pub cost_usd : Option ℕ
  pub usage : Option String
  pub error : Option String
  pub report : Option AgentReport
  pub outcome : Option Outcome

pub data TaskStatus : Type 0 where
  open_task resolved dismissed : TaskStatus

pub record HumanTask : Type 0 where
  pub id : ℕ
  pub workspace_id : ℕ
  pub run_id : Option ℕ
  pub ticket_id : Option ℕ
  pub kind : HumanTaskKind
  pub title : String
  pub details : Option String
  pub options : List String
  pub blocking : Bool
  pub status : TaskStatus
  pub resolution : Option String
  pub resolved_at : Option ℕ
  pub resolved_by : Option String

pub record Agent : Type 0 where
  pub id : ℕ
  pub workspace_id : ℕ
  pub executor_id : ℕ
  pub name : String
  pub role : Option String
  pub key : String
  pub description : Option String
  pub instruction : String
  pub is_orchestrator : Bool
  pub trigger_status : Option String
  pub trigger_jql : Option String
  pub status_running : Option String
  pub status_success : String
  pub status_failure : String
  -- `behavior.mock_scenario`, `behavior.route_target`, `behavior.code_delivery`; an empty string, which
  -- the program takes for an absent one, is `none` here, also for `status_running`
  pub mock_scenario : Option String
  pub route_target : Option String
  pub code_delivery : Option String
  pub max_attempts : ℕ
  pub timeout_minutes : ℕ
  pub enabled : Bool

pub data BoardType : Type 0 where
  kanban scrum : BoardType

-- The rest is from `settings`: `enabled` is false only if they say so, and the last three are what a
-- poll reads and leaves.
pub record Workspace : Type 0 where
  pub id : ℕ
  pub jira_project_key : String
  pub jira_board_id : Option ℕ
  pub jira_board_type : Option BoardType
  pub enabled : Bool
  pub scope_jql : Option String
  pub high_water_mark : Option ℕ
  pub active_sprint_ids : Option (List ℕ)

pub data BlockedState : Type 0 where
  waiting cycle dead_end out_of_scope : BlockedState

pub record Ticket : Type 0 where
  pub id : ℕ
  pub workspace_id : ℕ
  pub jira_key : String
  pub last_seen_status : Option String
  pub priority_id : Option ℕ
  pub blocked_by : Option (List String)
  pub blocked_state : Option BlockedState
  pub verification : Option VerificationReceipt

pub record Executor : Type 0 where
  pub id : ℕ
  pub type : String
  pub name : String
  pub model : Option String
  pub max_parallel_runs : ℕ
  pub enabled : Bool

pub record RunCheck : Type 0 where
  pub run_id : ℕ
  pub position : ℕ
  pub name : String
  pub status : CheckStatus
  pub reason : Option String

-- The payloads of `run_events` that the program reads again or that a property is about.
pub data Payload : Type 0 where
  -- type `log`
  deduplicated : ℕ → Payload
  start_ref : String → String → Payload
  early_release : String → List String → Payload
  handoff_violation : List String → Payload
  watchdog : String → Payload
  verification_receipt : List String → Payload
  -- type `undelivered_report`
  undelivered_report : AgentReport → RunStatus → String → Payload
  -- type `error`
  stage_error : String → Payload
  -- type `jira_action`: a worker's, an orchestrator's and a setup run's completion marker
  worker_done : String → Option String → Payload
  orchestrator_done : String → Payload
  setup_done : String → Option ℕ → Payload

pub record RunEvent : Type 0 where
  pub run_id : ℕ
  pub payload : Payload

-- A BullMQ job: its queue by executor type, and the options of `queue.add`.
pub record Job : Type 0 where
  pub queue : String
  pub run_id : ℕ
  pub job_id : ℕ
  pub deduplication : Option (Option ℕ × ℕ)
  pub attempts : Option ℕ

pub data JiraWrite : Type 0 where
  transition : String → String → JiraWrite
  comment : String → AgentReport → JiraWrite
  task_comment : String → String → JiraWrite

pub record World : Type 0 where
  pub runs : List Run
  pub human_tasks : List HumanTask
  pub run_events : List RunEvent
  pub run_checks : List RunCheck
  pub workspaces : List Workspace
  pub agents : List Agent
  pub tickets : List Ticket
  pub executors : List Executor
  pub rework_max : ℕ → ℕ
  pub release_status : ℕ → Option String
  pub jobs : List Job
  pub jira : List JiraWrite
  pub clock : ℕ
  pub uuids : ℕ → ℕ
  pub drawn : ℕ

-- `status IN ('queued', 'running', 'awaiting_human')`.
abbrev pub is_active : RunStatus → Bool
is_active queued = true
is_active running = true
is_active awaiting_human = true
is_active _ = false

abbrev pub is_open : TaskStatus → Bool
is_open open_task = true
is_open _ = false

abbrev pub has_id : ℕ → Run → Bool
has_id i r = r.id == i

-- `agents_workspace_key`: no two agents of a workspace have one key.
abbrev pub same_key : Agent → Agent → Bool
same_key a b = a.workspace_id == b.workspace_id && str_eq a.key b.key

unfoldable pub agent_keys_ok : List Agent → Bool
agent_keys_ok [] = true
agent_keys_ok (a ∷ agents) = not (any_where (same_key a) agents) && agent_keys_ok agents

-- What an active run occupies under the two partial unique indexes of `runs`: its ticket
-- (`runs_one_active`), or its workspace if it has no ticket (`runs_one_active_setup`).
pub data Slot : Type 0 where
  on_ticket : ℕ → Slot
  on_setup : ℕ → Slot

unfoldable pub slot : Run → Option Slot
slot r =
    if is_active r.status
    then elim r.ticket_id [ some t ↦ some (on_ticket t) | none ↦ some (on_setup r.workspace_id) ]
    else none

abbrev pub same_slot : Slot → Slot → Bool
same_slot (on_ticket a) (on_ticket b) = a == b
same_slot (on_setup a) (on_setup b) = a == b
same_slot _ _ = false

abbrev pub occupies : Option Slot → Option Slot → Bool
occupies (some a) (some b) = same_slot a b
occupies _ _ = false

-- Some row of the table occupies the slot.
abbrev pub taken : Option Slot → List Run → Bool
taken s rows = any_where (λ r. occupies s (slot r)) rows

-- The table obeys both indexes: no two rows occupy one slot.
unfoldable pub indexes_ok : List Run → Bool
indexes_ok [] = true
indexes_ok (r ∷ rows) = (if taken (slot r) rows then false else true) && indexes_ok rows

-- `insert into runs`: `none` is SQLSTATE 23505.
unfoldable pub insert_run : Run → List Run → Option (List Run)
insert_run r rows = if taken (slot r) rows then none else some (rows ++ r ∷ [])

-- `update runs set f where p`: `none` is SQLSTATE 23505, which rolls the statement back.
unfoldable pub update_runs : (Run → Bool) → (Run → Run) → List Run → Option (List Run)
update_runs p f rows =
    let rows' = update_where p f rows in if indexes_ok rows' then some rows' else none

-- The row with an identifier.
abbrev pub run_of : ℕ → List Run → Option Run
run_of i rows = find_where (has_id i) rows
