-- ===== src/Ingest/Reconcile.antt =====
-- libs/ingest/src/reconcile.service.ts: a pass over every workspace, and
-- libs/jira/src/workspace-connection.service.ts: the type of a board that is not known yet.
--
-- A workspace's Jira client, and whether it can be made, are a parameter.
pub mod Isolation
use brigadir.Prelude.{ℕ, Option, none, some, List, String, ◌==◌, all_where, update_where}
use brigadir.Domain.{
  World, Workspace, BoardType, JiraClient, TextMethods, Io, Result, ok, throws, pure, throw, modify,
  ◌>>=◌, ◌>>◌, for_each, non_fatal, jira_error, workspace_not_found,
}
use brigadir.Pipeline.Decision.{Facts}
use brigadir.Pipeline.Candidates.{Board}
use brigadir.Pipeline.Release.{Waiting, release_for}
use brigadir.Ingest.Watchdog.{WatchdogText, sweep_all}
use brigadir.Ingest.Poller.{PollPort, WorkspaceContext, poll_and_diff, workspace_row}
use brigadir.Ingest.DriftRepair.{repair}

-- By workspace: its client, the type of a board, and the two views of its Jira.
pub record PassPort : Type 0 where
  pub client : ℕ → World → Result {0} Unit
  pub get_board : ℕ → ℕ → World → Result BoardType
  pub polls : ℕ → PollPort
  pub boards : ℕ → Board

abbrev from_port : {A : Type 0} → (World → Result A) → Io A
from_port f w = (f w, w)

-- A `try` whose `catch` logs the error and returns null.
abbrev pub caught : {A : Type 0} → Result A × World → Result (Option A) × World
caught (ok a, w) = (ok (some a), w)
caught (throws e, w) = (ok none, w)

abbrev pub persist_board_type : ℕ → BoardType → Io BoardType
persist_board_type i b =
    modify (λ w. record w {
      workspaces =
          update_where (λ x. x.id == i) (λ x. record x { jira_board_type = some b }) w.workspaces;
    })
    >> pure b

abbrev pub context_of : Workspace → BoardType → WorkspaceContext
context_of row b = record {
  id = row.id;
  project_key = row.jira_project_key;
  board_id = row.jira_board_id;
  board_type = b;
}

module _ (jira : JiraClient) (facts : Facts → String) (release : ℕ → String → Io Unit)
    (words : WatchdogText) (grace queued_after : ℕ) (text : TextMethods)
    (waiting_text : Waiting → List String → String × String) (port : PassPort) where
  abbrev pub introspect_board : ℕ → Option ℕ → Io BoardType
  introspect_board i none = throw jira_error
  introspect_board i (some b) = from_port (port.get_board i b) >>= persist_board_type i

  abbrev pub on_workspace_row : ℕ → Option Workspace → Io BoardType
  on_workspace_row i none = throw workspace_not_found
  on_workspace_row i (some row) = introspect_board i row.jira_board_id

  unfoldable pub introspect_and_persist_board_type : ℕ → Io BoardType
  introspect_and_persist_board_type i w = on_workspace_row i (workspace_row i w) w

  abbrev pub ensure_board_type : ℕ → Option BoardType → Io (Option BoardType)
  ensure_board_type i (some b) w = pure (some b) w
  ensure_board_type i none w = caught (introspect_and_persist_board_type i w)

  -- Each step is tried by itself.
  abbrev pub workspace_steps : Workspace → Option BoardType → Io Unit
  workspace_steps row none = pure tt
  workspace_steps row (some b) =
      non_fatal (poll_and_diff text (port.boards row.id) (port.polls row.id) (context_of row b))
      >> (non_fatal (release_for text (port.boards row.id) waiting_text row.id)
          >> non_fatal (repair jira facts release row.id))

  -- The body of the `try` around one workspace.
  abbrev pub reconcile_workspace : Workspace → Io Unit
  reconcile_workspace row =
      from_port (port.client row.id)
      >> (ensure_board_type row.id row.jira_board_type >>= workspace_steps row)

  abbrev pub reconcile_enabled : Io Unit
  reconcile_enabled w =
      for_each (λ row. non_fatal (reconcile_workspace row))
        (all_where (λ x. x.enabled) w.workspaces) w

  unfoldable pub reconcile : Io Unit
  reconcile = non_fatal (sweep_all jira facts release words grace queued_after) >> reconcile_enabled
