-- ===== src/Ingest/Reconcile/Isolation.antt =====
-- That a failing Jira keeps no run from being finished.
use brigadir.Prelude.{
  List, ℕ, ◌+◌, ◌*◌, ◌<◌, String, true, Option, none, some, ◌≡◌, refl, all_where,
}
use brigadir.Domain.{
  World, Run, Agent, Workspace, BoardType, JiraClient, TextMethods, Io, Result, ok, throws, run_of,
  indexes_ok, running, queued, ◌>>=◌, for_each, for_each-ok, non_fatal,
}
use brigadir.Runs.Trigger.{agent_row}
use brigadir.Pipeline.Decision.{Facts}
use brigadir.Pipeline.Release.{Waiting}
use brigadir.Pipeline.Release.Keeps.{release_for-OnlyTriggers}
use brigadir.Pipeline.Completion.{on_run_finished}
use brigadir.Pipeline.Completion.Keeps.{trigger-Held, on_run_finished-keeps}
use brigadir.Pipeline.Triggering.{OnlyTriggers, bind-OnlyTriggers, for_each-OnlyTriggers}
use brigadir.Ingest.Watchdog.{WatchdogText, sweep_all}
use brigadir.Ingest.Watchdog.Reaped.{Ended}
use brigadir.Ingest.Watchdog.Found.{after_hung, sweep_all-ends_hung, sweep_all-ends_lost}
use brigadir.Ingest.Poller.{workspace_row}
use brigadir.Ingest.Poller.Pass.{poll_and_diff-OnlyTriggers}
use brigadir.Ingest.DriftRepair.{pending, repair}
use brigadir.Ingest.Reconcile.{
  PassPort, caught, persist_board_type, context_of, introspect_board, on_workspace_row,
  introspect_and_persist_board_type, ensure_board_type, workspace_steps, reconcile_workspace,
  reconcile,
}

-- A run that has ended stays so, whatever is triggered.
OnlyTriggers-Ended :
    {A : Type 0} (m : Io A) → OnlyTriggers m → (i : ℕ) (w : World) → Ended i w → Ended i (m w).1
OnlyTriggers-Ended m h i w (r, held, n) =
    (r, h (λ rows. run_of i rows ≡ some r) (trigger-Held i r) w held, n)

module _ (jira : JiraClient) (facts : Facts → String) (release : ℕ → String → Io Unit)
    (released : (workspace : ℕ) (key : String) → OnlyTriggers (release workspace key))
    (words : WatchdogText) (grace queued_after : ℕ) (text : TextMethods)
    (waiting_text : Waiting → List String → String × String) (port : PassPort) where
  on_run_finished-OnlyTriggers : (i : ℕ) → OnlyTriggers (on_run_finished jira facts release i)
  on_run_finished-OnlyTriggers i P q v h =
      on_run_finished-keeps jira facts release P q (λ workspace key. released workspace key P q) i v
        h

  repair-OnlyTriggers : (workspace : ℕ) → OnlyTriggers (repair jira facts release workspace)
  unfolding repair
  repair-OnlyTriggers workspace P q v h =
      for_each-OnlyTriggers (λ r. on_run_finished jira facts release r.id)
        (λ r. on_run_finished-OnlyTriggers r.id) (pending jira facts release workspace v) P q v h

  introspect_board-OnlyTriggers :
      (i : ℕ) (o : Option ℕ)
      → OnlyTriggers
          (introspect_board jira facts release words grace queued_after text waiting_text port i o)
  introspect_board-OnlyTriggers i none P q v h = h
  introspect_board-OnlyTriggers i (some b) P q v h = known (port.get_board i b v)
    where
      known : (x : Result BoardType) → P (((λ u. (x, u)) >>= persist_board_type i) v).1.runs
      known (ok t) = h
      known (throws e) = h

  on_workspace_row-OnlyTriggers :
      (i : ℕ) (o : Option Workspace)
      → OnlyTriggers
          (on_workspace_row jira facts release words grace queued_after text waiting_text port i o)
  on_workspace_row-OnlyTriggers i none = λ P q v h. h
  on_workspace_row-OnlyTriggers i (some row) = introspect_board-OnlyTriggers i row.jira_board_id

  caught-runs : {A : Type 0} (x : Result A × World) → (caught x).1 ≡ x.1
  caught-runs (ok a, w) = refl
  caught-runs (throws e, w) = refl

  ensure_board_type-OnlyTriggers :
      (i : ℕ) (o : Option BoardType)
      → OnlyTriggers
          (ensure_board_type jira facts release words grace queued_after text waiting_text port i o)
  unfolding introspect_and_persist_board_type
  ensure_board_type-OnlyTriggers i (some b) P q v h = h
  ensure_board_type-OnlyTriggers i none P q v h =
      rw
        (caught-runs (
          introspect_and_persist_board_type jira facts release words grace queued_after text
            waiting_text port i v))
        (on_workspace_row-OnlyTriggers i (workspace_row i v) P q v h)

  workspace_steps-OnlyTriggers :
      (row : Workspace) (o : Option BoardType)
      → OnlyTriggers
          (workspace_steps jira facts release words grace queued_after text waiting_text port row o)
  workspace_steps-OnlyTriggers row none P q v h = h
  workspace_steps-OnlyTriggers row (some b) P q v h = repair-OnlyTriggers row.id P q _ (
      release_for-OnlyTriggers text (port.boards row.id) waiting_text row.id P q _ (
        poll_and_diff-OnlyTriggers text (port.boards row.id) (port.polls row.id) (context_of row b)
          P q v h))

  reconcile_workspace-OnlyTriggers :
      (row : Workspace)
      → OnlyTriggers (
          reconcile_workspace jira facts release words grace queued_after text waiting_text port
            row)
  reconcile_workspace-OnlyTriggers row =
      bind-OnlyTriggers (λ w. (port.client row.id w, w))
        (λ _.
          ensure_board_type jira facts release words grace queued_after text waiting_text port
            row.id row.jira_board_type
          >>= workspace_steps jira facts release words grace queued_after text waiting_text port
              row)
        (λ P q v h. h)
        (λ _.
          bind-OnlyTriggers
            (ensure_board_type jira facts release words grace queued_after text waiting_text port
              row.id row.jira_board_type)
            (workspace_steps jira facts release words grace queued_after text waiting_text port row)
            (ensure_board_type-OnlyTriggers row.id row.jira_board_type)
            (workspace_steps-OnlyTriggers row))

  abbrev whole : Io Unit
  whole = reconcile jira facts release words grace queued_after text waiting_text port

  -- What has ended after the sweep has ended after the pass, which never fails.
  after_sweep :
      (i : ℕ) (w : World)
      → Ended i (sweep_all jira facts release words grace queued_after w).1
      → ((whole w).0 ≡ ok tt) × Ended i (whole w).1
  unfolding reconcile
  after_sweep i w e =
      let each : Workspace → Io Unit =
        reconcile_workspace jira facts release words grace queued_after text waiting_text port in
      let v = (sweep_all jira facts release words grace queued_after w).1 in
      let rows = all_where (λ x. x.enabled) v.workspaces in
      (
        for_each-ok each rows v,
        OnlyTriggers-Ended (for_each (λ row. non_fatal (each row)) rows)
            (for_each-OnlyTriggers each reconcile_workspace-OnlyTriggers rows) i v e,
      )

  -- A reconcile pass never fails, and a run that is `running`, and was started longer ago than its
  -- agent's timeout and the grace, both in minutes of 60000 ticks of the clock, has ended after it, also when the client of every workspace, each board and each
  -- search fails. The store obeys the indexes on runs, and the release of dependent tickets only triggers runs.
  pub reconcile-ends_hung :
      (i : ℕ) (r : Run) (a : Agent) (t : ℕ) (w : World)
      → indexes_ok w.runs ≡ true
      → run_of i w.runs ≡ some r
      → agent_row r.agent_id w ≡ some a
      → r.status ≡ running
      → r.started_at ≡ some t
      → t + (a.timeout_minutes + grace) * 60000 < w.clock
      → ((whole w).0 ≡ ok tt) × Ended i (whole w).1
  reconcile-ends_hung i r a t w o h b s e l = after_sweep i w (
      sweep_all-ends_hung jira facts release released words grace queued_after i r a t w o h b s e
        l)

  -- A reconcile pass never fails, and a run that is `queued`, never started, and was created longer ago
  -- than the threshold, in minutes of 60000 ticks of the clock when the sweep's second query runs, has
  -- ended after it, also when the client of every workspace, each board and each search fails. The store
  -- obeys the indexes on runs, and the release of dependent tickets only triggers runs.
  pub reconcile-ends_lost :
      (i : ℕ) (r : Run) (w : World)
      → indexes_ok w.runs ≡ true
      → run_of i w.runs ≡ some r
      → r.status ≡ queued
      → r.started_at ≡ none
      → r.created_at + queued_after * 60000
        < (after_hung jira facts release released words grace queued_after w).clock
      → ((whole w).0 ≡ ok tt) × Ended i (whole w).1
  reconcile-ends_lost i r w o h s e l =
      after_sweep i w
        (sweep_all-ends_lost jira facts release released words grace queued_after i r w o h s e l)
