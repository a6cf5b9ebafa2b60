-- ===== src/Ingest/Watchdog.antt =====
-- libs/ingest/src/watchdog.service.ts: runs that hang are finished.
--
-- The two settings, in minutes, are arguments: the environment is read outside. The insertion of
-- the event cannot fail here, as no insertion of an event can.
pub mod Reaped
pub mod Found
use brigadir.Prelude.{
  ℕ, suc, ◌+◌, ◌*◌, String, Bool, true, false, ◌&&◌, not, Option, none, some, List, [], ◌∷◌, ◌==◌,
  ltb, leb, is_some, get_or, all_where, any_where, if◌then◌else◌,
}
use brigadir.Domain.{
  World, Run, RunStatus, queued, Agent, Workspace, Io, pure, ◌>>=◌, ◌>>◌, add_event, Payload,
  non_fatal, for_each, JiraClient,
}
use brigadir.Runs.StatusMapping.{TerminalStatus}
use brigadir.Runs.Service.{is_running, finalize_status, no_extra}
use brigadir.Runs.Trigger.{agent_row}
use brigadir.Pipeline.Decision.{Facts}
use brigadir.Pipeline.Completion.{on_run_finished}

-- `interval '1 minute'`, in units of the clock.
abbrev pub minute : ℕ
minute = 60000

-- A row of a sweep's query: the run and the timeout of its agent.
pub record Stale : Type 0 where
  pub run_id : ℕ
  pub workspace_id : ℕ
  pub timeout_minutes : ℕ
  pub since : ℕ

-- `order by since`.
abbrev pub place_by_age : Stale → List Stale → List Stale
place_by_age s [] = s ∷ []
place_by_age s (t ∷ ts) =
    let rest = place_by_age s ts in if leb s.since t.since then s ∷ t ∷ ts else t ∷ rest

unfoldable pub oldest_first : List Stale → List Stale
oldest_first [] = []
oldest_first (s ∷ ss) = place_by_age s (oldest_first ss)

-- `where workspaceId ? eq(workspace_id, workspaceId) : undefined`.
abbrev pub in_scope : Option ℕ → Run → Bool
in_scope none r = true
in_scope (some workspace) r = r.workspace_id == workspace

-- `t < now - minutes`, where NULL is no time.
abbrev pub is_before : Option ℕ → ℕ → ℕ → Bool
is_before none minutes now = false
is_before (some t) minutes now = ltb (t + minutes * minute) now

abbrev pub is_queued : RunStatus → Bool
is_queued queued = true
is_queued _ = false

-- A run that is `running` past its agent's timeout and the grace.
abbrev pub hangs : Option ℕ → ℕ → ℕ → Run → Agent → Bool
hangs scope grace now r a =
    in_scope scope r
    && (is_running r.status && is_before r.started_at (a.timeout_minutes + grace) now)

abbrev pub joined : Option ℕ → ℕ → World → Run → Option Agent → List Stale → List Stale
joined scope grace w r none rest = rest
joined scope grace w r (some a) rest =
    if hangs scope grace w.clock r a
    then record {
      run_id = r.id;
      workspace_id = r.workspace_id;
      timeout_minutes = a.timeout_minutes;
      since = get_or r.started_at 0;
    }
      ∷ rest
    else rest

-- The inner join of runs and agents.
unfoldable pub running_rows : Option ℕ → ℕ → World → List Run → List Stale
running_rows scope grace w [] = []
running_rows scope grace w (r ∷ rows) =
    joined scope grace w r (agent_row r.agent_id w) (running_rows scope grace w rows)

unfoldable pub stale_running : Option ℕ → ℕ → World → List Stale
stale_running scope grace w = oldest_first (running_rows scope grace w w.runs)

-- A run that was `queued` for too long and never started.
abbrev pub is_lost : Option ℕ → ℕ → ℕ → Run → Bool
is_lost scope queued_after now r =
    in_scope scope r
    && (is_queued r.status
        && (not (is_some r.started_at) && is_before (some r.created_at) queued_after now))

unfoldable pub queued_rows : Option ℕ → ℕ → World → List Run → List Stale
queued_rows scope queued_after w [] = []
queued_rows scope queued_after w (r ∷ rows) =
    let rest = queued_rows scope queued_after w rows in
    if is_lost scope queued_after w.clock r
    then record {
      run_id = r.id;
      workspace_id = r.workspace_id;
      timeout_minutes = 0;
      since = r.created_at;
    }
      ∷ rest
    else rest

unfoldable pub stale_queued : Option ℕ → ℕ → World → List Stale
stale_queued scope queued_after w = oldest_first (queued_rows scope queued_after w w.runs)

-- `new Set(enabled ids).has(workspace)`.
abbrev pub is_enabled : List Workspace → ℕ → Bool
is_enabled workspaces i = any_where (λ x. x.id == i) (all_where (λ x. x.enabled) workspaces)

-- The wording of the error and of the event, by the timeout and the grace, or by the time queued.
pub record WatchdogText : Type 0 where
  pub timeout_error : ℕ → ℕ → String
  pub timeout_message : ℕ → ℕ → String
  pub queued_error : ℕ → String
  pub queued_message : ℕ → String

module _ (jira : JiraClient) (text : Facts → String) (release : ℕ → String → Io Unit)
    (words : WatchdogText) (grace queued_after : ℕ) where
  abbrev pub after_flip : ℕ → Bool → String → Bool → Io Unit
  after_flip i enabled message false = pure tt
  after_flip i enabled message true =
      add_event i (Payload.watchdog message)
      >> (if enabled then on_run_finished jira text release i else pure tt)

  -- The body of the `try` around one stale run.
  abbrev pub finalize_body : ℕ → Bool → TerminalStatus → String → String → Io Unit
  finalize_body i enabled status error message =
      finalize_status i status (record no_extra { error = some error })
      >>= after_flip i enabled message

  -- An error is logged, and the next run is processed.
  abbrev pub finalize_stale : ℕ → Bool → TerminalStatus → String → String → Io Unit
  finalize_stale i enabled status error message =
      non_fatal (finalize_body i enabled status error message)

  unfoldable pub reap_running : List Workspace → List Stale → Io Unit
  reap_running workspaces = for_each (λ s.
      finalize_stale s.run_id (is_enabled workspaces s.workspace_id) TerminalStatus.timed_out
        (words.timeout_error s.timeout_minutes grace)
        (words.timeout_message s.timeout_minutes grace))

  unfoldable pub reap_queued : List Workspace → List Stale → Io Unit
  reap_queued workspaces = for_each (λ s.
      finalize_stale s.run_id (is_enabled workspaces s.workspace_id) TerminalStatus.failed
        (words.queued_error queued_after) (words.queued_message queued_after))

  -- The second query runs on the store that the first loop leaves.
  unfoldable pub reap_lost : Option ℕ → List Workspace → Io Unit
  reap_lost scope workspaces w = reap_queued workspaces (stale_queued scope queued_after w) w

  unfoldable pub reap_hung : Option ℕ → Io Unit
  reap_hung scope w = reap_running w.workspaces (stale_running scope grace w) w

  unfoldable pub sweep_scoped : Option ℕ → Io Unit
  sweep_scoped scope w = (reap_hung scope >> reap_lost scope w.workspaces) w

  unfoldable pub sweep_all : Io Unit
  unfolding sweep_scoped
  sweep_all = sweep_scoped none
