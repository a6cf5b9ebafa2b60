-- ===== src/Ingest/Poller/Pass.antt =====
-- What a poll does to the table of runs.
use brigadir.Prelude.{
  ℕ, String, true, Option, none, some, List, [], ◌∷◌, ◌≡◌, ◌≤◌, str_eq, count_where, find_where,
  ◌==◌, ◌&&◌,
}
use brigadir.Domain.{
  World, Ticket, JiraIssue, BoardType, kanban, scrum, Workspace, TextMethods, Failure, Io, Result,
  ok, throws, pure, ◌>>=◌, indexes_ok, update_tickets,
}
use brigadir.Runs.Trigger.Idempotence.{active_on, one_active, trigger-indexes_ok}
use brigadir.Pipeline.Candidates.{Board}
use brigadir.Pipeline.Triggering.{OnlyTriggers, bind-OnlyTriggers, if-OnlyTriggers}
use brigadir.Pipeline.StatusChange.{by_poll}
use brigadir.Pipeline.StatusChange.Starts.{on_status_changed-OnlyTriggers}
use brigadir.Ingest.Poller.{
  Polled, Clause, PollPort, WorkspaceContext, build_scope_jql, since_clause, same_sprint_set,
  workspace_row, mark_of, sprints_of, scope_of, parsed, set_reconcile_state, stored, upserted,
  insert_new_ticket, upsert_ticket, on_new_status, diffed, cached_issue, after_upsert, newest,
  process_issues, jira_answer, searched, advance, poll_since, after_rescan, rescan, forget_sprints,
  poll_sprints, sprints_on, poll_by, poll_and_diff,
}

module _ (text : TextMethods) (board : Board) (port : PollPort) where
  diffed-OnlyTriggers :
      (issue : JiraIssue) (ticket : ℕ) (seen : Option String)
      → OnlyTriggers (diffed text board port issue ticket seen)
  diffed-OnlyTriggers issue ticket none = on_status_changed-OnlyTriggers text _
  diffed-OnlyTriggers issue ticket (some s) =
      if-OnlyTriggers (str_eq s issue.status.name) (pure tt)
        (on_new_status text board port by_poll issue ticket) (λ P q v h. h)
        (on_status_changed-OnlyTriggers text _)

  after_upsert-OnlyTriggers :
      (issue : JiraIssue) (x : ℕ × Option String)
      → OnlyTriggers (after_upsert text board port issue x)
  after_upsert-OnlyTriggers issue (ticket, seen) P q v h =
      bind-OnlyTriggers (diffed text board port issue ticket seen)
        (λ _. update_tickets (λ t. t.id == ticket) (cached_issue text board port issue))
        (diffed-OnlyTriggers issue ticket seen) (λ _ P q v h. h) P q v h

  insert_new_ticket-OnlyTriggers :
      (workspace : ℕ) (issue : JiraIssue) (o : Option Failure)
      → OnlyTriggers (insert_new_ticket text board port workspace issue o)
  insert_new_ticket-OnlyTriggers workspace issue none P q v h = h
  insert_new_ticket-OnlyTriggers workspace issue (some e) P q v h = h

  upserted-OnlyTriggers :
      (workspace : ℕ) (issue : JiraIssue) (o : Option Ticket)
      → OnlyTriggers (upserted text board port workspace issue o)
  upserted-OnlyTriggers workspace issue none P q v h =
      insert_new_ticket-OnlyTriggers workspace issue (port.insert_fails workspace issue v) P q v h
  upserted-OnlyTriggers workspace issue (some t) P q v h = h

  upsert_ticket-OnlyTriggers :
      (workspace : ℕ) (issue : JiraIssue)
      → OnlyTriggers (upsert_ticket text board port workspace issue)
  unfolding upsert_ticket
  upsert_ticket-OnlyTriggers workspace issue P q v h =
      upserted-OnlyTriggers workspace issue
        (find_where (λ t. t.workspace_id == workspace && str_eq t.jira_key issue.key) v.tickets) P q
        v h

  process_issues-OnlyTriggers :
      (workspace : ℕ) (xs : List Polled) (latest : Option String)
      → OnlyTriggers (process_issues text board port workspace xs latest)
  unfolding process_issues
  process_issues-OnlyTriggers workspace [] latest = λ P q v h. h
  process_issues-OnlyTriggers workspace (x ∷ xs) latest =
      bind-OnlyTriggers
        (upsert_ticket text board port workspace x.issue >>= after_upsert text board port x.issue)
        (λ _. process_issues text board port workspace xs (newest text board port latest x.updated))
        (bind-OnlyTriggers (upsert_ticket text board port workspace x.issue)
          (after_upsert text board port x.issue) (upsert_ticket-OnlyTriggers workspace x.issue)
          (after_upsert-OnlyTriggers x.issue))
        (λ _. process_issues-OnlyTriggers workspace xs (newest text board port latest x.updated))

  parsed-OnlyTriggers :
      (i : ℕ) (sprints : Option (List ℕ)) (o : Option ℕ) → OnlyTriggers (parsed i sprints o)
  parsed-OnlyTriggers i sprints none P q v h = h
  parsed-OnlyTriggers i sprints (some mark) P q v h = h

  set_reconcile_state-OnlyTriggers :
      (i : ℕ) (mark : Option String) (sprints : Option (List ℕ))
      → OnlyTriggers (set_reconcile_state text board port i mark sprints)
  unfolding set_reconcile_state
  set_reconcile_state-OnlyTriggers i none sprints = λ P q v h. h
  set_reconcile_state-OnlyTriggers i (some mark) sprints =
      if-OnlyTriggers (str_eq mark "") (stored i none sprints)
        (parsed i sprints (port.date_parse mark)) (λ P q v h. h)
        (parsed-OnlyTriggers i sprints (port.date_parse mark))

  jira_answer-OnlyTriggers :
      {A : Type 0} (r : Result A) → OnlyTriggers (jira_answer text board port r)
  jira_answer-OnlyTriggers (ok a) P q v h = h
  jira_answer-OnlyTriggers (throws e) P q v h = h

  -- A search, the issues that it finds, and what follows.
  search-OnlyTriggers :
      (clauses : List Clause) (workspace : ℕ) (next : Option String → Io Unit)
      → ((latest : Option String) → OnlyTriggers (next latest))
      → OnlyTriggers (
          searched text board port clauses >>= λ issues.
          (process_issues text board port workspace issues none >>= next))
  search-OnlyTriggers clauses workspace next n =
      bind-OnlyTriggers (searched text board port clauses)
        (λ issues. process_issues text board port workspace issues none >>= next)
        (λ P q v h. jira_answer-OnlyTriggers (port.search_updated clauses v) P q v h)
        (λ issues.
          bind-OnlyTriggers (process_issues text board port workspace issues none) next
            (process_issues-OnlyTriggers workspace issues none) n)

  advance-OnlyTriggers :
      (i : ℕ) (latest : Option String) → OnlyTriggers (advance text board port i latest)
  advance-OnlyTriggers i none = λ P q v h. h
  advance-OnlyTriggers i (some latest) =
      if-OnlyTriggers (str_eq latest "") (pure tt)
        (set_reconcile_state text board port i (some latest) none) (λ P q v h. h)
        (set_reconcile_state-OnlyTriggers i (some latest) none)

  forget_sprints-OnlyTriggers :
      (i : ℕ) (o : Option (List ℕ)) → OnlyTriggers (forget_sprints text board port i o)
  forget_sprints-OnlyTriggers i none = λ P q v h. h
  forget_sprints-OnlyTriggers i (some []) = λ P q v h. h
  forget_sprints-OnlyTriggers i (some (s ∷ ss)) = set_reconcile_state-OnlyTriggers i none (some [])

  poll_since-OnlyTriggers :
      (ws : WorkspaceContext) (sprints : List ℕ) (row : Option Workspace)
      → OnlyTriggers (poll_since text board port ws sprints row)
  poll_since-OnlyTriggers ws sprints row =
      search-OnlyTriggers
        (build_scope_jql ws.board_type ws.project_key sprints (scope_of row)
          (since_clause (mark_of row)))
        ws.id (advance text board port ws.id) (advance-OnlyTriggers ws.id)

  rescan-OnlyTriggers :
      (ws : WorkspaceContext) (sprints : List ℕ) (row : Option Workspace)
      → OnlyTriggers (rescan text board port ws sprints row)
  rescan-OnlyTriggers ws sprints row =
      search-OnlyTriggers (build_scope_jql scrum ws.project_key sprints (scope_of row) none) ws.id
        (after_rescan text board port ws sprints)
        (λ latest. set_reconcile_state-OnlyTriggers ws.id latest (some sprints))

  poll_sprints-OnlyTriggers :
      (ws : WorkspaceContext) (row : Option Workspace) (sprints : List ℕ)
      → OnlyTriggers (poll_sprints text board port ws row sprints)
  poll_sprints-OnlyTriggers ws row [] = forget_sprints-OnlyTriggers ws.id (sprints_of row)
  poll_sprints-OnlyTriggers ws row (s ∷ ss) =
      if-OnlyTriggers (same_sprint_set (s ∷ ss) (sprints_of row))
        (poll_since text board port ws (s ∷ ss) row) (rescan text board port ws (s ∷ ss) row)
        (poll_since-OnlyTriggers ws (s ∷ ss) row) (rescan-OnlyTriggers ws (s ∷ ss) row)

  sprints_on-OnlyTriggers : (o : Option ℕ) → OnlyTriggers (sprints_on text board port o)
  sprints_on-OnlyTriggers none P q v h = h
  sprints_on-OnlyTriggers (some b) P q v h =
      jira_answer-OnlyTriggers (port.active_sprint_ids b v) P q v h

  poll_by-OnlyTriggers :
      (ws : WorkspaceContext) (b : BoardType) (row : Option Workspace)
      → OnlyTriggers (poll_by text board port ws b row)
  poll_by-OnlyTriggers ws kanban row = poll_since-OnlyTriggers ws [] row
  poll_by-OnlyTriggers ws scrum row =
      bind-OnlyTriggers (sprints_on text board port ws.board_id)
        (poll_sprints text board port ws row) (sprints_on-OnlyTriggers ws.board_id)
        (poll_sprints-OnlyTriggers ws row)

  -- A poll does to the table of runs only what triggers do.
  pub poll_and_diff-OnlyTriggers :
      (ws : WorkspaceContext) → OnlyTriggers (poll_and_diff text board port ws)
  unfolding poll_and_diff
  poll_and_diff-OnlyTriggers ws P q v h =
      poll_by-OnlyTriggers ws ws.board_type (workspace_row ws.id v) P q v h

  -- A poll, on either type of board, whatever Jira answers and however often it lists an issue, leaves at
  -- most one active run on every ticket, in a store that obeys the indexes on runs.
  poll_and_diff-one_active :
      (ws : WorkspaceContext) (t : ℕ) (w : World)
      → indexes_ok w.runs ≡ true
      → count_where (active_on t) (poll_and_diff text board port ws w).1.runs ≤ 1
  poll_and_diff-one_active ws t w h =
      one_active t (poll_and_diff text board port ws w).1.runs
        (poll_and_diff-OnlyTriggers ws (λ rows. indexes_ok rows ≡ true) trigger-indexes_ok w h)
