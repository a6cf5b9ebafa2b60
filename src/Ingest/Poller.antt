-- ===== src/Ingest/Poller.antt =====
-- libs/ingest/src/poller.service.ts: the statuses that Jira shows are compared with the ones last seen.
--
-- The board's active sprints and the search are Jira's and may fail. A query is the list of its
-- clauses, from libs/jira/src/scope-jql.ts; the time in it is in whole minutes. The high-water mark
-- is stored in one canonical form, which is an instant here.
pub mod Pass
pub mod Diff
pub mod Retries
use brigadir.Prelude.{
  ℕ, ◌-◌, ◌/◌, String, Bool, true, false, ◌&&◌, Option, none, some, List, [], ◌∷◌, ◌++◌, ◌==◌,
  str_eq, length, every, any_where, find_where, update_where, or_else, if◌then◌else◌,
}
use brigadir.Domain.{
  World, Ticket, JiraIssue, BoardType, kanban, scrum, Workspace, TextMethods, Io, Result, ok,
  throws, pure, throw, modify, ◌>>=◌, ◌>>◌, Failure, invalid_timestamp, update_tickets, non_fatal,
  add_ticket, fresh_id,
}
use brigadir.Pipeline.Gate.{all_blocked_by_keys}
use brigadir.Pipeline.Candidates.{Board, priority_of}
use brigadir.Pipeline.StatusChange.{StatusChangeSource, by_scope_entry, by_poll, on_status_changed}

-- An issue with its `updated` field.
pub record Polled : Type 0 where
  pub issue : JiraIssue
  pub updated : String

pub data Clause : Type 0 where
  in_project : String → Clause
  in_sprints : List ℕ → Clause
  in_scope_jql : String → Clause
  updated_since : ℕ → Clause

pub record PollPort : Type 0 where
  pub active_sprint_ids : ℕ → World → Result (List ℕ)
  pub search_updated : List Clause → World → Result (List Polled)
  -- why the insert of a ticket fails: another process has just added its key
  pub insert_fails : ℕ → JiraIssue → World → Option Failure
  -- `a > b` on texts, and `Date.parse`
  pub later : String → String → Bool
  pub date_parse : String → Option ℕ

pub record WorkspaceContext : Type 0 where
  pub id : ℕ
  pub project_key : String
  pub board_id : Option ℕ
  pub board_type : BoardType

-- 26 hours.
abbrev pub hwm_overlap_ms : ℕ
hwm_overlap_ms = 93600000

unfoldable pub since_clause : Option ℕ → Option ℕ
since_clause none = none
since_clause (some mark) = some ((mark - hwm_overlap_ms) / 60000)

abbrev sprint_clause : BoardType → List ℕ → List Clause
sprint_clause scrum (s ∷ ss) = in_sprints (s ∷ ss) ∷ []
sprint_clause _ _ = []

abbrev scope_clause : Option String → List Clause
scope_clause none = []
scope_clause (some jql) = if str_eq jql "" then [] else in_scope_jql jql ∷ []

abbrev since_part : Option ℕ → List Clause
since_part none = []
since_part (some minute) = updated_since minute ∷ []

unfoldable pub build_scope_jql :
    BoardType → String → List ℕ → Option String → Option ℕ → List Clause
build_scope_jql board_type project sprints scope_jql since =
    in_project project ∷ sprint_clause board_type sprints
    ++ scope_clause scope_jql
    ++ since_part since

-- Order-independent equality of the sets of active sprints.
unfoldable pub same_sprint_set : List ℕ → Option (List ℕ) → Bool
same_sprint_set current none = false
same_sprint_set current (some previous) =
    length current == length previous && every (λ s. any_where (λ p. p == s) previous) current

abbrev pub workspace_row : ℕ → World → Option Workspace
workspace_row i w = find_where (λ x. x.id == i) w.workspaces

abbrev pub mark_of : Option Workspace → Option ℕ
mark_of none = none
mark_of (some x) = x.high_water_mark

abbrev pub sprints_of : Option Workspace → Option (List ℕ)
sprints_of none = none
sprints_of (some x) = x.active_sprint_ids

abbrev pub scope_of : Option Workspace → Option String
scope_of none = none
scope_of (some x) = x.scope_jql

abbrev pub stored : ℕ → Option ℕ → Option (List ℕ) → Io Unit
stored i mark sprints = modify (λ w. record w {
  workspaces =
      update_where (λ x. x.id == i)
        (λ x. record x {
          high_water_mark = or_else mark x.high_water_mark;
          active_sprint_ids = or_else sprints x.active_sprint_ids;
        })
        w.workspaces;
})

abbrev pub parsed : ℕ → Option (List ℕ) → Option ℕ → Io Unit
parsed i sprints none = throw invalid_timestamp
parsed i sprints (some mark) = stored i (some mark) sprints

module _ (text : TextMethods) (board : Board) (port : PollPort) where
  -- A key that is absent, or a mark that is empty, keeps what is stored.
  unfoldable pub set_reconcile_state : ℕ → Option String → Option (List ℕ) → Io Unit
  set_reconcile_state i none sprints = stored i none sprints
  set_reconcile_state i (some mark) sprints =
      if str_eq mark "" then stored i none sprints else parsed i sprints (port.date_parse mark)

  abbrev pub new_ticket : ℕ → JiraIssue → ℕ → Ticket
  new_ticket workspace issue id = record {
    id = id;
    workspace_id = workspace;
    jira_key = issue.key;
    last_seen_status = none;
    priority_id = priority_of board (some issue);
    blocked_by = none;
    blocked_state = none;
    verification = none;
  }

  abbrev pub insert_new_ticket : ℕ → JiraIssue → Option Failure → Io (ℕ × Option String)
  insert_new_ticket workspace issue (some e) w = throw e w
  insert_new_ticket workspace issue none w =
      (add_ticket (new_ticket workspace issue (fresh_id w)) >> pure (fresh_id w, none)) w

  abbrev pub upserted : ℕ → JiraIssue → Option Ticket → Io (ℕ × Option String)
  upserted workspace issue (some t) w = pure (t.id, t.last_seen_status) w
  upserted workspace issue none w =
      insert_new_ticket workspace issue (port.insert_fails workspace issue w) w

  -- The ticket's identifier and the status that was last seen.
  unfoldable pub upsert_ticket : ℕ → JiraIssue → Io (ℕ × Option String)
  upsert_ticket workspace issue w =
      upserted workspace issue
        (find_where (λ t. t.workspace_id == workspace && str_eq t.jira_key issue.key) w.tickets) w

  abbrev pub on_new_status : StatusChangeSource → JiraIssue → ℕ → Io Unit
  on_new_status source issue ticket =
      on_status_changed text (record {
        ticket_id = ticket;
        issue = issue;
        to_status = issue.status.name;
        source = source;
      })

  -- A ticket that is seen first, or in another status than before, may start agents.
  abbrev pub diffed : JiraIssue → ℕ → Option String → Io Unit
  diffed issue ticket none = on_new_status by_scope_entry issue ticket
  diffed issue ticket (some seen) =
      if str_eq seen issue.status.name then pure tt else on_new_status by_poll issue ticket

  abbrev pub cached_issue : JiraIssue → Ticket → Ticket
  cached_issue issue t = record t {
    last_seen_status = some issue.status.name;
    blocked_by = some (all_blocked_by_keys text issue);
    priority_id = priority_of board (some issue);
  }

  -- The cache is advanced after the trigger fired; an error is logged.
  abbrev pub after_upsert : JiraIssue → ℕ × Option String → Io Unit
  after_upsert issue (ticket, seen) =
      non_fatal
        (diffed issue ticket seen >> update_tickets (λ t. t.id == ticket) (cached_issue issue))

  abbrev pub newest : Option String → String → Option String
  newest none updated = some updated
  newest (some m) updated = if port.later updated m then some updated else some m

  -- The latest `updated` of the issues, which are processed in turn.
  unfoldable pub process_issues : ℕ → List Polled → Option String → Io (Option String)
  process_issues workspace [] latest = pure latest
  process_issues workspace (x ∷ xs) latest =
      upsert_ticket workspace x.issue
      >>= after_upsert x.issue
      >> process_issues workspace xs (newest latest x.updated)

  abbrev pub jira_answer : {A : Type 0} → Result A → Io A
  jira_answer (ok a) w = (ok a, w)
  jira_answer (throws e) w = (throws e, w)

  abbrev pub searched : List Clause → Io (List Polled)
  searched clauses w = jira_answer (port.search_updated clauses w) w

  abbrev pub advance : ℕ → Option String → Io Unit
  advance i none = pure tt
  advance i (some latest) =
      if str_eq latest "" then pure tt else set_reconcile_state i (some latest) none

  -- The search within the overlap of the high-water mark.
  abbrev pub poll_since : WorkspaceContext → List ℕ → Option Workspace → Io Unit
  poll_since ws sprints row =
      searched (
        build_scope_jql ws.board_type ws.project_key sprints (scope_of row)
          (since_clause (mark_of row)))
      >>= λ issues. process_issues ws.id issues none >>= advance ws.id

  abbrev pub after_rescan : WorkspaceContext → List ℕ → Option String → Io Unit
  after_rescan ws sprints latest = set_reconcile_state ws.id latest (some sprints)

  -- The set of sprints has changed: a search without a bound.
  abbrev pub rescan : WorkspaceContext → List ℕ → Option Workspace → Io Unit
  rescan ws sprints row =
      searched (build_scope_jql scrum ws.project_key sprints (scope_of row) none) >>= λ issues.
      process_issues ws.id issues none >>= after_rescan ws sprints

  abbrev pub forget_sprints : ℕ → Option (List ℕ) → Io Unit
  forget_sprints i (some (s ∷ ss)) = set_reconcile_state i none (some [])
  forget_sprints i _ = pure tt

  abbrev pub poll_sprints : WorkspaceContext → Option Workspace → List ℕ → Io Unit
  poll_sprints ws row [] = forget_sprints ws.id (sprints_of row)
  poll_sprints ws row (s ∷ ss) =
      if same_sprint_set (s ∷ ss) (sprints_of row)
      then poll_since ws (s ∷ ss) row
      else rescan ws (s ∷ ss) row

  abbrev pub sprints_on : Option ℕ → Io (List ℕ)
  sprints_on none w = pure [] w
  sprints_on (some b) w = jira_answer (port.active_sprint_ids b w) w

  abbrev pub poll_by : WorkspaceContext → BoardType → Option Workspace → Io Unit
  poll_by ws kanban row = poll_since ws [] row
  poll_by ws scrum row = sprints_on ws.board_id >>= poll_sprints ws row

  unfoldable pub poll_and_diff : WorkspaceContext → Io Unit
  poll_and_diff ws w = poll_by ws ws.board_type (workspace_row ws.id w) w
