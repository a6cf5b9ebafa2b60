-- ===== src/Pipeline/Release.antt =====
-- libs/pipeline/src/dependency-release.service.ts: the pass that starts the tickets whose blockers are
-- out of the way, and says of the others why they wait.
--
-- Jira's answers to the three searches of a pass are parameters, as is the order of texts. A search is
-- for the set of the keys in its list, and finds issues with distinct keys.
pub mod Keeps
use brigadir.Prelude.{
  ℕ, String, Bool, true, false, ◌&&◌, ◌||◌, not, Option, none, some, List, [], ◌∷◌, ◌++◌, ◌==◌, map,
  ltb, str_eq, same_id?, is_some, any_where, all_where, find_where, if◌then◌else◌,
}
use brigadir.Domain.{
  World, Run, RunStatus, queued, running, awaiting_human, succeeded, cancelled, Agent, Ticket,
  BlockedState, waiting, cycle, dead_end, out_of_scope, JiraIssue, JiraPriority, StatusCategoryKey,
  done, TextMethods, Io, Result, Failure, ok, throws, pure, throw, ◌>>=◌, ◌>>◌, update_tickets,
}
use brigadir.Runs.Trigger.{TriggerResult, trigger}
use brigadir.HumanTasks.Service.{create_ticket_blocked}
use brigadir.Pipeline.Gate.{
  GateVerdict, clear, blocked, evaluate_dependency_gate, blocking_keys, all_blocked_by_keys,
  early_release_blockers,
}
use brigadir.Pipeline.StatusChange.{status_input, by_poll, annotate}
use brigadir.Pipeline.Cycles.{find_cycle_tickets}
use brigadir.Pipeline.Candidates.{
  Query, candidates_in_scope, blockers_anywhere, blockers_in_scope, Found, Board, Candidate,
  priority_of, released_before, candidates,
}

pub record Waiting : Type 0 where
  pub key : String
  pub ticket_id : ℕ
  pub issue : JiraIssue
  pub blockers : List String

-- `Map.set` by the key.
abbrev pub set_waiting : Waiting → List Waiting → List Waiting
set_waiting x [] = x ∷ []
set_waiting x (y ∷ ys) = if str_eq y.key x.key then x ∷ ys else y ∷ set_waiting x ys

abbrev pub issue_of : String → List Found → Option JiraIssue
issue_of key found = elim (find_where (λ f. str_eq f.issue.key key) found) [
  | some f ↦ some f.issue
  | none ↦ none
]

abbrev pub observed : List String → Option BlockedState → Option ℕ → Ticket → Ticket
observed keys state priority t = record t {
  blocked_by = some keys;
  blocked_state = state;
  priority_id = priority;
}

abbrev pub answer : Result (List Found) → Io (List Found)
answer (ok found) w = (ok found, w)
answer (throws e) w = (throws e, w)

abbrev pub all_in : List String → List Found → Bool
all_in [] found = true
all_in (b ∷ blockers) found = is_some (issue_of b found) && all_in blockers found

abbrev is_done : StatusCategoryKey → Bool
is_done done = true
is_done _ = false

abbrev pub dead_ends : List Found → List Found
dead_ends found = all_where (λ f. f.has_resolution && not (is_done f.issue.status.category)) found

-- A cycle before a blocker out of scope, and that before a dead end.
unfoldable pub state_of : List String → List Found → List Found → Waiting → BlockedState
state_of cycles dead in_scope x =
    if any_where (str_eq x.key) cycles
    then cycle
    else if not (all_in x.blockers in_scope)
    then out_of_scope
    else if any_where (λ b. is_some (issue_of b dead)) x.blockers
    then dead_end
    else waiting

-- The blockers that the search within the scope does not find.
abbrev pub outside_of : List Found → Waiting → List String
outside_of in_scope x = all_where (λ b. not (is_some (issue_of b in_scope))) x.blockers

-- The words are the title and the details of a task, by the ticket and its blockers out of scope.
module _ (text : TextMethods) (board : Board)
    (words : Waiting → List String → String × String) where
  -- `sort`, which is stable.
  abbrev place : (Candidate → Option ℕ × String) → Candidate → List Candidate → List Candidate
  place rank c [] = c ∷ []
  place rank c (d ∷ ds) =
      let rest = place rank c ds in
      if released_before board (rank d) (rank c) then d ∷ rest else c ∷ d ∷ ds

  unfoldable pub in_order : List Found → List Candidate → List Candidate
  in_order found [] = []
  in_order found (c ∷ cs) =
      place (λ d. (priority_of board (issue_of d.0.jira_key found), d.0.jira_key)) c
        (in_order found cs)

  abbrev pub start_released : Option String → JiraIssue → Candidate → Io Unit
  start_released release issue c = trigger (status_input c.0.id by_poll c.1) >>= λ result.
      (update_tickets (λ t. t.id == c.0.id)
          (observed (all_blocked_by_keys text issue) none (priority_of board (some issue)))
        >> annotate release (early_release_blockers text issue release) result)

  abbrev still_waits : Option String → JiraIssue → Candidate → Waiting
  still_waits release issue c = record {
    key = c.0.jira_key;
    ticket_id = c.0.id;
    issue = issue;
    blockers = blocking_keys text issue release;
  }

  abbrev pub release_by_verdict :
      Option String → JiraIssue → Candidate → List Waiting → GateVerdict → Io (List Waiting)
  release_by_verdict release issue c waits blocked =
      pure (set_waiting (still_waits release issue c) waits)
  release_by_verdict release issue c waits clear = start_released release issue c >> pure waits

  abbrev pub release_one :
      Option String → Candidate → List Waiting → Option JiraIssue → Io (List Waiting)
  release_one release c waits none = pure waits
  release_one release c waits (some issue) =
      release_by_verdict release issue c waits (evaluate_dependency_gate text issue release)

  -- The loop over the candidates, with the tickets that wait so far.
  unfoldable pub release_all :
      Option String → List Found → List Candidate → List Waiting → Io (List Waiting)
  release_all release found [] waits = pure waits
  release_all release found (c ∷ cs) waits =
      release_one release c waits (issue_of c.0.jira_key found) >>= release_all release found cs

  abbrev raise_task : ℕ → Waiting → List String → BlockedState → Io Unit
  raise_task workspace x outside out_of_scope =
      create_ticket_blocked workspace x.ticket_id (words x outside).0 (some (words x outside).1)
      >>= λ _. pure tt
  raise_task workspace x outside _ = pure tt

  abbrev pub note_state : ℕ → Waiting → List String → BlockedState → Io Unit
  note_state workspace x outside state =
      update_tickets (λ t. t.id == x.ticket_id)
        (observed (all_blocked_by_keys text x.issue) (some state)
          (priority_of board (some x.issue)))
      >> raise_task workspace x outside state

  unfoldable pub note_all : ℕ → List String → List Found → List Found → List Waiting → Io Unit
  note_all workspace cycles dead in_scope [] = pure tt
  note_all workspace cycles dead in_scope (x ∷ xs) =
      note_state workspace x (outside_of in_scope x) (state_of cycles dead in_scope x)
      >> note_all workspace cycles dead in_scope xs

  -- The blockers that are looked up: those of the tickets outside any cycle.
  abbrev pub probe_keys : List String → List Waiting → List String
  probe_keys cycles [] = []
  probe_keys cycles (x ∷ xs) =
      (if any_where (str_eq x.key) cycles then [] else x.blockers) ++ probe_keys cycles xs

  abbrev pub probed : ℕ → List String → List Waiting → List String → Io Unit
  probed workspace cycles waits [] w = note_all workspace cycles [] [] waits w
  probed workspace cycles waits (k ∷ ks) w =
      (answer (board.search (blockers_anywhere (k ∷ ks)) w) >>= λ fetched.
      (answer (board.search (blockers_in_scope (k ∷ ks)) w) >>= λ in_scope.
      note_all workspace cycles (dead_ends fetched) in_scope waits))
        w

  unfoldable pub classify_waiting : ℕ → List Waiting → Io Unit
  classify_waiting workspace waits =
      let cycles = find_cycle_tickets (map (λ x. (x.key, x.blockers)) waits) in
      probed workspace cycles waits (probe_keys cycles waits)

  unfoldable pub process : ℕ → List Candidate → Io Unit
  process workspace [] w = pure tt w
  process workspace (c ∷ cs) w =
      (answer (board.search (candidates_in_scope (map (λ d. d.0.jira_key) (c ∷ cs))) w) >>= λ found.
      (release_all (w.release_status workspace) found (in_order found (c ∷ cs)) []
        >>= classify_waiting workspace))
        w

  -- The whole pass, and the pass over the dependents of one ticket.
  unfoldable pub release_for : ℕ → Io Unit
  release_for workspace w = process workspace (candidates workspace none w) w

  unfoldable pub release_dependents_of : ℕ → String → Io Unit
  release_dependents_of workspace key w = process workspace (candidates workspace (some key) w) w
