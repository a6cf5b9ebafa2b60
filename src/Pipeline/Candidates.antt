-- ===== src/Pipeline/Candidates.antt =====
-- libs/pipeline/src/dependency-release.service.ts: the searches of a release pass, the tickets that it
-- looks at, and their order.
use brigadir.Prelude.{
  ℕ, String, Bool, true, false, ◌&&◌, not, Option, none, some, List, [], ◌∷◌, ◌++◌, ◌==◌, map, ltb,
  str_eq, same_id?, any_where, all_where, if◌then◌else◌,
}
use brigadir.Domain.{
  World, Run, RunStatus, queued, running, awaiting_human, succeeded, cancelled, Agent, Ticket,
  JiraIssue, Result,
}

-- The searches of a pass: the candidates in the workspace's scope, the blockers wherever they are, and
-- the blockers in scope.
pub data Query : Type 0 where
  candidates_in_scope blockers_anywhere blockers_in_scope : List String → Query

-- A blocker as the second search returns it.
pub record Found : Type 0 where
  pub issue : JiraIssue
  pub has_resolution : Bool

pub record Board : Type 0 where
  pub search : Query → World → Result (List Found)
  -- `/^\d+$/` and `Number`
  pub number_of : String → Option ℕ
  pub text_before : String → String → Bool

abbrev pub Candidate : Type 0
Candidate = Ticket × Agent

abbrev pub priority_of : Board → Option JiraIssue → Option ℕ
priority_of board none = none
priority_of board (some issue) = elim issue.priority [ none ↦ none | some p ↦ board.number_of p.id ]

-- Whether the first comes before the second in the release order: by priority, those without one last, then by key.
unfoldable pub released_before : Board → Option ℕ × String → Option ℕ × String → Bool
released_before board (some p, k) (some q, l) = if p == q then board.text_before k l else ltb p q
released_before board (none, k) (none, l) = board.text_before k l
released_before board (some p, k) (none, l) = true
released_before board (none, k) (some q, l) = false

abbrev pub suppresses : RunStatus → Bool
suppresses queued = true
suppresses running = true
suppresses awaiting_human = true
suppresses succeeded = true
suppresses cancelled = true
suppresses _ = false

abbrev pub same_status : Option String → Option String → Bool
same_status (some a) (some b) = str_eq a b
same_status _ _ = false

abbrev pub waits_on : Option String → Ticket → Bool
waits_on none ticket = true
waits_on (some key) ticket = elim ticket.blocked_by [
  | some keys ↦ any_where (str_eq key) keys
  | none ↦ false
]

abbrev pub eligible : ℕ → Option String → List Run → Ticket → Agent → Bool
eligible workspace key runs ticket agent =
    ticket.workspace_id == workspace
    && agent.workspace_id == ticket.workspace_id
    && same_status agent.trigger_status ticket.last_seen_status
    && agent.enabled
    && waits_on key ticket
    && not (
        any_where
          (λ r.
            same_id? r.ticket_id (some ticket.id) && r.agent_id == agent.id && suppresses r.status)
          runs)

abbrev pairs : ℕ → Option String → List Run → List Agent → List Ticket → List Candidate
pairs workspace key runs agents [] = []
pairs workspace key runs agents (t ∷ tickets) =
    map (λ a. (t, a)) (all_where (eligible workspace key runs t) agents)
    ++ pairs workspace key runs agents tickets

unfoldable pub candidates : ℕ → Option String → World → List Candidate
candidates workspace key w = pairs workspace key w.runs w.agents w.tickets
