-- ===== src/Pipeline/Release/Keeps.antt =====
-- What a release pass leaves alone, and what the end of a run with its release does.
use brigadir.Prelude.{
  ℕ, String, true, Option, none, some, List, [], ◌∷◌, ◌==◌, ◌≡◌, refl, arith, map, count_where, ◌≤◌,
}
use brigadir.Domain.{
  World, Run, JiraIssue, TextMethods, Io, Result, ok, throws, pure, ◌>>=◌, ◌>>◌, bind-keeps, run_of,
  indexes_ok, update_tickets, BlockedState, waiting, cycle, dead_end, out_of_scope, JiraClient,
}
use brigadir.Runs.Trigger.{TriggerResult, trigger}
use brigadir.Runs.Trigger.Idempotence.{trigger-indexes_ok, active_on, one_active}
use brigadir.HumanTasks.Service.{create_ticket_blocked}
use brigadir.Pipeline.Decision.{Facts}
use brigadir.Pipeline.Completion.{on_run_finished}
use brigadir.Pipeline.Completion.Keeps.{Held, trigger-Held, on_run_finished-keeps_runs}
use brigadir.Pipeline.Triggering.{OnlyTriggers}
use brigadir.Pipeline.Gate.{
  GateVerdict, clear, blocked, evaluate_dependency_gate, all_blocked_by_keys,
  early_release_blockers,
}
use brigadir.Pipeline.StatusChange.{status_input, by_poll, annotate, record_early_release}
use brigadir.Pipeline.Cycles.{find_cycle_tickets}
use brigadir.Pipeline.Candidates.{
  Board, Found, Candidate, candidates, candidates_in_scope, blockers_anywhere, blockers_in_scope,
  priority_of,
}
use brigadir.Pipeline.Release.{
  Waiting, answer, start_released, release_by_verdict, release_one, release_all, note_state,
  outside_of, note_all, probed, probe_keys, classify_waiting, process, release_dependents_of,
  release_for, dead_ends, state_of, issue_of, in_order, observed,
}

-- A property of the table of runs that each trigger keeps.
module _ (text : TextMethods) (board : Board) (words : Waiting → List String → String × String)
    (P : List Run → Type 0)
    (triggered : (c : Candidate) (v : World)
      → P v.runs
      → P (trigger (status_input c.0.id by_poll c.1) v).1.runs) where
  annotate-runs :
      (release : Option String) (early : List (String × String)) (r : TriggerResult) (v : World)
      → (annotate release early r v).1.runs ≡ v.runs
  unfolding record_early_release
  annotate-runs release early r v = ground arith

  start_released-keeps :
      (release : Option String) (issue : JiraIssue) (c : Candidate) (v : World)
      → P v.runs
      → P (start_released text board words release issue c v).1.runs
  start_released-keeps release issue c v h =
      bind-keeps (λ u. P u.runs) (trigger (status_input c.0.id by_poll c.1))
        (λ result.
          update_tickets (λ t. t.id == c.0.id)
            (observed (all_blocked_by_keys text issue) none (priority_of board (some issue)))
          >> annotate release (early_release_blockers text issue release) result)
        v (triggered c v h)
        (λ result u k.
          rw
            (annotate-runs release (early_release_blockers text issue release) result
              (update_tickets (λ t. t.id == c.0.id)
                (observed (all_blocked_by_keys text issue) none (priority_of board (some issue)))
                u).1)
            k)

  release_by_verdict-keeps :
      (release : Option String) (issue : JiraIssue) (c : Candidate) (waits : List Waiting)
      (g : GateVerdict) (v : World)
      → P v.runs
      → P (release_by_verdict text board words release issue c waits g v).1.runs
  release_by_verdict-keeps release issue c waits blocked v h = h
  release_by_verdict-keeps release issue c waits clear v h =
      bind-keeps (λ u. P u.runs) (start_released text board words release issue c) (λ _. pure waits)
        v (start_released-keeps release issue c v h) (λ _ u k. k)

  release_one-keeps :
      (release : Option String) (c : Candidate) (waits : List Waiting) (o : Option JiraIssue)
      (v : World)
      → P v.runs
      → P (release_one text board words release c waits o v).1.runs
  release_one-keeps release c waits none v h = h
  release_one-keeps release c waits (some issue) v h =
      release_by_verdict-keeps release issue c waits (evaluate_dependency_gate text issue release) v
        h

  release_all-keeps :
      (release : Option String) (found : List Found) (cs : List Candidate) (waits : List Waiting)
      (v : World)
      → P v.runs
      → P (release_all text board words release found cs waits v).1.runs
  unfolding release_all
  release_all-keeps release found [] waits v h = h
  release_all-keeps release found (c ∷ cs) waits v h =
      bind-keeps (λ u. P u.runs)
        (release_one text board words release c waits (issue_of c.0.jira_key found))
        (release_all text board words release found cs) v
        (release_one-keeps release c waits (issue_of c.0.jira_key found) v h)
        (λ ws u k. release_all-keeps release found cs ws u k)

  note_state-runs :
      (workspace : ℕ) (x : Waiting) (outside : List String) (s : BlockedState) (v : World)
      → (note_state text board words workspace x outside s v).1.runs ≡ v.runs
  unfolding create_ticket_blocked
  note_state-runs workspace x outside out_of_scope v = ground arith
  note_state-runs workspace x outside waiting v = refl
  note_state-runs workspace x outside cycle v = refl
  note_state-runs workspace x outside dead_end v = refl

  note_all-keeps :
      (workspace : ℕ) (cycles : List String) (dead in_scope : List Found) (xs : List Waiting)
      (v : World)
      → P v.runs
      → P (note_all text board words workspace cycles dead in_scope xs v).1.runs
  unfolding note_all
  note_all-keeps workspace cycles dead in_scope [] v h = h
  note_all-keeps workspace cycles dead in_scope (x ∷ xs) v h =
      bind-keeps (λ u. P u.runs)
        (note_state text board words workspace x (outside_of in_scope x)
          (state_of cycles dead in_scope x))
        (λ _. note_all text board words workspace cycles dead in_scope xs) v
        (rw
          (note_state-runs workspace x (outside_of in_scope x) (state_of cycles dead in_scope x) v)
          h)
        (λ _ u k. note_all-keeps workspace cycles dead in_scope xs u k)

  answer-keeps : (r : Result (List Found)) (v : World) → P v.runs → P (answer r v).1.runs
  answer-keeps (ok found) v h = h
  answer-keeps (throws e) v h = h

  probed-keeps :
      (workspace : ℕ) (cycles : List String) (waits : List Waiting) (keys : List String) (v : World)
      → P v.runs
      → P (probed text board words workspace cycles waits keys v).1.runs
  probed-keeps workspace cycles waits [] v h = note_all-keeps workspace cycles [] [] waits v h
  probed-keeps workspace cycles waits (k ∷ ks) v h =
      let anywhere = answer (board.search (blockers_anywhere (k ∷ ks)) v) in
      let here = answer (board.search (blockers_in_scope (k ∷ ks)) v) in
      bind-keeps (λ u. P u.runs) anywhere
        (λ fetched. here >>= λ in_scope.
          note_all text board words workspace cycles (dead_ends fetched) in_scope waits)
        v (answer-keeps (board.search (blockers_anywhere (k ∷ ks)) v) v h)
        (λ fetched u p.
          bind-keeps (λ u. P u.runs) here
            (λ in_scope.
              note_all text board words workspace cycles (dead_ends fetched) in_scope waits)
            u (answer-keeps (board.search (blockers_in_scope (k ∷ ks)) v) u p)
            (λ in_scope t q.
              note_all-keeps workspace cycles (dead_ends fetched) in_scope waits t q))

  process-keeps :
      (workspace : ℕ) (cs : List Candidate) (v : World)
      → P v.runs
      → P (process text board words workspace cs v).1.runs
  unfolding process classify_waiting
  process-keeps workspace [] v h = h
  process-keeps workspace (c ∷ cs) v h =
      let search =
        answer (board.search (candidates_in_scope (map (λ d. d.0.jira_key) (c ∷ cs))) v) in
      let loop : List Found → Io (List Waiting) = λ found.
        release_all text board words (v.release_status workspace) found
          (in_order text board words found (c ∷ cs)) [] in
      bind-keeps (λ u. P u.runs) search
        (λ found. loop found >>= classify_waiting text board words workspace) v
        (answer-keeps (board.search (candidates_in_scope (map (λ d. d.0.jira_key) (c ∷ cs))) v) v h)
        (λ found u p.
          bind-keeps (λ u. P u.runs) (loop found) (classify_waiting text board words workspace) u
            (release_all-keeps (v.release_status workspace) found
              (in_order text board words found (c ∷ cs)) [] u p)
            (λ waits t q.
              let cycles = find_cycle_tickets (map (λ x. (x.key, x.blockers)) waits) in
              probed-keeps workspace cycles waits (probe_keys text board words cycles waits) t q))

  pub release_dependents_of-keeps :
      (workspace : ℕ) (key : String) (v : World)
      → P v.runs
      → P (release_dependents_of text board words workspace key v).1.runs
  unfolding release_dependents_of
  release_dependents_of-keeps workspace key v h =
      process-keeps workspace (candidates workspace (some key) v) v h

  pub release_for-keeps :
      (workspace : ℕ) (v : World) → P v.runs → P (release_for text board words workspace v).1.runs
  unfolding release_for
  release_for-keeps workspace v h = process-keeps workspace (candidates workspace none v) v h

-- The release of dependent tickets does to the table of runs only what triggers do.
pub release_dependents_of-OnlyTriggers :
    (text : TextMethods) (board : Board) (words : Waiting → List String → String × String)
    (workspace : ℕ) (key : String)
    → OnlyTriggers (release_dependents_of text board words workspace key)
release_dependents_of-OnlyTriggers text board words workspace key P triggered v h =
    release_dependents_of-keeps text board words P
      (λ c. triggered (status_input c.0.id by_poll c.1)) workspace key v h

pub release_for-OnlyTriggers :
    (text : TextMethods) (board : Board) (words : Waiting → List String → String × String)
    (workspace : ℕ)
    → OnlyTriggers (release_for text board words workspace)
release_for-OnlyTriggers text board words workspace P triggered v h =
    release_for-keeps text board words P (λ c. triggered (status_input c.0.id by_poll c.1))
      workspace v h

pub release_dependents_of-Held :
    (text : TextMethods) (board : Board) (words : Waiting → List String → String × String) (j : ℕ)
    (r : Run) (workspace : ℕ) (key : String) (v : World)
    → Held j r v
    → Held j r (release_dependents_of text board words workspace key v).1
release_dependents_of-Held text board words j r workspace key v h =
    release_dependents_of-keeps text board words (λ rows. run_of j rows ≡ some r)
      (λ c. trigger-Held j r (status_input c.0.id by_poll c.1)) workspace key v h

-- With the release of dependent tickets as it is, the end of a run changes and removes no run of the
-- table: the transitions, comments, triage, decisions and releases only add runs.
pub finished-keeps_runs :
    (jira : JiraClient) (facts : Facts → String) (text : TextMethods) (board : Board)
    (words : Waiting → List String → String × String) (i j : ℕ) (r : Run) (w : World)
    → Held j r w
    → Held j r (on_run_finished jira facts (release_dependents_of text board words) i w).1
finished-keeps_runs jira facts text board words i j r w h =
    on_run_finished-keeps_runs jira facts (release_dependents_of text board words) j r
      (release_dependents_of-Held text board words j r) i w h

-- A release pass over a workspace leaves at most one active run on every ticket, in a store that obeys
-- the indexes on runs, however often a ticket is a candidate.
release_for-one_active :
    (text : TextMethods) (board : Board) (words : Waiting → List String → String × String)
    (workspace t : ℕ) (w : World)
    → indexes_ok w.runs ≡ true
    → count_where (active_on t) (release_for text board words workspace w).1.runs ≤ 1
release_for-one_active text board words workspace t w h =
    one_active t (release_for text board words workspace w).1.runs (
      release_for-keeps text board words (λ rows. indexes_ok rows ≡ true)
        (λ c v. trigger-indexes_ok (status_input c.0.id by_poll c.1) v) workspace w h)
