-- ===== src/Pipeline/Completion/Keeps.antt =====
-- What the end of a run leaves alone: what each trigger keeps of the table of runs, above all the
-- rows that are there.
use brigadir.Prelude.{
  ℕ, String, Bool, true, false, Option, none, some, List, [], ◌∷◌, ◌++◌, ◌≡◌, arith, inl, inr,
  if-elim, find_where,
}
use brigadir.Domain.{
  ◌>>◌, World, Io, Run, Agent, Ticket, JiraClient, Result, run_of, has_id, bind-keeps, pure,
  add_event, Payload, transition_to, add_comment, comment, blocker,
}
use brigadir.HumanTasks.Service.{ticket_row}
use brigadir.Runs.Trigger.{TriggerInput, trigger, agent_row}
use brigadir.Runs.Trigger.Idempotence.{trigger-cases}
use brigadir.HumanTasks.Service.{ticket_row, create_non_blocking}
use brigadir.Pipeline.Decision.{
  Facts, failed_or_timed_out, setup_failed, budget_exhausted, get_rework_budget,
}
use brigadir.Pipeline.Decision.Runs.{create_non_blocking-runs}
use brigadir.Pipeline.Decision.Keeps.{
  transition_to-keeps, asked-keeps, on_orchestrator_finished-keeps,
}
use brigadir.Pipeline.Completion.{
  on_run_finished, on_worker_finished, worker_steps, worker_target, worker_report, worker_succeeded,
  worker_caught, triage_if_failed, triage_name, decide_triage, release_dependents_safely, triage_by,
  triage_input, triage_of, TriageDecision, cycle_limit, find_enabled_orchestrator,
  on_setup_finished, finish_run, finish_agent, finish_by, finish_on_ticket, has_jira_action_marker,
  is_finished,
}

pub find_where-append_some {ℓ} :
    {A : Type ℓ} (p : A → Bool) (xs ys : List A) {x : A}
    → find_where p xs ≡ some x
    → find_where p (xs ++ ys) ≡ some x
find_where-append_some p [] ys h = absurd (ground (arith, h))
find_where-append_some p (y ∷ xs) ys {x} h = ground (arith, find_where-append_some p xs ys {x = x})

-- A run is in the table as it was.
abbrev pub Held : ℕ → Run → World → Type 0
Held j r w = run_of j w.runs ≡ some r

-- A property of the table of runs that each trigger and the release of dependents keep.
module _ (jira : JiraClient) (text : Facts → String) (release : ℕ → String → Io Unit)
    (P : List Run → Type 0)
    (triggered : (input : TriggerInput) (v : World) → P v.runs → P (trigger input v).1.runs)
    (released : (workspace : ℕ) (key : String) (v : World)
      → P v.runs
      → P (release workspace key v).1.runs) where
  triage_by-keeps :
      (i ticket : ℕ) (o : Option Agent) (v : World)
      → P v.runs
      → P (triage_by jira text release i ticket o v).1.runs
  triage_by-keeps i ticket none v h = h
  triage_by-keeps i ticket (some orchestrator) v h =
      bind-keeps (λ u. P u.runs) (trigger (triage_input i ticket orchestrator))
        (λ r. pure (triage_of r)) v (triggered (triage_input i ticket orchestrator) v h)
        (λ _ u k. k)

  decide_triage-keeps :
      (i ticket workspace : ℕ) (v : World)
      → P v.runs
      → P (decide_triage jira text release i ticket workspace v).1.runs
  unfolding decide_triage
  decide_triage-keeps i ticket workspace v h =
      let budget = get_rework_budget ticket workspace v in
      let title : String = "Rework budget exhausted — manual attention needed" in
      let facts = budget_exhausted budget in
      if-elim {A = Io TriageDecision} (λ m. P (m v).1.runs) budget.available
        (λ _. triage_by-keeps i ticket (find_enabled_orchestrator workspace v) v h)
        (λ _.
          bind-keeps (λ u. P u.runs) (create_non_blocking jira i blocker title (some (text facts)))
            (λ _. pure cycle_limit) v (asked-keeps jira text P triggered i title facts v h)
            (λ _ u k. k))

  triage_if_failed-keeps :
      (i : ℕ) (run : Run) (ticket : ℕ) (v : World)
      → P v.runs
      → P (triage_if_failed jira text release i run ticket v).1.runs
  triage_if_failed-keeps i run ticket v h =
      if-elim {A = Io (Option String)} (λ m. P (m v).1.runs) (failed_or_timed_out run.status)
        (λ _.
          bind-keeps (λ u. P u.runs) (decide_triage jira text release i ticket run.workspace_id)
            (λ d. pure (some (triage_name d))) v (decide_triage-keeps i ticket run.workspace_id v h)
            (λ a u k. k))
        (λ _. h)

  release_dependents_safely-keeps :
      (run : Run) (key : String) (b : Bool) (v : World)
      → P v.runs
      → P (release_dependents_safely jira text release run key b v).1.runs
  release_dependents_safely-keeps run key true v h = released run.workspace_id key v h
  release_dependents_safely-keeps run key false v h = h

  worker_steps-keeps :
      (i : ℕ) (run : Run) (ticket : ℕ) (agent : Agent) (key : String) (v : World)
      → P v.runs
      → P (worker_steps jira text release i run ticket agent key v).1.runs
  worker_steps-keeps i run ticket agent key v h =
      let target : String = worker_target jira text release run agent in
      let report = comment key (worker_report jira text release run) in
      bind-keeps (λ u. P u.runs)
        (transition_to jira key target
          >> add_comment jira key report
          >> triage_if_failed jira text release i run ticket)
        (λ d.
          add_event i (Payload.worker_done target d)
          >> release_dependents_safely jira text release run key
              (worker_succeeded jira text release run))
        v
        (bind-keeps (λ u. P u.runs) (transition_to jira key target >> add_comment jira key report)
          (λ _. triage_if_failed jira text release i run ticket) v
          (bind-keeps (λ u. P u.runs) (transition_to jira key target)
            (λ _. add_comment jira key report) v
            (transition_to-keeps jira text P triggered key target v h) (λ _ u k. ground (arith, k)))
          (λ _ u k. triage_if_failed-keeps i run ticket u k))
        (λ d u k.
          release_dependents_safely-keeps run key (worker_succeeded jira text release run) _ k)

  worker_caught-keeps :
      (i : ℕ) (x : Result {0} Unit) (v : World)
      → P v.runs
      → P (worker_caught jira text release i x v).1.runs
  worker_caught-keeps i x v h = ground (arith, h)

  on_setup_finished-keeps :
      (i : ℕ) (run : Run) (agent : Agent) (v : World)
      → P v.runs
      → P (on_setup_finished jira text release i run agent v).1.runs
  unfolding on_setup_finished
  on_setup_finished-keeps i run agent v h =
      let details = some (text (setup_failed agent.name run.status run.error)) in
      let asked =
        create_non_blocking-runs jira i blocker "Workspace setup failed — team not generated"
          details v in
      ground (arith, h, asked.0)

  finish_on_ticket-keeps :
      (i : ℕ) (run : Run) (agent : Agent) (t : ℕ) (o : Option Ticket) (v : World)
      → P v.runs
      → P (finish_on_ticket jira text release i run agent t o v).1.runs
  unfolding on_worker_finished
  finish_on_ticket-keeps i run agent t none v h = h
  finish_on_ticket-keeps i run agent t (some ticket) v h =
      if-elim {A = Io Unit} (λ m. P (m v).1.runs) agent.is_orchestrator
        (λ _.
          on_orchestrator_finished-keeps jira text P triggered i run t agent ticket.jira_key v h)
        (λ _. worker_caught-keeps i _ _ (worker_steps-keeps i run t agent ticket.jira_key v h))

  finish_by-keeps :
      (i : ℕ) (run : Run) (agent : Agent) (t : Option ℕ) (v : World)
      → P v.runs
      → P (finish_by jira text release i run agent t v).1.runs
  finish_by-keeps i run agent none v h =
      if-elim {A = Io Unit} (λ m. P (m v).1.runs) agent.is_orchestrator
        (λ _. on_setup_finished-keeps i run agent v h) (λ _. h)
  finish_by-keeps i run agent (some t) v h =
      finish_on_ticket-keeps i run agent t (ticket_row t v) v h

  finish_agent-keeps :
      (i : ℕ) (run : Run) (a : Option Agent) (v : World)
      → P v.runs
      → P (finish_agent jira text release i run a v).1.runs
  finish_agent-keeps i run none v h = h
  finish_agent-keeps i run (some agent) v h = finish_by-keeps i run agent run.ticket_id v h

  finish_run-keeps :
      (i : ℕ) (o : Option Run) (v : World)
      → P v.runs
      → P (finish_run jira text release i o v).1.runs
  finish_run-keeps i none v h = h
  finish_run-keeps i (some run) v h =
      if-elim {A = Io Unit} (λ m. P (m v).1.runs) (is_finished jira text release run.status)
        (λ _. finish_agent-keeps i run (agent_row run.agent_id v) v h) (λ _. h)

  pub on_run_finished-keeps :
      (i : ℕ) (w : World) → P w.runs → P (on_run_finished jira text release i w).1.runs
  unfolding on_run_finished
  on_run_finished-keeps i w h =
      if-elim {A = Result Unit × World} (λ x. P x.1.runs) (has_jira_action_marker i w) (λ _. h)
        (λ _. finish_run-keeps i (run_of i w.runs) w h)

-- Each trigger keeps the rows that are there.
pub trigger-Held :
    (j : ℕ) (r : Run) (input : TriggerInput) (v : World) → Held j r v → Held j r (trigger input v).1
trigger-Held j r input v h = elim (trigger-cases input v) [
  | inl same ↦ rw same.0 h
  | inr (agent, executor, free, e) ↦ rw e (find_where-append_some (has_id j) v.runs _ h)
]

-- What the program does when a run ends changes and removes no run of the table: it may only add
-- one. This holds if the release of dependent tickets does so too.
pub on_run_finished-keeps_runs :
    (jira : JiraClient) (text : Facts → String) (release : ℕ → String → Io Unit) (j : ℕ) (r : Run)
    (released : (workspace : ℕ) (key : String) (v : World)
      → Held j r v
      → Held j r (release workspace key v).1)
    (i : ℕ) (w : World)
    → Held j r w
    → Held j r (on_run_finished jira text release i w).1
on_run_finished-keeps_runs jira text release j r released =
    on_run_finished-keeps jira text release (λ rows. run_of j rows ≡ some r) (trigger-Held j r)
      released
