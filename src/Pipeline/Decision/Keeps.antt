-- ===== src/Pipeline/Decision/Keeps.antt =====
-- What an orchestrator's decision keeps of the table of runs.
use brigadir.Prelude.{ℕ, String, Option, none, some, List, arith, if-elim, ◌||◌}
use brigadir.Domain.{
  World, Io, Run, Agent, AgentReport, ReportRouting, JiraClient, Result, ok, throws, bind-keeps,
  pure, transition_to, add_comment, comment, blocker,
}
use brigadir.Runs.Trigger.{TriggerInput, TriggerResult, minted, deduplicated, trigger}
use brigadir.HumanTasks.Service.{create_non_blocking}
use brigadir.Pipeline.Decision.{
  Facts, process_orchestrator_decision, finish_decision, on_orchestrator_finished, Decision,
  failed_or_timed_out, Attempt, decided, diagnosed, staged, stage_done, fall_back, after_trigger,
  to_running, execute, on_conflict, allows, on_target, on_existing, on_routing, ReworkBudget,
  get_rework_budget, find_active_run_on_ticket, resolve_routing_target, find_existing_rework_run,
  override_active_run, override_invalid_target, override_budget, orchestrator_invalid,
  orchestrator_failed, rework_input, invalid_target, active_run, budget_used, human_granted,
  no_decision, run_ended, is_awaiting, wants_human, routing_of,
}
use brigadir.Pipeline.Decision.Runs.{create_non_blocking-runs}

-- A property of the table of runs that each trigger keeps.
module _ (jira : JiraClient) (text : Facts → String) (P : List Run → Type 0)
    (triggered : (input : TriggerInput) (v : World) → P v.runs → P (trigger input v).1.runs) where
  pub transition_to-keeps :
      (key status : String) (v : World) → P v.runs → P (transition_to jira key status v).1.runs
  transition_to-keeps key status v h = ground (arith, h)

  pub asked-keeps :
      (i : ℕ) (title : String) (facts : Facts) (v : World)
      → P v.runs
      → P (create_non_blocking jira i blocker title (some (text facts)) v).1.runs
  asked-keeps i title facts v h =
      rw (create_non_blocking-runs jira i blocker title (some (text facts)) v).0 h

  staged-keeps :
      {A : Type 0} (i : ℕ) (stage : String) (m : Io A) (next : A → Io Attempt) (v : World)
      → P (m v).1.runs
      → ((a : A) (u : World) → P u.runs → P (next a u).1.runs)
      → P (staged i stage m next v).1.runs
  unfolding staged
  staged-keeps {A} i stage m next v p n = go (m v).0 (m v).1 p
    where
      go : (x : Result A) (u : World) → P u.runs → P (stage_done i stage next x u).1.runs
      go (ok a) u p = n a u p
      go (throws e) u p = p

  fall_back-keeps :
      (i : ℕ) (title : String) (facts : Facts) (d : Decision) (v : World)
      → P v.runs
      → P (fall_back jira text i title facts d v).1.runs
  unfolding fall_back
  fall_back-keeps i title facts d v h =
      bind-keeps (λ u. P u.runs) (create_non_blocking jira i blocker title (some (text facts)))
        (λ _. pure (decided d)) v (asked-keeps i title facts v h) (λ _ u k. k)

  after_trigger-keeps :
      (i : ℕ) (target : Agent) (routing : ReportRouting) (r : TriggerResult) (v : World)
      → P v.runs
      → P (after_trigger jira text i target routing r v).1.runs
  after_trigger-keeps i target routing (minted id) v h = h
  after_trigger-keeps i target routing (deduplicated existing) v h =
      fall_back-keeps i _ _ override_active_run v h

  to_running-keeps :
      (key : String) (o : Option String) (v : World)
      → P v.runs
      → P (to_running jira text key o v).1.runs
  to_running-keeps key none v h = h
  to_running-keeps key (some status) v h = transition_to-keeps key status v h

  execute-keeps :
      (i : ℕ) (run : Run) (t : ℕ) (key : String) (report : AgentReport) (routing : ReportRouting)
      (target : Agent) (v : World)
      → P v.runs
      → P (execute jira text i run t key report routing target v).1.runs
  unfolding execute
  execute-keeps i run t key report routing target v h =
      staged-keeps i "jira_transition" (to_running jira text key target.status_running) _ v
        (to_running-keeps key target.status_running v h)
        (λ _ u k.
          staged-keeps i "jira_comment" (add_comment jira key (comment key report)) _ u
            (ground (arith, k))
            (λ _ s l.
              staged-keeps i "enqueue_rework" (trigger (rework_input i run t target routing))
                (after_trigger jira text i target routing) s
                (triggered (rework_input i run t target routing) s l)
                (λ r x q. after_trigger-keeps i target routing r x q)))

  on_conflict-keeps :
      (i : ℕ) (run : Run) (t : ℕ) (key : String) (report : AgentReport) (routing : ReportRouting)
      (target : Agent) (o : Option Run) (v : World)
      → P v.runs
      → P (on_conflict jira text i run t key report routing target o v).1.runs
  on_conflict-keeps i run t key report routing target (some c) v h =
      fall_back-keeps i _ (active_run routing c) override_active_run v h
  on_conflict-keeps i run t key report routing target none v h =
      execute-keeps i run t key report routing target v h

  on_target-keeps :
      (i : ℕ) (run : Run) (t : ℕ) (key : String) (report : AgentReport) (routing : ReportRouting)
      (o : Option Agent) (budget : ReworkBudget) (v : World)
      → P v.runs
      → P (on_target jira text i run t key report routing o budget v).1.runs
  on_target-keeps i run t key report routing none budget v h =
      fall_back-keeps i _ (invalid_target routing) override_invalid_target v h
  on_target-keeps i run t key report routing (some target) budget v h =
      if-elim {A = Io Attempt} (λ m. P (m v).1.runs) (allows jira text run budget)
        (λ _.
          on_conflict-keeps i run t key report routing target (find_active_run_on_ticket t i v) v h)
        (λ _.
          fall_back-keeps i _ (budget_used routing (human_granted run) budget) override_budget v h)

  on_existing-keeps :
      (i : ℕ) (run : Run) (t : ℕ) (key : String) (report : AgentReport) (routing : ReportRouting)
      (o : Option Run) (v : World)
      → P v.runs
      → P (on_existing jira text i run t key report routing o v).1.runs
  on_existing-keeps i run t key report routing (some existing) v h = h
  on_existing-keeps i run t key report routing none v h =
      on_target-keeps i run t key report routing
        (resolve_routing_target run.workspace_id routing.target_agent v)
        (get_rework_budget t run.workspace_id v) v h

  on_routing-keeps :
      (i : ℕ) (run : Run) (t : ℕ) (agent : Agent) (key : String)
      (o : Option (AgentReport × ReportRouting)) (v : World)
      → P v.runs
      → P (on_routing jira text i run t agent key o v).1.runs
  on_routing-keeps i run t agent key none v h =
      fall_back-keeps i _ (no_decision agent.name) orchestrator_invalid v h
  on_routing-keeps i run t agent key (some (report, routing)) v h =
      on_existing-keeps i run t key report routing (find_existing_rework_run t i v) v h

  decision-keeps :
      (i : ℕ) (run : Run) (t : ℕ) (agent : Agent) (key : String) (v : World)
      → P v.runs
      → P (process_orchestrator_decision jira text i run t agent key v).1.runs
  unfolding process_orchestrator_decision
  decision-keeps i run t agent key v h =
      if-elim {A = Io Attempt} (λ m. P (m v).1.runs) (failed_or_timed_out run.status)
        (λ _. fall_back-keeps i _ (run_ended agent.name run.status) orchestrator_failed v h)
        (λ _.
          if-elim {A = Io Attempt} (λ m. P (m v).1.runs)
            (is_awaiting run.status || wants_human run.report) (λ _. h)
            (λ _. on_routing-keeps i run t agent key (routing_of run.report) v h))

  finish_decision-keeps :
      (i : ℕ) (x : Result Attempt) (v : World)
      → P v.runs
      → P (finish_decision jira text i x v).1.runs
  finish_decision-keeps i (ok (decided d)) v h = h
  finish_decision-keeps i (ok (diagnosed e)) v h = ground (arith, h)
  finish_decision-keeps i (throws e) v h = ground (arith, h)

  pub on_orchestrator_finished-keeps :
      (i : ℕ) (run : Run) (t : ℕ) (agent : Agent) (key : String) (v : World)
      → P v.runs
      → P (on_orchestrator_finished jira text i run t agent key v).1.runs
  unfolding on_orchestrator_finished
  on_orchestrator_finished-keeps i run t agent key v h =
      let (x, u) = process_orchestrator_decision jira text i run t agent key v in
      finish_decision-keeps i x u (decision-keeps i run t agent key v h)
