-- ===== src/Setup/Service/Accept.antt =====
-- That the acceptance of a team is all or nothing.
use brigadir.Prelude.{
  ℕ, String, Bool, true, Option, none, some, List, [], ◌∷◌, ◌≡◌, refl, inl, inr, arith, ap, sym,
  Option-cases, any_where, update_where, if-elim, find_where, ◌==◌, find_where-some,
  any_where-found, subst,
}
use brigadir.Domain.{
  World, Run, is_active, has_id, run_of, Agent, AgentReport, TeamAgent, is_team, Io, Result, ok,
  bind-ok, ◌>>=◌, Workspace,
}
use brigadir.Runs.Service.{where_status}
use brigadir.Runs.Trigger.{agent_row}
use brigadir.Runs.Index.{after, guarded_update-cases}
use brigadir.Runs.Rows.{run_of-update}
use brigadir.Setup.Validation.{TeamIssue, SetupPort, validate_team, on_statuses, on_workspace}
use brigadir.Setup.Service.{
  TeamAcceptResult, recast_row, finalize_invalid_outcome, recast_result, on_issues, may_propose,
  on_active, on_proposer, on_joined, on_proposal, accept_team_report,
}
use brigadir.Setup.Service.Landing.{Settled, apply-Settled}

module _ (port : SetupPort) where
  invalid_outcome-Settled :
      (i : ℕ) (report : AgentReport) (run : Run) (w : World)
      → run_of i w.runs ≡ some run
      → is_active run.status ≡ true
      → Settled port i report w ((finalize_invalid_outcome port i report >>= recast_result port) w)
  unfolding finalize_invalid_outcome
  invalid_outcome-Settled i report run w found active =
      let p : Run → Bool = where_status is_active i in
      let f : Run → Run = recast_row port report w.clock in
      let next : Result Bool × World → Result TeamAcceptResult × World =
        λ x. ((λ _. x) >>= recast_result port) w in
      let own = (find_where-some (has_id i) w.runs found).0 in
      let row : run_of i (update_where p f w.runs) ≡ some (f run) =
        let same : after p f run ≡ f run = ground (arith, active, own) in
        rw same at (run_of-update p f (λ _. refl) i w.runs found) in
      let hit : any_where p w.runs ≡ true =
        any_where-found p (has_id i) w.runs found (ground (arith, active, own)) in
      elim (guarded_update-cases p f w) [
        | inl e ↦
            subst (Settled port i report w) (sym (ap {B = Result TeamAcceptResult × World} next e))
              refl
        | inr e ↦
            subst (Settled port i report w) (sym (ap {B = Result TeamAcceptResult × World} next e))
              (rw hit (run, row, refl, refl))
      ]

  on_statuses-same :
      (workspace : ℕ) (proposed : List TeamAgent) (o : Option (List String)) (w : World)
      → (issues : List TeamIssue) × (on_statuses port workspace proposed o w ≡ (ok issues, w))
  on_statuses-same workspace proposed none w = (_, refl)
  on_statuses-same workspace proposed (some board) w = (_, refl)

  on_workspace-same :
      (workspace : ℕ) (proposed : List TeamAgent) (o : Option Workspace) (w : World)
      → (issues : List TeamIssue) × (on_workspace port workspace proposed o w ≡ (ok issues, w))
  on_workspace-same workspace proposed none w = (_, refl)
  on_workspace-same workspace proposed (some x) w =
      on_statuses-same workspace proposed (port.project_statuses workspace x.jira_project_key w) w

  -- Validation reads only, and never throws.
  pub validate_team-same :
      (workspace : ℕ) (proposed : List TeamAgent) (w : World)
      → (issues : List TeamIssue) × (validate_team port workspace proposed w ≡ (ok issues, w))
  unfolding validate_team
  validate_team-same workspace proposed w =
      on_workspace-same workspace proposed (find_where (λ x. x.id == workspace) w.workspaces) w

  on_issues-Settled :
      (i : ℕ) (report : AgentReport) (proposed : List TeamAgent) (run : Run) (w : World)
      → run_of i w.runs ≡ some run
      → is_active run.status ≡ true
      → report.team ≡ some proposed
      → (issues : List TeamIssue)
      → Settled port i report w (on_issues port i run.workspace_id report proposed issues w)
  on_issues-Settled i report proposed run w found active given [] =
      apply-Settled port i report proposed run w found active given
  on_issues-Settled i report proposed run w found active given (x ∷ issues) = refl

  on_active-Settled :
      (i : ℕ) (report : AgentReport) (proposed : List TeamAgent) (run : Run) (agent : Agent)
      (w : World)
      → run_of i w.runs ≡ some run
      → is_active run.status ≡ true
      → report.team ≡ some proposed
      → Settled port i report w (on_active port i report proposed run agent w)
  on_active-Settled i report proposed run agent w found active given =
      if-elim {A = Io TeamAcceptResult} (λ m. Settled port i report w (m w))
        (may_propose port run agent)
        (λ _.
          let (issues, e) = validate_team-same run.workspace_id proposed w in
          let k = on_issues port i run.workspace_id report proposed in
          subst (Settled port i report w)
            (sym (bind-ok (validate_team port run.workspace_id proposed) k w e))
            (on_issues-Settled i report proposed run w found active given issues))
        (λ _. invalid_outcome-Settled i report run w found active)

  on_proposer-Settled :
      (i : ℕ) (report : AgentReport) (proposed : List TeamAgent) (run : Run) (o : Option Agent)
      (w : World)
      → run_of i w.runs ≡ some run
      → report.team ≡ some proposed
      → Settled port i report w (on_proposer port i report proposed run o w)
  on_proposer-Settled i report proposed run none w found given = refl
  on_proposer-Settled i report proposed run (some agent) w found given =
      if-elim {A = Io TeamAcceptResult} (λ m. Settled port i report w (m w)) (is_active run.status)
        (λ active. on_active-Settled i report proposed run agent w found active given) (λ _. refl)

  on_joined-Settled :
      (i : ℕ) (report : AgentReport) (proposed : List TeamAgent) (w : World)
      → report.team ≡ some proposed
      → Settled port i report w (on_joined port i report proposed (run_of i w.runs) w)
  on_joined-Settled i report proposed w given = elim (Option-cases (run_of i w.runs)) [
    | inl e ↦
        subst (λ o. Settled port i report w (on_joined port i report proposed o w)) (sym e) refl
    | inr (run, e) ↦
        subst (λ o. Settled port i report w (on_joined port i report proposed o w)) (sym e)
          (on_proposer-Settled i report proposed run (agent_row run.agent_id w) w e given)
  ]

  -- The acceptance of a proposed team is all or nothing: it is applied, and the run has succeeded with its
  -- team, every proposed agent is a new enabled worker of the run's workspace and one review task is
  -- open; or the run is failed for a team that it may not propose, without a new agent or task; or
  -- the answer is a refusal or an error, and the store is as it was.
  pub accept_team_report-Settled :
      (i : ℕ) (report : AgentReport) (w : World)
      → Settled port i report w (accept_team_report port i report w)
  unfolding accept_team_report
  accept_team_report-Settled i report w =
      if-elim {A = Io TeamAcceptResult} (λ m. Settled port i report w (m w))
        (is_team report.outcome)
        (λ _. elim (Option-cases report.team) [
          | inl e ↦
              subst (λ o. Settled port i report w (on_proposal port i report o w)) (sym e) refl
          | inr (proposed, e) ↦
              subst (λ o. Settled port i report w (on_proposal port i report o w)) (sym e)
                (on_joined-Settled i report proposed w e)
        ])
        (λ _. refl)
