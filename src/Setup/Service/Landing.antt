-- ===== src/Setup/Service/Landing.antt =====
-- The transaction that applies a team: it lands as a whole or not at all.
use brigadir.Prelude.{
  ℕ, ◌+◌, Bool, true, false, some, List, [], ◌∷◌, ◌++◌, ◌≡◌, refl, inl, inr, arith, ap, sym, length,
  All, any_where, update_where, find_where-some, any_where-found, subst,
}
use brigadir.Domain.{
  World, Run, is_active, has_id, run_of, Agent, AgentReport, TeamAgent, Io, Result, ok, throws,
  Failure, unique_violation, not_null_violation, transaction, with_ids, pure, ◌>>=◌, ◌>>◌,
}
use brigadir.Runs.Service.{where_status, write_checks}
use brigadir.Runs.Index.{after, guarded_update-cases}
use brigadir.Runs.Rows.{run_of-update}
use brigadir.Setup.Validation.{SetupPort}
use brigadir.Setup.Service.{
  TeamAcceptResult, applied, team_invalid, team_conflict, recast_failure, review_task, add_review,
  team_succeeded, after_finalize, apply_steps, apply_result, apply, recast_row,
}
use brigadir.Setup.Service.Roster.{IsWorker, roster-workers, insert_team_agents-cases}

module _ (port : SetupPort) where
  -- The run has succeeded with its team, each proposed agent is a new worker, and one review task is
  -- open.
  abbrev pub TeamExists : ℕ → AgentReport → ℕ → World → World → Type 0
  TeamExists i report n w' w =
      (run : Run) × (proposed : List TeamAgent) × (workers : List Agent) × (id : ℕ) × (run_of i
          w'.runs
        ≡ some (team_succeeded port report w.clock run))
      × (report.team ≡ some proposed)
      × (n ≡ length proposed)
      × (length workers ≡ length proposed)
      × All (IsWorker run.workspace_id) workers
      × (w'.agents ≡ w.agents ++ workers)
      × (w'.human_tasks ≡ w.human_tasks ++ review_task port i run.workspace_id proposed id ∷ [])

  -- The run has failed, and no agent and no task is there that was not.
  abbrev pub Recast : ℕ → AgentReport → World → World → Type 0
  Recast i report w' w =
      (run : Run) × (run_of i w'.runs ≡ some (recast_row port report w.clock run))
      × (w'.agents ≡ w.agents)
      × (w'.human_tasks ≡ w.human_tasks)

  abbrev pub Settled : ℕ → AgentReport → World → Result TeamAcceptResult × World → Type 0
  Settled i report w (ok (applied n), w') = TeamExists i report n w' w
  Settled i report w (ok recast_failure, w') = Recast i report w' w
  Settled i report w (ok (team_invalid issues), w') = w' ≡ w
  Settled i report w (ok team_conflict, w') = w' ≡ w
  Settled i report w (throws e, w') = w' ≡ w

  -- What the transaction leaves: nothing is written, or the whole team.
  module _ (i : ℕ) (report : AgentReport) (proposed : List TeamAgent) (run : Run) (w : World)
      (found : run_of i w.runs ≡ some run) (active : is_active run.status ≡ true)
      (given : report.team ≡ some proposed) where
    abbrev finalize : Run → Run
    finalize = team_succeeded port report w.clock

    abbrev p : Run → Bool
    p = where_status is_active i

    abbrev updated : World
    updated = record w { runs = update_where p finalize w.runs }

    row-finalized : run_of i updated.runs ≡ some (finalize run)
    row-finalized =
        let same : after p finalize run ≡ finalize run =
          ground (arith, active, (find_where-some (has_id i) w.runs found).0) in
        rw same at (run_of-update p finalize (λ _. refl) i w.runs found)

    abbrev rest : Io Bool
    rest = after_finalize port w i run.workspace_id report proposed true

    abbrev Landed : Result Bool × World → Type 0
    Landed (ok true, w') = TeamExists i report (length proposed) w' w
    Landed (ok false, w') = ⊥
    Landed (throws e, w') = Unit

    -- What follows the insertion of the team.
    abbrev ending : Result {0} Unit × World → Result Bool × World
    ending x =
        ((λ _. x)
            >> add_review port i run.workspace_id proposed
            >> write_checks i report
            >> pure true)
          updated

    rest-Landed : Landed (rest updated)
    unfolding write_checks
    rest-Landed = elim (insert_team_agents-cases port w run.workspace_id proposed updated) [
      | inl (e, x) ↦ subst Landed (sym (ap {B = Result Bool × World} ending x)) tt
      | inr (taken, drafts, known, x) ↦
          let (same, workers) =
            roster-workers port w run.workspace_id taken proposed known w.uuids w.drawn in
          subst Landed (sym (ap {B = Result Bool × World} ending x)) (
            run,
            proposed,
            with_ids w.uuids w.drawn drafts,
            w.uuids (w.drawn + length drafts),
            row-finalized,
            given,
            refl,
            same,
            workers,
            refl,
            refl,
          )
    ]

    failed-Settled :
        (e : Failure) → Settled i report w (apply_result port (length proposed) (throws e, w))
    failed-Settled unique_violation = refl
    failed-Settled not_null_violation = refl
    failed-Settled Failure.invalid_timestamp = refl
    failed-Settled Failure.workspace_not_found = refl
    failed-Settled Failure.invalid_report = refl
    failed-Settled Failure.run_not_found = refl
    failed-Settled Failure.agent_not_found = refl
    failed-Settled Failure.executor_not_found = refl
    failed-Settled Failure.no_transition_path = refl
    failed-Settled Failure.jira_error = refl

    -- A transaction that lands nothing is as if it had not been.
    Landed-Settled :
        (m : Io Bool)
        → Landed (m w)
        → Settled i report w (apply_result port (length proposed) (transaction m w))
    Landed-Settled m h = go (m w) h
      where
        go :
            (x : Result Bool × World)
            → Landed x
            → Settled i report w (
                apply_result port (length proposed) (elim x.0 as (λ _. Result Bool × World) [
                  | ok a ↦ (ok a, x.1)
                  | throws e ↦ (throws e, w)
                ]))
        go (ok true, w') h = h
        go (ok false, w') h = absurd h
        go (throws e, w') h = failed-Settled e

    steps-Landed : Landed (apply_steps port w i run.workspace_id report proposed w)
    unfolding apply_steps
    steps-Landed =
        let k = after_finalize port w i run.workspace_id report proposed in
        let next : Result Bool × World → Result Bool × World = λ x. ((λ _. x) >>= k) w in
        elim (guarded_update-cases p finalize w) [
          | inl e ↦ subst Landed (sym (ap {B = Result Bool × World} next e)) tt
          | inr e ↦
              let hit : any_where p w.runs ≡ true =
                any_where-found p (has_id i) w.runs found
                  (ground (arith, active, (find_where-some (has_id i) w.runs found).0)) in
              subst Landed (sym (ap {B = Result Bool × World} next e)) (rw hit rest-Landed)
        ]

    pub apply-Settled : Settled i report w (apply port i run.workspace_id report proposed w)
    unfolding apply
    apply-Settled =
        Landed-Settled (apply_steps port w i run.workspace_id report proposed) steps-Landed
