-- ===== src/Setup/Service/Valid.antt =====
-- That a valid team is applied.
use brigadir.Prelude.{
  ℕ, ◌+◌, String, Bool, true, some, List, [], ◌++◌, ◌≡◌, refl, arith, ap, ◌∙◌, sym, subst, length,
  map, any_where, any_where-found, find_where-some, update_where,
}
use brigadir.Domain.{
  World, Run, is_active, has_id, run_of, Agent, AgentReport, TeamAgent, is_team, ok, insert_agents,
  with_ids, agent_keys_ok, indexes_ok, Result, bind-ok, pure, ◌>>=◌, ◌>>◌, transaction,
}
use brigadir.Runs.Service.{write_checks, where_status}
use brigadir.Runs.Trigger.{agent_row}
use brigadir.Runs.Index.{guarded_update-ok}
use brigadir.Runs.Rejections.{where_status-Shrinks}
use brigadir.Setup.Validation.{SetupPort, validate_team, rows_of, lintable_row}
use brigadir.Setup.Service.{
  roster, insert_team_agents, apply, apply_steps, accept_team_report, may_propose, applied,
  after_finalize, team_succeeded, on_proposal, on_issues, apply_result, add_review,
  TeamAcceptResult,
}
use brigadir.Setup.Validation.Sound.{valid-checked}
use brigadir.Setup.Service.Keys.{keys_of-rows, roster-agent_keys_ok, roster_complete}

module _ (port : SetupPort)
    (differ : (base : String) (i j : ℕ) → port.suffixed base i ≡ port.suffixed base j → i ≡ j) where
  -- The insertion of a valid team succeeds.
  inserted-ok :
      (profiles : World) (workspace : ℕ) (proposed : List TeamAgent) (v : World)
      → ((taken : List String)
          → (drafts : List (ℕ → Agent)) × (roster port profiles workspace taken proposed
              ≡ some drafts))
      → agent_keys_ok v.agents ≡ true
      → (v' : World) × (insert_team_agents port profiles workspace proposed v ≡ (ok tt, v'))
  unfolding insert_team_agents insert_agents
  inserted-ok profiles workspace proposed v complete keys =
      let taken = map (λ a. a.key) (rows_of port workspace v) in
      let (drafts, e) = complete taken in
      let fine : agent_keys_ok (v.agents ++ with_ids v.uuids v.drawn drafts) ≡ true =
        roster-agent_keys_ok port differ profiles workspace taken proposed v.agents e
          (keys_of-rows workspace v.agents) keys v.uuids v.drawn in
      let v' : World = record v {
        agents = v.agents ++ with_ids v.uuids v.drawn drafts;
        drawn = v.drawn + length drafts;
      } in
      (v', rw (e, insert_team_agents, insert_agents) (rw fine refl))

  apply-applied :
      (i : ℕ) (report : AgentReport) (proposed : List TeamAgent) (run : Run) (w : World)
      → indexes_ok w.runs ≡ true
      → agent_keys_ok w.agents ≡ true
      → run_of i w.runs ≡ some run
      → is_active run.status ≡ true
      → ((taken : List String)
          → (drafts : List (ℕ → Agent)) × (roster port w run.workspace_id taken proposed
              ≡ some drafts))
      → (apply port i run.workspace_id report proposed w).0 ≡ ok (applied (length proposed))
  unfolding apply apply_steps write_checks
  apply-applied i report proposed run w rows keys found active complete =
      let p : Run → Bool = where_status is_active i in
      let f : Run → Run = team_succeeded port report w.clock in
      let made =
        guarded_update-ok p f (where_status-Shrinks is_active i f (λ s e. e) (λ r. (refl, refl))) w
          rows in
      let hit : any_where p w.runs ≡ true =
        any_where-found p (has_id i) w.runs found
          (ground (arith, active, (find_where-some (has_id i) w.runs found).0)) in
      let updated : World = record w { runs = update_where p f w.runs } in
      let (v', inserted) = inserted-ok w run.workspace_id proposed updated complete keys in
      let finish : Result {0} Unit × World → Result Bool × World = λ x.
        ((λ _. x)
            >> add_review port i run.workspace_id proposed
            >> write_checks i report
            >> pure true)
          updated in
      let next : Result Bool × World → Result Bool × World =
        λ x. ((λ _. x) >>= after_finalize port w i run.workspace_id report proposed) w in
      let result : Result Bool × World → Result TeamAcceptResult =
        λ x. (apply_result port (length proposed) (transaction (λ _. x) w)).0 in
      ap {B = Result TeamAcceptResult} (λ x. result (next x)) made
      ∙ rw hit (ap {B = Result TeamAcceptResult} (λ x. result (finish x)) inserted)

  -- A team of an orchestrator's active set-up run that validation finds nothing wrong with is applied, by
  -- whatever names the agents go: the keys that the system derives for them never collide. The
  -- store obeys the indexes on runs and on the keys of agents, and different numbers write different
  -- suffixes.
  pub valid_team-applied :
      (i : ℕ) (report : AgentReport) (proposed : List TeamAgent) (run : Run) (agent : Agent)
      (w : World)
      → indexes_ok w.runs ≡ true
      → agent_keys_ok w.agents ≡ true
      → is_team report.outcome ≡ true
      → report.team ≡ some proposed
      → run_of i w.runs ≡ some run
      → is_active run.status ≡ true
      → agent_row run.agent_id w ≡ some agent
      → may_propose port run agent ≡ true
      → validate_team port run.workspace_id proposed w ≡ (ok [], w)
      → (accept_team_report port i report w).0 ≡ ok (applied (length proposed))
  unfolding accept_team_report
  valid_team-applied i report proposed run agent w rows keys is given found active by may valid =
      let k = on_issues port i run.workspace_id report proposed in
      let (x, board, here, fetched, none_found) =
        valid-checked port run.workspace_id proposed w valid in
      let complete = λ (taken : List String).
        roster_complete port differ w board run.workspace_id 0 [] taken
          (map lintable_row (rows_of port run.workspace_id w)) proposed none_found in
      let validated = bind-ok (validate_team port run.workspace_id proposed) k w valid in
      rw (is, accept_team_report)
        (subst (λ o. (on_proposal port i report o w).0 ≡ ok (applied (length proposed))) (sym given)
          (rw found (
            rw by (
              rw active (
                rw may (
                  rw validated
                    (apply-applied i report proposed run w rows keys found active complete)))))))
