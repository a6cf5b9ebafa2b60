-- ===== src/Worker/RunProcessor/Ended.antt =====
-- How a run ends after its process.
use brigadir.Prelude.{
  ℕ, String, Bool, true, false, Option, none, some, ◌≡◌, refl, arith, find_where-some, inl, inr,
  ◌⊎◌,
}
use brigadir.Domain.{
  World, Run, RunStatus, AgentReport, JiraClient, Io, Result, ok, throws, pure, ◌>>◌, run_of,
  has_id, is_active, indexes_ok, bind-keeps, parse_report, guarded_update, slot,
}
use brigadir.Runs.StatusMapping.{ExitStatus, TerminalStatus, MapResult, finalize, retry, rate_limit}
use brigadir.Runs.Service.{
  FinalizeExtra, no_extra, mark_queued_for_retry, finalize_with_report, finalize_status,
  guarded_finalize, finalized, where_status, with_status, is_running, report_update, persist_report,
  record_cost_usage, costed, with_parsed,
}
use brigadir.Runs.Index.{Shrinks, after, guarded_update-ok, indexes_ok-update}
use brigadir.Runs.Rows.{run_of-update, runs-persist_report}
use brigadir.Runs.Rejections.{where_status-Shrinks, running-active}
use brigadir.Runs.Trigger.Idempotence.{trigger-indexes_ok}
use brigadir.Pipeline.Decision.{Facts}
use brigadir.Pipeline.Completion.Keeps.{Held, trigger-Held, on_run_finished-keeps}
use brigadir.Pipeline.Triggering.{OnlyTriggers}
use brigadir.Setup.Service.{TeamAcceptResult}
use brigadir.Worker.RunProcessor.{
  ExecutorResult, JobEnd, done, waits_again, attempt_failed, ExecutorPort, is_team_report, extra_of,
  recover, fail_run, after_finalize_job, completed_body, on_completed_run, on_decision, decision_of,
  on_process_exit, settle_result,
}

-- The run is in a store that obeys the indexes; and it is not running.
abbrev There : ℕ → World → Type 0
There i w = (indexes_ok w.runs ≡ true) × ((r : Run) × Held i r w)

abbrev Over : ℕ → World → Type 0
Over i w = (indexes_ok w.runs ≡ true) × ((r : Run) × (Held i r w × (is_running r.status ≡ false)))

Over-There : (i : ℕ) (w : World) → Over i w → There i w
Over-There i w (o, (r, (h, n))) = (o, (r, h))

-- A guarded update after which the run is not running.
guarded-Over :
    (guard : RunStatus → Bool) (f : Run → Run) (i : ℕ)
    → ((r : Run) → (f r).id ≡ r.id)
    → ((s : RunStatus) → guard s ≡ true → is_active s ≡ true)
    → ((r : Run) → ((f r).ticket_id ≡ r.ticket_id) × ((f r).workspace_id ≡ r.workspace_id))
    → ((r : Run) → has_id i r ≡ true → is_running (after (where_status guard i) f r).status ≡ false)
    → (w : World) → There i w
    → Over i (guarded_update (where_status guard i) f w).1
guarded-Over guard f i same_id active same out w (o, (r, h)) =
    let p = where_status guard i in
    let shrinks = where_status-Shrinks guard i f active same in
    rw (guarded_update-ok p f shrinks w o) (
      indexes_ok-update p f shrinks w.runs o,
      (
        after p f r,
        (run_of-update p f same_id i w.runs h, out r (find_where-some (has_id i) w.runs h).0),
      ),
    )

finalize_status-Over :
    (i : ℕ) (status : TerminalStatus) (extra : FinalizeExtra) (w : World)
    → There i w
    → Over i (finalize_status i status extra w).1
unfolding finalize_status guarded_finalize
finalize_status-Over i status extra w =
    guarded-Over is_active (finalized status extra w.clock) i (λ r. refl) (λ s e. e)
      (λ r. (refl, refl)) (λ r h. ground (arith, h)) w

retried-Over : (i : ℕ) (w : World) → There i w → Over i (mark_queued_for_retry i w).1
unfolding mark_queued_for_retry
retried-Over i w =
    guarded-Over is_running (with_status RunStatus.queued) i (λ r. refl) running-active
      (λ r. (refl, refl)) (λ r h. ground (arith, h)) w

persist_report-Over :
    (i : ℕ) (report : AgentReport) (extra : FinalizeExtra) (w : World)
    → There i w
    → Over i (persist_report (λ r. is_active r.status) i report extra w).1
persist_report-Over i report extra w h =
    rw (runs-persist_report (λ r. is_active r.status) i report extra w) (
      guarded-Over is_active (report_update report extra w.clock) i (λ r. refl) (λ s e. e)
        (λ r. (refl, refl)) (λ r e. ground (arith, e)) w h)

record_cost_usage-There :
    (i : ℕ) (cost : Option ℕ) (usage : Option String) (w : World)
    → There i w
    → There i (record_cost_usage i cost usage w).1
unfolding record_cost_usage slot
record_cost_usage-There i cost usage w (o, (r, h)) =
    let p = has_id i in
    let f = costed cost usage in
    let shrinks : (x : Run) → Shrinks (slot (after p f x)) (slot x) = λ x. ground arith in
    rw (guarded_update-ok p f shrinks w o) (
      indexes_ok-update p f shrinks w.runs o,
      (after p f r, run_of-update p f (λ _. refl) i w.runs h),
    )

recover-Over :
    (i : ℕ) (h m : Io Unit) (w : World)
    → ((v : World) → There i v → Over i (h v).1)
    → Over i (m w).1
    → Over i (recover h m w).1
recover-Over i h m w fix over = go (m w).0 over
  where
    go :
        (r : Result {0} Unit)
        → Over i (m w).1
        → Over i
            (elim r as (λ _. Result {0} Unit × World) [
              | ok u ↦ (ok u, (m w).1)
              | throws e ↦ h (m w).1
            ]).1
    go (ok u) k = k
    go (throws e) k = fix (m w).1 (Over-There i (m w).1 k)

module _ (jira : JiraClient) (text : Facts → String) (release : ℕ → String → Io Unit)
    (released : (workspace : ℕ) (key : String) → OnlyTriggers (release workspace key))
    (accept_team : ℕ → AgentReport → Io TeamAcceptResult) (model_limits : String → Option ℕ)
    (gate_ttl : Option ℕ) (port : ExecutorPort) where
  after_finalize_job-Over :
      (i : ℕ) (w : World)
      → Over i w
      → Over i (after_finalize_job jira text release accept_team model_limits gate_ttl port i w).1
  after_finalize_job-Over i w (o, (r, (h, n))) = (
    on_run_finished-keeps jira text release (λ rows. indexes_ok rows ≡ true) trigger-indexes_ok
        (λ workspace key.
          released workspace key (λ rows. indexes_ok rows ≡ true) trigger-indexes_ok)
        i w o,
    (
      r,
      (
        on_run_finished-keeps jira text release (λ rows. run_of i rows ≡ some r) (trigger-Held i r)
            (λ workspace key.
              released workspace key (λ rows. run_of i rows ≡ some r) (trigger-Held i r))
            i w h,
        n,
      ),
    ),
  )

  fail_run-Over :
      (i : ℕ) (error : Option String) (w : World)
      → There i w
      → Over i (fail_run jira text release accept_team model_limits gate_ttl port i error w).1
  fail_run-Over i error w h =
      bind-keeps (Over i)
        (finalize_status i TerminalStatus.failed (record no_extra { error = error })) (λ _. pure tt)
        w (finalize_status-Over i TerminalStatus.failed (record no_extra { error = error }) w h)
        (λ _ v k. k)

  -- A report that does not parse fails the run; any other ends it.
  reported-Over :
      (i : ℕ) (o : Option AgentReport) (extra : FinalizeExtra) (error : Option String) (w : World)
      → There i w
      → Over i
          (recover
            (fail_run jira text release accept_team model_limits gate_ttl port i error)
            (with_parsed o (λ report. persist_report (λ r. is_active r.status) i report extra)
              >> pure tt)
            w).1
  reported-Over i none extra error w h = fail_run-Over i error w h
  reported-Over i (some report) extra error w h =
      recover-Over i (fail_run jira text release accept_team model_limits gate_ttl port i error)
        (persist_report (λ r. is_active r.status) i report extra >> pure tt) w
        (fail_run-Over i error)
        (bind-keeps (Over i) (persist_report (λ r. is_active r.status) i report extra)
          (λ _. pure tt) w (persist_report-Over i report extra w h) (λ _ v k. k))

  on_completed_run-Over :
      (i : ℕ) (result : ExecutorResult) (w : World)
      → is_team_report result.report ≡ false
      → There i w
      → Over i
          (on_completed_run jira text release accept_team model_limits gate_ttl port i result w).1
  unfolding finalize_with_report
  on_completed_run-Over i result w no_team h =
      let body = completed_body jira text release accept_team model_limits gate_ttl port i result in
      let end = after_finalize_job jira text release accept_team model_limits gate_ttl port i in
      let tried =
        recover
          (fail_run jira text release accept_team model_limits gate_ttl port i
            (some port.invalid_report_error))
          body in
      let saved : Over i (tried w).1 = rw no_team (
        reported-Over i (parse_report result.report) (extra_of result)
          (some port.invalid_report_error) w h) in
      bind-keeps (Over i) tried (λ _. end >> pure done) w saved
        (λ _ v k. after_finalize_job-Over i v k)

  -- It waits for the rate limit, or its run is over.
  abbrev Settled : ℕ → Run → Result JobEnd × World → Type 0
  Settled i run x = (x.0 ≡ ok (waits_again (port.rate_limit_ttl run))) ⊎ Over i x.1

  on_decision-Settled :
      (i : ℕ) (run : Run) (result : ExecutorResult) (d : MapResult) (w : World)
      → There i w
      → Settled i run
          (on_decision jira text release accept_team model_limits gate_ttl port i run result d w)
  on_decision-Settled i run result rate_limit w h = inl refl
  on_decision-Settled i run result retry w h = inr (
      bind-keeps (Over i) (mark_queued_for_retry i) (λ _. pure attempt_failed) w
        (retried-Over i w h) (λ _ v k. k))
  on_decision-Settled i run result (finalize status) w h =
      let extra : FinalizeExtra = record no_extra { error = result.diagnostics } in
      inr (
        bind-keeps (Over i) (finalize_status i status extra)
          (λ _.
            after_finalize_job jira text release accept_team model_limits gate_ttl port i
            >> pure done)
          w (finalize_status-Over i status extra w h) (λ _ v k. after_finalize_job-Over i v k))

  on_process_exit-Settled :
      (i : ℕ) (run : Run) (made most : ℕ) (result : ExecutorResult) (s : ExitStatus) (w : World)
      → is_team_report result.report ≡ false
      → There i w
      → Settled i run (
          on_process_exit jira text release accept_team model_limits gate_ttl port i run made most
            result s w)
  on_process_exit-Settled i run made most result ExitStatus.completed w no_team h =
      inr (on_completed_run-Over i result w no_team h)
  on_process_exit-Settled i run made most result ExitStatus.crashed w no_team h =
      on_decision-Settled i run result
        (decision_of jira text release accept_team model_limits gate_ttl port made most result) w h
  on_process_exit-Settled i run made most result ExitStatus.timeout w no_team h =
      on_decision-Settled i run result
        (decision_of jira text release accept_team model_limits gate_ttl port made most result) w h
  on_process_exit-Settled i run made most result ExitStatus.rate_limited w no_team h =
      on_decision-Settled i run result
        (decision_of jira text release accept_team model_limits gate_ttl port made most result) w h
  on_process_exit-Settled i run made most result ExitStatus.cancelled w no_team h =
      on_decision-Settled i run result
        (decision_of jira text release accept_team model_limits gate_ttl port made most result) w h

  -- However the process of an agent ends, and whatever it reports, unless it is a team, the job then
  -- waits for the rate limit, or the run is not left `running`: its row is there with another status,
  -- also when the report does not parse and when Jira refuses the transition and the comment. The store obeys the indexes on
  -- runs and has the run, and the release of dependent tickets only triggers runs.
  pub settle_result-not_running :
      (i : ℕ) (run row : Run) (made most : ℕ) (result : ExecutorResult) (w : World)
      → indexes_ok w.runs ≡ true
      → run_of i w.runs ≡ some row
      → is_team_report result.report ≡ false
      → let (end, v) =
          settle_result jira text release accept_team model_limits gate_ttl port i run made most
            result w in
        (end ≡ ok (waits_again (port.rate_limit_ttl run)))
        ⊎ ((r : Run) × ((run_of i v.runs ≡ some r) × (is_running r.status ≡ false)))
  unfolding settle_result record_cost_usage
  settle_result-not_running i run row made most result w o h no_team =
      elim (on_process_exit-Settled i run made most result result.exit_status
        (record_cost_usage i result.cost_usd result.usage w).1 no_team
        (record_cost_usage-There i result.cost_usd result.usage w (o, (row, h)))) [
          | inl e ↦ inl e
          | inr k ↦ inr k.1
        ]
