-- ===== src/Worker/CallbackExit/Parked.antt =====
-- That the end of a process leaves a parked run parked.
use brigadir.Prelude.{ℕ, String, Bool, true, false, none, some, ◌≡◌, refl, arith, if-elim, get_or}
use brigadir.Domain.{
  World, Run, RunStatus, awaiting_human, has_id, run_of, guarded_update, JiraClient, Io, pure,
  ◌>>=◌, bind-keeps,
}
use brigadir.Runs.StatusMapping.{ExitStatus, MapResult, finalize, retry, rate_limit, TerminalStatus}
use brigadir.Runs.Service.{
  mark_queued_for_retry, fail_if_still_running, park_if_still_running, finalize_status_if_running,
  record_cost_usage, where_status, is_running, with_status, failed_with, finalized, costed,
}
use brigadir.Runs.Lifecycle.{Kept, SameVerdict-trans, update-Kept}
use brigadir.HumanTasks.Service.{has_open_blocking_task}
use brigadir.Pipeline.Decision.{Facts}
use brigadir.Pipeline.Completion.Keeps.{trigger-Held, on_run_finished-keeps}
use brigadir.Pipeline.Triggering.{OnlyTriggers}
use brigadir.Worker.RunProcessor.{ExecutorResult, JobEnd, done, attempt_failed}
use brigadir.Worker.CallbackExit.{
  exit_extra, after_flipped, on_clean_exit, guarded_exit, on_final_status, on_exit_decision,
  on_channel_exit, settle_channel_run, no_callback,
}

abbrev pub is_parked : Run → Bool
is_parked r = elim r.status [ awaiting_human ↦ true | _ ↦ false ]

-- A parked run keeps its verdict under an update of running rows.
guarded-Kept :
    (f : Run → Run) (j : ℕ)
    → ((r : Run) → (f r).id ≡ r.id)
    → (i : ℕ) (w : World) (r : Run) → run_of i w.runs ≡ some r
    → is_parked r ≡ true
    → Kept i r (guarded_update (where_status is_running j) f w).1
guarded-Kept f j same =
    update-Kept is_parked (where_status is_running j) f same (λ x t. ground arith)

module _ (jira : JiraClient) (text : Facts → String) (release : ℕ → String → Io Unit)
    (released : (workspace : ℕ) (key : String) → OnlyTriggers (release workspace key))
    (ttl : Run → ℕ) (i : ℕ) (r : Run) (parked : is_parked r ≡ true) where
  after_flipped-Kept :
      (j : ℕ) (b : Bool) (w : World)
      → Kept i r w
      → Kept i r (after_flipped jira text release ttl j b w).1
  after_flipped-Kept j false w k = k
  after_flipped-Kept j true w (x, h, v) = (
    x,
    on_run_finished-keeps jira text release (λ rows. run_of i rows ≡ some x) (trigger-Held i x)
        (λ workspace key.
          released workspace key (λ rows. run_of i rows ≡ some x) (trigger-Held i x))
        j w h,
    v,
  )

  after_update :
      (m : Io Bool) (j : ℕ) (w : World)
      → Kept i r (m w).1
      → Kept i r ((m >>= after_flipped jira text release ttl j) w).1
  after_update m j w k =
      bind-keeps (Kept i r) m (after_flipped jira text release ttl j) w k
        (λ b v q. after_flipped-Kept j b v q)

  still-Kept :
      (f : Run → Run) (j : ℕ)
      → ((x : Run) → (f x).id ≡ x.id)
      → (w : World) → Kept i r w
      → Kept i r (guarded_update (where_status is_running j) f w).1
  still-Kept f j same w (x, h, v) =
      let (y, h', v') = guarded-Kept f j same i w x h (ground (arith, parked, v)) in
      (y, h', SameVerdict-trans r x y v v')

  guarded_exit-Kept :
      (j : ℕ) (result : ExecutorResult) (status : TerminalStatus) (w : World)
      → Kept i r w
      → Kept i r (guarded_exit jira text release ttl j result status w).1
  unfolding finalize_status_if_running
  guarded_exit-Kept j result status w k =
      after_update (finalize_status_if_running j status (exit_extra result)) j w
        (still-Kept (finalized status (exit_extra result) w.clock) j (λ x. refl) w k)

  on_clean_exit-Kept :
      (j : ℕ) (result : ExecutorResult) (w : World)
      → Kept i r w
      → Kept i r (on_clean_exit jira text release ttl j result none w).1
  unfolding fail_if_still_running park_if_still_running
  on_clean_exit-Kept j result w k =
      let diagnostic = get_or result.diagnostics no_callback in
      if-elim {A = Io JobEnd} (λ m. Kept i r (m w).1) (has_open_blocking_task j w)
        (λ _.
          bind-keeps (Kept i r) (park_if_still_running j) (λ _. pure done) w
            (still-Kept (with_status awaiting_human) j (λ x. refl) w k) (λ _ v q. q))
        (λ _.
          after_update (fail_if_still_running j diagnostic) j w
            (still-Kept (failed_with diagnostic w.clock) j (λ x. refl) w k))

  on_final_status-Kept :
      (j : ℕ) (result : ExecutorResult) (status : TerminalStatus) (w : World)
      → Kept i r w
      → Kept i r (on_final_status jira text release ttl j result none status w).1
  on_final_status-Kept j result TerminalStatus.timed_out w k =
      guarded_exit-Kept j result TerminalStatus.timed_out w k
  on_final_status-Kept j result TerminalStatus.cancelled w k =
      guarded_exit-Kept j result TerminalStatus.cancelled w k
  on_final_status-Kept j result TerminalStatus.succeeded w k =
      guarded_exit-Kept j result TerminalStatus.succeeded w k
  on_final_status-Kept j result TerminalStatus.failed w k =
      guarded_exit-Kept j result TerminalStatus.failed w k
  on_final_status-Kept j result TerminalStatus.awaiting_human w k =
      guarded_exit-Kept j result TerminalStatus.awaiting_human w k

  on_exit_decision-Kept :
      (j : ℕ) (run : Run) (result : ExecutorResult) (d : MapResult) (w : World)
      → Kept i r w
      → Kept i r (on_exit_decision jira text release ttl j run result none d w).1
  unfolding mark_queued_for_retry
  on_exit_decision-Kept j run result rate_limit w k = k
  on_exit_decision-Kept j run result retry w k =
      bind-keeps (Kept i r) (mark_queued_for_retry j) (λ _. pure attempt_failed) w
        (still-Kept (with_status RunStatus.queued) j (λ x. refl) w k) (λ _ v q. q)
  on_exit_decision-Kept j run result (finalize status) w k =
      on_final_status-Kept j result status w k

  on_channel_exit-Kept :
      (j : ℕ) (run : Run) (made most : ℕ) (result : ExecutorResult) (s : ExitStatus) (w : World)
      → Kept i r w
      → Kept i r (on_channel_exit jira text release ttl j run made most result none s w).1
  on_channel_exit-Kept j run made most result ExitStatus.completed w k =
      on_clean_exit-Kept j result w k
  on_channel_exit-Kept j run made most result ExitStatus.crashed w k =
      on_exit_decision-Kept j run result _ w k
  on_channel_exit-Kept j run made most result ExitStatus.timeout w k =
      on_exit_decision-Kept j run result _ w k
  on_channel_exit-Kept j run made most result ExitStatus.rate_limited w k =
      on_exit_decision-Kept j run result _ w k
  on_channel_exit-Kept j run made most result ExitStatus.cancelled w k =
      on_exit_decision-Kept j run result _ w k

  -- However the process of a run that is wired to the callback channel ends, if it left no valid report
  -- in its outbox, a run that is parked on a human stays as it is: its status, outcome, report, error,
  -- end and attempt do not change, whether the process exited, crashed, was cancelled or timed out, with
  -- attempts left or without. The release of dependent tickets only triggers runs.
  pub parked_survives :
      (j : ℕ) (run : Run) (made most : ℕ) (result : ExecutorResult) (w : World)
      → run_of i w.runs ≡ some r
      → Kept i r (settle_channel_run jira text release ttl j run made most result none w).1
  unfolding settle_channel_run record_cost_usage
  parked_survives j run made most result w h =
      on_channel_exit-Kept j run made most result result.exit_status
        (record_cost_usage j result.cost_usd result.usage w).1
        (update-Kept is_parked (has_id j) (costed result.cost_usd result.usage) (λ x. refl)
          (λ x t. ground arith) i w r h parked)
