-- ===== src/Worker/CallbackExit.antt =====
-- apps/worker/src/claude-cli-run.processor.ts: what becomes of a run that is wired to the callback
-- channel, once the process of its agent has ended.
--
-- The report that the process left in the run's outbox, if a valid one is there, is an argument. The
-- files of the outbox and of the channel's breadcrumbs are not modelled.
pub mod Parked
use brigadir.Prelude.{ℕ, String, Option, none, some, get_or, Bool, true, false, if◌then◌else◌}
use brigadir.Domain.{
  World, Run, RunStatus, AgentReport, JiraClient, Io, pure, ◌>>=◌, ◌>>◌, non_fatal,
}
use brigadir.Runs.StatusMapping.{
  ExitStatus, MapResult, finalize, retry, rate_limit, map_exit_status_to_run_status, TerminalStatus,
}
use brigadir.Runs.Service.{
  FinalizeExtra, no_extra, mark_queued_for_retry, finalize_with_report, fail_if_still_running,
  park_if_still_running, finalize_status_if_running, record_cost_usage,
}
use brigadir.HumanTasks.Service.{has_open_blocking_task}
use brigadir.Pipeline.Decision.{Facts}
use brigadir.Pipeline.Completion.{on_run_finished}
use brigadir.Worker.Outbox.{attach_undelivered_report}
use brigadir.Worker.RunProcessor.{ExecutorResult, JobEnd, done, waits_again, attempt_failed}

abbrev no_callback : String
no_callback = "claude_cli exited without a complete_task or request_human callback"

-- The `extra` of a status that the exit alone decides.
abbrev pub exit_extra : ExecutorResult → FinalizeExtra
exit_extra result = record no_extra {
  error = result.diagnostics;
  external_ref = result.external_ref;
  cost_usd = result.cost_usd;
  usage = result.usage;
}

abbrev pub cost_extra : ExecutorResult → FinalizeExtra
cost_extra result = record no_extra { cost_usd = result.cost_usd; usage = result.usage }

-- A stop that was asked for keeps the report beside the run.
abbrev pub attach_if_cancelled : ℕ → TerminalStatus → Option AgentReport → Io Unit
attach_if_cancelled i TerminalStatus.cancelled (some report) =
    attach_undelivered_report i report RunStatus.cancelled "exit_reconcile" >> pure tt
attach_if_cancelled i _ _ = pure tt

module _ (jira : JiraClient) (text : Facts → String) (release : ℕ → String → Io Unit)
    (rate_limit_ttl : Run → ℕ) where
  abbrev pub after_flipped : ℕ → Bool → Io JobEnd
  after_flipped i true = non_fatal (on_run_finished jira text release i) >> pure done
  after_flipped i false = pure done

  -- A process that exits by itself: an undelivered report ends the run, an open question parks it, and
  -- without either it failed.
  abbrev pub on_clean_exit : ℕ → ExecutorResult → Option AgentReport → Io JobEnd
  on_clean_exit i result (some report) w =
      (finalize_with_report i (some report) (cost_extra result) >>= after_flipped i) w
  on_clean_exit i result none w =
      (if has_open_blocking_task i w
          then park_if_still_running i >> pure done
          else (fail_if_still_running i (get_or result.diagnostics no_callback)
              >>= after_flipped i))
        w

  abbrev pub guarded_exit : ℕ → ExecutorResult → TerminalStatus → Io JobEnd
  guarded_exit i result status =
      finalize_status_if_running i status (exit_extra result) >>= after_flipped i

  abbrev pub after_late_report : ℕ → ExecutorResult → Bool → Io JobEnd
  after_late_report i result true = after_flipped i true
  after_late_report i result false = guarded_exit i result TerminalStatus.timed_out

  -- Only a timeout is overruled by a report.
  abbrev pub on_final_status : ℕ → ExecutorResult → Option AgentReport → TerminalStatus → Io JobEnd
  on_final_status i result (some report) TerminalStatus.timed_out =
      finalize_with_report i (some report) (exit_extra result) >>= after_late_report i result
  on_final_status i result outbox status =
      attach_if_cancelled i status outbox >> guarded_exit i result status

  abbrev pub on_exit_decision :
      ℕ → Run → ExecutorResult → Option AgentReport → MapResult → Io JobEnd
  on_exit_decision i run result outbox rate_limit = pure (waits_again (rate_limit_ttl run))
  on_exit_decision i run result outbox retry = mark_queued_for_retry i >> pure attempt_failed
  on_exit_decision i run result outbox (finalize status) = on_final_status i result outbox status

  abbrev pub on_channel_exit :
      ℕ → Run → ℕ → ℕ → ExecutorResult → Option AgentReport → ExitStatus → Io JobEnd
  on_channel_exit i run attempts_made max_attempts result outbox ExitStatus.completed =
      on_clean_exit i result outbox
  on_channel_exit i run attempts_made max_attempts result outbox status =
      on_exit_decision i run result outbox (
        map_exit_status_to_run_status (record {
          exit_status = status;
          outcome = none;
          attempts_made = attempts_made;
          max_attempts = max_attempts;
        }))

  unfoldable pub settle_channel_run :
      ℕ → Run → ℕ → ℕ → ExecutorResult → Option AgentReport → Io JobEnd
  settle_channel_run i run attempts_made max_attempts result outbox =
      record_cost_usage i result.cost_usd result.usage
      >> on_channel_exit i run attempts_made max_attempts result outbox result.exit_status
