-- ===== src/Worker/RunProcessor.antt =====
-- apps/worker/src/run.processor.ts: one job of the queue, from its gate to the end of its run.
--
-- The agent's process, and the text that it is given, are parameters: the process may change the
-- store while it runs. The delay after a rate limit is read from the trigger event, a parameter too.
pub mod Ended
pub mod Dropped
use brigadir.Prelude.{ℕ, String, Bool, true, false, Option, none, some, ◌+◌, if◌then◌else◌}
use brigadir.Domain.{
  World, Run, AgentReport, JiraClient, Io, Result, ok, throws, pure, ◌>>=◌, ◌>>◌, run_of, non_fatal,
  is_team, throw, invalid_report, parse_report,
}
use brigadir.Runs.StatusMapping.{
  ExitStatus, MapResult, finalize, retry, rate_limit, map_exit_status_to_run_status, TerminalStatus,
}
use brigadir.Runs.Service.{
  FinalizeExtra, no_extra, mark_running, mark_queued_for_retry, finalize_with_report,
  finalize_status, record_cost_usage,
}
use brigadir.Runs.Trigger.{agent_row}
use brigadir.Pipeline.Decision.{Facts}
use brigadir.Pipeline.Completion.{on_run_finished}
use brigadir.Pipeline.StatusChange.{on_run_started}
use brigadir.Setup.Service.{TeamAcceptResult, team_invalid}
use brigadir.Worker.ExecutorGate.{Verdict, admit, refuse, check_executor_gate}
use brigadir.Ingest.Poller.{workspace_row}

pub record ExecutorResult : Type 0 where
  pub exit_status : ExitStatus
  pub report : Option AgentReport
  pub external_ref : Option String
  pub cost_usd : Option ℕ
  pub usage : Option String
  pub diagnostics : Option String

-- How a job ends for the queue: it is done, it waits again and no attempt is burned, or the attempt
-- failed.
pub data JobEnd : Type 0 where
  done : JobEnd
  waits_again : ℕ → JobEnd
  attempt_failed : JobEnd

pub record ExecutorPort : Type 0 where
  pub handoff : Run → World → Result String
  -- An error that the process throws is a crash with diagnostics.
  pub run_process : Run → String → World → ExecutorResult × World
  pub rate_limit_ttl : Run → ℕ
  pub invalid_report_error : String
  pub invalid_team_error : String

-- The inner joins with the agent and the workspace.
abbrev joined_run : World → Option Run → Option Run
joined_run w none = none
joined_run w (some run) = elim (agent_row run.agent_id w) [
  | none ↦ none
  | some agent ↦ elim (workspace_row run.workspace_id w) [ none ↦ none | some ws ↦ some run ]
]

unfoldable pub load : ℕ → World → Option Run
load i w = joined_run w (run_of i w.runs)

abbrev pub is_team_report : Option AgentReport → Bool
is_team_report none = false
is_team_report (some report) = is_team report.outcome

abbrev pub extra_of : ExecutorResult → FinalizeExtra
extra_of result = record no_extra {
  external_ref = result.external_ref;
  cost_usd = result.cost_usd;
  usage = result.usage;
}

-- `try { m } catch { h }`.
abbrev pub recover : Io Unit → Io Unit → Io Unit
recover h m w = elim (m w).0 [ ok u ↦ (ok u, (m w).1) | throws e ↦ h (m w).1 ]

module _ (jira : JiraClient) (text : Facts → String) (release : ℕ → String → Io Unit)
    (accept_team : ℕ → AgentReport → Io TeamAcceptResult) (model_limits : String → Option ℕ)
    (gate_ttl : Option ℕ) (port : ExecutorPort) where
  abbrev pub fail_run : ℕ → Option String → Io Unit
  fail_run i error =
      finalize_status i TerminalStatus.failed (record no_extra { error = error }) >> pure tt

  -- Persist first: what Jira refuses is left to drift repair.
  abbrev pub after_finalize_job : ℕ → Io Unit
  after_finalize_job i = non_fatal (on_run_finished jira text release i)

  abbrev pub after_accept : ℕ → TeamAcceptResult → Io Unit
  after_accept i (team_invalid issues) = fail_run i (some port.invalid_team_error)
  after_accept i _ = pure tt

  abbrev pub parsed_team : ℕ → Option AgentReport → Io Unit
  parsed_team i none = throw invalid_report
  parsed_team i (some report) = accept_team i report >>= after_accept i

  abbrev pub accepted_team : ℕ → Option AgentReport → Io Unit
  accepted_team i raw = parsed_team i (parse_report raw)

  abbrev pub completed_body : ℕ → ExecutorResult → Io Unit
  completed_body i result =
      if is_team_report result.report
      then accepted_team i result.report
      else finalize_with_report i result.report (extra_of result) >> pure tt

  abbrev pub on_completed_run : ℕ → ExecutorResult → Io JobEnd
  on_completed_run i result =
      recover (fail_run i (some port.invalid_report_error)) (completed_body i result)
      >> (after_finalize_job i >> pure done)

  abbrev pub on_decision : ℕ → Run → ExecutorResult → MapResult → Io JobEnd
  on_decision i run result rate_limit = pure (waits_again (port.rate_limit_ttl run))
  on_decision i run result retry = mark_queued_for_retry i >> pure attempt_failed
  on_decision i run result (finalize status) =
      finalize_status i status (record no_extra { error = result.diagnostics })
      >> (after_finalize_job i >> pure done)

  abbrev pub decision_of : ℕ → ℕ → ExecutorResult → MapResult
  decision_of attempts_made max_attempts result = map_exit_status_to_run_status (record {
    exit_status = result.exit_status;
    outcome = none;
    attempts_made = attempts_made;
    max_attempts = max_attempts;
  })

  abbrev pub on_process_exit : ℕ → Run → ℕ → ℕ → ExecutorResult → ExitStatus → Io JobEnd
  on_process_exit i run attempts_made max_attempts result ExitStatus.completed =
      on_completed_run i result
  on_process_exit i run attempts_made max_attempts result _ =
      on_decision i run result (decision_of attempts_made max_attempts result)

  -- What becomes of the run once its process has ended.
  unfoldable pub settle_result : ℕ → Run → ℕ → ℕ → ExecutorResult → Io JobEnd
  settle_result i run attempts_made max_attempts result =
      record_cost_usage i result.cost_usd result.usage
      >> on_process_exit i run attempts_made max_attempts result result.exit_status

  abbrev execute_with : Run → String → Io ExecutorResult
  execute_with run handoff w = let (result, v) = port.run_process run handoff w in (ok result, v)

  abbrev handoff_of : Run → Io String
  handoff_of run w = (port.handoff run w, w)

  abbrev pub on_startable : ℕ → Run → ℕ → ℕ → Bool → Io JobEnd
  on_startable i run attempts_made max_attempts false = pure done
  on_startable i run attempts_made max_attempts true =
      on_run_started jira i
      >> (handoff_of run >>= λ handoff.
          (execute_with run handoff >>= settle_result i run attempts_made max_attempts))

  abbrev pub on_verdict : ℕ → Run → ℕ → ℕ → Verdict → Io JobEnd
  on_verdict i run attempts_made max_attempts (refuse reason ttl profile model) =
      pure (waits_again ttl)
  on_verdict i run attempts_made max_attempts (admit near) =
      mark_running i (attempts_made + 1) >>= on_startable i run attempts_made max_attempts

  abbrev pub on_loaded : ℕ → ℕ → ℕ → Option Run → Io JobEnd
  on_loaded i attempts_made max_attempts none w = pure done w
  on_loaded i attempts_made max_attempts (some run) w =
      on_verdict i run attempts_made max_attempts (check_executor_gate model_limits gate_ttl i w) w

  unfoldable pub process_job : ℕ → ℕ → ℕ → Io JobEnd
  process_job i attempts_made max_attempts w = on_loaded i attempts_made max_attempts (load i w) w
