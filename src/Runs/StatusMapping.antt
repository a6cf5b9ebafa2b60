-- ===== src/Runs/StatusMapping.antt =====
-- libs/runs/src/status-mapping.ts: what an executor's exit makes of a run.
use brigadir.Prelude.{ℕ, Option, some, ◌+◌, ltb, if◌then◌else◌}
use brigadir.Domain.{Outcome, success, failure, needs_human}

pub data ExitStatus : Type 0 where
  completed crashed timeout rate_limited cancelled : ExitStatus

pub data TerminalStatus : Type 0 where
  succeeded failed timed_out cancelled awaiting_human : TerminalStatus

pub data MapResult : Type 0 where
  finalize : TerminalStatus → MapResult
  retry rate_limit : MapResult

pub record MapInput : Type 0 where
  pub exit_status : ExitStatus
  pub outcome : Option Outcome
  pub attempts_made : ℕ
  pub max_attempts : ℕ

abbrev on_completed : Option Outcome → MapResult
on_completed (some success) = finalize TerminalStatus.succeeded
on_completed (some failure) = finalize TerminalStatus.failed
on_completed (some needs_human) = finalize TerminalStatus.awaiting_human
on_completed _ = finalize TerminalStatus.failed

unfoldable pub map_exit_status_to_run_status : MapInput → MapResult
map_exit_status_to_run_status i = elim i.exit_status [
  | completed ↦ on_completed i.outcome
  | crashed ↦
      if ltb (i.attempts_made + 1) i.max_attempts then retry else finalize TerminalStatus.failed
  | timeout ↦ finalize TerminalStatus.timed_out
  | rate_limited ↦ rate_limit
  | cancelled ↦ finalize TerminalStatus.cancelled
]
