-- ===== src/Runs/Service.antt =====
-- libs/runs/src/runs.service.ts: the run state machine. Each write to a run's status is one guarded
-- update; a method returns whether it took effect.
use brigadir.Prelude.{
  ℕ, suc, String, Bool, true, false, ◌&&◌, ◌||◌, not, Option, none, some, List, [], ◌∷◌, ◌++◌, max,
  or_else, is_some, any_where, if◌then◌else◌, same_id?,
}
use brigadir.Domain.{
  Run, RunStatus, RunCheck, HumanTask, Check, AgentReport, ReportHumanTask, Outcome, success,
  failure, needs_human, routed, parse_report, is_active, is_open, open_task, has_id, run_of, Io,
  pure, throw, modify, ◌>>=◌, ◌>>◌, guarded_update, add_task, fresh_id, invalid_report,
}
use brigadir.Runs.StatusMapping.{TerminalStatus}

pub record FinalizeExtra : Type 0 where
  pub external_ref : Option String
  pub cost_usd : Option ℕ
  pub usage : Option String
  pub error : Option String
  pub exit_code : Option ℕ

abbrev pub no_extra : FinalizeExtra
no_extra = record {
  external_ref = none;
  cost_usd = none;
  usage = none;
  error = none;
  exit_code = none;
}

abbrev pub status_of : TerminalStatus → RunStatus
status_of TerminalStatus.succeeded = RunStatus.succeeded
status_of TerminalStatus.failed = RunStatus.failed
status_of TerminalStatus.timed_out = RunStatus.timed_out
status_of TerminalStatus.cancelled = RunStatus.cancelled
status_of TerminalStatus.awaiting_human = RunStatus.awaiting_human

unfoldable pub report_terminal_status : Outcome → TerminalStatus
report_terminal_status success = TerminalStatus.succeeded
report_terminal_status routed = TerminalStatus.succeeded
report_terminal_status failure = TerminalStatus.failed
report_terminal_status _ = TerminalStatus.awaiting_human

-- The guards of the updates, on the status.
abbrev pub is_running : RunStatus → Bool
is_running RunStatus.running = true
is_running _ = false

abbrev pub is_startable : RunStatus → Bool
is_startable RunStatus.queued = true
is_startable RunStatus.running = true
is_startable _ = false

-- `RESCUABLE_TERMINAL_STATUSES`.
abbrev pub is_rescuable : RunStatus → Bool
is_rescuable RunStatus.failed = true
is_rescuable RunStatus.timed_out = true
is_rescuable _ = false

-- Keys that are `undefined` in `set({ ... })` leave their column alone.
abbrev pub spread : FinalizeExtra → Run → Run
spread x r = record r {
  external_ref = or_else x.external_ref r.external_ref;
  cost_usd = or_else x.cost_usd r.cost_usd;
  usage = or_else x.usage r.usage;
  error = or_else x.error r.error;
  exit_code = or_else x.exit_code r.exit_code;
}

abbrev pub finish : RunStatus → ℕ → Run → Run
finish s now r = record r { status = s; finished_at = some now }

abbrev pub with_report : AgentReport → Run → Run
with_report p r = record r { report = some p; outcome = some p.outcome }

-- `where id = i and status …`.
abbrev pub where_status : (RunStatus → Bool) → ℕ → Run → Bool
where_status guard i r = has_id i r && guard r.status

abbrev pub started : ℕ → ℕ → Run → Run
started attempt now r = record r {
  status = RunStatus.running;
  started_at = or_else r.started_at (some now);
  attempt = max r.attempt attempt;
}

unfoldable pub mark_running : ℕ → ℕ → Io Bool
mark_running i attempt w = guarded_update (where_status is_startable i) (started attempt w.clock) w

abbrev pub with_status : RunStatus → Run → Run
with_status s r = record r { status = s }

unfoldable pub mark_queued_for_retry : ℕ → Io Bool
mark_queued_for_retry i = guarded_update (where_status is_running i) (with_status RunStatus.queued)

unfoldable pub guarded_finalize : ℕ → (Run → Run) → Io Bool
guarded_finalize i fields = guarded_update (where_status is_active i) fields

abbrev pub check_rows : ℕ → ℕ → List Check → List RunCheck
check_rows i position [] = []
check_rows i position (c ∷ cs) =
    record { run_id = i; position = position; name = c.name; status = c.status; reason = c.reason }
    ∷ check_rows i (suc position) cs

unfoldable pub write_checks : ℕ → AgentReport → Io Unit
write_checks i report =
    modify (λ w. record w { run_checks = w.run_checks ++ check_rows i 0 report.checks })

-- An open human task of a run, blocking or not.
abbrev pub open_task_of : ℕ → Bool → HumanTask → Bool
open_task_of i b t =
    same_id? t.run_id (some i) && is_open t.status && (if b then t.blocking else not t.blocking)

abbrev pub blocking_task : ℕ → ReportHumanTask → Run → ℕ → HumanTask
blocking_task i h run id = record {
  id = id;
  workspace_id = run.workspace_id;
  run_id = some i;
  ticket_id = run.ticket_id;
  kind = h.kind;
  title = h.title;
  details = h.details;
  options = h.options;
  blocking = true;
  status = open_task;
  resolution = none;
  resolved_at = none;
  resolved_by = none;
}

unfoldable pub create_human_task : ℕ → ReportHumanTask → Io Unit
create_human_task i h w =
    if any_where (open_task_of i true) w.human_tasks then pure tt w else elim (run_of i w.runs) [
      | none ↦ pure tt w
      | some run ↦ add_task (blocking_task i h run (fresh_id w)) w
    ]

abbrev pub needs_human_task : AgentReport → Option ReportHumanTask
needs_human_task r = elim r.outcome [ needs_human ↦ r.human_task | _ ↦ none ]

unfoldable pub apply_report_effects : ℕ → AgentReport → Io Unit
unfolding write_checks create_human_task
apply_report_effects i report =
    write_checks i report
    >> elim (needs_human_task report) [ some h ↦ create_human_task i h | none ↦ pure tt ]

unfoldable pub effects_if : Bool → ℕ → AgentReport → Io Bool
effects_if false i report = pure false
effects_if true i report = apply_report_effects i report >> pure true

-- The fields of the update that persists a report.
abbrev pub report_update : AgentReport → FinalizeExtra → ℕ → Run → Run
report_update report extra now r =
    spread extra
      (with_report report (finish (status_of (report_terminal_status report.outcome)) now r))

-- The update, and on a flip the report's effects.
unfoldable pub persist_report : (Run → Bool) → ℕ → AgentReport → FinalizeExtra → Io Bool
persist_report guard i report extra w =
    (guarded_update (λ r. has_id i r && guard r) (report_update report extra w.clock) >>= λ flipped.
    effects_if flipped i report)
      w

-- `ReportSchema.parse(rawReport)` throws before anything is written.
abbrev pub with_parsed : Option AgentReport → (AgentReport → Io Bool) → Io Bool
with_parsed none k = throw invalid_report
with_parsed (some report) k = k report

unfoldable pub finalize_with_report : ℕ → Option AgentReport → FinalizeExtra → Io Bool
unfolding persist_report
finalize_with_report i raw extra =
    with_parsed (parse_report raw)
      (λ report. persist_report (λ r. is_active r.status) i report extra)

abbrev pub reconcilable : Run → Bool
reconcilable r = is_active r.status || (is_rescuable r.status && not (is_some r.outcome))

unfoldable pub reconcile_with_report : ℕ → Option AgentReport → FinalizeExtra → Io Bool
unfolding persist_report
reconcile_with_report i raw extra =
    with_parsed (parse_report raw) (λ report. persist_report reconcilable i report extra)

abbrev pub failed_with : String → ℕ → Run → Run
failed_with diagnostic now r = record (finish RunStatus.failed now r) { error = some diagnostic }

unfoldable pub fail_if_still_running : ℕ → String → Io Bool
fail_if_still_running i diagnostic w =
    guarded_update (where_status is_running i) (failed_with diagnostic w.clock) w

unfoldable pub park_if_still_running : ℕ → Io Bool
park_if_still_running i =
    guarded_update (where_status is_running i) (with_status RunStatus.awaiting_human)

abbrev pub finalized : TerminalStatus → FinalizeExtra → ℕ → Run → Run
finalized status extra now r = spread extra (finish (status_of status) now r)

unfoldable pub finalize_status_if_running : ℕ → TerminalStatus → FinalizeExtra → Io Bool
finalize_status_if_running i status extra w =
    guarded_update (where_status is_running i) (finalized status extra w.clock) w

unfoldable pub finalize_status : ℕ → TerminalStatus → FinalizeExtra → Io Bool
unfolding guarded_finalize
finalize_status i status extra w = guarded_finalize i (finalized status extra w.clock) w

abbrev pub costed : Option ℕ → Option String → Run → Run
costed cost_usd usage r = record r {
  cost_usd = or_else cost_usd r.cost_usd;
  usage = or_else usage r.usage;
}

-- Overwrites cost and usage whatever the status; a failing write is only logged.
unfoldable pub record_cost_usage : ℕ → Option ℕ → Option String → Io Unit
record_cost_usage i cost_usd usage w =
    let (_, w') = guarded_update (has_id i) (costed cost_usd usage) w in pure tt w'
