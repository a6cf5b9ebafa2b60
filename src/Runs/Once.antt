-- ===== src/Runs/Once.antt =====
-- A run is finalized by a report once (`finalizeWithReport`).
use brigadir.Prelude.{
  ℕ, Bool, true, false, Option, some, List, ◌≡◌, arith, any_where, update_where,
  any_where-update_where,
}
use brigadir.Domain.{World, Run, AgentReport, is_active, slot, indexes_ok, parse_report, ok}
use brigadir.Runs.Service.{
  FinalizeExtra, finalize_with_report, report_update, report_terminal_status, status_of,
  where_status, effects_if,
}
use brigadir.Runs.Index.{Shrinks, after, indexes_ok-update, guarded_update-ok, guarded_update-none}
use brigadir.Runs.Rows.{persist_report-ok, runs-effects_if, result-effects_if}

-- The report ends the run: it is `success`, `routed` or `failure`.
abbrev pub Ends : AgentReport → Type 0
Ends report = is_active (status_of (report_terminal_status report.outcome)) ≡ false

abbrev active_run : Run → Bool
active_run r = is_active r.status

report-Shrinks :
    (i : ℕ) (report : AgentReport) (extra : FinalizeExtra) (now : ℕ) (r : Run)
    → Shrinks (slot (after (where_status is_active i) (report_update report extra now) r)) (slot r)
unfolding slot
report-Shrinks i report extra now r = ground arith

ending-inactive :
    (i : ℕ) (report : AgentReport) (extra : FinalizeExtra) (now : ℕ)
    → Ends report
    → (r : Run)
    → where_status is_active i (after (where_status is_active i) (report_update report extra now) r)
      ≡ false
ending-inactive i report extra now e r = ground arith

-- Where no run with the identifier is active, a report is refused and nothing is written.
pub finalize_refused :
    (i : ℕ) (raw : Option AgentReport) (report : AgentReport) (extra : FinalizeExtra) (w : World)
    → parse_report raw ≡ some report
    → indexes_ok w.runs ≡ true
    → any_where (where_status is_active i) w.runs ≡ false
    → finalize_with_report i raw extra w ≡ (ok false, w)
unfolding finalize_with_report effects_if
finalize_refused i raw report extra w parsed h e =
    rw (parsed, finalize_with_report)
      (persist_report-ok active_run i report extra w
        (guarded_update-none (where_status is_active i) (report_update report extra w.clock) w h e))

module _ (i : ℕ) (raw : Option AgentReport) (report : AgentReport) (extra : FinalizeExtra)
    (w : World) (parsed : parse_report raw ≡ some report) (h : indexes_ok w.runs ≡ true) where
  abbrev rows_after : List Run
  rows_after = update_where (where_status is_active i) (report_update report extra w.clock) w.runs

  -- A report is never rejected for the indexes: the call returns whether the run was active.
  pub finalize-eq :
      finalize_with_report i raw extra w
      ≡ effects_if
          (any_where (where_status is_active i) w.runs)
          i
          report
          (record w { runs = rows_after })
  unfolding finalize_with_report
  finalize-eq =
      rw (parsed, finalize_with_report)
        (persist_report-ok active_run i report extra w (
          guarded_update-ok (where_status is_active i) (report_update report extra w.clock)
            (report-Shrinks i report extra w.clock) w h))

  pub runs-finalize : (finalize_with_report i raw extra w).1.runs ≡ rows_after
  runs-finalize = rw finalize-eq (
      runs-effects_if (any_where (where_status is_active i) w.runs) i report
        (record w { runs = rows_after }))

-- In a store that obeys the indexes on runs, of two valid reports for one run, of which the first
-- ends it, only the first has an effect: it returns whether the run was active, and the second is
-- refused and writes nothing.
pub one_finalize_wins :
    (i : ℕ) (raw raw' : Option AgentReport) (report report' : AgentReport)
    (extra extra' : FinalizeExtra) (w : World)
    → parse_report raw ≡ some report
    → parse_report raw' ≡ some report'
    → Ends report
    → indexes_ok w.runs ≡ true
    → let (result, w') = finalize_with_report i raw extra w in
      (result ≡ ok (any_where (where_status is_active i) w.runs))
      × (finalize_with_report i raw' extra' w' ≡ (ok false, w'))
one_finalize_wins i raw raw' report report' extra extra' w p p' e h =
    let f = report_update report extra w.clock in
    let q = where_status is_active i in
    let runs_eq = runs-finalize i raw report extra w p h in
    (
      rw (finalize-eq i raw report extra w p h) (
          result-effects_if (any_where q w.runs) i report
            (record w { runs = update_where q f w.runs })),
      finalize_refused i raw' report' extra' (finalize_with_report i raw extra w).1 p'
          (rw runs_eq (indexes_ok-update q f (report-Shrinks i report extra w.clock) w.runs h))
          (rw runs_eq
            (any_where-update_where q q f (ending-inactive i report extra w.clock e) w.runs)),
    )
