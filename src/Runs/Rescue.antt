-- ===== src/Runs/Rescue.antt =====
-- The rescue of a run by a report from the durable outbox (`reconcileWithReport`): the guard is wider
-- than the indexes, so a rescue may be rejected, and a `team` report takes the parking branch.
use brigadir.Prelude.{
  ℕ, Bool, true, false, ◌&&◌, not, Option, some, List, [], ◌∷◌, ◌≡◌, refl, arith, inl, inr,
  any_where, update_where, same_id?, ◌∙◌, ap, find_where-some,
}
use brigadir.Domain.{
  World, Run, AgentReport, team, is_active, has_id, slot, on_ticket, taken, indexes_ok,
  parse_report, update_runs, run_of, ok, throws, unique_violation, Result, awaiting_human,
  guarded_update,
}
use brigadir.Runs.StatusMapping.{TerminalStatus}
use brigadir.Runs.Service.{
  FinalizeExtra, reconcilable, report_update, reconcile_with_report, persist_report,
  report_terminal_status, status_of,
}
use brigadir.Runs.Rows.{
  persist_report-throws, persist_report-ok, result-effects_if, runs-effects_if, run_of-update,
  human_tasks-effects_if,
}
use brigadir.Runs.Index.{Shrinks, after, guarded_update-ok, guarded_update-cases}

-- The report parks the run it is applied to.
abbrev pub Parks : AgentReport → Type 0
Parks report = report_terminal_status report.outcome ≡ TerminalStatus.awaiting_human

abbrev pub rescued : ℕ → Run → Bool
rescued i r = has_id i r && reconcilable r

-- A row that the update would park on the ticket, and another row that is active there.
abbrev pub candidate : ℕ → ℕ → Run → Bool
candidate i t r = rescued i r && same_id? r.ticket_id (some t)

abbrev pub rival : ℕ → ℕ → Run → Bool
rival i t r = not (has_id i r) && (is_active r.status && same_id? r.ticket_id (some t))

module _ (i t : ℕ) (report : AgentReport) (extra : FinalizeExtra) (now : ℕ) where
  abbrev rows_after : List Run → List Run
  rows_after rows = update_where (rescued i) (report_update report extra now) rows

  taken-candidate :
      Parks report
      → (rows : List Run) → any_where (candidate i t) rows ≡ true
      → taken (some (on_ticket t)) (rows_after rows) ≡ true
  unfolding slot
  taken-candidate p [] h = cc
  taken-candidate p (r ∷ rows) h = ground (arith, taken-candidate p rows)

  taken-rival :
      (rows : List Run)
      → any_where (rival i t) rows ≡ true
      → taken (some (on_ticket t)) (rows_after rows) ≡ true
  unfolding slot
  taken-rival [] h = cc
  taken-rival (r ∷ rows) h = ground (arith, taken-rival rows)

  indexes-broken :
      Parks report
      → (rows : List Run) → any_where (candidate i t) rows ≡ true
      → any_where (rival i t) rows ≡ true
      → indexes_ok (rows_after rows) ≡ false
  unfolding slot indexes_ok
  indexes-broken p [] h k = cc
  indexes-broken p (r ∷ rows) h k =
      ground (arith, indexes-broken p rows, taken-candidate p rows, taken-rival rows)

-- A run that a report would park cannot be rescued while another run is active on its ticket: the
-- update is rejected, the call throws, and nothing is written.
pub rescue_rejected :
    (i t : ℕ) (raw : Option AgentReport) (report : AgentReport) (extra : FinalizeExtra) (w : World)
    → parse_report raw ≡ some report
    → Parks report
    → any_where (candidate i t) w.runs ≡ true
    → any_where (rival i t) w.runs ≡ true
    → reconcile_with_report i raw extra w ≡ (throws unique_violation, w)
unfolding reconcile_with_report update_runs
rescue_rejected i t raw report extra w parsed p h k =
    rw (parsed, reconcile_with_report)
      (persist_report-throws reconcilable i report extra w (
        rw (indexes-broken i t report extra w.clock p w.runs h k, guarded_update, update_runs)
          refl))

report_update-Shrinks :
    (i : ℕ) (report : AgentReport) (extra : FinalizeExtra) (now : ℕ)
    → is_active (status_of (report_terminal_status report.outcome)) ≡ false
    → (r : Run) → Shrinks (slot (after (rescued i) (report_update report extra now) r)) (slot r)
unfolding slot
report_update-Shrinks i report extra now e r = ground arith

-- Where the table obeys its indexes, a valid report that ends its run is never rejected for them:
-- the call returns whether the run was active, or failed or timed out with no outcome recorded.
pub rescue_ends :
    (i : ℕ) (raw : Option AgentReport) (report : AgentReport) (extra : FinalizeExtra) (w : World)
    → parse_report raw ≡ some report
    → is_active (status_of (report_terminal_status report.outcome)) ≡ false
    → indexes_ok w.runs ≡ true
    → (reconcile_with_report i raw extra w).0 ≡ ok (any_where (rescued i) w.runs)
unfolding reconcile_with_report
rescue_ends i raw report extra w parsed e h =
    rw (parsed, reconcile_with_report)
      (rw
        (persist_report-ok reconcilable i report extra w (
          guarded_update-ok (rescued i) (report_update report extra w.clock)
            (report_update-Shrinks i report extra w.clock e) w h))
        (result-effects_if (any_where (rescued i) w.runs) i report (record w {
          runs = update_where (rescued i) (report_update report extra w.clock) w.runs;
        })))

-- A rescue with a `team` report, where it takes effect, parks the run on a human and puts no
-- question to any human: no human task is written.
pub team_rescue_parks :
    (i : ℕ) (raw : Option AgentReport) (report : AgentReport) (extra : FinalizeExtra) (w : World)
    (r : Run)
    → parse_report raw ≡ some report
    → report.outcome ≡ team
    → run_of i w.runs ≡ some r
    → reconcilable r ≡ true
    → (reconcile_with_report i raw extra w).0 ≡ ok true
    → let w' = (reconcile_with_report i raw extra w).1 in
      (r' : Run) × (run_of i w'.runs ≡ some r')
      × (r'.status ≡ awaiting_human)
      × (w'.human_tasks ≡ w.human_tasks)
unfolding reconcile_with_report report_terminal_status
team_rescue_parks i raw report extra w r parsed o h k done =
    elim (guarded_update-cases (rescued i) f w) [
      | inl e ↦ absurd (threw (made ∙ persist_report-throws reconcilable i report extra w e))
      | inr e ↦
          let all = made ∙ persist_report-ok reconcilable i report extra w e in
          let w2 : World = record w { runs = update_where (rescued i) f w.runs } in
          let b = any_where (rescued i) w.runs in
          (
            after (rescued i) f r,
            rw (all, runs-effects_if b i report w2)
                (run_of-update (rescued i) f (λ x. refl) i w.runs h),
            parked (find_where-some (has_id i) w.runs h).0,
            rw all (human_tasks-effects_if b i report w2 (rw o refl)),
          )
    ]
  where
    f : Run → Run
    f = report_update report extra w.clock

    made : reconcile_with_report i raw extra w ≡ persist_report reconcilable i report extra w
    made = rw (parsed, reconcile_with_report) refl

    threw : {w' : World} → reconcile_with_report i raw extra w ≡ (throws unique_violation, w') → ⊥
    threw e = cc (done, ap {B = Result Bool} (λ (x : Result Bool × World). x.0) e)

    parked : has_id i r ≡ true → (after (rescued i) f r).status ≡ awaiting_human
    parked e = rw (o, e, k) refl
