-- ===== src/Runs/Rows.antt =====
-- How a row is found again after an update or an insertion, and what the report's effects leave
-- alone.
use brigadir.Prelude.{
  ℕ, Bool, true, false, none, some, List, [], ◌∷◌, ◌≡◌, ◌⊎◌, refl, ◌&&◌, ap, arith, update_where,
}
use brigadir.Domain.{
  World, Run, AgentReport, has_id, run_of, update_runs, guarded_update, Result, Failure, ok, throws,
}
use brigadir.Runs.Service.{
  apply_report_effects, effects_if, needs_human_task, FinalizeExtra, persist_report, report_update,
}
use brigadir.Runs.Index.{after}

module _ (p : Run → Bool) (f : Run → Run) (ids : (r : Run) → (f r).id ≡ r.id) where
  pub run_of-update :
      (i : ℕ) (rows : List Run) {r : Run}
      → run_of i rows ≡ some r
      → run_of i (update_where p f rows) ≡ some (after p f r)
  run_of-update i [] h = ground arith
  run_of-update i (x ∷ rows) {r} h = ground (arith, ids x, run_of-update i rows {r = r})

  pub run_of-guarded_update :
      (i : ℕ) (w : World) {r : Run}
      → run_of i w.runs ≡ some r
      → (run_of i (guarded_update p f w).1.runs ≡ some r)
        ⊎ (run_of i (guarded_update p f w).1.runs ≡ some (after p f r))
  unfolding update_runs
  run_of-guarded_update i w {r} h = ground (arith, run_of-update i w.runs {r = r} h)

pub runs-apply_report_effects :
    (i : ℕ) (report : AgentReport) (w : World) → (apply_report_effects i report w).1.runs ≡ w.runs
unfolding apply_report_effects
runs-apply_report_effects i report w = ground arith

pub runs-effects_if :
    (b : Bool) (i : ℕ) (report : AgentReport) (w : World)
    → (effects_if b i report w).1.runs ≡ w.runs
unfolding effects_if
runs-effects_if false i report w = refl
runs-effects_if true i report w = ground (arith, runs-apply_report_effects i report w)

abbrev effects_after : Result Bool × World → ℕ → AgentReport → World
effects_after (ok b, w) i report = (effects_if b i report w).1
effects_after (throws e, w) i report = w

runs-effects_after :
    (x : Result Bool × World) (i : ℕ) (report : AgentReport)
    → (effects_after x i report).runs ≡ x.1.runs
runs-effects_after (ok b, w) i report = runs-effects_if b i report w
runs-effects_after (throws e, w) i report = refl

-- Persisting a report leaves the runs that its update leaves.
pub runs-persist_report :
    (guard : Run → Bool) (i : ℕ) (report : AgentReport) (extra : FinalizeExtra) (w : World)
    → (persist_report guard i report extra w).1.runs
      ≡ (guarded_update (λ r. has_id i r && guard r) (report_update report extra w.clock) w).1.runs
unfolding persist_report
runs-persist_report guard i report extra w = ground (
  arith,
  runs-effects_after
      (guarded_update (λ r. has_id i r && guard r) (report_update report extra w.clock) w) i report,
)

-- The effects of a report never throw.
pub result-effects_if :
    (b : Bool) (i : ℕ) (report : AgentReport) (w : World) → (effects_if b i report w).0 ≡ ok b
unfolding effects_if apply_report_effects
result-effects_if false i report w = refl
result-effects_if true i report w = ground arith

pub persist_report-throws :
    (guard : Run → Bool) (i : ℕ) (report : AgentReport) (extra : FinalizeExtra) (w : World)
    {e : Failure} {w' : World}
    → guarded_update (λ r. has_id i r && guard r) (report_update report extra w.clock) w
      ≡ (throws e, w')
    → persist_report guard i report extra w ≡ (throws e, w')
unfolding persist_report
persist_report-throws guard i report extra w {e} {w'} h =
    ap {B = Result Bool × World}
      (λ (x : Result Bool × World). elim x.0 [
        | ok b ↦ effects_if b i report x.1
        | throws e ↦ (throws e, x.1)
      ])
      h

-- Persisting a report returns what its update returned, and has the report's effects on a flip.
pub persist_report-ok :
    (guard : Run → Bool) (i : ℕ) (report : AgentReport) (extra : FinalizeExtra) (w : World)
    {b : Bool} {w' : World}
    → guarded_update (λ r. has_id i r && guard r) (report_update report extra w.clock) w
      ≡ (ok b, w')
    → persist_report guard i report extra w ≡ effects_if b i report w'
unfolding persist_report
persist_report-ok guard i report extra w {b} {w'} h =
    ap {B = Result Bool × World}
      (λ (x : Result Bool × World). elim x.0 [
        | ok b ↦ effects_if b i report x.1
        | throws e ↦ (throws e, x.1)
      ])
      h

-- Only a report that asks for a human writes to the human tasks.
pub human_tasks-effects_if :
    (b : Bool) (i : ℕ) (report : AgentReport) (w : World)
    → needs_human_task report ≡ none
    → (effects_if b i report w).1.human_tasks ≡ w.human_tasks
unfolding effects_if apply_report_effects
human_tasks-effects_if false i report w h = refl
human_tasks-effects_if true i report w h = rw (h, effects_if, apply_report_effects) refl
