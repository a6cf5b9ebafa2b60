-- ===== src/Runs/Questions.antt =====
-- The blocking question of a parked run: at most one is open, and a report that asks for a human
-- leaves one open.
use brigadir.Prelude.{
  ℕ, Bool, true, false, Option, none, some, List, [], ◌∷◌, ◌≡◌, refl, arith, ◌≤◌, inl, inr,
  any_where, count_where, count_where-none, count_where-append, any_where-append, ◌&&◌, Bool-cases,
  Option-cases, any_where-find_where, update_where,
}
use brigadir.Domain.{
  World, Run, AgentReport, ReportHumanTask, needs_human, parse_report, run_of, has_id, ok,
  guarded_update, Io, queued, awaiting_human, is_active, indexes_ok, RunStatus,
}
use brigadir.Runs.Service.{
  FinalizeExtra, finalize_with_report, reconcile_with_report, persist_report, report_update,
  effects_if, apply_report_effects, create_human_task, open_task_of, needs_human_task, with_parsed,
  blocking_task, mark_running, mark_queued_for_retry, fail_if_still_running, park_if_still_running,
  finalize_status_if_running, finalize_status, guarded_finalize, record_cost_usage, reconcilable,
  where_status, is_startable, is_running, started, with_status, failed_with, finalized, costed,
  write_checks,
}
use brigadir.Runs.Lifecycle.{
  Call, perform, perform_all, start, requeue, finalize, reconcile, fail, park, finalize_running,
  finalize_any, cost,
}
use brigadir.Runs.Index.{guarded_update-cases}
use brigadir.Runs.Rows.{persist_report-throws, persist_report-ok, result-effects_if}
use brigadir.Runs.Once.{finalize-eq}

-- How many blocking questions of a run are open.
abbrev pub questions : ℕ → World → ℕ
questions i w = count_where (open_task_of i true) w.human_tasks

create-questions :
    (i j : ℕ) (h : ReportHumanTask) (w : World)
    → questions i w ≤ 1
    → questions i (create_human_task j h w).1 ≤ 1
unfolding create_human_task
create-questions i j h w q = elim (Bool-cases (any_where (open_task_of j true) w.human_tasks)) [
  | inl e ↦ rw (e, create_human_task) q
  | inr e ↦ elim (Option-cases (run_of j w.runs)) [
    | inl none_found ↦ rw (e, none_found, create_human_task) q
    | inr (run, found) ↦
        rw (e, found, create_human_task)
          (ground (
            arith,
            count_where-none (open_task_of j true) w.human_tasks e,
            count_where-append (open_task_of i true) w.human_tasks
                (blocking_task j h run (w.uuids w.drawn) ∷ []),
          ))
  ]
]

effects-questions :
    (i : ℕ) (b : Bool) (j : ℕ) (report : AgentReport) (w : World)
    → questions i w ≤ 1
    → questions i (effects_if b j report w).1 ≤ 1
unfolding effects_if apply_report_effects write_checks
effects-questions i false j report w q = q
effects-questions i true j report w q = elim (Option-cases (needs_human_task report)) [
  | inl e ↦ rw (e, effects_if, apply_report_effects) q
  | inr (h, e) ↦
      rw (e, effects_if, apply_report_effects)
        (ground (arith, create-questions i j h (write_checks j report w).1 q))
]

update-questions :
    (i : ℕ) (p : Run → Bool) (f : Run → Run) (w : World)
    → questions i (guarded_update p f w).1 ≡ questions i w
update-questions i p f w = elim (guarded_update-cases p f w) [
  | inl e ↦ rw e refl
  | inr e ↦ rw e refl
]

persist-questions :
    (i : ℕ) (guard : Run → Bool) (j : ℕ) (report : AgentReport) (extra : FinalizeExtra) (w : World)
    → questions i w ≤ 1
    → questions i (persist_report guard j report extra w).1 ≤ 1
persist-questions i guard j report extra w q =
    let p : Run → Bool = λ r. has_id j r && guard r in
    let f : Run → Run = report_update report extra w.clock in
    elim (guarded_update-cases p f w) [
      | inl e ↦ rw (persist_report-throws guard j report extra w e) q
      | inr e ↦ rw (persist_report-ok guard j report extra w e) (
          effects-questions i (any_where p w.runs) j report
            (record w { runs = update_where p f w.runs }) q)
    ]

parsed-questions :
    (i : ℕ) (o : Option AgentReport) (k : AgentReport → Io Bool) (w : World)
    → questions i w ≤ 1
    → ((report : AgentReport) → questions i (k report w).1 ≤ 1)
    → questions i (with_parsed o k w).1 ≤ 1
parsed-questions i none k w q h = q
parsed-questions i (some report) k w q h = h report

perform-questions :
    (i : ℕ) (c : Call) (w : World) → questions i w ≤ 1 → questions i (perform c w) ≤ 1
unfolding perform mark_running mark_queued_for_retry finalize_with_report reconcile_with_report
    fail_if_still_running park_if_still_running finalize_status_if_running finalize_status
    guarded_finalize record_cost_usage
perform-questions i (start j a) w q =
    rw (update-questions i (where_status is_startable j) (started a w.clock) w) q
perform-questions i (requeue j) w q =
    rw (update-questions i (where_status is_running j) (with_status queued) w) q
perform-questions i (finalize j raw extra) w q =
    parsed-questions i (parse_report raw)
      (λ report. persist_report (λ x. is_active x.status) j report extra) w q
      (λ report. persist-questions i (λ x. is_active x.status) j report extra w q)
perform-questions i (reconcile j raw extra) w q =
    parsed-questions i (parse_report raw) (λ report. persist_report reconcilable j report extra) w q
      (λ report. persist-questions i reconcilable j report extra w q)
perform-questions i (fail j d) w q =
    rw (update-questions i (where_status is_running j) (failed_with d w.clock) w) q
perform-questions i (park j) w q =
    rw (update-questions i (where_status is_running j) (with_status awaiting_human) w) q
perform-questions i (finalize_running j st x) w q =
    rw (update-questions i (where_status is_running j) (finalized st x w.clock) w) q
perform-questions i (finalize_any j st x) w q =
    rw (update-questions i (where_status is_active j) (finalized st x w.clock) w) q
perform-questions i (cost j c u) w q = rw (update-questions i (has_id j) (costed c u) w) q

-- Whatever calls are made of the run service, no run has two open blocking questions, if none had
-- two before.
pub one_question :
    (cs : List Call) (i : ℕ) (w : World) → questions i w ≤ 1 → questions i (perform_all cs w) ≤ 1
unfolding perform_all
one_question [] i w q = q
one_question (c ∷ cs) i w q = one_question cs i (perform c w) (perform-questions i c w q)

present-update :
    (i : ℕ) (guard : RunStatus → Bool) (f : Run → Run)
    → ((r : Run) → (f r).id ≡ r.id)
    → (rows : List Run) → any_where (where_status guard i) rows ≡ true
    → any_where (has_id i) (update_where (where_status guard i) f rows) ≡ true
present-update i guard f ids [] h = cc
present-update i guard f ids (r ∷ rows) h = ground (arith, ids r, present-update i guard f ids rows)

-- A report that asks for a human carries the question.
parsed_question :
    (raw : Option AgentReport) (report : AgentReport)
    → parse_report raw ≡ some report
    → report.outcome ≡ needs_human
    → (h : ReportHumanTask) × (needs_human_task report ≡ some h)
unfolding parse_report
parsed_question none report p o = cc
parsed_question (some r) report p o = elim (Option-cases report.human_task) [
  | inl e ↦ absurd (ground arith)
  | inr (h, e) ↦ (h, rw (o, needs_human_task) e)
]

create_asks :
    (i : ℕ) (h : ReportHumanTask) (w : World)
    → any_where (has_id i) w.runs ≡ true
    → any_where (open_task_of i true) (create_human_task i h w).1.human_tasks ≡ true
unfolding create_human_task
create_asks i h w present = elim (Bool-cases (any_where (open_task_of i true) w.human_tasks)) [
  | inl e ↦ rw (e, create_human_task) e
  | inr e ↦
      let (run, found, _) = any_where-find_where (has_id i) w.runs present in
      rw (e, found, create_human_task)
        (rw
          (any_where-append (open_task_of i true) w.human_tasks
            (blocking_task i h run (w.uuids w.drawn) ∷ []))
          (ground arith))
]

-- In a store that obeys the indexes on runs, a valid report that asks for a human, for a run that
-- is active, takes effect and leaves an open blocking question for the run, whether the run had
-- one before or not.
pub needs_human_asks :
    (i : ℕ) (raw : Option AgentReport) (report : AgentReport) (extra : FinalizeExtra) (w : World)
    → parse_report raw ≡ some report
    → report.outcome ≡ needs_human
    → indexes_ok w.runs ≡ true
    → any_where (where_status is_active i) w.runs ≡ true
    → let (result, w') = finalize_with_report i raw extra w in
      (result ≡ ok true) × (any_where (open_task_of i true) w'.human_tasks ≡ true)
unfolding apply_report_effects effects_if write_checks
needs_human_asks i raw report extra w parsed o idx active =
    let f = report_update report extra w.clock in
    let w2 : World = record w { runs = update_where (where_status is_active i) f w.runs } in
    let (h, asks) = parsed_question raw report parsed o in
    rw (finalize-eq i raw report extra w parsed idx, active)
      (
        result-effects_if true i report w2,
        rw (asks, effects_if, apply_report_effects)
            (ground (
              arith,
              create_asks i h (write_checks i report w2).1
                  (present-update i is_active f (λ r. refl) w.runs active),
            )),
      )
