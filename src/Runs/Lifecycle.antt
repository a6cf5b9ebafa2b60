-- ===== src/Runs/Lifecycle.antt =====
-- Runs over any sequence of calls of the run service: what is settled stays as it is.
use brigadir.Prelude.{
  ℕ, String, Bool, true, false, ◌&&◌, ◌||◌, not, Option, none, some, List, [], ◌∷◌, ◌≡◌, refl,
  arith, inl, inr, is_some, ◌∙◌,
}
use brigadir.Domain.{
  World, Run, AgentReport, is_active, has_id, run_of, guarded_update, Io, parse_report, queued,
  awaiting_human,
}
use brigadir.Runs.StatusMapping.{TerminalStatus}
use brigadir.Runs.Service.{
  FinalizeExtra, is_rescuable, mark_running, mark_queued_for_retry, finalize_with_report,
  reconcile_with_report, fail_if_still_running, park_if_still_running, finalize_status_if_running,
  finalize_status, record_cost_usage, guarded_finalize, persist_report, report_update, with_parsed,
  where_status, is_startable, is_running, started, with_status, failed_with, finalized, costed,
  reconcilable,
}
use brigadir.Runs.Index.{after}
use brigadir.Runs.Rows.{run_of-guarded_update, runs-persist_report}

-- The calls of the service, on any run and with any arguments.
pub data Call : Type 0 where
  start : ℕ → ℕ → Call
  requeue : ℕ → Call
  finalize reconcile : ℕ → Option AgentReport → FinalizeExtra → Call
  fail : ℕ → String → Call
  park : ℕ → Call
  finalize_running finalize_any : ℕ → TerminalStatus → FinalizeExtra → Call
  cost : ℕ → Option ℕ → Option String → Call

-- The store after a call, whether it returns or throws.
unfoldable pub perform : Call → World → World
perform (start i attempt) w = (mark_running i attempt w).1
perform (requeue i) w = (mark_queued_for_retry i w).1
perform (finalize i raw extra) w = (finalize_with_report i raw extra w).1
perform (reconcile i raw extra) w = (reconcile_with_report i raw extra w).1
perform (fail i diagnostic) w = (fail_if_still_running i diagnostic w).1
perform (park i) w = (park_if_still_running i w).1
perform (finalize_running i status extra) w = (finalize_status_if_running i status extra w).1
perform (finalize_any i status extra) w = (finalize_status i status extra w).1
perform (cost i c u) w = (record_cost_usage i c u w).1

unfoldable pub perform_all : List Call → World → World
perform_all [] w = w
perform_all (c ∷ cs) w = perform_all cs (perform c w)

-- Finished, and no report may rescue it any more.
abbrev pub is_settled : Run → Bool
is_settled r = not (is_active r.status) && (not (is_rescuable r.status) || is_some r.outcome)

-- All that a reader of the run's result sees.
pub record SameVerdict (r r' : Run) : Type 0 where
  pub status : r'.status ≡ r.status
  pub outcome : r'.outcome ≡ r.outcome
  pub report : r'.report ≡ r.report
  pub error : r'.error ≡ r.error
  pub finished_at : r'.finished_at ≡ r.finished_at
  pub attempt : r'.attempt ≡ r.attempt

abbrev pub Kept : ℕ → Run → World → Type 0
Kept i r w = (r' : Run) × (run_of i w.runs ≡ some r') × SameVerdict r r'

pub SameVerdict-refl : (r : Run) → SameVerdict r r
SameVerdict-refl r = record {
  status = refl;
  outcome = refl;
  report = refl;
  error = refl;
  finished_at = refl;
  attempt = refl;
}

-- An update that leaves the verdict of the rows in `P` alone keeps that of a run in `P`.
pub update-Kept :
    (P : Run → Bool) (p : Run → Bool) (f : Run → Run)
    → ((r : Run) → (f r).id ≡ r.id)
    → ((r : Run) → P r ≡ true → SameVerdict r (after p f r))
    → (i : ℕ) (w : World) (r : Run) → run_of i w.runs ≡ some r
    → P r ≡ true
    → Kept i r (guarded_update p f w).1
update-Kept P p f ids same i w r h s = elim (run_of-guarded_update p f ids i w h) [
  | inl e ↦ (r, e, SameVerdict-refl r)
  | inr e ↦ (after p f r, e, same r s)
]

-- Persisting a report under a guard that settled rows fail keeps a settled run.
persist-Kept :
    (guard : Run → Bool)
    → ((r : Run) → is_settled r ≡ true → guard r ≡ false)
    → (j : ℕ) (report : AgentReport) (extra : FinalizeExtra) (i : ℕ) (w : World) (r : Run)
    → run_of i w.runs ≡ some r
    → is_settled r ≡ true
    → Kept i r (persist_report guard j report extra w).1
persist-Kept guard shut j report extra i w r h s =
    let k : Kept i r
        (guarded_update (λ x. has_id j x && guard x) (report_update report extra w.clock) w).1 =
      update-Kept is_settled (λ x. has_id j x && guard x) (report_update report extra w.clock)
        (λ x. refl) (λ x t. ground (arith, shut x t)) i w r h s in
    (k.0, rw (runs-persist_report guard j report extra w) k.1, k.2)

parsed-Kept :
    (o : Option AgentReport) (k : AgentReport → Io Bool) (i : ℕ) (w : World) (r : Run)
    → run_of i w.runs ≡ some r
    → ((report : AgentReport) → Kept i r (k report w).1)
    → Kept i r (with_parsed o k w).1
parsed-Kept none k i w r h f = (r, h, SameVerdict-refl r)
parsed-Kept (some report) k i w r h f = f report

-- No call changes the verdict of a settled run.
pub perform-Kept :
    (c : Call) (i : ℕ) (w : World) (r : Run)
    → run_of i w.runs ≡ some r
    → is_settled r ≡ true
    → Kept i r (perform c w)
unfolding perform mark_running mark_queued_for_retry finalize_with_report reconcile_with_report
    fail_if_still_running park_if_still_running finalize_status_if_running finalize_status
    guarded_finalize record_cost_usage
perform-Kept (start j a) i w r h s =
    update-Kept is_settled (where_status is_startable j) (started a w.clock) (λ x. refl)
      (λ x t. ground arith) i w r h s
perform-Kept (requeue j) i w r h s =
    update-Kept is_settled (where_status is_running j) (with_status queued) (λ x. refl)
      (λ x t. ground arith) i w r h s
perform-Kept (finalize j raw extra) i w r h s =
    parsed-Kept (parse_report raw)
      (λ report. persist_report (λ x. is_active x.status) j report extra) i w r h
      (λ report.
        persist-Kept (λ x. is_active x.status) (λ x t. ground arith) j report extra i w r h s)
perform-Kept (reconcile j raw extra) i w r h s =
    parsed-Kept (parse_report raw) (λ report. persist_report reconcilable j report extra) i w r h
      (λ report. persist-Kept reconcilable (λ x t. ground arith) j report extra i w r h s)
perform-Kept (fail j d) i w r h s =
    update-Kept is_settled (where_status is_running j) (failed_with d w.clock) (λ x. refl)
      (λ x t. ground arith) i w r h s
perform-Kept (park j) i w r h s =
    update-Kept is_settled (where_status is_running j) (with_status awaiting_human) (λ x. refl)
      (λ x t. ground arith) i w r h s
perform-Kept (finalize_running j st x) i w r h s =
    update-Kept is_settled (where_status is_running j) (finalized st x w.clock) (λ x. refl)
      (λ x t. ground arith) i w r h s
perform-Kept (finalize_any j st x) i w r h s =
    update-Kept is_settled (where_status is_active j) (finalized st x w.clock) (λ x. refl)
      (λ x t. ground arith) i w r h s
perform-Kept (cost j c u) i w r h s =
    update-Kept is_settled (has_id j) (costed c u) (λ x. refl) (λ x t. ground arith) i w r h s

pub SameVerdict-trans : (a b c : Run) → SameVerdict a b → SameVerdict b c → SameVerdict a c
SameVerdict-trans a b c x y = record {
  status = y.status ∙ x.status;
  outcome = y.outcome ∙ x.outcome;
  report = y.report ∙ x.report;
  error = y.error ∙ x.error;
  finished_at = y.finished_at ∙ x.finished_at;
  attempt = y.attempt ∙ x.attempt;
}

-- Whatever calls follow, a settled run keeps its status, outcome, report, error, end and attempt.
-- A run is settled when it is succeeded, cancelled or superseded, or failed or timed out with an
-- outcome recorded.
pub settled_absorbs :
    (cs : List Call) (i : ℕ) (w : World) (r : Run)
    → run_of i w.runs ≡ some r
    → is_settled r ≡ true
    → Kept i r (perform_all cs w)
unfolding perform_all
settled_absorbs [] i w r h s = (r, h, SameVerdict-refl r)
settled_absorbs (c ∷ cs) i w r h s =
    let (r', h', v) = perform-Kept c i w r h s in
    let (r'', h'', v') = settled_absorbs cs i (perform c w) r' h' (ground (arith, v)) in
    (r'', h'', SameVerdict-trans r r' r'' v v')
