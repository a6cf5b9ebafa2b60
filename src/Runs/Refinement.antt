-- ===== src/Runs/Refinement.antt =====
-- The run service against an abstract machine on the status of a run.
use brigadir.Prelude.{
  ℕ, Bool, true, false, ◌&&◌, ◌||◌, Option, none, some, List, [], ◌∷◌, ◌≡◌, refl, arith, inl, inr,
  if-elim,
}
use brigadir.Domain.{
  World, Run, RunStatus, queued, running, awaiting_human, succeeded, failed, cancelled, timed_out,
  superseded, AgentReport, Outcome, is_active, has_id, run_of, guarded_update, Io, parse_report,
}
use brigadir.Runs.StatusMapping.{TerminalStatus}
use brigadir.Runs.Service.{
  FinalizeExtra, mark_running, mark_queued_for_retry, finalize_with_report, reconcile_with_report,
  fail_if_still_running, park_if_still_running, finalize_status_if_running, finalize_status,
  record_cost_usage, guarded_finalize, persist_report, report_update, with_parsed, where_status,
  is_rescuable, is_startable, is_running, started, with_status, failed_with, finalized, costed,
  reconcilable, report_terminal_status, status_of,
}
use brigadir.Runs.Index.{after}
use brigadir.Runs.Rows.{run_of-guarded_update, runs-persist_report}
use brigadir.Runs.Lifecycle.{
  Call, start, requeue, finalize, reconcile, fail, park, finalize_running, finalize_any, cost,
  perform, perform_all,
}

-- The states in which a run ends or waits for a human.
abbrev is_end : RunStatus → Bool
is_end succeeded = true
is_end failed = true
is_end timed_out = true
is_end cancelled = true
is_end awaiting_human = true
is_end _ = false

-- The states that a report leads to.
abbrev is_reported : RunStatus → Bool
is_reported succeeded = true
is_reported failed = true
is_reported awaiting_human = true
is_reported _ = false

-- The moves of the abstract machine: a queued run starts, a running one goes back to the queue, an
-- active one ends, and a failed or timed out one is rescued by a report.
pub data Move : RunStatus → RunStatus → Type 0 where
  starts : Move queued running
  retried : Move running queued
  ends : {s t : RunStatus} → is_active s ≡ true → is_end t ≡ true → Move s t
  rescued_failed : {t : RunStatus} → is_reported t ≡ true → Move failed t
  rescued_timed_out : {t : RunStatus} → is_reported t ≡ true → Move timed_out t

pub data Moves : RunStatus → RunStatus → Type 0 where
  rest : {s : RunStatus} → Moves s s
  then : {s t u : RunStatus} → Moves s t → Move t u → Moves s u

Moves-trans : {s t u : RunStatus} → Moves s t → Moves t u → Moves s u
Moves-trans m rest = m
Moves-trans m (then n move) = then (Moves-trans m n) move

abbrev Follows : ℕ → Run → World → Type 0
Follows i r w = (r' : Run) × (run_of i w.runs ≡ some r') × Moves r.status r'.status

update-Follows :
    (p : Run → Bool) (f : Run → Run)
    → ((r : Run) → (f r).id ≡ r.id)
    → ((r : Run) → p r ≡ true → Moves r.status (f r).status)
    → (i : ℕ) (w : World) (r : Run) → run_of i w.runs ≡ some r
    → Follows i r (guarded_update p f w).1
update-Follows p f ids moves i w r h = elim (run_of-guarded_update p f ids i w h) [
  | inl e ↦ (r, e, rest)
  | inr e ↦
      (after p f r, e, if-elim {A = Run} (λ x. Moves r.status x.status) (p r) (moves r) (λ _. rest))
]

running-Moves : (s t : RunStatus) → is_running s ≡ true → is_end t ≡ true → Moves s t
running-Moves s t h e = then rest (ends (ground (arith, h)) e)

started-Moves : (s : RunStatus) → is_startable s ≡ true → Moves s running
started-Moves queued h = then rest starts
started-Moves running h = rest
started-Moves awaiting_human h = absurd (ground (arith, h))
started-Moves succeeded h = absurd (ground (arith, h))
started-Moves failed h = absurd (ground (arith, h))
started-Moves cancelled h = absurd (ground (arith, h))
started-Moves timed_out h = absurd (ground (arith, h))
started-Moves superseded h = absurd (ground (arith, h))

retried-Moves : (s : RunStatus) → is_running s ≡ true → Moves s queued
retried-Moves running h = then rest retried
retried-Moves queued h = absurd (ground (arith, h))
retried-Moves awaiting_human h = absurd (ground (arith, h))
retried-Moves succeeded h = absurd (ground (arith, h))
retried-Moves failed h = absurd (ground (arith, h))
retried-Moves cancelled h = absurd (ground (arith, h))
retried-Moves timed_out h = absurd (ground (arith, h))
retried-Moves superseded h = absurd (ground (arith, h))

status_of-is_end : (t : TerminalStatus) → is_end (status_of t) ≡ true
status_of-is_end t = ground arith

reported_end : (o : Outcome) → is_end (status_of (report_terminal_status o)) ≡ true
unfolding report_terminal_status
reported_end o = ground arith

reported_by : (o : Outcome) → is_reported (status_of (report_terminal_status o)) ≡ true
unfolding report_terminal_status
reported_by o = ground arith

rescued-Moves :
    (s t : RunStatus)
    → (is_active s || is_rescuable s) ≡ true
    → is_end t ≡ true
    → is_reported t ≡ true
    → Moves s t
rescued-Moves failed t h e q = then rest (rescued_failed q)
rescued-Moves timed_out t h e q = then rest (rescued_timed_out q)
rescued-Moves queued t h e q = then rest (ends refl e)
rescued-Moves running t h e q = then rest (ends refl e)
rescued-Moves awaiting_human t h e q = then rest (ends refl e)
rescued-Moves succeeded t h e q = absurd (ground (arith, h))
rescued-Moves cancelled t h e q = absurd (ground (arith, h))
rescued-Moves superseded t h e q = absurd (ground (arith, h))

persist-Follows :
    (guard : Run → Bool)
    → ((r : Run) (o : Outcome)
        → guard r ≡ true
        → Moves r.status (status_of (report_terminal_status o)))
    → (j : ℕ) (report : AgentReport) (extra : FinalizeExtra) (i : ℕ) (w : World) (r : Run)
    → run_of i w.runs ≡ some r
    → Follows i r (persist_report guard j report extra w).1
persist-Follows guard moves j report extra i w r h =
    let k : Follows i r
        (guarded_update (λ x. has_id j x && guard x) (report_update report extra w.clock) w).1 =
      update-Follows (λ x. has_id j x && guard x) (report_update report extra w.clock) (λ x. refl)
        (λ x t. moves x report.outcome (ground (arith, t))) i w r h in
    (k.0, rw (runs-persist_report guard j report extra w) k.1, k.2)

parsed-Follows :
    (o : Option AgentReport) (k : AgentReport → Io Bool) (i : ℕ) (w : World) (r : Run)
    → run_of i w.runs ≡ some r
    → ((report : AgentReport) → Follows i r (k report w).1)
    → Follows i r (with_parsed o k w).1
parsed-Follows none k i w r h f = (r, h, rest)
parsed-Follows (some report) k i w r h f = f report

-- Each call of the service is a sequence of moves of the machine, on every run of the table.
perform-Follows :
    (c : Call) (i : ℕ) (w : World) (r : Run) → run_of i w.runs ≡ some r → Follows i r (perform c w)
unfolding perform mark_running mark_queued_for_retry finalize_with_report reconcile_with_report
    fail_if_still_running park_if_still_running finalize_status_if_running finalize_status
    guarded_finalize record_cost_usage
perform-Follows (start j a) i w r h =
    update-Follows (where_status is_startable j) (started a w.clock) (λ x. refl)
      (λ x t. started-Moves x.status (ground (arith, t))) i w r h
perform-Follows (requeue j) i w r h =
    update-Follows (where_status is_running j) (with_status queued) (λ x. refl)
      (λ x t. retried-Moves x.status (ground (arith, t))) i w r h
perform-Follows (finalize j raw extra) i w r h =
    parsed-Follows (parse_report raw)
      (λ report. persist_report (λ x. is_active x.status) j report extra) i w r h
      (λ report.
        persist-Follows (λ x. is_active x.status) (λ x o t. then rest (ends t (reported_end o))) j
          report extra i w r h)
perform-Follows (reconcile j raw extra) i w r h =
    parsed-Follows (parse_report raw) (λ report. persist_report reconcilable j report extra) i w r h
      (λ report.
        persist-Follows reconcilable
          (λ x o t.
            rescued-Moves x.status (status_of (report_terminal_status o)) (ground (arith, t))
              (reported_end o) (reported_by o))
          j report extra i w r h)
perform-Follows (fail j d) i w r h =
    update-Follows (where_status is_running j) (failed_with d w.clock) (λ x. refl)
      (λ x t. running-Moves x.status failed (ground (arith, t)) refl) i w r h
perform-Follows (park j) i w r h =
    update-Follows (where_status is_running j) (with_status awaiting_human) (λ x. refl)
      (λ x t. running-Moves x.status awaiting_human (ground (arith, t)) refl) i w r h
perform-Follows (finalize_running j st x) i w r h =
    update-Follows (where_status is_running j) (finalized st x w.clock) (λ y. refl)
      (λ y t. running-Moves y.status (status_of st) (ground (arith, t)) (status_of-is_end st)) i w r
      h
perform-Follows (finalize_any j st x) i w r h =
    update-Follows (where_status is_active j) (finalized st x w.clock) (λ y. refl)
      (λ y t. then rest (ends (ground (arith, t)) (status_of-is_end st))) i w r h
perform-Follows (cost j c u) i w r h =
    update-Follows (has_id j) (costed c u) (λ x. refl) (λ x t. rest) i w r h

-- The service refines the machine: over any sequence of its calls, on any runs and with any reports,
-- the status of a run changes by moves of the machine only, and the run stays in the table.
pub perform_all-refines :
    (cs : List Call) (i : ℕ) (w : World) (r : Run)
    → run_of i w.runs ≡ some r
    → (r' : Run) × (run_of i (perform_all cs w).runs ≡ some r') × Moves r.status r'.status
unfolding perform_all
perform_all-refines [] i w r h = (r, h, rest)
perform_all-refines (c ∷ cs) i w r h =
    let (r', h', m) = perform-Follows c i w r h in
    let (r'', h'', n) = perform_all-refines cs i (perform c w) r' h' in (r'', h'', Moves-trans m n)
