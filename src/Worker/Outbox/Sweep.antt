-- ===== src/Worker/Outbox/Sweep.antt =====
-- What a sweep leaves alone: runs that were stopped on purpose, and runs that are settled.
use brigadir.Prelude.{
  ℕ, String, Bool, true, false, Option, none, some, List, [], ◌∷◌, ◌≡◌, refl, arith, inl, inr,
  if-elim, Option-cases, ◌∙◌, is_some, any_where,
}
use brigadir.Domain.{
  World, Run, RunStatus, queued, running, awaiting_human, succeeded, failed, cancelled, timed_out,
  superseded, AgentReport, parse_report, run_of, Io, ok, pure, ◌>>◌, JiraClient, bind-keeps,
}
use brigadir.Runs.Service.{reconcile_with_report, no_extra}
use brigadir.Runs.Lifecycle.{
  reconcile, perform, perform-Kept, is_settled, Kept, SameVerdict-refl, SameVerdict-trans,
}
use brigadir.Pipeline.Decision.{Facts}
use brigadir.Pipeline.Completion.Keeps.{Held}
use brigadir.Callback.Scrub.{scrub_agent_report}
use brigadir.Worker.Outbox.{
  OutboxEntry, Fate, consumed, undelivered_of, after_rescue, rescue, attach, by_status,
  reconcile_entry, sweep, with_raw, of_report, on_known_run,
}
use brigadir.Worker.Outbox.Rescue.{attach-held, attach_eq, after_rescue-Held}

module _ (jira : JiraClient) (text : Facts → String) (release : ℕ → String → Io Unit)
    (scrub : String → String) (now retention : ℕ)
    (released : (j : ℕ) (r : Run) (workspace : ℕ) (key : String) (v : World)
      → Held j r v
      → Held j r (release workspace key v).1) where
  abbrev was_stopped : RunStatus → Bool
  was_stopped cancelled = true
  was_stopped superseded = true
  was_stopped _ = false

  by_status-attach :
      (run : Run) (i : ℕ) (report : AgentReport) (s : RunStatus)
      → run.status ≡ s
      → was_stopped s ≡ true
      → by_status jira text release scrub now retention run i report
        ≡ attach jira text release scrub now retention i report s
  unfolding by_status
  by_status-attach run i report cancelled e h = rw e refl
  by_status-attach run i report superseded e h = rw e refl
  by_status-attach run i report queued e h = absurd (ground (arith, h))
  by_status-attach run i report running e h = absurd (ground (arith, h))
  by_status-attach run i report awaiting_human e h = absurd (ground (arith, h))
  by_status-attach run i report succeeded e h = absurd (ground (arith, h))
  by_status-attach run i report failed e h = absurd (ground (arith, h))
  by_status-attach run i report timed_out e h = absurd (ground (arith, h))

  stopped_eq :
      (entry : OutboxEntry) (i : ℕ) (report : AgentReport) (run : Run) (w : World)
      → entry.run_id ≡ some i
      → entry.content ≡ some (some report)
      → parse_report (some report) ≡ some report
      → run_of i w.runs ≡ some run
      → was_stopped run.status ≡ true
      → reconcile_entry jira text release scrub now retention entry w
        ≡ attach jira text release scrub now retention i
            (scrub_agent_report scrub report)
            run.status
            w
  unfolding reconcile_entry
  stopped_eq entry i report run w named holds valid found stopped =
      rw (named, holds, found, valid)
        (rw (by_status-attach run i (scrub_agent_report scrub report) run.status refl stopped) refl)

  -- A valid report of a run that was cancelled or superseded is attached to it as an event and its file
  -- is deleted; the runs stay as they are, and the same file again changes nothing.
  pub stopped_twice :
      (entry : OutboxEntry) (i : ℕ) (report : AgentReport) (run : Run) (w : World)
      → entry.run_id ≡ some i
      → entry.content ≡ some (some report)
      → parse_report (some report) ≡ some report
      → run_of i w.runs ≡ some run
      → was_stopped run.status ≡ true
      → let (result, w') = reconcile_entry jira text release scrub now retention entry w in
        (result ≡ ok consumed)
        × (w'.runs ≡ w.runs)
        × (any_where (undelivered_of i) w'.run_events ≡ true)
        × (reconcile_entry jira text release scrub now retention entry w' ≡ (ok consumed, w'))
  stopped_twice entry i report run w named holds valid found stopped =
      let once = stopped_eq entry i report run w named holds valid found stopped in
      let (result, rows, attached) =
        attach_eq jira text release scrub now retention released i (scrub_agent_report scrub report)
          run.status w in
      let w' : World =
        (attach jira text release scrub now retention i (scrub_agent_report scrub report) run.status
          w).1 in
      rw once (
        result,
        rows,
        attached,
        stopped_eq entry i report run w' named holds valid (rw rows found) stopped
            ∙ attach-held jira text release scrub now retention released i
                (scrub_agent_report scrub report) run.status w' attached,
      )

  after_rescue-Kept :
      (b : Bool) (j i : ℕ) (r : Run) (v : World)
      → Kept i r v
      → Kept i r (after_rescue jira text release scrub now retention b j v).1
  after_rescue-Kept b j i r v (r', h, same) =
      (r', after_rescue-Held jira text release scrub now retention released b j i r' v h, same)

  rescue-Kept :
      (j : ℕ) (report : AgentReport) (i : ℕ) (r : Run) (w : World)
      → run_of i w.runs ≡ some r
      → is_settled r ≡ true
      → Kept i r (rescue jira text release scrub now retention j report w).1
  unfolding perform
  rescue-Kept j report i r w h s =
      bind-keeps (Kept i r) (reconcile_with_report j (some report) no_extra)
        (λ flipped. after_rescue jira text release scrub now retention flipped j >> pure consumed) w
        (perform-Kept (reconcile j (some report) no_extra) i w r h s)
        (λ flipped u k.
          bind-keeps (Kept i r) (after_rescue jira text release scrub now retention flipped j)
            (λ _. pure consumed) u (after_rescue-Kept flipped j i r u k) (λ _ v l. l))

  attach-Kept :
      (j : ℕ) (report : AgentReport) (status : RunStatus) (i : ℕ) (r : Run) (w : World)
      → run_of i w.runs ≡ some r
      → Kept i r (attach jira text release scrub now retention j report status w).1
  attach-Kept j report status i r w h = (
    r,
    rw (attach_eq jira text release scrub now retention released j report status w).1 h,
    SameVerdict-refl r,
  )

  by_status-Kept :
      (run : Run) (s : RunStatus) (j : ℕ) (report : AgentReport) (i : ℕ) (r : Run) (w : World)
      → run.status ≡ s
      → run_of i w.runs ≡ some r
      → is_settled r ≡ true
      → Kept i r (by_status jira text release scrub now retention run j report w).1
  unfolding by_status
  by_status-Kept run running j report i r w e h s = rw e (rescue-Kept j report i r w h s)
  by_status-Kept run failed j report i r w e h s = rw e (
      if-elim {A = Io Fate} (λ m. Kept i r (m w).1) (is_some run.outcome)
        (λ _. (r, h, SameVerdict-refl r)) (λ _. rescue-Kept j report i r w h s))
  by_status-Kept run timed_out j report i r w e h s = rw e (
      if-elim {A = Io Fate} (λ m. Kept i r (m w).1) (is_some run.outcome)
        (λ _. (r, h, SameVerdict-refl r)) (λ _. rescue-Kept j report i r w h s))
  by_status-Kept run cancelled j report i r w e h s = rw e (attach-Kept j report cancelled i r w h)
  by_status-Kept run superseded j report i r w e h s =
      rw e (attach-Kept j report superseded i r w h)
  by_status-Kept run awaiting_human j report i r w e h s = rw e (r, h, SameVerdict-refl r)
  by_status-Kept run queued j report i r w e h s = rw e (r, h, SameVerdict-refl r)
  by_status-Kept run succeeded j report i r w e h s = rw e (r, h, SameVerdict-refl r)

  of_report-Kept :
      (entry : OutboxEntry) (run : Run) (j : ℕ) (o : Option AgentReport) (i : ℕ) (r : Run)
      (w : World)
      → run_of i w.runs ≡ some r
      → is_settled r ≡ true
      → Kept i r (of_report jira text release scrub now retention entry run j o w).1
  of_report-Kept entry run j none i r w h s = (r, h, SameVerdict-refl r)
  of_report-Kept entry run j (some report) i r w h s =
      by_status-Kept run run.status j (scrub_agent_report scrub report) i r w refl h s

  with_raw-Kept :
      (entry : OutboxEntry) (run : Run) (j : ℕ) (o : Option (Option AgentReport)) (i : ℕ) (r : Run)
      (w : World)
      → run_of i w.runs ≡ some r
      → is_settled r ≡ true
      → Kept i r (with_raw jira text release scrub now retention entry run j o w).1
  with_raw-Kept entry run j none i r w h s = (r, h, SameVerdict-refl r)
  with_raw-Kept entry run j (some raw) i r w h s =
      of_report-Kept entry run j (parse_report raw) i r w h s

  on_known_run-Kept :
      (entry : OutboxEntry) (j : ℕ) (o : Option Run) (i : ℕ) (r : Run) (w : World)
      → run_of i w.runs ≡ some r
      → is_settled r ≡ true
      → Kept i r (on_known_run jira text release scrub now retention entry j o w).1
  on_known_run-Kept entry j none i r w h s = (r, h, SameVerdict-refl r)
  on_known_run-Kept entry j (some run) i r w h s = with_raw-Kept entry run j entry.content i r w h s

  reconcile_entry-Kept :
      (entry : OutboxEntry) (i : ℕ) (r : Run) (w : World)
      → run_of i w.runs ≡ some r
      → is_settled r ≡ true
      → Kept i r (reconcile_entry jira text release scrub now retention entry w).1
  unfolding reconcile_entry
  reconcile_entry-Kept entry i r w h s = elim (Option-cases entry.run_id) [
    | inl e ↦ rw (e, reconcile_entry) (r, h, SameVerdict-refl r)
    | inr (j, e) ↦ rw (e, reconcile_entry) (on_known_run-Kept entry j (run_of j w.runs) i r w h s)
  ]

  -- Whatever lies in the outbox, a sweep over it keeps the status, outcome, report, error, end and
  -- attempt of a settled run: one that is succeeded, cancelled or superseded, or failed or timed out with
  -- an outcome. This holds if the release of dependent tickets changes and removes no run.
  pub sweep-keeps_settled :
      (entries : List OutboxEntry) (i : ℕ) (r : Run) (w : World)
      → run_of i w.runs ≡ some r
      → is_settled r ≡ true
      → Kept i r (sweep jira text release scrub now retention entries w).1
  unfolding sweep
  sweep-keeps_settled [] i r w h s = (r, h, SameVerdict-refl r)
  sweep-keeps_settled (entry ∷ entries) i r w h s =
      let u : World = (reconcile_entry jira text release scrub now retention entry w).1 in
      let (r', h', v) = reconcile_entry-Kept entry i r w h s in
      let (r'', h'', v') = sweep-keeps_settled entries i r' u h' (ground (arith, v, s)) in
      (r'', h'', SameVerdict-trans r r' r'' v v')
