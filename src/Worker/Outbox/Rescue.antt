-- ===== src/Worker/Outbox/Rescue.antt =====
-- What becomes of the reports in the outbox.
use brigadir.Prelude.{
  ℕ, String, Bool, true, false, [], ◌∷◌, ◌≡◌, ◌⊎◌, refl, arith, inl, inr, ◌++◌, Bool-cases, is_some,
  any_where, any_where-append,
}
use brigadir.Domain.{Payload, World, Run, RunStatus, succeeded, AgentReport, Io, ok, JiraClient}
use brigadir.Pipeline.Decision.{Facts}
use brigadir.Pipeline.Completion.Keeps.{Held, on_run_finished-keeps_runs}
use brigadir.Worker.Outbox.{
  consumed, undelivered_of, attach_undelivered_report, after_rescue, attach,
}

-- The run has an outcome or has succeeded, or a report is attached to it.
abbrev pub Accounted : ℕ → World → Type 0
Accounted i w =
    (r : Run) × Held i r w
    × ((is_some r.outcome ≡ true)
        ⊎ (r.status ≡ succeeded)
        ⊎ (any_where (undelivered_of i) w.run_events ≡ true))

module _ (jira : JiraClient) (text : Facts → String) (release : ℕ → String → Io Unit)
    (scrub : String → String) (now retention : ℕ)
    (released : (j : ℕ) (r : Run) (workspace : ℕ) (key : String) (v : World)
      → Held j r v
      → Held j r (release workspace key v).1) where
  pub after_rescue-Held :
      (b : Bool) (i j : ℕ) (r : Run) (v : World)
      → Held j r v
      → Held j r (after_rescue jira text release scrub now retention b i v).1
  after_rescue-Held true i j r v h =
      on_run_finished-keeps_runs jira text release j r (released j r) i v h
  after_rescue-Held false i j r v h = h

  pub attach-held :
      (i : ℕ) (report : AgentReport) (status : RunStatus) (w : World)
      → any_where (undelivered_of i) w.run_events ≡ true
      → attach jira text release scrub now retention i report status w ≡ (ok consumed, w)
  unfolding attach_undelivered_report
  attach-held i report status w e = ground (arith, e)

  abbrev noted : ℕ → AgentReport → RunStatus → World → World
  noted i report status w = record w {
    run_events =
        w.run_events
        ++ record {
          run_id = i;
          payload = Payload.undelivered_report report status "periodic_reconcile";
        }
          ∷ [];
  }

  attach-new :
      (i : ℕ) (report : AgentReport) (status : RunStatus) (w : World)
      → any_where (undelivered_of i) w.run_events ≡ false
      → attach jira text release scrub now retention i report status w
        ≡ (ok consumed, noted i report status w)
  unfolding attach_undelivered_report
  attach-new i report status w e = ground (arith, e)

  noted-undelivered :
      (i : ℕ) (report : AgentReport) (status : RunStatus) (w : World)
      → any_where (undelivered_of i) (noted i report status w).run_events ≡ true
  noted-undelivered i report status w = ground (
    arith,
    any_where-append (undelivered_of i) w.run_events (
        record {
          run_id = i;
          payload = Payload.undelivered_report report status "periodic_reconcile";
        }
        ∷ []),
  )

  pub attach_eq :
      (i : ℕ) (report : AgentReport) (status : RunStatus) (w : World)
      → let (result, w') = attach jira text release scrub now retention i report status w in
        (result ≡ ok consumed)
        × (w'.runs ≡ w.runs)
        × (any_where (undelivered_of i) w'.run_events ≡ true)
  attach_eq i report status w = elim (Bool-cases (any_where (undelivered_of i) w.run_events)) [
    | inl e ↦ rw (attach-held i report status w e) (refl, refl, e)
    | inr e ↦ rw (attach-new i report status w e) (refl, refl, noted-undelivered i report status w)
  ]
