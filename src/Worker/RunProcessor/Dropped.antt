-- ===== src/Worker/RunProcessor/Dropped.antt =====
-- That a run which is cancelled or parked is never executed.
use brigadir.Prelude.{
  ℕ, String, Option, none, some, false, true, ◌≡◌, ◌⊎◌, inl, inr, refl, ◌∙◌, any_where,
  update_where-none, ◌+◌,
}
use brigadir.Domain.{World, Run, AgentReport, JiraClient, Io, Result, ok, indexes_ok, bind-ok}
use brigadir.Runs.Service.{mark_running, where_status, is_startable, started}
use brigadir.Runs.Index.{guarded_update-ok}
use brigadir.Runs.Rejections.{where_status-Shrinks, startable-active}
use brigadir.Pipeline.Decision.{Facts}
use brigadir.Setup.Service.{TeamAcceptResult}
use brigadir.Worker.ExecutorGate.{Verdict, admit, refuse, check_executor_gate}
use brigadir.Worker.RunProcessor.{
  JobEnd, done, waits_again, ExecutorPort, load, on_startable, on_verdict, on_loaded, process_job,
}

-- The guard of the start holds of no row.
mark_running-misses :
    (i attempt : ℕ) (w : World)
    → indexes_ok w.runs ≡ true
    → any_where (where_status is_startable i) w.runs ≡ false
    → mark_running i attempt w ≡ (ok false, w)
unfolding mark_running
mark_running-misses i attempt w o miss =
    let p = where_status is_startable i in
    let f = started attempt w.clock in
    guarded_update-ok p f
      (where_status-Shrinks is_startable i f startable-active (λ r. (refl, refl))) w o
    ∙ rw (miss, update_where-none p f w.runs miss) refl

module _ (jira : JiraClient) (text : Facts → String) (release : ℕ → String → Io Unit)
    (accept_team : ℕ → AgentReport → Io TeamAcceptResult) (model_limits : String → Option ℕ)
    (gate_ttl : Option ℕ) (port : ExecutorPort) where
  -- The store is as before, and the job is done, or it waits for its gate.
  abbrev Dropped : World → Result JobEnd × World → Type 0
  Dropped w x = (x.1 ≡ w) × ((x.0 ≡ ok done) ⊎ ((ttl : ℕ) × (x.0 ≡ ok (waits_again ttl))))

  on_verdict-Dropped :
      (i : ℕ) (run : Run) (made most : ℕ) (v : Verdict) (w : World)
      → indexes_ok w.runs ≡ true
      → any_where (where_status is_startable i) w.runs ≡ false
      → Dropped w
          (on_verdict jira text release accept_team model_limits gate_ttl port i run made most v w)
  on_verdict-Dropped i run made most (refuse reason ttl profile model) w o miss =
      (refl, inr (ttl, refl))
  on_verdict-Dropped i run made most (admit near) w o miss =
      rw
        (bind-ok (mark_running i (made + 1))
          (on_startable jira text release accept_team model_limits gate_ttl port i run made most) w
          (mark_running-misses i (made + 1) w o miss))
        (refl, inl refl)

  on_loaded-Dropped :
      (i made most : ℕ) (o : Option Run) (w : World)
      → indexes_ok w.runs ≡ true
      → any_where (where_status is_startable i) w.runs ≡ false
      → Dropped w
          (on_loaded jira text release accept_team model_limits gate_ttl port i made most o w)
  on_loaded-Dropped i made most none w o miss = (refl, inl refl)
  on_loaded-Dropped i made most (some run) w o miss =
      on_verdict-Dropped i run made most (check_executor_gate model_limits gate_ttl i w) w o miss

  -- The job of a run that is neither queued nor running, because it was cancelled, parked or finished
  -- while its job waited, changes nothing in the store, whatever the process would do to it: the job is
  -- done, or it waits for its profile's gate. The store obeys the indexes on runs.
  pub process_job-drops :
      (i made most : ℕ) (w : World)
      → indexes_ok w.runs ≡ true
      → any_where (where_status is_startable i) w.runs ≡ false
      → let (end, v) =
          process_job jira text release accept_team model_limits gate_ttl port i made most w in
        (v ≡ w) × ((end ≡ ok done) ⊎ ((ttl : ℕ) × (end ≡ ok (waits_again ttl))))
  unfolding process_job
  process_job-drops i made most w o miss = on_loaded-Dropped i made most (load i w) w o miss
