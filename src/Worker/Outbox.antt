-- ===== src/Worker/Outbox.antt =====
-- apps/worker/src/outbox-reconcile.service.ts and undelivered-report.ts: the sweep over the reports that
-- agents left in the outbox directory.
--
-- The directory is the list of its entries, each with what `readOutboxReport` finds in its file. The
-- second scan of a sweep, over the channel breadcrumbs, is not modelled.
pub mod Rescue
pub mod Sweep
use brigadir.Prelude.{
  ℕ, String, Bool, true, false, ◌&&◌, Option, none, some, List, [], ◌∷◌, ◌-◌, ◌==◌, leb, any_where,
  if◌then◌else◌, is_some,
}
use brigadir.Domain.{
  World, Run, RunStatus, queued, running, awaiting_human, succeeded, failed, cancelled, timed_out,
  superseded, AgentReport, parse_report, run_of, Io, Result, ok, throws, pure, ◌>>=◌, ◌>>◌,
  add_event, Payload, RunEvent, JiraClient, non_fatal,
}
use brigadir.Runs.Service.{reconcile_with_report, no_extra}
use brigadir.Pipeline.Decision.{Facts}
use brigadir.Pipeline.Completion.{on_run_finished}
use brigadir.Callback.Scrub.{scrub_agent_report}

pub record OutboxEntry : Type 0 where
  -- `none` if the stem of the file's name is no uuid
  pub run_id : Option ℕ
  -- `none` if the file cannot be read; then whether the value has the shape of a report
  pub content : Option (Option AgentReport)
  pub mtime : ℕ

pub data Fate : Type 0 where
  kept consumed : Fate

abbrev is_undelivered : Payload → Bool
is_undelivered (Payload.undelivered_report report status source) = true
is_undelivered _ = false

abbrev pub undelivered_of : ℕ → RunEvent → Bool
undelivered_of i e = e.run_id == i && is_undelivered e.payload

unfoldable pub attach_undelivered_report : ℕ → AgentReport → RunStatus → String → Io Bool
attach_undelivered_report i report status source w =
    (if any_where (undelivered_of i) w.run_events
        then pure false
        else (add_event i (Payload.undelivered_report report status source) >> pure true))
      w

-- `now` is when the sweep began, `retention` for how long a file that cannot be used is kept.
module _ (jira : JiraClient) (text : Facts → String) (release : ℕ → String → Io Unit)
    (scrub : String → String) (now retention : ℕ) where
  abbrev apply_retention : OutboxEntry → Fate
  apply_retention entry = if leb (now - entry.mtime) retention then kept else consumed

  abbrev pub after_rescue : Bool → ℕ → Io Unit
  after_rescue true i = non_fatal (on_run_finished jira text release i)
  after_rescue false i = pure tt

  abbrev pub rescue : ℕ → AgentReport → Io Fate
  rescue i report = reconcile_with_report i (some report) no_extra >>= λ flipped.
      (after_rescue flipped i >> pure consumed)

  abbrev pub attach : ℕ → AgentReport → RunStatus → Io Fate
  attach i report status =
      attach_undelivered_report i report status "periodic_reconcile" >> pure consumed

  abbrev rescue_if_silent : Run → ℕ → AgentReport → Io Fate
  rescue_if_silent run i report = if is_some run.outcome then pure consumed else rescue i report

  unfoldable pub by_status : Run → ℕ → AgentReport → Io Fate
  by_status run i report = elim run.status [
    | running ↦ rescue i report
    | failed ↦ rescue_if_silent run i report
    | timed_out ↦ rescue_if_silent run i report
    | cancelled ↦ attach i report cancelled
    | superseded ↦ attach i report superseded
    | awaiting_human ↦ pure kept
    | queued ↦ pure kept
    | succeeded ↦ pure consumed
  ]

  abbrev of_report : OutboxEntry → Run → ℕ → Option AgentReport → Io Fate
  of_report entry run i none = pure (apply_retention entry)
  of_report entry run i (some report) = by_status run i (scrub_agent_report scrub report)

  abbrev with_raw : OutboxEntry → Run → ℕ → Option (Option AgentReport) → Io Fate
  with_raw entry run i none = pure (apply_retention entry)
  with_raw entry run i (some raw) = of_report entry run i (parse_report raw)

  abbrev on_known_run : OutboxEntry → ℕ → Option Run → Io Fate
  on_known_run entry i none = pure consumed
  on_known_run entry i (some run) = with_raw entry run i entry.content

  unfoldable pub reconcile_entry : OutboxEntry → Io Fate
  reconcile_entry entry w = elim entry.run_id [
    | none ↦ (ok (apply_retention entry), w)
    | some i ↦ on_known_run entry i (run_of i w.runs) w
  ]

  -- A file whose entry could not be reconciled stays where it is.
  abbrev pub stays : Result Fate → Bool
  stays (ok consumed) = false
  stays _ = true

  unfoldable pub sweep : List OutboxEntry → World → List OutboxEntry × World
  sweep [] w = ([], w)
  sweep (entry ∷ entries) w =
      let (result, w') = reconcile_entry entry w in
      let (left, w'') = sweep entries w' in ((if stays result then entry ∷ left else left), w'')
