-- ===== src/Runs/Rejections.antt =====
-- When PostgreSQL rejects a status update of the run service for its unique indexes, and when not.
use brigadir.Prelude.{ℕ, String, Bool, true, ◌≡◌, refl, arith, any_where, ap}
use brigadir.Domain.{World, Run, RunStatus, is_active, slot, indexes_ok, guarded_update, Result, ok}
use brigadir.Runs.StatusMapping.{TerminalStatus}
use brigadir.Runs.Service.{
  FinalizeExtra, mark_running, mark_queued_for_retry, fail_if_still_running, park_if_still_running,
  finalize_status_if_running, finalize_status, guarded_finalize, where_status, is_startable,
  is_running, started, with_status, failed_with, finalized,
}
use brigadir.Runs.Index.{Shrinks, after, guarded_update-ok}

-- An update of active rows that leaves ticket and workspace alone keeps or frees each slot.
pub where_status-Shrinks :
    (guard : RunStatus → Bool) (i : ℕ) (f : Run → Run)
    → ((s : RunStatus) → guard s ≡ true → is_active s ≡ true)
    → ((r : Run) → ((f r).ticket_id ≡ r.ticket_id) × ((f r).workspace_id ≡ r.workspace_id))
    → (r : Run) → Shrinks (slot (after (where_status guard i) f r)) (slot r)
unfolding slot
where_status-Shrinks guard i f active same r = ground (arith, same r, active r.status)

pub startable-active : (s : RunStatus) → is_startable s ≡ true → is_active s ≡ true
startable-active s h = ground arith

pub running-active : (s : RunStatus) → is_running s ≡ true → is_active s ≡ true
running-active s h = ground arith

-- Where the table obeys its indexes, the service's guarded status updates are never rejected: each
-- returns whether its guard held of the run.
pub updates_never_rejected :
    (i attempt : ℕ) (diagnostic : String) (status : TerminalStatus) (extra : FinalizeExtra)
    (w : World)
    → indexes_ok w.runs ≡ true
    → let started_one = any_where (where_status is_startable i) w.runs in
      let running_one = any_where (where_status is_running i) w.runs in
      ((mark_running i attempt w).0 ≡ ok started_one)
      × ((mark_queued_for_retry i w).0 ≡ ok running_one)
      × ((fail_if_still_running i diagnostic w).0 ≡ ok running_one)
      × ((park_if_still_running i w).0 ≡ ok running_one)
      × ((finalize_status_if_running i status extra w).0 ≡ ok running_one)
      × ((finalize_status i status extra w).0 ≡ ok (any_where (where_status is_active i) w.runs))
unfolding mark_running mark_queued_for_retry fail_if_still_running park_if_still_running
    finalize_status_if_running finalize_status guarded_finalize
updates_never_rejected i attempt diagnostic status extra w h = (
  fits is_startable (started attempt w.clock) startable-active (λ r. (refl, refl)),
  fits is_running (with_status RunStatus.queued) running-active (λ r. (refl, refl)),
  fits is_running (failed_with diagnostic w.clock) running-active (λ r. (refl, refl)),
  fits is_running (with_status RunStatus.awaiting_human) running-active (λ r. (refl, refl)),
  fits is_running (finalized status extra w.clock) running-active (λ r. (refl, refl)),
  fits is_active (finalized status extra w.clock) (λ s e. e) (λ r. (refl, refl)),
)
  where
    fits :
        (guard : RunStatus → Bool) (f : Run → Run)
        → ((s : RunStatus) → guard s ≡ true → is_active s ≡ true)
        → ((r : Run) → ((f r).ticket_id ≡ r.ticket_id) × ((f r).workspace_id ≡ r.workspace_id))
        → (guarded_update (where_status guard i) f w).0
          ≡ ok (any_where (where_status guard i) w.runs)
    fits guard f active same =
        ap (λ (x : Result Bool × World). x.0)
          (guarded_update-ok (where_status guard i) f (where_status-Shrinks guard i f active same) w
            h)
