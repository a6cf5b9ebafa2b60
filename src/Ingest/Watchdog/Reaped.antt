-- ===== src/Ingest/Watchdog/Reaped.antt =====
-- That no run hangs: what the watchdog finds stale is finished after the sweep.
use brigadir.Prelude.{
  ℕ, String, Bool, true, false, some, List, ◌==◌, ◌≡◌, refl, ◌⊎◌, inl, inr, arith, Bool-cases,
  any_where, update_where, find_where-some,
}
use brigadir.Domain.{
  World, Run, is_active, has_id, run_of, indexes_ok, Io, JiraClient, for_each, for_each-keeps,
  for_each-reaches, non_fatal, bind-ok, slot,
}
use brigadir.Runs.StatusMapping.{TerminalStatus, timed_out, failed}
use brigadir.Runs.Service.{
  FinalizeExtra, finalize_status, guarded_finalize, finalized, where_status, no_extra,
}
use brigadir.Runs.Trigger.{TriggerInput, trigger}
use brigadir.Runs.Trigger.Idempotence.{trigger-indexes_ok}
use brigadir.Runs.Index.{Shrinks, after, guarded_update-ok, indexes_ok-update}
use brigadir.Runs.Rows.{run_of-update}
use brigadir.Runs.Rejections.{where_status-Shrinks}
use brigadir.Pipeline.Decision.{Facts}
use brigadir.Pipeline.Completion.Keeps.{Held, trigger-Held, on_run_finished-keeps}
use brigadir.Pipeline.Triggering.{OnlyTriggers}
use brigadir.Ingest.Watchdog.{Stale, WatchdogText, finalize_body, after_flip}

-- The run is there, and it is not active.
abbrev pub Ended : ℕ → World → Type 0
Ended i w = (r : Run) × Held i r w × (is_active r.status ≡ false)

-- The statuses that a sweep writes.
abbrev pub ends : TerminalStatus → Bool
ends timed_out = true
ends failed = true
ends _ = false

abbrev pub names : ℕ → Stale → Bool
names i s = s.run_id == i

-- The store obeys the indexes, and the run is as it was, or ended.
abbrev pub Open : ℕ → Run → World → Type 0
Open i r w = (indexes_ok w.runs ≡ true) × (Held i r w ⊎ Ended i w)

abbrev pub Closed : ℕ → World → Type 0
Closed i w = (indexes_ok w.runs ≡ true) × Ended i w

module _ (jira : JiraClient) (text : Facts → String) (release : ℕ → String → Io Unit)
    (released : (workspace : ℕ) (key : String) → OnlyTriggers (release workspace key))
    (words : WatchdogText) (grace queued_after : ℕ) where
  after_flip-keeps :
      (P : List Run → Type 0)
      → ((input : TriggerInput) (v : World) → P v.runs → P (trigger input v).1.runs)
      → (i : ℕ) (enabled : Bool) (message : String) (flipped : Bool) (v : World) → P v.runs
      → P (after_flip jira text release words grace queued_after i enabled message flipped v).1.runs
  after_flip-keeps P triggered i enabled message false v p = p
  after_flip-keeps P triggered i false message true v p = p
  after_flip-keeps P triggered i true message true v p =
      on_run_finished-keeps jira text release P triggered
        (λ workspace key. released workspace key P triggered) i _ p

  abbrev body : ℕ → Bool → TerminalStatus → String → String → Io Unit
  body = finalize_body jira text release words grace queued_after

  -- One stale run's turn: its update, and then what triggers do.
  module _ (j : ℕ) (enabled : Bool) (status : TerminalStatus) (error message : String) (v : World)
      (ok_rows : indexes_ok v.runs ≡ true) where
    abbrev extra : FinalizeExtra
    extra = record no_extra { error = some error }

    abbrev p : Run → Bool
    p = where_status is_active j

    abbrev f : Run → Run
    f = finalized status extra v.clock

    shrinks : (r : Run) → Shrinks (slot (after p f r)) (slot r)
    shrinks = where_status-Shrinks is_active j f (λ s e. e) (λ r. (refl, refl))

    body-keeps :
        (P : List Run → Type 0)
        → ((input : TriggerInput) (u : World) → P u.runs → P (trigger input u).1.runs)
        → P (update_where p f v.runs)
        → P (body j enabled status error message v).1.runs
    unfolding finalize_status guarded_finalize
    body-keeps P triggered made =
        let k = after_flip jira text release words grace queued_after j enabled message in
        rw (bind-ok (finalize_status j status extra) k v (guarded_update-ok p f shrinks v ok_rows))
          (after_flip-keeps P triggered j enabled message (any_where p v.runs) _ made)

    body-indexes_ok : indexes_ok (body j enabled status error message v).1.runs ≡ true
    body-indexes_ok =
        body-keeps (λ rows. indexes_ok rows ≡ true) trigger-indexes_ok
          (indexes_ok-update p f shrinks v.runs ok_rows)

    body-row :
        (i : ℕ) (r : Run)
        → Held i r v
        → Held i (after p f r) (body j enabled status error message v).1
    body-row i r h =
        body-keeps (λ rows. run_of i rows ≡ some (after p f r)) (trigger-Held i (after p f r))
          (run_of-update p f (λ _. refl) i v.runs h)

    body-Ended : (i : ℕ) → Ended i v → Ended i (body j enabled status error message v).1
    body-Ended i (r, h, n) = (after p f r, body-row i r h, ground (arith, n))

    -- Another run's row stays; the run's own is ended.
    body-Open :
        ends status ≡ true
        → (i : ℕ) (r : Run) → Open i r v
        → Open i r (body j enabled status error message v).1
    body-Open e i r (o, inr n) = (body-indexes_ok, inr (body-Ended i n))
    body-Open e i r (o, inl h) = elim (Bool-cases (p r)) [
      | inl t ↦ (body-indexes_ok, inr (after p f r, body-row i r h, ground (arith, t, e)))
      | inr n ↦ (body-indexes_ok, inl (rw n at (body-row i r h)))
    ]

    body-Closed :
        ends status ≡ true
        → (i : ℕ) (r : Run) → (j == i) ≡ true
        → Open i r v
        → Closed i (body j enabled status error message v).1
    body-Closed e i r same (o, inr n) = (body-indexes_ok, body-Ended i n)
    body-Closed e i r same (o, inl h) = (
      body-indexes_ok,
      (
        after p f r,
        body-row i r h,
        ground (arith, e, same, (find_where-some (has_id i) v.runs h).0),
      ),
    )

  -- What a loop over stale runs does to a run that it names, and to any other.
  module _ (enabled : Stale → Bool) (status : TerminalStatus) (error message : Stale → String)
      (e : ends status ≡ true) (i : ℕ) where
    abbrev one_turn : Stale → Io Unit
    one_turn s = body s.run_id (enabled s) status (error s) (message s)

    pub loop-Open :
        (r : Run) (ss : List Stale) (v : World)
        → Open i r v
        → Open i r (for_each (λ s. non_fatal (one_turn s)) ss v).1
    loop-Open r =
        for_each-keeps (Open i r) one_turn
          (λ s v o. body-Open s.run_id (enabled s) status (error s) (message s) v o.0 e i r o)

    one_turn-Closed : (s : Stale) (v : World) → Closed i v → Closed i (one_turn s v).1
    one_turn-Closed s v (o, n) = (
      body-indexes_ok s.run_id (enabled s) status (error s) (message s) v o,
      body-Ended s.run_id (enabled s) status (error s) (message s) v o i n,
    )

    pub loop-keeps_Closed :
        (ss : List Stale) (v : World)
        → Closed i v
        → Closed i (for_each (λ s. non_fatal (one_turn s)) ss v).1
    loop-keeps_Closed = for_each-keeps (Closed i) one_turn one_turn-Closed

    pub loop-Closed :
        (r : Run) (ss : List Stale) (v : World)
        → any_where (names i) ss ≡ true
        → Open i r v
        → Closed i (for_each (λ s. non_fatal (one_turn s)) ss v).1
    loop-Closed r =
        for_each-reaches (Open i r) (Closed i) (names i) one_turn
          (λ s v o. body-Open s.run_id (enabled s) status (error s) (message s) v o.0 e i r o)
          one_turn-Closed
          (λ s v same o.
            body-Closed s.run_id (enabled s) status (error s) (message s) v o.0 e i r same o)
