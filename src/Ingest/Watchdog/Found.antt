-- ===== src/Ingest/Watchdog/Found.antt =====
-- That the watchdog's queries find what is stale, and that no run hangs.
use brigadir.Prelude.{
  ℕ, ◌+◌, ◌*◌, ◌<◌, String, Bool, true, Option, none, some, List, [], ◌∷◌, ◌≡◌, refl, inl, inr,
  arith, ap, any_where, ◌∙◌,
}
use brigadir.Domain.{
  World, Run, Agent, Workspace, run_of, indexes_ok, Io, JiraClient, bind-keeps, bind-ok,
  for_each-ok, running, queued, Result, ok,
}
use brigadir.Runs.StatusMapping.{timed_out, failed}
use brigadir.Runs.Trigger.{agent_row}
use brigadir.Pipeline.Decision.{Facts}
use brigadir.Pipeline.Triggering.{OnlyTriggers}
use brigadir.Ingest.Watchdog.{
  Stale, place_by_age, oldest_first, hangs, running_rows, stale_running, is_lost, queued_rows,
  stale_queued, is_enabled, finalize_body, WatchdogText, reap_running, reap_queued, reap_hung,
  reap_lost, sweep_scoped, sweep_all,
}
use brigadir.Ingest.Watchdog.Reaped.{
  Ended, names, Open, Closed, loop-Open, loop-Closed, loop-keeps_Closed,
}

any_where-place_by_age :
    (q : Stale → Bool) (s : Stale) (ss : List Stale)
    → any_where q (place_by_age s ss) ≡ any_where q (s ∷ ss)
any_where-place_by_age q s [] = refl
any_where-place_by_age q s (t ∷ ts) = ground (arith, any_where-place_by_age q s ts)

any_where-oldest_first :
    (q : Stale → Bool) (ss : List Stale) → any_where q (oldest_first ss) ≡ any_where q ss
unfolding oldest_first
any_where-oldest_first q [] = refl
any_where-oldest_first q (s ∷ ss) =
    any_where-place_by_age q s (oldest_first ss) ∙ ground (arith, any_where-oldest_first q ss)

running_rows-found :
    (scope : Option ℕ) (grace : ℕ) (w : World) (i : ℕ) (a : Agent) (rows : List Run) {r : Run}
    → run_of i rows ≡ some r
    → agent_row r.agent_id w ≡ some a
    → hangs scope grace w.clock r a ≡ true
    → any_where (names i) (running_rows scope grace w rows) ≡ true
unfolding running_rows
running_rows-found scope grace w i a [] h b c = ground (arith, h)
running_rows-found scope grace w i a (x ∷ rows) {r} h b c =
    ground (arith, h, b, c, running_rows-found scope grace w i a rows {r = r})

queued_rows-found :
    (scope : Option ℕ) (after : ℕ) (w : World) (i : ℕ) (rows : List Run) {r : Run}
    → run_of i rows ≡ some r
    → is_lost scope after w.clock r ≡ true
    → any_where (names i) (queued_rows scope after w rows) ≡ true
unfolding queued_rows
queued_rows-found scope after w i [] h c = ground (arith, h)
queued_rows-found scope after w i (x ∷ rows) {r} h c =
    ground (arith, h, c, queued_rows-found scope after w i rows {r = r})

module _ (jira : JiraClient) (text : Facts → String) (release : ℕ → String → Io Unit)
    (released : (workspace : ℕ) (key : String) → OnlyTriggers (release workspace key))
    (words : WatchdogText) (grace queued_after : ℕ) where
  -- The store that the second query of a sweep reads.
  abbrev pub after_hung : World → World
  after_hung w = (reap_hung jira text release words grace queued_after none w).1

  hung-Closed :
      (i : ℕ) (r : Run) (a : Agent) (w : World)
      → indexes_ok w.runs ≡ true
      → run_of i w.runs ≡ some r
      → agent_row r.agent_id w ≡ some a
      → hangs none grace w.clock r a ≡ true
      → Closed i (reap_hung jira text release words grace queued_after none w).1
  unfolding reap_hung reap_running stale_running
  hung-Closed i r a w o h b c =
      loop-Closed jira text release released words grace queued_after
        (λ s. is_enabled w.workspaces s.workspace_id) timed_out
        (λ s. words.timeout_error s.timeout_minutes grace)
        (λ s. words.timeout_message s.timeout_minutes grace) refl i r (stale_running none grace w) w
        (any_where-oldest_first (names i) (running_rows none grace w w.runs)
          ∙ running_rows-found none grace w i a w.runs h b c)
        (o, inl h)

  lost_keeps-Closed :
      (i : ℕ) (scope : Option ℕ) (xs : List Workspace) (v : World)
      → Closed i v
      → Closed i (reap_lost jira text release words grace queued_after scope xs v).1
  unfolding reap_lost reap_queued
  lost_keeps-Closed i scope xs v c =
      loop-keeps_Closed jira text release released words grace queued_after
        (λ s. is_enabled xs s.workspace_id) failed (λ s. words.queued_error queued_after)
        (λ s. words.queued_message queued_after) refl i (stale_queued scope queued_after v) v c

  -- A run that is `running`, and was started longer ago than its agent's timeout and the grace, both in
  -- minutes of 60000 ticks of the clock, has ended after a sweep, however many others hang, whatever Jira refuses and whatever the completion of each of them throws. The store obeys
  -- the indexes on runs, and the release of dependent tickets only triggers runs.
  pub sweep_all-ends_hung :
      (i : ℕ) (r : Run) (a : Agent) (t : ℕ) (w : World)
      → indexes_ok w.runs ≡ true
      → run_of i w.runs ≡ some r
      → agent_row r.agent_id w ≡ some a
      → r.status ≡ running
      → r.started_at ≡ some t
      → t + (a.timeout_minutes + grace) * 60000 < w.clock
      → Ended i (sweep_all jira text release words grace queued_after w).1
  unfolding sweep_all sweep_scoped
  sweep_all-ends_hung i r a t w o h b s e l =
      let c : hangs none grace w.clock r a ≡ true = ground (arith, s, e, l) in
      (bind-keeps (Closed i) (reap_hung jira text release words grace queued_after none)
        (λ _. reap_lost jira text release words grace queued_after none w.workspaces) w
        (hung-Closed i r a w o h b c) (λ _ v k. lost_keeps-Closed i none w.workspaces v k)).1

  hung-ok :
      (w : World)
      → reap_hung jira text release words grace queued_after none w ≡ (ok tt, after_hung w)
  unfolding reap_hung reap_running
  hung-ok w =
      ap {B = Result Unit × World} (λ x. (x, after_hung w))
        (for_each-ok
          (λ s.
            finalize_body jira text release words grace queued_after s.run_id
              (is_enabled w.workspaces s.workspace_id) timed_out
              (words.timeout_error s.timeout_minutes grace)
              (words.timeout_message s.timeout_minutes grace))
          (stale_running none grace w) w)

  hung-Open :
      (i : ℕ) (r : Run) (w : World)
      → indexes_ok w.runs ≡ true
      → run_of i w.runs ≡ some r
      → Open i r (after_hung w)
  unfolding reap_hung reap_running
  hung-Open i r w o h =
      loop-Open jira text release released words grace queued_after
        (λ s. is_enabled w.workspaces s.workspace_id) timed_out
        (λ s. words.timeout_error s.timeout_minutes grace)
        (λ s. words.timeout_message s.timeout_minutes grace) refl i r (stale_running none grace w) w
        (o, inl h)

  lost-Closed :
      (i : ℕ) (r : Run) (xs : List Workspace) (v : World)
      → Open i r v
      → is_lost none queued_after v.clock r ≡ true
      → Closed i (reap_lost jira text release words grace queued_after none xs v).1
  unfolding reap_lost reap_queued stale_queued
  lost-Closed i r xs v (o, inr n) c = lost_keeps-Closed i none xs v (o, n)
  lost-Closed i r xs v (o, inl h) c =
      loop-Closed jira text release released words grace queued_after
        (λ s. is_enabled xs s.workspace_id) failed (λ s. words.queued_error queued_after)
        (λ s. words.queued_message queued_after) refl i r (stale_queued none queued_after v) v
        (any_where-oldest_first (names i) (queued_rows none queued_after v v.runs)
          ∙ queued_rows-found none queued_after v i v.runs h c)
        (o, inl h)

  -- A run that is `queued`, never started, and was created longer ago than the threshold in minutes when
  -- the second query of a sweep runs, has ended after the sweep, under the same conditions on the store
  -- and the release as a run that hangs.
  pub sweep_all-ends_lost :
      (i : ℕ) (r : Run) (w : World)
      → indexes_ok w.runs ≡ true
      → run_of i w.runs ≡ some r
      → r.status ≡ queued
      → r.started_at ≡ none
      → r.created_at + queued_after * 60000 < (after_hung w).clock
      → Ended i (sweep_all jira text release words grace queued_after w).1
  unfolding sweep_all sweep_scoped
  sweep_all-ends_lost i r w o h s e l =
      let c : is_lost none queued_after (after_hung w).clock r ≡ true = ground (arith, s, e, l) in
      let second = reap_lost jira text release words grace queued_after none w.workspaces in
      rw
        (bind-ok (reap_hung jira text release words grace queued_after none) (λ _. second) w
          (hung-ok w))
        (lost-Closed i r w.workspaces (after_hung w) (hung-Open i r w o h) c).1
