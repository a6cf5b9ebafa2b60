-- ===== src/Runs/Trigger/Idempotence.antt =====
-- A trigger mints a run exactly when the slot of its ticket is free, and a second one finds the
-- first.
use brigadir.Prelude.{
  Option-cases, same_id?, count_where, count_where-none, ◌≤◌, ℕ, suc, Bool, true, false, ◌&&◌, some,
  List, [], ◌∷◌, ◌++◌, ◌≡◌, refl, arith, ◌⊎◌, inl, inr, any_where, find_where, find_where-append,
  Bool-cases, ◌∙◌, any_where-find_where, find_where-some,
}
use brigadir.Domain.{
  World, Run, Agent, Executor, slot, taken, indexes_ok, ok, Result, is_active, occupies, on_ticket,
}
use brigadir.Runs.Trigger.{
  TriggerInput, TriggerResult, minted, deduplicated, holder, run_row, job_for, trigger_on, trigger,
  agent_row, executor_row,
}
use brigadir.Runs.Index.{indexes_ok-append, add_run-free, add_run-taken}

-- A row occupies the new run's slot exactly if the duplicate look-up selects it.
holder-eq-occupies :
    (input : TriggerInput) (agent : Agent) (executor : Executor) (now id : ℕ) (r : Run)
    → occupies (slot (run_row input agent executor now id)) (slot r)
      ≡ holder agent.workspace_id input.ticket_id r
unfolding slot
holder-eq-occupies input agent executor now id r = ground arith

taken-eq-holder :
    (input : TriggerInput) (agent : Agent) (executor : Executor) (now id : ℕ) (rows : List Run)
    → taken (slot (run_row input agent executor now id)) rows
      ≡ any_where (holder agent.workspace_id input.ticket_id) rows
taken-eq-holder input agent executor now id [] = refl
taken-eq-holder input agent executor now id (r ∷ rows) = ground (
  arith,
  holder-eq-occupies input agent executor now id r,
  taken-eq-holder input agent executor now id rows,
)

-- The store after a run was minted: one more queued run, and one more job, pinned to it.
abbrev pub minted_world : TriggerInput → Agent → Executor → World → World
minted_world input agent executor w = record w {
  runs = w.runs ++ run_row input agent executor w.clock (w.uuids w.drawn) ∷ [];
  jobs = w.jobs ++ job_for input agent executor (w.uuids w.drawn) ∷ [];
  drawn = suc w.drawn;
}

module _ (input : TriggerInput) (agent : Agent) (executor : Executor) (w : World)
    (agent_found : agent_row input.agent_id w ≡ some agent)
    (executor_found : executor_row agent.executor_id w ≡ some executor) where
  abbrev held_by : Run → Bool
  held_by = holder agent.workspace_id input.ticket_id

  abbrev fresh : ℕ
  fresh = w.uuids w.drawn

  trigger-eq-trigger_on : trigger input w ≡ trigger_on input agent executor w
  unfolding trigger
  trigger-eq-trigger_on = rw (agent_found, trigger) (rw executor_found refl)

  pub trigger-free :
      any_where held_by w.runs ≡ false
      → trigger input w ≡ (ok (minted fresh), minted_world input agent executor w)
  unfolding trigger_on
  trigger-free free = rw trigger-eq-trigger_on (
      rw
        (
          add_run-free (run_row input agent executor w.clock) w
              (taken-eq-holder input agent executor w.clock fresh w.runs ∙ free),
          trigger_on,
        )
        refl)

  pub trigger-held :
      {r : Run}
      → find_where held_by w.runs ≡ some r
      → trigger input w ≡ (ok (deduplicated (some r.id)), w)
  unfolding trigger_on
  trigger-held {r} held = rw trigger-eq-trigger_on (
      rw
        (
          add_run-taken (run_row input agent executor w.clock) w (
              taken-eq-holder input agent executor w.clock fresh w.runs
              ∙ (find_where-some held_by w.runs held).1),
          trigger_on,
        )
        (rw held refl))

-- A trigger of an agent and executor that exist mints a queued run and its job when no active run
-- holds the ticket (or, with no ticket, the workspace's setup), and the same trigger made again
-- mints nothing: it returns the first run's identifier and leaves the store as it is.
pub trigger_twice :
    (input : TriggerInput) (agent : Agent) (executor : Executor) (w : World)
    → agent_row input.agent_id w ≡ some agent
    → executor_row agent.executor_id w ≡ some executor
    → any_where (holder agent.workspace_id input.ticket_id) w.runs ≡ false
    → let w' = minted_world input agent executor w in
      (trigger input w ≡ (ok (minted (w.uuids w.drawn)), w'))
      × (trigger input w' ≡ (ok (deduplicated (some (w.uuids w.drawn))), w'))
trigger_twice input agent executor w a e free =
    let row : Run = run_row input agent executor w.clock (w.uuids w.drawn) in
    (
      trigger-free input agent executor w a e free,
      trigger-held input agent executor (minted_world input agent executor w) a e {r = row} (
          find_where-append (holder agent.workspace_id input.ticket_id) w.runs (row ∷ []) free
          ∙ own input agent executor w.clock (w.uuids w.drawn)),
    )
  where
    own :
        (input : TriggerInput) (agent : Agent) (executor : Executor) (now id : ℕ)
        → find_where
            (holder agent.workspace_id input.ticket_id)
            (run_row input agent executor now id ∷ [])
          ≡ some (run_row input agent executor now id)
    own input agent executor now id = ground arith

-- The result says that a run was minted.
abbrev pub mints : Result TriggerResult → Bool
mints (ok (minted id)) = true
mints _ = false

-- Every way that a trigger ends: it throws for a missing agent or executor and writes nothing, or
-- finds the slot held and writes nothing, or mints.
pub trigger-cases :
    (input : TriggerInput) (w : World)
    → (((trigger input w).1 ≡ w) × (mints (trigger input w).0 ≡ false))
      ⊎ ((agent : Agent) × (executor : Executor) × (any_where
              (holder agent.workspace_id input.ticket_id)
              w.runs
            ≡ false)
          × (trigger input w
              ≡ (ok (minted (w.uuids w.drawn)), minted_world input agent executor w)))
unfolding trigger
trigger-cases input w = elim (Option-cases (agent_row input.agent_id w)) [
  | inl no_agent ↦ inl (rw (no_agent, trigger) (refl, refl))
  | inr (agent, a) ↦ elim (Option-cases (executor_row agent.executor_id w)) [
    | inl no_executor ↦ inl (rw (a, trigger) (rw no_executor (refl, refl)))
    | inr (executor, e) ↦
        elim (Bool-cases (any_where (holder agent.workspace_id input.ticket_id) w.runs)) [
          | inl held ↦
              let (r, found, _) =
                any_where-find_where (holder agent.workspace_id input.ticket_id) w.runs held in
              inl (rw (trigger-held input agent executor w a e {r = r} found) (refl, refl))
          | inr free ↦ inr (agent, executor, free, trigger-free input agent executor w a e free)
        ]
  ]
]

-- Whatever is triggered, a store with at most one active run for each ticket, and one setup run for
-- each workspace, keeps that.
pub trigger-indexes_ok :
    (input : TriggerInput) (w : World)
    → indexes_ok w.runs ≡ true
    → indexes_ok (trigger input w).1.runs ≡ true
trigger-indexes_ok input w h = elim (trigger-cases input w) [
  | inl same ↦ rw same.0 h
  | inr (agent, executor, free, e) ↦ rw e (
      indexes_ok-append w.runs (run_row input agent executor w.clock (w.uuids w.drawn)) h
        (taken-eq-holder input agent executor w.clock (w.uuids w.drawn) w.runs ∙ free))
]

-- The active runs on a ticket.
abbrev pub active_on : ℕ → Run → Bool
active_on t r = same_id? r.ticket_id (some t) && is_active r.status

taken-active_on :
    (t : ℕ) (rows : List Run) → taken (some (on_ticket t)) rows ≡ any_where (active_on t) rows
unfolding slot
taken-active_on t [] = refl
taken-active_on t (r ∷ rows) = ground (arith, taken-active_on t rows)

-- The indexes say that a ticket has at most one active run.
pub one_active :
    (t : ℕ) (rows : List Run) → indexes_ok rows ≡ true → count_where (active_on t) rows ≤ 1
unfolding indexes_ok slot
one_active t [] h = omega arith
one_active t (r ∷ rows) h =
    ground (arith, one_active t rows, taken-active_on t rows, count_where-none (active_on t) rows)

pub trigger_all : List TriggerInput → World → World
trigger_all [] w = w
trigger_all (input ∷ inputs) w = trigger_all inputs (trigger input w).1

-- Whatever is triggered, in any order and by any source, from a store that obeys the indexes on
-- runs, no ticket has two active runs.
pub trigger_all-one_active :
    (inputs : List TriggerInput) (t : ℕ) (w : World)
    → indexes_ok w.runs ≡ true
    → count_where (active_on t) (trigger_all inputs w).runs ≤ 1
unfolding trigger_all
trigger_all-one_active [] t w h = one_active t w.runs h
trigger_all-one_active (input ∷ inputs) t w h =
    trigger_all-one_active inputs t (trigger input w).1 (trigger-indexes_ok input w h)
