-- ===== src/HumanTasks/Resolution.antt =====
-- `resolve` as a whole: an answer to a parked run's question starts exactly one successor, and a
-- refused resolution changes nothing.
use brigadir.Prelude.{
  ℕ, Bool, true, false, Option, none, some, [], ◌∷◌, ◌++◌, ◌≡◌, refl, arith, ◌⊎◌, inl, inr, ◌+◌,
  update_where, Option-cases, ◌==◌,
}
use brigadir.Domain.{
  World, Run, queued, awaiting_human, HumanTask, open_task, resolved, JiraClient, run_of,
  indexes_ok, slot, ok, Job,
}
use brigadir.Runs.Trigger.{agent_row}
use brigadir.HumanTasks.Resume.{
  ResolveInput, ResolveResult, resolve, resume, resume_with, resolve_target_agent, not_open,
  not_found, invalid_target, active_run_conflict, parked_run, supersede, resumed_row, is_parked,
  committed, ResumeRunResult, gone, conflict, resume_run, close_task, transition_to_running,
  task_row, closed_task, supersede_and_insert, blocked_run,
}
use brigadir.HumanTasks.Successor.{Successor, ResumeTarget, successor}
use brigadir.HumanTasks.Resumption.{supersede_and_insert-ok, committed-cases, resumed_world}

-- The transition after a resume never throws, and changes nothing but Jira.
transition_to_running_lem :
    (jira : JiraClient) (agent : ℕ) (ticket : Option ℕ) (w : World)
    → let (result, w') = transition_to_running jira agent ticket w in
      (result ≡ ok tt) × (w'.runs ≡ w.runs) × (w'.jobs ≡ w.jobs) × (w'.human_tasks ≡ w.human_tasks)
unfolding transition_to_running
transition_to_running_lem jira agent ticket w =
    (ground arith, ground arith, ground arith, ground arith)

-- The successor of a parked run, resumed with no other agent chosen.
abbrev pub next_row : ℕ → ResolveInput → ℕ → Run → World → ℕ → Run
next_row task input i parked w =
    let agent = agent_row parked.agent_id w in
    resumed_row i parked agent task input.answer (successor parked agent none) w.clock

next_row-slot :
    (task : ℕ) (input : ResolveInput) (i : ℕ) (parked : Run) (w : World) (id : ℕ)
    → is_parked parked.status ≡ true
    → slot (next_row task input i parked w id) ≡ slot parked
unfolding slot successor
next_row-slot task input i parked w id p = ground arith

-- The job of a resumed run: no queue deduplication and no attempt budget.
abbrev pub job_of : Successor → ℕ → Job
job_of next id = record {
  queue = next.executor_type;
  run_id = id;
  job_id = id;
  deduplication = none;
  attempts = none;
}

resume_run-ok :
    (jira : JiraClient) (task : ℕ) (input : ResolveInput) (i : ℕ) (w : World) (parked : Run)
    → indexes_ok w.runs ≡ true
    → run_of i w.runs ≡ some parked
    → is_parked parked.status ≡ true
    → let (result, w') = resume_run jira i input.answer task none w in
      let row = next_row task input i parked w (w.uuids w.drawn) in
      (result ≡ ok (ResumeRunResult.resumed (w.uuids w.drawn)))
      × (w'.runs ≡ update_where (parked_run i) (supersede w.clock) w.runs ++ row ∷ [])
      × (w'.jobs
          ≡ w.jobs ++ job_of (successor parked (agent_row parked.agent_id w) none) row.id ∷ [])
      × (w'.human_tasks ≡ w.human_tasks)
unfolding resume_run successor
resume_run-ok jira task input i w parked h found p =
    let row = next_row task input i parked w in
    let next = successor parked (agent_row parked.agent_id w) none in
    let made =
      supersede_and_insert-ok i row w h parked found p
        (next_row-slot task input i parked w (w.uuids w.drawn) p) in
    let after : World = resumed_world i row w h in
    let enqueued : World = record after { jobs = w.jobs ++ job_of next (w.uuids w.drawn) ∷ [] } in
    let t = transition_to_running_lem jira next.agent_id parked.ticket_id enqueued in
    ground (arith, made, t.0, t.1, t.2, t.3)

-- An answer to the open blocking question of a parked run, with no other agent chosen, always
-- resumes: the parked run is superseded, one queued run of the same agent and ticket takes its place
-- with the next attempt number and a job of its own, and the task is resolved with the answer.
-- This holds in every store that obeys the indexes on runs, whatever Jira does.
pub answer_resumes :
    (jira : JiraClient) (i run : ℕ) (input : ResolveInput) (w : World) (task : HumanTask)
    (parked : Run)
    → indexes_ok w.runs ≡ true
    → task_row i w ≡ some task
    → task.status ≡ open_task
    → blocked_run task ≡ some run
    → input.action ≡ resume
    → input.target_agent_id ≡ none
    → run_of run w.runs ≡ some parked
    → parked.status ≡ awaiting_human
    → let (result, w') = resolve jira i input w in
      let row = next_row i input run parked w (w.uuids w.drawn) in
      (result ≡ ok (ResolveResult.resumed (w.uuids w.drawn)))
      × (w'.runs ≡ update_where (parked_run run) (supersede w.clock) w.runs ++ row ∷ [])
      × (row.ticket_id ≡ parked.ticket_id)
      × (row.agent_id ≡ parked.agent_id)
      × (row.attempt ≡ parked.attempt + 1)
      × (row.status ≡ queued)
      × (w'.jobs
          ≡ w.jobs ++ job_of (successor parked (agent_row parked.agent_id w) none) row.id ∷ [])
      × (w'.human_tasks
          ≡ update_where (λ t. t.id == i) (closed_task resolved input w'.clock) w.human_tasks)
unfolding resolve close_task successor
answer_resumes jira i run input w task parked h t o b a n found p =
    let r = resume_run-ok jira i input run w parked h found (ground arith) in
    (
      ground (arith, r.0),
      ground (arith, r.0, r.1),
      refl,
      refl,
      refl,
      refl,
      ground (arith, r.0, r.2),
      ground (arith, r.0, r.3),
    )

-- The outcomes by which `resolve` refuses.
abbrev pub refuses : ResolveResult → Bool
refuses not_found = true
refuses not_open = true
refuses invalid_target = true
refuses active_run_conflict = true
refuses _ = false

resume_run-cases :
    (jira : JiraClient) (task : ℕ) (input : ResolveInput) (i : ℕ) (target : Option ResumeTarget)
    (w : World)
    → indexes_ok w.runs ≡ true
    → ((id : ℕ) × ((resume_run jira i input.answer task target w).0
          ≡ ok (ResumeRunResult.resumed id)))
      ⊎ (resume_run jira i input.answer task target w ≡ (ok gone, w))
      ⊎ (resume_run jira i input.answer task target w ≡ (ok conflict, w))
unfolding resume_run
resume_run-cases jira task input i target w h = elim (Option-cases (run_of i w.runs)) [
  | inl e ↦ inr (inl (ground arith))
  | inr (parked, found) ↦
      let agent = agent_row parked.agent_id w in
      let next = successor parked agent target in
      let row = resumed_row i parked agent task input.answer next w.clock in
      elim (committed-cases i row w h) [
        | inl e ↦
            let after = (committed w (supersede_and_insert i row w)).1 in
            let enqueued : World = record after {
              jobs = after.jobs ++ job_of next (w.uuids w.drawn) ∷ [];
            } in
            let t = transition_to_running_lem jira next.agent_id parked.ticket_id enqueued in
            inl (w.uuids w.drawn, ground (arith, t.0))
        | inr (inl e) ↦ inr (inl (ground arith))
        | inr (inr e) ↦ inr (inr (ground arith))
      ]
]

resume_with-refused :
    (jira : JiraClient) (i : ℕ) (input : ResolveInput) (run : ℕ) (target : Option ResumeTarget)
    (w : World) (o : ResolveResult)
    → indexes_ok w.runs ≡ true
    → (resume_with jira i input run target w).0 ≡ ok o
    → refuses o ≡ true
    → (resume_with jira i input run target w).1 ≡ w
resume_with-refused jira i input run target w o h e f =
    elim (resume_run-cases jira i input run target w h) [
      | inl (id, r) ↦ ground (arith, r)
      | inr (inl r) ↦ ground (arith, r)
      | inr (inr r) ↦ ground (arith, r)
    ]

-- In a store that obeys the indexes on runs, a resolution that is refused, for a task that is
-- missing or closed, a run that is no longer parked, an invalid target or another active run on
-- the ticket, changes nothing at all.
pub refused_changes_nothing :
    (jira : JiraClient) (i : ℕ) (input : ResolveInput) (w : World) (o : ResolveResult)
    → indexes_ok w.runs ≡ true
    → (resolve jira i input w).0 ≡ ok o
    → refuses o ≡ true
    → (resolve jira i input w).1 ≡ w
unfolding resolve
refused_changes_nothing jira i input w o h e f = elim (Option-cases (task_row i w)) [
  | inl n ↦ ground arith
  | inr (task, found) ↦ elim (Option-cases (blocked_run task)) [
    | inl n ↦ ground arith
    | inr (run, b) ↦ elim (Option-cases input.target_agent_id) [
      | inl n ↦ ground (arith, resume_with-refused jira i input run none w o h)
      | inr (agent, a) ↦ elim (Option-cases (resolve_target_agent task.workspace_id agent w)) [
        | inl n ↦ ground arith
        | inr (target, t) ↦ ground (arith, resume_with-refused jira i input run (some target) w o h)
      ]
    ]
  ]
]
