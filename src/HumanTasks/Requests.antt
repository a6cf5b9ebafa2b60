-- ===== src/HumanTasks/Requests.antt =====
-- What a request for a human leaves behind, whatever Jira does.
use brigadir.Prelude.{
  ℕ, suc, Bool, true, false, none, some, List, [], ◌∷◌, ◌++◌, ◌≡◌, ◌≤◌, refl, arith, inl, inr, ap,
  ◌∙◌, not, any_where, any_where-append, count_where, count_where-append, count_where-none,
  find_where, find_where-none, find_where-some, update_where, Option-cases, Bool-cases,
}
use brigadir.Domain.{
  World, Run, HumanTask, JiraClient, Payload, RunStatus, run_of, has_id, indexes_ok, ok, running,
  awaiting_human, add_event,
}
use brigadir.Runs.Service.{open_task_of, where_status, is_running, with_status}
use brigadir.Runs.Index.{guarded_update-ok}
use brigadir.Runs.Rows.{run_of-update}
use brigadir.Runs.Rejections.{where_status-Shrinks, running-active}
use brigadir.HumanTasks.Service.{
  CreateHumanTaskInput, create_from_request, ask, repeat_ask, park_run, transition_and_comment,
  requested_task, result_of, drive_jira,
}

-- The rows after the run was parked.
abbrev pub parked_rows : ℕ → List Run → List Run
parked_rows i rows =
    update_where (where_status is_running i) (with_status RunStatus.awaiting_human) rows

pub park_run-ok :
    (i : ℕ) (w : World)
    → indexes_ok w.runs ≡ true
    → park_run i w ≡ (
      ok (any_where (where_status is_running i) w.runs),
      record w { runs = parked_rows i w.runs },
    )
unfolding park_run
park_run-ok i w h =
    guarded_update-ok (where_status is_running i) (with_status RunStatus.awaiting_human)
      (where_status-Shrinks is_running i (with_status RunStatus.awaiting_human) running-active
        (λ r. (refl, refl)))
      w h

-- Driving Jira never throws, and changes no run and no task.
drive_jira_lem :
    (b : Bool) (jira : JiraClient) (run : Run) (input : CreateHumanTaskInput) (w : World)
    → ((drive_jira b jira run input w).0 ≡ ok tt)
      × ((drive_jira b jira run input w).1.runs ≡ w.runs)
      × ((drive_jira b jira run input w).1.human_tasks ≡ w.human_tasks)
unfolding transition_and_comment
drive_jira_lem false jira run input w = (refl, refl, refl)
drive_jira_lem true jira run input w = (ground arith, ground arith, ground arith)

module _ (jira : JiraClient) (i : ℕ) (input : CreateHumanTaskInput) (w : World)
    (h : indexes_ok w.runs ≡ true) where
  abbrev asked_tasks : Run → List HumanTask
  asked_tasks run = w.human_tasks ++ requested_task i run input (w.uuids w.drawn) ∷ []

  abbrev added : Run → World
  added run = record w { human_tasks = asked_tasks run; drawn = suc w.drawn }

  ask-blocking :
      (run : Run)
      → input.blocking ≡ true
      → ((ask jira i run input w).0 ≡ ok (result_of true true true))
        × ((ask jira i run input w).1.runs ≡ parked_rows i w.runs)
        × ((ask jira i run input w).1.human_tasks ≡ asked_tasks run)
  unfolding ask
  ask-blocking run b =
      let d =
        drive_jira_lem (any_where (where_status is_running i) w.runs) jira run input
          (record (added run) { runs = parked_rows i w.runs }) in
      ground (arith, park_run-ok i (added run) h, d.0, d.1, d.2)

  ask-non_blocking :
      (run : Run)
      → input.blocking ≡ false
      → ask jira i run input w ≡ (ok (result_of true false false), added run)
  unfolding ask
  ask-non_blocking run b = rw (b, ask) refl

  repeat-blocking :
      (t : HumanTask)
      → input.blocking ≡ true
      → ((repeat_ask i t input w).0 ≡ ok (result_of false true true))
        × ((repeat_ask i t input w).1.runs ≡ parked_rows i w.runs)
        × ((repeat_ask i t input w).1.human_tasks ≡ w.human_tasks)
  unfolding repeat_ask
  repeat-blocking t b =
      ground (arith, park_run-ok i (add_event i (Payload.deduplicated t.id) w).1 h)

request-new :
    (jira : JiraClient) (i : ℕ) (input : CreateHumanTaskInput) (w : World) (r : Run)
    → run_of i w.runs ≡ some r
    → find_where (open_task_of i input.blocking) w.human_tasks ≡ none
    → create_from_request jira i input w ≡ ask jira i r input w
unfolding create_from_request
request-new jira i input w r found e = rw (found, create_from_request) (rw e refl)

request-again :
    (jira : JiraClient) (i : ℕ) (input : CreateHumanTaskInput) (w : World) (r : Run) (t : HumanTask)
    → run_of i w.runs ≡ some r
    → find_where (open_task_of i input.blocking) w.human_tasks ≡ some t
    → create_from_request jira i input w ≡ repeat_ask i t input w
unfolding create_from_request
request-again jira i input w r t found e = rw (found, create_from_request) (rw e refl)

parked-row :
    (i : ℕ) (rows : List Run) (r : Run)
    → run_of i rows ≡ some r
    → r.status ≡ running
    → run_of i (parked_rows i rows) ≡ some (record r { status = awaiting_human })
parked-row i rows r found run =
    run_of-update (where_status is_running i) (with_status RunStatus.awaiting_human) (λ x. refl) i
      rows found
    ∙ ap some (ground (arith, (find_where-some (has_id i) rows found).0))

-- In a store that obeys the indexes on runs, a request from a running run that waits for its
-- answer always succeeds, parks the run, and leaves an open blocking question for it, whether or
-- not one was open and whatever Jira does.
pub blocking_request_parks :
    (jira : JiraClient) (i : ℕ) (input : CreateHumanTaskInput) (w : World) (r : Run)
    → indexes_ok w.runs ≡ true
    → input.blocking ≡ true
    → run_of i w.runs ≡ some r
    → r.status ≡ running
    → let (result, w') = create_from_request jira i input w in
      (result ≡ ok (result_of (not (any_where (open_task_of i true) w.human_tasks)) true true))
      × (run_of i w'.runs ≡ some (record r { status = awaiting_human }))
      × (any_where (open_task_of i true) w'.human_tasks ≡ true)
blocking_request_parks jira i input w r h b found run =
    elim (Option-cases (find_where (open_task_of i true) w.human_tasks)) [
      | inl e ↦
          let a = ask-blocking jira i input w h r b in
          rw
            (
              request-new jira i input w r found
                  (ap (λ x. find_where (open_task_of i x) w.human_tasks) b ∙ e),
              find_where-none (open_task_of i true) w.human_tasks e,
            )
            (
              a.0,
              rw a.1 (parked-row i w.runs r found run),
              rw
                  (
                    a.2,
                    any_where-append (open_task_of i true) w.human_tasks
                        (requested_task i r input (w.uuids w.drawn) ∷ []),
                  )
                  (ground arith),
            )
      | inr (t, e) ↦
          let a = repeat-blocking jira i input w h t b in
          let held = (find_where-some (open_task_of i true) w.human_tasks e).1 in
          rw
            (
              request-again jira i input w r t found
                  (ap (λ x. find_where (open_task_of i x) w.human_tasks) b ∙ e),
              held,
            )
            (a.0, rw a.1 (parked-row i w.runs r found run), rw a.2 held)
    ]

-- The open tasks of a run, blocking or not.
abbrev pub tasks_open : ℕ → Bool → World → ℕ
tasks_open i b w = count_where (open_task_of i b) w.human_tasks

-- In a store that obeys the indexes on runs, a request keeps at most one open blocking task and at
-- most one open non-blocking task for every run that had no more before.
pub request-tasks_open :
    (jira : JiraClient) (i : ℕ) (input : CreateHumanTaskInput) (w : World)
    → indexes_ok w.runs ≡ true
    → (j : ℕ) (b : Bool) → tasks_open j b w ≤ 1
    → tasks_open j b (create_from_request jira i input w).1 ≤ 1
unfolding create_from_request repeat_ask
request-tasks_open jira i input w h j b q = elim (Option-cases (run_of i w.runs)) [
  | inl e ↦ rw (e, create_from_request) q
  | inr (r, found) ↦
      elim (Option-cases (find_where (open_task_of i input.blocking) w.human_tasks)) [
        | inl e ↦ elim (Bool-cases input.blocking) [
          | inl t ↦
              rw (request-new jira i input w r found e, (ask-blocking jira i input w h r t).2)
                (one_more r e)
          | inr f ↦
              rw (request-new jira i input w r found e, ask-non_blocking jira i input w h r f)
                (one_more r e)
        ]
        | inr (t, e) ↦ elim (Bool-cases input.blocking) [
          | inl u ↦
              rw
                (request-again jira i input w r t found e, (repeat-blocking jira i input w h t u).2)
                q
          | inr f ↦ rw (request-again jira i input w r t found e, repeat_ask) (rw f q)
        ]
      ]
]
  where
    one_more :
        (r : Run)
        → find_where (open_task_of i input.blocking) w.human_tasks ≡ none
        → count_where
            (open_task_of j b)
            (w.human_tasks ++ requested_task i r input (w.uuids w.drawn) ∷ [])
          ≤ 1
    one_more r e = ground (
      arith,
      count_where-append (open_task_of j b) w.human_tasks
          (requested_task i r input (w.uuids w.drawn) ∷ []),
      count_where-none (open_task_of i input.blocking) w.human_tasks
          (find_where-none (open_task_of i input.blocking) w.human_tasks e),
    )
