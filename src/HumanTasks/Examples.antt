-- ===== src/HumanTasks/Examples.antt =====
-- Requests and resolutions on small stores.
use brigadir.Prelude.{
  true, some, none, [], ◌∷◌, refl, ◌≡◌, ◌≤◌, ◌++◌, ◌==◌, arith, any_where, update_where,
}
use brigadir.Domain.{
  World, Run, RunStatus, queued, running, awaiting_human, HumanTask, open_task, resolved, question,
  JiraClient, no_transition_path, run_of, indexes_ok, slot, ok,
}
use brigadir.Fixtures.{run_with, world_with}
use brigadir.Runs.Service.{open_task_of}
use brigadir.Runs.Trigger.{agent_row}
use brigadir.HumanTasks.Service.{CreateHumanTaskInput, create_from_request, result_of}
use brigadir.HumanTasks.Requests.{blocking_request_parks, request-tasks_open, tasks_open}
use brigadir.HumanTasks.Resume.{
  ResolveInput, ResolveResult, resume, resolve, parked_run, supersede, closed_task,
}
use brigadir.HumanTasks.Successor.{successor}
use brigadir.HumanTasks.Resolution.{answer_resumes, next_row, job_of}

-- A Jira that refuses every transition, and takes every comment.
abbrev stuck_jira : JiraClient
stuck_jira = record {
  transition_fails = λ w key status. some no_transition_path;
  comment_fails = λ w key. none;
}

abbrev request : CreateHumanTaskInput
request = record {
  kind = question;
  title = "Which branch?";
  details = none;
  blocking = true;
  options = "main" ∷ "next" ∷ [];
}

abbrev working_run : Run
working_run = run_with 1 1 1 running

abbrev working : World
working = world_with (working_run ∷ run_with 2 2 1 queued ∷ [])

working-indexes_ok : indexes_ok working.runs ≡ true
unfolding indexes_ok slot
working-indexes_ok = refl

blocking_request_parks_example :
    let (result, w') = create_from_request stuck_jira 1 request working in
    (result ≡ ok (result_of true true true))
    × (run_of 1 w'.runs ≡ some (record working_run { status = awaiting_human }))
    × (any_where (open_task_of 1 true) w'.human_tasks ≡ true)
blocking_request_parks_example =
    blocking_request_parks stuck_jira 1 request working working_run working-indexes_ok refl refl
      refl

request-tasks_open_example :
    tasks_open 1 true (create_from_request stuck_jira 1 request working).1 ≤ 1
request-tasks_open_example =
    request-tasks_open stuck_jira 1 request working working-indexes_ok 1 true (omega arith)

abbrev asked : HumanTask
asked = record {
  id = 7;
  workspace_id = 1;
  run_id = some 1;
  ticket_id = some 1;
  kind = question;
  title = "Which branch?";
  details = none;
  options = [];
  blocking = true;
  status = open_task;
  resolution = none;
  resolved_at = none;
  resolved_by = none;
}

abbrev parked : Run
parked = run_with 1 1 1 awaiting_human

abbrev waiting : World
waiting = record (world_with (parked ∷ run_with 2 2 1 queued ∷ [])) { human_tasks = asked ∷ [] }

waiting-indexes_ok : indexes_ok waiting.runs ≡ true
unfolding indexes_ok slot
waiting-indexes_ok = refl

abbrev answer : ResolveInput
answer = record {
  action = resume;
  answer = some "main";
  resolved_by = some "ann";
  target_agent_id = none;
}

answer_resumes_example :
    let (result, w') = resolve stuck_jira 7 answer waiting in
    let row = next_row 7 answer 1 parked waiting 1000 in
    (result ≡ ok (ResolveResult.resumed 1000))
    × (w'.runs ≡ update_where (parked_run 1) (supersede 100) waiting.runs ++ row ∷ [])
    × (row.ticket_id ≡ some 1)
    × (row.agent_id ≡ 1)
    × (row.attempt ≡ 2)
    × (row.status ≡ queued)
    × (w'.jobs ≡ job_of (successor parked (agent_row 1 waiting) none) 1000 ∷ [])
    × (w'.human_tasks
        ≡ update_where (λ t. t.id == 7) (closed_task resolved answer w'.clock) waiting.human_tasks)
unfolding successor
answer_resumes_example =
    answer_resumes stuck_jira 7 1 answer waiting asked parked waiting-indexes_ok refl refl refl refl
      refl refl refl

-- The run of the task was ended in the meantime.
abbrev too_late : World
too_late = record (world_with (run_with 1 1 1 RunStatus.cancelled ∷ [])) {
  human_tasks = asked ∷ [];
}

too_late-indexes_ok : indexes_ok too_late.runs ≡ true
unfolding indexes_ok slot
too_late-indexes_ok = refl
