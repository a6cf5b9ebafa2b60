-- ===== src/HumanTasks/Resume.antt =====
-- libs/human-tasks/src/resume.service.ts: what the resolution of a human task does to its run.
use brigadir.Prelude.{
  ℕ, String, Bool, true, false, ◌&&◌, Option, none, some, ◌==◌, find_where, is_some, if◌then◌else◌,
}
use brigadir.Domain.{
  World, Run, RunStatus, superseded, HumanTask, TaskStatus, resolved, dismissed, Agent, Executor,
  Ticket, is_open, run_of, Io, Result, ok, throws, unique_violation, pure, ◌>>=◌, ◌>>◌, add_run,
  add_job, guarded_update, update_tasks, JiraClient, transition_to, non_fatal,
}
use brigadir.Runs.Service.{where_status, finish}
use brigadir.Runs.Trigger.{new_run, agent_row, executor_row}
use brigadir.HumanTasks.Service.{ticket_row}
use brigadir.HumanTasks.Successor.{Successor, ResumeTarget, successor, resume_event}

pub data ResolveAction : Type 0 where
  resume done_manually dismiss : ResolveAction

pub record ResolveInput : Type 0 where
  pub action : ResolveAction
  pub answer : Option String
  pub resolved_by : Option String
  pub target_agent_id : Option ℕ

pub data ResolveResult : Type 0 where
  resumed : ℕ → ResolveResult
  closed not_found not_open invalid_target active_run_conflict : ResolveResult

abbrev pub task_row : ℕ → World → Option HumanTask
task_row i w = find_where (λ t. t.id == i) w.human_tasks

abbrev pub closed_task : TaskStatus → ResolveInput → ℕ → HumanTask → HumanTask
closed_task status input now t = record t {
  status = status;
  resolution = input.answer;
  resolved_at = some now;
  resolved_by = input.resolved_by;
}

unfoldable pub close_task : ℕ → TaskStatus → ResolveInput → Io Unit
close_task i status input w = update_tasks (λ t. t.id == i) (closed_task status input w.clock) w

abbrev target_of : Agent → Option Executor → Option ResumeTarget
target_of agent none = none
target_of agent (some executor) = some (record {
  id = agent.id;
  executor_type = executor.type;
  is_orchestrator = agent.is_orchestrator;
  mock_scenario = agent.mock_scenario;
  route_target = agent.route_target;
})

abbrev target_row : Option Agent → World → Option ResumeTarget
target_row none w = none
target_row (some agent) w = target_of agent (executor_row agent.executor_id w)

-- The agent exists, is enabled, is in the workspace, and has an executor.
unfoldable pub resolve_target_agent : ℕ → ℕ → World → Option ResumeTarget
resolve_target_agent workspace i w =
    target_row
      (find_where (λ a. (a.id == i) && ((a.workspace_id == workspace) && a.enabled)) w.agents) w

abbrev pub is_parked : RunStatus → Bool
is_parked RunStatus.awaiting_human = true
is_parked _ = false

-- `where id = i and status = 'awaiting_human'`.
abbrev pub parked_run : ℕ → Run → Bool
parked_run i = where_status is_parked i

abbrev pub supersede : ℕ → Run → Run
supersede now r = finish superseded now r

pub data ResumeRunResult : Type 0 where
  resumed : ℕ → ResumeRunResult
  gone conflict : ResumeRunResult

-- The two statements of the transaction; `none` is the early return after no row was superseded.
unfoldable pub supersede_and_insert : ℕ → (ℕ → Run) → Io (Option ℕ)
supersede_and_insert i row w =
    (guarded_update (parked_run i) (supersede w.clock) >>= λ flipped.
    (if flipped then (add_run row >>= λ id. pure (some id)) else pure none))
      w

-- `db.transaction` with the handler of 23505: a throw puts the store back.
abbrev pub committed : World → Result (Option ℕ) × World → Result ResumeRunResult × World
committed before (ok (some id), w) = (ok (ResumeRunResult.resumed id), w)
committed before (ok none, w) = (ok gone, w)
committed before (throws unique_violation, w) = (ok conflict, before)
committed before (throws e, w) = (throws e, before)

abbrev to_status : JiraClient → Ticket → Option String → Io Unit
to_status jira ticket none = pure tt
to_status jira ticket (some status) = non_fatal (transition_to jira ticket.jira_key status)

abbrev running_transition : JiraClient → Option Agent → Option Ticket → Io Unit
running_transition jira (some agent) (some ticket) = to_status jira ticket agent.status_running
running_transition jira _ _ = pure tt

abbrev running_ticket : JiraClient → ℕ → Option ℕ → Io Unit
running_ticket jira agent none w = pure tt w
running_ticket jira agent (some t) w =
    running_transition jira (agent_row agent w) (ticket_row t w) w

unfoldable pub transition_to_running : JiraClient → ℕ → Option ℕ → Io Unit
transition_to_running jira agent ticket = running_ticket jira agent ticket

-- After the commit: the job, with no queue deduplication and no attempt budget, and the transition.
abbrev pub enqueue_resumed :
    JiraClient → Successor → Option ℕ → ResumeRunResult → Io ResumeRunResult
enqueue_resumed jira next ticket (ResumeRunResult.resumed id) =
    add_job (record {
      queue = next.executor_type;
      run_id = id;
      job_id = id;
      deduplication = none;
      attempts = none;
    })
    >> transition_to_running jira next.agent_id ticket
    >> pure (ResumeRunResult.resumed id)
enqueue_resumed jira next ticket r = pure r

abbrev pub resumed_row : ℕ → Run → Option Agent → ℕ → Option String → Successor → ℕ → ℕ → Run
resumed_row parked_id parked agent task answer next now =
    new_run parked.workspace_id parked.ticket_id next.agent_id next.executor_type next.attempt
      (resume_event parked_id parked agent task answer next) now

abbrev pub resume_parked :
    JiraClient → ℕ → Run → Option Agent → ℕ → Option String → Successor → Io ResumeRunResult
resume_parked jira i parked agent task answer next w =
    ((λ w1.
          committed w1
            (supersede_and_insert i (resumed_row i parked agent task answer next w1.clock) w1))
        >>= enqueue_resumed jira next parked.ticket_id)
      w

abbrev resume_found :
    JiraClient → ℕ → Option String → ℕ → Option ResumeTarget → Option Run → Io ResumeRunResult
resume_found jira i answer task target none w = pure gone w
resume_found jira i answer task target (some parked) w =
    let agent = agent_row parked.agent_id w in
    resume_parked jira i parked agent task answer (successor parked agent target) w

unfoldable pub resume_run :
    JiraClient → ℕ → Option String → ℕ → Option ResumeTarget → Io ResumeRunResult
resume_run jira i answer task target w = resume_found jira i answer task target (run_of i w.runs) w

-- The end of the resume branch of `resolve`.
abbrev pub after_resume : ℕ → ResolveInput → ResumeRunResult → Io ResolveResult
after_resume i input (ResumeRunResult.resumed id) =
    close_task i resolved input >> pure (ResolveResult.resumed id)
after_resume i input gone = pure not_open
after_resume i input conflict = pure active_run_conflict

abbrev pub resume_with : JiraClient → ℕ → ResolveInput → ℕ → Option ResumeTarget → Io ResolveResult
resume_with jira i input run target =
    resume_run jira run input.answer i target >>= after_resume i input

abbrev resume_target : JiraClient → ℕ → ResolveInput → ℕ → Option ResumeTarget → Io ResolveResult
resume_target jira i input run none = pure invalid_target
resume_target jira i input run (some target) = resume_with jira i input run (some target)

abbrev pub resume_task : JiraClient → ℕ → ResolveInput → HumanTask → ℕ → Option ℕ → Io ResolveResult
resume_task jira i input task run none w = resume_with jira i input run none w
resume_task jira i input task run (some agent) w =
    if is_some task.ticket_id
    then resume_target jira i input run (resolve_target_agent task.workspace_id agent w) w
    else pure invalid_target w

-- The run that the task blocks, if it blocks one.
abbrev pub blocked_run : HumanTask → Option ℕ
blocked_run task = if task.blocking then task.run_id else none

-- `done_manually` and `dismiss` supersede the parked run.
abbrev pub supersede_blocked : Option ℕ → Io Unit
supersede_blocked none w = pure tt w
supersede_blocked (some run) w = (guarded_update (parked_run run) (supersede w.clock) >> pure tt) w

abbrev closing_status : ResolveAction → TaskStatus
closing_status dismiss = dismissed
closing_status _ = resolved

abbrev resolve_resume : JiraClient → ℕ → ResolveInput → HumanTask → Option ℕ → Io ResolveResult
resolve_resume jira i input task none = close_task i resolved input >> pure closed
resolve_resume jira i input task (some run) =
    resume_task jira i input task run input.target_agent_id

abbrev pub resolve_open : JiraClient → ℕ → ResolveInput → HumanTask → Io ResolveResult
resolve_open jira i input task = elim input.action [
  | resume ↦ resolve_resume jira i input task (blocked_run task)
  | _ ↦
      supersede_blocked (blocked_run task)
      >> close_task i (closing_status input.action) input
      >> pure closed
]

abbrev resolve_found : JiraClient → ℕ → ResolveInput → Option HumanTask → Io ResolveResult
resolve_found jira i input none = pure not_found
resolve_found jira i input (some task) =
    if is_open task.status then resolve_open jira i input task else pure not_open

unfoldable pub resolve : JiraClient → ℕ → ResolveInput → Io ResolveResult
resolve jira i input w = resolve_found jira i input (task_row i w) w
