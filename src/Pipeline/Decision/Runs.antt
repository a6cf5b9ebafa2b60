-- ===== src/Pipeline/Decision/Runs.antt =====
-- Which runs a decision mints.
use brigadir.Prelude.{
  ℕ, String, Bool, true, false, Option, none, some, List, [], ◌∷◌, ◌++◌, ◌≡◌, refl, arith, ◌⊎◌, inl,
  inr, ap, Option-cases,
}
use brigadir.Domain.{
  World, Io, Run, Agent, Executor, AgentReport, ReportRouting, JiraClient, Result, ok, throws,
  Failure, add_comment, JiraWrite, transition, comment, HumanTaskKind, blocker,
}
use brigadir.Runs.Trigger.{
  trigger, run_row, job_for, TriggerInput, TriggerResult, minted, deduplicated,
}
use brigadir.Runs.Trigger.Idempotence.{trigger-cases, mints}
use brigadir.HumanTasks.Service.{create_non_blocking, create_from_request, ask, repeat_ask}
use brigadir.Pipeline.Decision.{
  Facts, lost_race, override_active_run, to_running, staged, stage_done, Attempt, decided,
  is_routed, Decision, fall_back, execute, rework_input, after_trigger,
}

-- The attempt ended with the decision `routed`.
abbrev pub routes : Result Attempt → Bool
routes (ok (decided is_routed)) = true
routes _ = false

pub create_non_blocking-runs :
    (jira : JiraClient) (i : ℕ) (kind : HumanTaskKind) (title : String) (details : Option String)
    (w : World)
    → let w' = (create_non_blocking jira i kind title details w).1 in
      (w'.runs ≡ w.runs) × (w'.jobs ≡ w.jobs)
unfolding create_non_blocking create_from_request ask repeat_ask
create_non_blocking-runs jira i kind title details w = (ground arith, ground arith)

-- An action that writes to Jira only: it throws and changes nothing, or adds writes.
abbrev WritesJira : Io Unit → World → Type 0
WritesJira m w =
    ((e : Failure) × (m w ≡ (throws e, w)))
    ⊎ ((js : List JiraWrite) × (m w ≡ (ok tt, record w { jira = js })))

to_running-cases :
    (jira : JiraClient) (details : Facts → String) (key : String) (status : Option String)
    (w : World)
    → WritesJira (to_running jira details key status) w
to_running-cases jira details key none w = inr (w.jira, refl)
to_running-cases jira details key (some status) w =
    elim (Option-cases (jira.transition_fails w key status)) [
      | inl e ↦ inr (w.jira ++ transition key status ∷ [], ground arith)
      | inr (e, f) ↦ inl (e, ground arith)
    ]

add_comment-cases :
    (jira : JiraClient) (key : String) (write : JiraWrite) (w : World)
    → WritesJira (add_comment jira key write) w
add_comment-cases jira key write w = elim (Option-cases (jira.comment_fails w key)) [
  | inl e ↦ inr (w.jira ++ write ∷ [], ground arith)
  | inr (e, f) ↦ inl (e, ground arith)
]

staged_eq :
    {A : Type 0} (i : ℕ) (stage : String) (m : Io A) (next : A → Io Attempt) {r : Result A}
    {w w' : World}
    → m w ≡ (r, w')
    → staged i stage m next w ≡ stage_done i stage next r w'
unfolding staged
staged_eq i stage m next e = ap (λ x. stage_done i stage next x.0 x.1) e

module _ (jira : JiraClient) (details : Facts → String) (i : ℕ) where
  -- The outcome minted nothing.
  abbrev pub MintsNothing : Result Attempt × World → World → Type 0
  MintsNothing (result, w') w = (routes result ≡ false) × (w'.runs ≡ w.runs) × (w'.jobs ≡ w.jobs)

  -- The outcome is `routed`, with one new queued run of the agent and its job.
  abbrev pub MintsRun : TriggerInput → Result Attempt × World → World → Type 0
  MintsRun input (result, w') w =
      (agent : Agent) × (executor : Executor) × (result ≡ ok (decided is_routed))
      × (w'.runs ≡ w.runs ++ run_row input agent executor w.clock (w.uuids w.drawn) ∷ [])
      × (w'.jobs ≡ w.jobs ++ job_for input agent executor (w.uuids w.drawn) ∷ [])

  fall_back-runs :
      (title : String) (facts : Facts) (d : Decision) (w : World)
      → let w' = (fall_back jira details i title facts d w).1 in
        (w'.runs ≡ w.runs) × (w'.jobs ≡ w.jobs)
  unfolding fall_back
  fall_back-runs title facts d w =
      ground (arith, create_non_blocking-runs jira i blocker title (some (details facts)) w)

  pub fall_back-MintsNothing :
      (title : String) (facts : Facts) (w : World)
      → (d : Decision) → routes (ok (decided d)) ≡ false
      → MintsNothing (fall_back jira details i title facts d w) w
  unfolding fall_back
  fall_back-MintsNothing title facts w d h =
      let c = create_non_blocking-runs jira i blocker title (some (details facts)) w in
      (ground arith, ground (arith, c.0), ground (arith, c.1))

  after_trigger-MintsNothing :
      (target : Agent) (routing : ReportRouting) (w : World) (r : TriggerResult)
      → mints (ok r) ≡ false
      → MintsNothing (after_trigger jira details i target routing r w) w
  after_trigger-MintsNothing target routing w (minted id) h = absurd (ground arith)
  after_trigger-MintsNothing target routing w (deduplicated existing) h =
      fall_back-MintsNothing "Routing overridden — another agent is active on this ticket"
        (lost_race routing existing target.status_running) w override_active_run refl

  enqueue_done-MintsNothing :
      (target : Agent) (routing : ReportRouting) (w : World) (r : Result TriggerResult)
      → mints r ≡ false
      → MintsNothing
          (stage_done i "enqueue_rework" (after_trigger jira details i target routing) r w)
          w
  enqueue_done-MintsNothing target routing w (ok r) h =
      after_trigger-MintsNothing target routing w r h
  enqueue_done-MintsNothing target routing w (throws f) h = (refl, refl, refl)

  -- What the step for the enqueueing did, of one trigger.
  abbrev pub Enqueues : TriggerInput → Result Attempt × World → World → Type 0
  Enqueues input r w = MintsNothing r w ⊎ MintsRun input r w

  enqueue-cases :
      (target : Agent) (routing : ReportRouting) (input : TriggerInput) (w : World)
      → Enqueues input
          (staged i "enqueue_rework"
            (trigger input)
            (after_trigger jira details i target routing)
            w)
          w
  enqueue-cases target routing input w = elim (trigger-cases input w) [
    | inl same ↦
        let e : trigger input w ≡ ((trigger input w).0, w) = ground (arith, same.0) in
        inl (
          rw
            (staged_eq i "enqueue_rework" (trigger input)
              (after_trigger jira details i target routing) e)
            (enqueue_done-MintsNothing target routing w (trigger input w).0 same.1))
    | inr (agent, executor, free, e) ↦
        rw
          (staged_eq i "enqueue_rework" (trigger input)
            (after_trigger jira details i target routing) e)
          (inr (agent, executor, refl, refl, refl))
  ]

  -- The steps after the transition, and after the comment.
  abbrev enqueued : Run → ℕ → ReportRouting → Agent → Io Attempt
  enqueued run ticket routing target =
      staged i "enqueue_rework" (trigger (rework_input i run ticket target routing))
        (after_trigger jira details i target routing)

  abbrev commented : Run → ℕ → String → AgentReport → ReportRouting → Agent → Io Attempt
  commented run ticket key report routing target =
      staged i "jira_comment" (add_comment jira key (comment key report))
        (λ _. enqueued run ticket routing target)

  pub execute-cases :
      (run : Run) (ticket : ℕ) (key : String) (report : AgentReport) (routing : ReportRouting)
      (target : Agent) (w : World)
      → Enqueues
          (rework_input i run ticket target routing)
          (execute jira details i run ticket key report routing target w)
          w
  unfolding execute
  execute-cases run ticket key report routing target w =
      elim (to_running-cases jira details key target.status_running w) [
        | inl (e, t) ↦
            rw
              (staged_eq i "jira_transition" (to_running jira details key target.status_running)
                (λ _. commented run ticket key report routing target) t)
              (inl (refl, refl, refl))
        | inr (js, t) ↦
            let w1 : World = record w { jira = js } in
            rw
              (staged_eq i "jira_transition" (to_running jira details key target.status_running)
                (λ _. commented run ticket key report routing target) t)
              (elim (add_comment-cases jira key (comment key report) w1) [
                | inl (e, c) ↦
                    rw
                      (staged_eq i "jira_comment" (add_comment jira key (comment key report))
                        (λ _. enqueued run ticket routing target) c)
                      (inl (refl, refl, refl))
                | inr (ks, c) ↦
                    rw
                      (staged_eq i "jira_comment" (add_comment jira key (comment key report))
                        (λ _. enqueued run ticket routing target) c)
                      (enqueue-cases target routing (rework_input i run ticket target routing)
                        (record w { jira = ks }))
              ])
      ]
