-- ===== src/Callback/Service.antt =====
-- libs/callback/src/callback.service.ts: an agent's completion and its question to a human.
--
-- The acceptance of a proposed team, which Setup/Service fills, is a parameter, as is the release of
-- dependent tickets. Progress messages, which only write an event, are not modelled.
pub mod Completion
pub mod Finalized
use brigadir.Prelude.{
  ℕ, String, Bool, true, false, ◌&&◌, not, Option, none, some, List, [], ◌∷◌, ◌==◌, str_eq, Heads,
  all_where, map, if◌then◌else◌,
}
use brigadir.Domain.{
  World, Run, Agent, AgentReport, Outcome, success, failure, team, is_team, RepoArtifact, review,
  parse_report, normalize_report_artifacts, run_of, Io, Result, ok, throws, pure, ◌>>=◌, ◌>>◌,
  add_event, update_tickets, Payload, non_fatal, JiraClient, VerificationReceipt, ReceiptRules,
  build_verification_receipt,
}
use brigadir.Runs.Service.{finalize_with_report, no_extra}
use brigadir.HumanTasks.Service.{
  CreateHumanTaskInput, CreateHumanTaskResult, create_from_request, create_non_blocking, agent_of,
}
use brigadir.Pipeline.Decision.{Facts}
use brigadir.Pipeline.Completion.{on_run_finished}
use brigadir.Setup.Validation.{TeamIssue}
use brigadir.Setup.Service.{TeamAcceptResult, applied, team_invalid, team_conflict, recast_failure}
use brigadir.Callback.Scrub.{scrub_agent_report, scrub_options, on_some}
use brigadir.Callback.CompletionGate.{HandoffViolation, check_handoff_gate}

pub data CompleteResult : Type 0 where
  completed : Outcome → CompleteResult
  body_invalid : CompleteResult
  unreported : List HandoffViolation → CompleteResult
  proposal_invalid : List TeamIssue → CompleteResult
  conflict : CompleteResult

-- The wording of a review task, by the pull requests that it lists.
pub record ReviewText : Type 0 where
  pub title : List RepoArtifact → String
  pub details : List RepoArtifact → String

abbrev pub has_pr : RepoArtifact → Bool
has_pr a = elim a.pr_url [ some url ↦ not (str_eq url "") | none ↦ false ]

abbrev pub succeeded_with : Outcome → Bool
succeeded_with success = true
succeeded_with _ = false

abbrev delivers_pr : Agent → Bool
delivers_pr agent = elim agent.code_delivery [ some d ↦ str_eq d "pull_request" | none ↦ false ]

module _ (jira : JiraClient) (text : Facts → String) (release : ℕ → String → Io Unit)
    (scrub : String → String) (rules : ReceiptRules) (words : ReviewText)
    (accept_team : ℕ → AgentReport → Io TeamAcceptResult) where
  unfoldable pub human : ℕ → Option CreateHumanTaskInput → Io (Option CreateHumanTaskResult)
  human i none = pure none
  human i (some input) =
      create_from_request jira i (record input {
        title = scrub input.title;
        details = on_some scrub input.details;
        options = scrub_options scrub input.options;
      })
      >>= λ result. pure (some result)

  abbrev save_receipt : ℕ → ℕ → Option VerificationReceipt → Io Unit
  save_receipt i ticket none = pure tt
  save_receipt i ticket (some receipt) =
      update_tickets (λ t. t.id == ticket) (λ t. record t { verification = some receipt })
      >> add_event i (Payload.verification_receipt receipt.gates)

  abbrev receipt_by : ℕ → AgentReport → Heads → ℕ → Option Agent → Io Unit
  receipt_by i report observed ticket none w = pure tt w
  receipt_by i report observed ticket (some agent) w =
      save_receipt i ticket
        (build_verification_receipt rules report observed i (some agent.name) w.clock) w

  abbrev receipt_for : ℕ → AgentReport → Heads → Option Run → Io Unit
  receipt_for i report observed none w = pure tt w
  receipt_for i report observed (some run) w = elim run.ticket_id [
    | none ↦ pure tt w
    | some ticket ↦ receipt_by i report observed ticket (agent_of run.agent_id w) w
  ]

  unfoldable pub write_verification_receipt : ℕ → AgentReport → Option Heads → Io Unit
  write_verification_receipt i report none w = pure tt w
  write_verification_receipt i report (some observed) w =
      receipt_for i report observed (run_of i w.runs) w

  abbrev ask_review : ℕ → List RepoArtifact → Io Unit
  ask_review i prs =
      create_non_blocking jira i review (words.title prs) (some (words.details prs)) >>= λ _.
      pure tt

  abbrev review_by : ℕ → List RepoArtifact → Option Agent → Io Unit
  review_by i prs none = pure tt
  review_by i prs (some agent) = if delivers_pr agent then ask_review i prs else pure tt

  abbrev review_for : ℕ → List RepoArtifact → Option Run → Io Unit
  review_for i prs none w = pure tt w
  review_for i prs (some run) w = review_by i prs (agent_of run.agent_id w) w

  abbrev review_of : ℕ → List RepoArtifact → Io Unit
  review_of i [] w = pure tt w
  review_of i (pr ∷ prs) w = review_for i (pr ∷ prs) (run_of i w.runs) w

  unfoldable pub maybe_queue_review_task : ℕ → AgentReport → Io Unit
  maybe_queue_review_task i report =
      if succeeded_with report.outcome
      then review_of i (all_where has_pr (normalize_report_artifacts report))
      else pure tt

  -- The pipeline runs after the answer, and its failure is only logged.
  abbrev pub finish_later : ℕ → Io Unit
  finish_later i = non_fatal (on_run_finished jira text release i)

  abbrev pub after_completion : ℕ → AgentReport → Option Heads → Bool → Io CompleteResult
  after_completion i report observed false = pure conflict
  after_completion i report observed true =
      non_fatal (write_verification_receipt i report observed)
      >> maybe_queue_review_task i report
      >> finish_later i
      >> pure (completed report.outcome)

  abbrev after_team : ℕ → TeamAcceptResult → Io CompleteResult
  after_team i (team_invalid issues) = pure (proposal_invalid issues)
  after_team i team_conflict = pure conflict
  after_team i recast_failure = finish_later i >> pure (completed failure)
  after_team i (applied created) = finish_later i >> pure (completed team)

  unfoldable pub settle : ℕ → AgentReport → Option Heads → Io CompleteResult
  settle i report observed =
      if is_team report.outcome
      then accept_team i report >>= after_team i
      else (finalize_with_report i (some report) no_extra >>= after_completion i report observed)

  abbrev pub after_gate :
      ℕ → AgentReport → Option Heads → Option (List HandoffViolation) → Io CompleteResult
  after_gate i report observed (some vs) = pure (unreported vs)
  after_gate i report observed none = settle i report observed

  abbrev pub on_body : ℕ → Option Heads → Option AgentReport → Io CompleteResult
  on_body i observed none = pure body_invalid
  on_body i observed (some parsed) =
      check_handoff_gate i (scrub_agent_report scrub parsed) observed
      >>= after_gate i (scrub_agent_report scrub parsed) observed

  -- `raw` is the body and `observed` the header, as their schemas read them.
  unfoldable pub complete : ℕ → Option AgentReport → Option Heads → Io CompleteResult
  complete i raw observed = on_body i observed (parse_report raw)
