-- ===== src/Callback/Examples.antt =====
-- Completions on small stores.
use brigadir.Prelude.{
  List, ℕ, String, true, false, some, none, [], ◌∷◌, ◌≡◌, refl, Heads, str_eq, length,
  if◌then◌else◌,
}
use brigadir.Domain.{
  TextMethods, ok, World, Run, running, success, AgentReport, RepoArtifact, JiraClient, Io, pure,
  Payload, parse_report, refine, ReceiptRules, normalize_report_artifacts, indexes_ok, update_runs,
}
use brigadir.Fixtures.{run_with, world_with, blank_report}
use brigadir.Runs.Service.{finalize_with_report, effects_if, apply_report_effects}
use brigadir.Pipeline.Decision.{Facts}
use brigadir.Pipeline.Candidates.{Board}
use brigadir.Pipeline.Release.{Waiting, release_dependents_of}
use brigadir.Setup.Service.{TeamAcceptResult}
use brigadir.Callback.Scrub.{scrub_agent_report}
use brigadir.Callback.CompletionGate.{
  reported, flat_attributed, start_refs_from, check_handoff_gate, detect_handoff_violations,
}
use brigadir.Callback.Service.{ReviewText, complete, settle, maybe_queue_review_task}
use brigadir.Callback.Service.Completion.{refuses, complete-reported}

abbrev open_jira : JiraClient
open_jira = record { transition_fails = λ w key status. none; comment_fails = λ w key. none }

abbrev no_text : Facts → String
no_text facts = ""

abbrev silent_board : Board
silent_board = record {
  search = λ query w. ok [];
  number_of = λ s. none;
  text_before = λ a b. false;
}

abbrev same_text : TextMethods
same_text = record { to_lower_case = λ s. s; trim = λ s. s }

abbrev no_words : Waiting → List String → String × String
no_words x outside = ("", "")

-- The release pass itself, with what it is proved to keep.
abbrev no_release : ℕ → String → Io Unit
no_release = release_dependents_of same_text silent_board no_words

abbrev mask : String → String
mask s = if str_eq s "hunter2" then "***" else s

abbrev plain_rules : ReceiptRules
plain_rules = record { truncate_gate_name = λ name. name; accepts = λ receipt. true }

abbrev plain_review : ReviewText
plain_review = record { title = λ prs. "Review PRs"; details = λ prs. "" }

abbrev no_team : ℕ → AgentReport → Io TeamAcceptResult
no_team i report = pure TeamAcceptResult.team_conflict

-- Run 1 started with repository `web` at commit `a1`.
abbrev at_work : Run
at_work = run_with 1 1 1 running

abbrev working : World
working = record (world_with (at_work ∷ [])) {
  run_events = record { run_id = 1; payload = Payload.start_ref "web" "a1" } ∷ [];
}

abbrev web_moved : Heads
web_moved = ("web", "b2") ∷ []

abbrev web_branch : RepoArtifact
web_branch = record {
  repo = some "web";
  branch = some "feature";
  pr_url = none;
  commits = none;
  files_changed = none;
}

abbrev silent_report : AgentReport
silent_report = blank_report success

abbrev full_report : AgentReport
full_report = record (blank_report success) {
  artifacts = some (record {
    branch = none;
    pr_url = none;
    commits = none;
    files_changed = none;
    repos = some (web_branch ∷ []);
  });
}

full_report-valid : parse_report (some full_report) ≡ some full_report
unfolding parse_report refine
full_report-valid = refl

full_report-passes :
    refuses
      (complete open_jira no_text no_release mask plain_rules plain_review no_team 1
        (some full_report)
        (some web_moved)
        working).0
    ≡ false
unfolding complete check_handoff_gate detect_handoff_violations parse_report refine
    scrub_agent_report normalize_report_artifacts settle finalize_with_report update_runs indexes_ok
    effects_if apply_report_effects maybe_queue_review_task
full_report-passes = refl

complete-reported_example :
    let artifacts = normalize_report_artifacts (scrub_agent_report mask full_report) in
    reported artifacts
      (flat_attributed artifacts (length (start_refs_from 1 [] working.run_events)))
      "web"
    ≡ true
complete-reported_example =
    complete-reported open_jira no_text no_release mask plain_rules plain_review no_team 1
      full_report web_moved working "web" "a1" "b2" full_report-valid full_report-passes refl refl
      refl
