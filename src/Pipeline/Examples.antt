-- ===== src/Pipeline/Examples.antt =====
-- The dependency gate on small issues.
use brigadir.Prelude.{String, some, none, [], ◌∷◌, ◌≡◌, ◌↔◌, All}
use brigadir.Domain.{JiraIssue, JiraIssueLink, JiraStatus, new, indeterminate, done, TextMethods}
use brigadir.Pipeline.Gate.{clear, evaluate_dependency_gate}
use brigadir.Pipeline.Gate.Laws.{LetsStart, gate-clear_iff}

-- On lower-case text without surrounding blanks both methods change nothing.
abbrev plain_text : TextMethods
plain_text = record { to_lower_case = λ s. s; trim = λ s. s }

abbrev blocked_by : String → JiraStatus → JiraIssueLink
blocked_by key status = record {
  inward = "is blocked by";
  inward_issue = some (record { key = key; status = status });
}

-- An issue with one blocker in review and one that is done.
abbrev dependent : JiraIssue
dependent = record {
  key = "K-3";
  status = record { name = "ready"; category = new };
  issuelinks =
      blocked_by "K-1" (record { name = "review"; category = indeterminate })
      ∷ blocked_by "K-2" (record { name = "closed"; category = done })
      ∷ [];
  priority = none;
}

abbrev released : JiraIssue
released = record dependent {
  issuelinks = blocked_by "K-2" (record { name = "closed"; category = done }) ∷ [];
}

gate-clear_iff_example :
    (evaluate_dependency_gate plain_text dependent (some "review") ≡ clear)
    ↔ (All (LetsStart plain_text (some "review")) dependent.issuelinks)
gate-clear_iff_example = gate-clear_iff plain_text dependent (some "review")
