-- ===== src/Pipeline/Gate.antt =====
-- libs/pipeline/src/dependency-gate.ts: may a ticket start, given the tickets that block it?
pub mod Laws
use brigadir.Prelude.{
  String, Bool, true, false, ◌&&◌, not, Option, none, some, List, [], ◌∷◌, map, is_some, str_eq,
  all_where, if◌then◌else◌,
}
use brigadir.Domain.{
  JiraIssue, JiraIssueLink, JiraLinkedIssueRef, JiraStatus, StatusCategoryKey, done, TextMethods,
}

pub data GateVerdict : Type 0 where
  clear blocked : GateVerdict

abbrev is_done : StatusCategoryKey → Bool
is_done done = true
is_done _ = false

module _ (text : TextMethods) where
  unfoldable pub normalize : String → String
  normalize value = text.to_lower_case (text.trim value)

  -- The inward end of an "is blocked by" link, the only kind that gates.
  unfoldable pub blocker_of : JiraIssueLink → Option JiraLinkedIssueRef
  blocker_of link =
      if str_eq (text.to_lower_case link.inward) "is blocked by" then link.inward_issue else none

  -- The configured release status, normalized; `none` if absent or blank.
  unfoldable pub wanted : Option String → Option String
  wanted none = none
  wanted (some s) = if str_eq (normalize s) "" then none else some (normalize s)

  unfoldable pub reached : Option String → JiraStatus → Bool
  reached none status = false
  reached (some w) status = str_eq (normalize status.name) w

  abbrev pub link_gates : Option String → Option JiraLinkedIssueRef → Bool
  link_gates w none = false
  link_gates w (some b) = not (is_done b.status.category) && not (reached w b.status)

  unfoldable pub blocking_links : JiraIssue → Option String → List JiraIssueLink
  blocking_links issue release =
      all_where (λ link. link_gates (wanted release) (blocker_of link)) issue.issuelinks

  abbrev keys_of : List JiraIssueLink → List String
  keys_of [] = []
  keys_of (link ∷ links) = elim link.inward_issue [
    | some b ↦ b.key ∷ keys_of links
    | none ↦ keys_of links
  ]

  unfoldable pub blocking_keys : JiraIssue → Option String → List String
  unfolding blocking_links
  blocking_keys issue release = keys_of (blocking_links issue release)

  abbrev pub verdict : List JiraIssueLink → GateVerdict
  verdict [] = clear
  verdict (link ∷ links) = blocked

  unfoldable pub evaluate_dependency_gate : JiraIssue → Option String → GateVerdict
  unfolding blocking_links
  evaluate_dependency_gate issue release = verdict (blocking_links issue release)

  unfoldable pub all_blocked_by_keys : JiraIssue → List String
  all_blocked_by_keys issue =
      keys_of (all_where (λ link. is_some (blocker_of link)) issue.issuelinks)

  abbrev pub early : Option String → Option JiraLinkedIssueRef → Bool
  early w none = false
  early w (some b) = not (is_done b.status.category) && reached w b.status

  abbrev ref_of : List JiraIssueLink → List (String × String)
  ref_of [] = []
  ref_of (link ∷ links) = elim link.inward_issue [
    | some b ↦ (b.key, b.status.name) ∷ ref_of links
    | none ↦ ref_of links
  ]

  unfoldable pub early_links : JiraIssue → Option String → List JiraIssueLink
  early_links issue release =
      all_where (λ link. early (wanted release) (blocker_of link)) issue.issuelinks

  -- The blockers that release only by the configured status, with that status.
  unfoldable pub early_release_blockers : JiraIssue → Option String → List (String × String)
  unfolding early_links
  early_release_blockers issue release = ref_of (early_links issue release)
