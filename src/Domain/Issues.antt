-- ===== src/Domain/Issues.antt =====
-- packages/contracts/src/jira.types.ts: the slice of a Jira issue that the program reads.
use brigadir.Prelude.{String, Option, List}

pub data StatusCategoryKey : Type 0 where
  new indeterminate done : StatusCategoryKey

pub record JiraStatus : Type 0 where
  pub name : String
  pub category : StatusCategoryKey

pub record JiraLinkedIssueRef : Type 0 where
  pub key : String
  pub status : JiraStatus

-- `inward` is the name of the link's type as it reads inwards.
pub record JiraIssueLink : Type 0 where
  pub inward : String
  pub inward_issue : Option JiraLinkedIssueRef

pub record JiraPriority : Type 0 where
  pub id : String
  pub name : String

-- An absent `issuelinks` is the empty list, as in `issuelinks ?? []`.
pub record JiraIssue : Type 0 where
  pub key : String
  pub status : JiraStatus
  pub issuelinks : List JiraIssueLink
  pub priority : Option JiraPriority

-- `String.prototype.toLowerCase` and `String.prototype.trim`. What is proved holds of any two
-- functions in their place.
pub record TextMethods : Type 0 where
  pub to_lower_case : String → String
  pub trim : String → String
