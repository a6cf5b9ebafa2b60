-- ===== src/Setup/Validation.antt =====
-- libs/pipeline/src/setup-apply.service.ts: what is wrong with a proposed team (`validateTeam`).
--
-- The board's statuses come through Jira, which may fail. Names of executor profiles are unique, so
-- that a map by name is a look-up. The message of an issue and the details of the review task are
-- composed texts: the first are left out, the second are a parameter.
pub mod Sound
use brigadir.Prelude.{
  ℕ, suc, String, true, Option, none, some, List, [], ◌∷◌, ◌++◌, ◌==◌, str_eq, map, all_where,
  any_where, find_where, if◌then◌else◌,
}
use brigadir.Domain.{World, Agent, Executor, Workspace, TeamAgent, Io, pure}
use brigadir.Setup.Keys.{slugify_agent_key}
use brigadir.Setup.Linter.{LintableAgent, LintIssue, AgentRef, row, proposal, IssueCode, lint_agent}

pub data Step : Type 0 where
  at : String → Step
  index : ℕ → Step

pub data TeamCode : Type 0 where
  missing workspace_missing statuses_unavailable : TeamCode
  duplicate_name executor_unknown executor_disabled : TeamCode
  lint : IssueCode → TeamCode

pub record TeamIssue : Type 0 where
  pub path : List Step
  pub code : TeamCode

-- JavaScript's string methods and template, the board of a workspace, by its project, and the words of
-- the review task and of a recast report.
pub record SetupPort : Type 0 where
  pub to_lower_case : String → String
  pub trim : String → String
  pub suffixed : String → ℕ → String
  pub project_statuses : ℕ → String → World → Option (List String)
  pub review_details : List TeamAgent → String
  pub recast_summary : String → String

abbrev pub lintable_row : Agent → LintableAgent
lintable_row a = record {
  id = some (row a.id);
  name = a.name;
  trigger_status = a.trigger_status;
  trigger_jql = a.trigger_jql;
  status_running = a.status_running;
  status_success = a.status_success;
  status_failure = a.status_failure;
  enabled = a.enabled;
}

abbrev pub lintable : Option AgentRef → TeamAgent → LintableAgent
lintable id p = record {
  id = id;
  name = p.name;
  trigger_status = some p.trigger_status;
  trigger_jql = none;
  status_running = p.status_running;
  status_success = p.status_success;
  status_failure = p.status_failure;
  enabled = true;
}

abbrev pub profile_by_name : String → World → Option Executor
profile_by_name name w = find_where (λ e. str_eq e.name name) w.executors

abbrev issue_at : ℕ → String → TeamCode → TeamIssue
issue_at i field code = record {
  path = at "team" ∷ at "agents" ∷ index i ∷ at field ∷ [];
  code = code;
}

abbrev pub profile_issues : ℕ → Option Executor → List TeamIssue
profile_issues i none = issue_at i "executor" executor_unknown ∷ []
profile_issues i (some profile) =
    if profile.enabled then [] else issue_at i "executor" executor_disabled ∷ []

abbrev lifted : ℕ → LintIssue → TeamIssue
lifted i e = record { path = at "team" ∷ at "agents" ∷ index i ∷ map at e.path; code = lint e.code }

abbrev pub duplicate_issue : List TeamIssue
duplicate_issue = record { path = at "team" ∷ at "agents" ∷ []; code = duplicate_name } ∷ []

module _ (port : SetupPort) where
  abbrev pub key_of : TeamAgent → String
  key_of p = slugify_agent_key port.to_lower_case p.name p.role

  abbrev pub key_issues : ℕ → List String → TeamAgent → List TeamIssue
  key_issues i seen p =
      if any_where (str_eq (key_of p)) seen then issue_at i "name" duplicate_name ∷ [] else []

  abbrev pub lint_issues : ℕ → List LintableAgent → List String → TeamAgent → List TeamIssue
  lint_issues i agents board p =
      map (lifted i) (lint_agent port.trim (lintable none p) agents board).errors

  -- `proposed.forEach`, with the keys seen before and the earlier agents of the proposal.
  unfoldable pub team_issues :
      World → List String → ℕ → List String → List LintableAgent → List TeamAgent → List TeamIssue
  team_issues w board i seen agents [] = []
  team_issues w board i seen agents (p ∷ ps) =
      (key_issues i seen p
        ++ profile_issues i (profile_by_name p.executor w)
        ++ lint_issues i agents board p)
      ++ team_issues w board (suc i) (key_of p ∷ seen)
          (agents ++ lintable (some (proposal i)) p ∷ []) ps

  abbrev pub rows_of : ℕ → World → List Agent
  rows_of workspace w = all_where (λ a. a.workspace_id == workspace) w.agents

  abbrev pub on_statuses : ℕ → List TeamAgent → Option (List String) → Io (List TeamIssue)
  on_statuses workspace proposed none w =
      pure (record { path = []; code = statuses_unavailable } ∷ []) w
  on_statuses workspace proposed (some board) w =
      pure (team_issues w board 0 [] (map lintable_row (rows_of workspace w)) proposed) w

  abbrev pub on_workspace : ℕ → List TeamAgent → Option Workspace → Io (List TeamIssue)
  on_workspace workspace proposed none w =
      pure (record { path = []; code = workspace_missing } ∷ []) w
  on_workspace workspace proposed (some x) w =
      on_statuses workspace proposed (port.project_statuses workspace x.jira_project_key w) w

  unfoldable pub validate_team : ℕ → List TeamAgent → Io (List TeamIssue)
  validate_team workspace proposed w =
      on_workspace workspace proposed (find_where (λ x. x.id == workspace) w.workspaces) w
