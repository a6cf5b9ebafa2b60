-- ===== src/Setup/Linter.antt =====
-- packages/contracts/src/agent-linter.ts: what is wrong with an agent, on its board and beside the
-- other agents of its workspace.
--
-- The message of an issue is composed from its code and its value and left out, as is the level,
-- which says which of the two lists the issue is in.
use brigadir.Prelude.{
  ℕ, String, Bool, true, false, ◌&&◌, not, Option, none, some, List, [], ◌∷◌, ◌++◌, ◌==◌, str_eq,
  get_or, all_where, any_where, find_where, if◌then◌else◌,
}

-- The identifier of a row, or the place in a proposal.
pub data AgentRef : Type 0 where
  row proposal : ℕ → AgentRef

pub record LintableAgent : Type 0 where
  pub id : Option AgentRef
  pub name : String
  pub trigger_status : Option String
  pub trigger_jql : Option String
  pub status_running : Option String
  pub status_success : String
  pub status_failure : String
  pub enabled : Bool

pub data IssueCode : Type 0 where
  status_absent duplicate_trigger status_cycle : IssueCode

pub record LintIssue : Type 0 where
  pub path : List String
  pub code : IssueCode
  pub value : String

pub record LintResult : Type 0 where
  pub errors : List LintIssue
  pub warnings : List LintIssue

-- `if (name == null || name === '')`: the text, unless it is absent or empty.
abbrev pub present : Option String → Option String
present none = none
present (some s) = if str_eq s "" then none else some s

abbrev pub same_text? : Option String → Option String → Bool
same_text? none none = true
same_text? (some a) (some b) = str_eq a b
same_text? _ _ = false

abbrev pub same_ref : Option AgentRef → Option AgentRef → Bool
same_ref (some (row a)) (some (row b)) = a == b
same_ref (some (proposal a)) (some (proposal b)) = a == b
same_ref _ _ = false

abbrev pub on_board : List String → String → Bool
on_board board name = any_where (str_eq name) board

abbrev pub absent_by : List String → String → Option String → List LintIssue
absent_by board path none = []
absent_by board path (some name) =
    if on_board board name
    then []
    else record { path = path ∷ []; code = status_absent; value = name } ∷ []

-- One field of `STATUS_FIELDS`.
abbrev pub status_absent_of : List String → String → Option String → List LintIssue
status_absent_of board path name = absent_by board path (present name)

abbrev pub status_fields : List String → LintableAgent → List LintIssue
status_fields board candidate =
    status_absent_of board "trigger_status" candidate.trigger_status
    ++ status_absent_of board "status_running" candidate.status_running
    ++ status_absent_of board "status_success" (some candidate.status_success)
    ++ status_absent_of board "status_failure" (some candidate.status_failure)

abbrev pub others : LintableAgent → List LintableAgent → List LintableAgent
others candidate agents = all_where (λ a. a.enabled && not (same_ref candidate.id a.id)) agents

module _ (trim : String → String) where
  abbrev pub normalize_jql : Option String → Option String
  normalize_jql jql = let v = trim (get_or jql "") in if str_eq v "" then none else some v

  abbrev pub collides : LintableAgent → String → LintableAgent → Bool
  collides candidate trigger a =
      same_text? a.trigger_status (some trigger)
      && same_text? (normalize_jql a.trigger_jql) (normalize_jql candidate.trigger_jql)

  abbrev pub duplicate_by : String → Option LintableAgent → List LintIssue
  duplicate_by trigger none = []
  duplicate_by trigger (some collision) =
      record { path = "trigger_status" ∷ []; code = duplicate_trigger; value = trigger } ∷ []

  abbrev pub duplicates : LintableAgent → List LintableAgent → Option String → List LintIssue
  duplicates candidate agents none = []
  duplicates candidate agents (some trigger) =
      duplicate_by trigger (find_where (collides candidate trigger) (others candidate agents))

  abbrev closes_cycle : LintableAgent → String → LintableAgent → Bool
  closes_cycle candidate trigger b =
      same_text? b.trigger_status (some candidate.status_success) && str_eq b.status_success trigger

  abbrev cycle_by : LintableAgent → Option LintableAgent → List LintIssue
  cycle_by candidate none = []
  cycle_by candidate (some b) =
      record { path = "status_success" ∷ []; code = status_cycle; value = candidate.status_success }
      ∷ []

  abbrev pub cycles : LintableAgent → List LintableAgent → Option String → List LintIssue
  cycles candidate agents none = []
  cycles candidate agents (some trigger) =
      cycle_by candidate (find_where (closes_cycle candidate trigger) (others candidate agents))

  unfoldable pub lint_agent : LintableAgent → List LintableAgent → List String → LintResult
  lint_agent candidate agents board = record {
    errors =
        status_fields board candidate
        ++ duplicates candidate agents (present candidate.trigger_status);
    warnings = cycles candidate agents (present candidate.trigger_status);
  }
