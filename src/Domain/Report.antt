-- ===== src/Domain/Report.antt =====
-- packages/contracts/src/report.schema.ts and trigger-event.schema.ts: an agent's structured report
-- and the event that starts a run.
--
-- A report is the object that the shape part of the zod schema lets through. Limits on the length
-- of a text and on the size of a list are not modelled; the rules between fields (`superRefine`) are.
use brigadir.Prelude.{
  ℕ, String, Bool, true, false, ◌&&◌, ◌||◌, not, Option, none, some, List, [], ◌∷◌, is_some,
}

pub data Outcome : Type 0 where
  success failure needs_human routed team : Outcome

pub data CheckStatus : Type 0 where
  pass fail skip warn : CheckStatus

pub data HumanTaskKind : Type 0 where
  question blocker review : HumanTaskKind

pub record Check : Type 0 where
  pub name : String
  pub status : CheckStatus
  pub reason : Option String

pub record ReportHumanTask : Type 0 where
  pub kind : HumanTaskKind
  pub title : String
  pub details : Option String
  pub options : List String

pub record ReportRouting : Type 0 where
  pub target_agent : String
  pub task : String

pub record TeamAgent : Type 0 where
  pub name : String
  pub role : Option String
  pub description : String
  pub instruction : String
  pub trigger_status : String
  pub status_running : Option String
  pub status_success : String
  pub status_failure : String
  pub executor : String

-- `repo` is `none` for the flat, single-repository form.
pub record RepoArtifact : Type 0 where
  pub repo : Option String
  pub branch : Option String
  pub pr_url : Option String
  pub commits : Option (List String)
  pub files_changed : Option ℕ

pub record ReportArtifacts : Type 0 where
  pub branch : Option String
  pub pr_url : Option String
  pub commits : Option (List String)
  pub files_changed : Option ℕ
  pub repos : Option (List RepoArtifact)

pub record AgentReport : Type 0 where
  pub outcome : Outcome
  pub summary : String
  pub checks : List Check
  pub human_task : Option ReportHumanTask
  pub routing : Option ReportRouting
  pub team : Option (List TeamAgent)
  pub artifacts : Option ReportArtifacts

abbrev pub is_team : Outcome → Bool
is_team team = true
is_team _ = false

-- The rules of `superRefine`, one for each `ctx.addIssue`.
unfoldable pub refine : AgentReport → Bool
refine r =
    (elim r.outcome [
      | needs_human ↦ is_some r.human_task
      | routed ↦ is_some r.routing
      | team ↦ is_some r.team
      | _ ↦ true
    ])
    && (is_team r.outcome || not (is_some r.team))

-- `ReportSchema.parse` of a value whose shape was accepted (`some`) or not (`none`).
unfoldable pub parse_report : Option AgentReport → Option AgentReport
unfolding refine
parse_report none = none
parse_report (some r) = elim (refine r) [ true ↦ some r | false ↦ none ]

flat_artifact : ReportArtifacts → List RepoArtifact
flat_artifact a =
    elim (is_some a.branch || is_some a.pr_url || is_some a.commits || is_some a.files_changed) [
      | true ↦
          record {
            repo = none;
            branch = a.branch;
            pr_url = a.pr_url;
            commits = a.commits;
            files_changed = a.files_changed;
          }
          ∷ []
      | false ↦ []
    ]

unfoldable pub normalize_report_artifacts : AgentReport → List RepoArtifact
unfolding flat_artifact
normalize_report_artifacts r = elim r.artifacts [
  | none ↦ []
  | some a ↦ elim a.repos [ some repos ↦ repos | none ↦ flat_artifact a ]
]

pub data TriggerSource : Type 0 where
  manual webhook poll human_resume triage rework answer_triage workspace_setup : TriggerSource

pub record TriggerEvent : Type 0 where
  pub source : TriggerSource
  pub mock_scenario : Option String
  pub failing_run_id : Option ℕ
  pub deciding_run_id : Option ℕ
  pub human_task_id : Option ℕ
  pub target_agent : Option String
  pub task : Option String
  pub resolution : Option String
