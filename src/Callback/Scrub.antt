-- ===== src/Callback/Scrub.antt =====
-- libs/callback/src/report-scrub.ts: every free text of a report goes through the scrubber before it is
-- stored. An answer option is a single text here, its label.
use brigadir.Prelude.{String, Option, none, some, List, map, ◌≡◌, refl, arith, is_some}
use brigadir.Domain.{
  Check, ReportHumanTask, ReportRouting, TeamAgent, RepoArtifact, ReportArtifacts, AgentReport,
  refine, parse_report,
}

abbrev pub on_some {ℓ} : {A : Type ℓ} → (A → A) → Option A → Option A
on_some f none = none
on_some f (some a) = some (f a)

module _ (scrub : String → String) where
  abbrev pub scrub_options : List String → List String
  scrub_options options = map scrub options

  abbrev scrub_check : Check → Check
  scrub_check c = record c { reason = on_some scrub c.reason }

  abbrev scrub_human_task : ReportHumanTask → ReportHumanTask
  scrub_human_task t = record t {
    title = scrub t.title;
    details = on_some scrub t.details;
    options = scrub_options t.options;
  }

  abbrev scrub_routing : ReportRouting → ReportRouting
  scrub_routing r = record r { task = scrub r.task }

  abbrev scrub_team_agent : TeamAgent → TeamAgent
  scrub_team_agent a = record a {
    description = scrub a.description;
    instruction = scrub a.instruction;
  }

  abbrev scrub_repo : RepoArtifact → RepoArtifact
  scrub_repo a = record a {
    repo = on_some scrub a.repo;
    branch = on_some scrub a.branch;
    pr_url = on_some scrub a.pr_url;
    commits = on_some (map scrub) a.commits;
  }

  abbrev scrub_artifacts : ReportArtifacts → ReportArtifacts
  scrub_artifacts a = record a {
    branch = on_some scrub a.branch;
    pr_url = on_some scrub a.pr_url;
    commits = on_some (map scrub) a.commits;
    repos = on_some (map scrub_repo) a.repos;
  }

  unfoldable pub scrub_agent_report : AgentReport → AgentReport
  scrub_agent_report r = record r {
    summary = scrub r.summary;
    checks = map scrub_check r.checks;
    human_task = on_some scrub_human_task r.human_task;
    routing = on_some scrub_routing r.routing;
    team = on_some (map scrub_team_agent) r.team;
    artifacts = on_some scrub_artifacts r.artifacts;
  }

  is_some-on_some {ℓ} : {A : Type ℓ} (f : A → A) (o : Option A) → is_some (on_some f o) ≡ is_some o
  is_some-on_some f none = refl
  is_some-on_some f (some a) = refl

  pub outcome-scrub_agent_report : (r : AgentReport) → (scrub_agent_report r).outcome ≡ r.outcome
  unfolding scrub_agent_report
  outcome-scrub_agent_report r = refl

  refine-scrub_agent_report : (r : AgentReport) → refine (scrub_agent_report r) ≡ refine r
  unfolding refine scrub_agent_report
  refine-scrub_agent_report r = ground (
    arith,
    is_some-on_some scrub_human_task r.human_task,
    is_some-on_some scrub_routing r.routing,
    is_some-on_some (map scrub_team_agent) r.team,
  )

  -- A scrubbed report is accepted again where it is parsed again.
  pub parse_report-scrub_agent_report :
      (r : AgentReport)
      → parse_report (some r) ≡ some r
      → parse_report (some (scrub_agent_report r)) ≡ some (scrub_agent_report r)
  unfolding parse_report
  parse_report-scrub_agent_report r h = ground (arith, h, refine-scrub_agent_report r)
