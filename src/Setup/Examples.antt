-- ===== src/Setup/Examples.antt =====
-- Proposed teams on a small store.
use Prim.Native.Nat.{zero}
use Prim.Native.String.{◌∷◌, count}
use Prim.Native.String.count
use brigadir.Prelude.{
  ℕ, suc, ◌+◌, ◌≤◌, ◌<◌, String, true, false, some, none, List, [], ◌∷◌, ◌≡◌, refl, ◌⊎◌, arith, ap,
  find_where, every, ◌==◌, map,
}
use brigadir.Domain.{
  World, Run, running, team, workspace_setup, AgentReport, TeamAgent, Workspace, ok, indexes_ok,
  slot, agent_keys_ok,
}
use brigadir.Fixtures.{run_with, world_with, agent_with, event_from, blank_report}
use brigadir.Setup.Keys.{
  is_free, ensure_unique_agent_key, slugify_agent_key, raw_slug, trim_end, trim_start, squeeze,
}
use brigadir.Setup.Keys.Slug.{is_handle, slugify_agent_key-handle}
use brigadir.Setup.Keys.Free.{ensure_unique_agent_key-least}
use brigadir.Setup.Linter.{lint_agent}
use brigadir.Setup.Validation.{SetupPort, validate_team, team_issues, lintable_row, rows_of}
use brigadir.Setup.Validation.Sound.{valid_team-fits, statuses_on, clean, distinct_starts}
use brigadir.Setup.Service.{accept_team_report, applied}
use brigadir.Setup.Service.Landing.{Settled}
use brigadir.Setup.Service.Accept.{accept_team_report-Settled}
use brigadir.Setup.Service.Valid.{valid_team-applied}

-- A numbering with as many marks in front.
tally : ℕ → String → String
tally zero s = s
tally (suc n) s = "i" ∷ tally n s

count-tally : (n : ℕ) (s : String) → count (tally n s) ≡ n + count s
unfolding tally
count-tally zero s = omega arith
count-tally (suc n) s =
    let more = count.cons "i" (tally n s) in omega (arith, more, count-tally n s)

tally-differ : (s : String) (i j : ℕ) → tally i s ≡ tally j s → i ≡ j
tally-differ s i j e =
    let same : count (tally i s) ≡ count (tally j s) = ap count e in
    omega (arith, same, count-tally i s, count-tally j s)

abbrev port : SetupPort
port = record {
  to_lower_case = λ s. s;
  trim = λ s. s;
  suffixed = λ base n. tally n base;
  project_statuses =
      λ workspace key w. some ("Ready" ∷ "QA" ∷ "Review" ∷ "Failed" ∷ "In Progress" ∷ []);
  review_details = λ proposed. "";
  recast_summary = λ summary. summary;
}

abbrev tester : TeamAgent
tester = record {
  name = "hera";
  role = some "qa";
  description = "tests";
  instruction = "test";
  trigger_status = "QA";
  status_running = none;
  status_success = "Review";
  status_failure = "Failed";
  executor = "mock";
}

abbrev proposal_report : AgentReport
proposal_report = record (blank_report team) { team = some (tester ∷ []) }

abbrev setup_run : Run
setup_run = record (run_with 1 1 2 running) {
  ticket_id = none;
  trigger_event = event_from workspace_setup;
}

abbrev assembling : World
assembling = world_with (setup_run ∷ [])

accept_team_report-Settled_example :
    Settled port 1 proposal_report assembling (accept_team_report port 1 proposal_report assembling)
accept_team_report-Settled_example = accept_team_report-Settled port 1 proposal_report assembling

tester-valid : validate_team port 1 (tester ∷ []) assembling ≡ (ok [], assembling)
unfolding validate_team team_issues lint_agent
tester-valid = refl

valid_team-applied_example :
    (accept_team_report port 1 proposal_report assembling).0 ≡ ok (applied 1)
valid_team-applied_example =
    valid_team-applied port tally-differ 1 proposal_report (tester ∷ []) setup_run
      (agent_with 2 "brigadir" true none) assembling (unfold indexes_ok slot in refl)
      (unfold agent_keys_ok in refl) refl refl refl refl refl refl tester-valid

valid_team-fits_example :
    (x : Workspace) × (board : List String) × (find_where (λ y. y.id == 1) assembling.workspaces
      ≡ some x)
    × (port.project_statuses 1 x.jira_project_key assembling ≡ some board)
    × (every (statuses_on board) (tester ∷ []) ≡ true)
    × (every (clean port (map lintable_row (rows_of port 1 assembling))) (tester ∷ []) ≡ true)
    × (distinct_starts port (tester ∷ []) ≡ true)
valid_team-fits_example = valid_team-fits port 1 (tester ∷ []) assembling tester-valid

ensure_unique_agent_key-least_example :
    let key = ensure_unique_agent_key port.suffixed "dev" ("dev" ∷ []) in
    (is_free ("dev" ∷ []) key ≡ true)
    × ((key ≡ "dev")
        ⊎ ((j : ℕ) × (2 ≤ j)
            × (key ≡ port.suffixed "dev" j)
            × (is_free ("dev" ∷ []) "dev" ≡ false)
            × ((m : ℕ) → 2 ≤ m → m < j → is_free ("dev" ∷ []) (port.suffixed "dev" m) ≡ false)))
ensure_unique_agent_key-least_example =
    ensure_unique_agent_key-least port.suffixed "dev" ("dev" ∷ []) (tally-differ "dev")

slugify_agent_key-handle_example :
    is_handle (slugify_agent_key port.to_lower_case "hera 9!" (some "qa")) ≡ true
slugify_agent_key-handle_example = slugify_agent_key-handle port.to_lower_case "hera 9!" (some "qa")

hera-slug : slugify_agent_key port.to_lower_case "--hera  9!" (some "qa") ≡ "hera-9-qa"
unfolding slugify_agent_key raw_slug trim_end trim_start squeeze
hera-slug = refl

nothing-slug : slugify_agent_key port.to_lower_case "!?" none ≡ "agent"
unfolding slugify_agent_key raw_slug trim_end trim_start squeeze
nothing-slug = refl
