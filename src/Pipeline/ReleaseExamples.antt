-- ===== src/Pipeline/ReleaseExamples.antt =====
-- Release passes and cycles of blockers on small stores.
use brigadir.Prelude.{List, String, false, none, [], ◌∷◌, ◌≡◌, refl, All}
use brigadir.Domain.{World, Run, failed, new, JiraIssue, TextMethods, ok, JiraClient}
use brigadir.Fixtures.{run_with, world_with}
use brigadir.Pipeline.Decision.{Facts}
use brigadir.Pipeline.Completion.{on_run_finished}
use brigadir.Pipeline.Completion.Keeps.{Held}
use brigadir.Pipeline.Cycles.{Edges, find_cycle_tickets, visit_all, visit, turns, turn, nexts_of}
use brigadir.Pipeline.Cycles.Ends.{visit_ends}
use brigadir.Pipeline.Cycles.Paths.{Leads}
use brigadir.Pipeline.Cycles.Marks.{find_cycle_tickets-lead_back}
use brigadir.Pipeline.Candidates.{Board}
use brigadir.Pipeline.Release.{Waiting, release_dependents_of}
use brigadir.Pipeline.Release.Keeps.{finished-keeps_runs}

abbrev plain_text : TextMethods
plain_text = record { to_lower_case = λ s. s; trim = λ s. s }

abbrev free_issue : JiraIssue
free_issue = record {
  key = "K-2";
  status = record { name = "Ready"; category = new };
  issuelinks = [];
  priority = none;
}

abbrev open_board : Board
open_board = record {
  search = λ query w. ok (record { issue = free_issue; has_resolution = false } ∷ []);
  number_of = λ s. none;
  text_before = λ a b. false;
}

abbrev plain_words : Waiting → List String → String × String
plain_words x outside = ("", "")

abbrev calm_jira : JiraClient
calm_jira = record { transition_fails = λ w key status. none; comment_fails = λ w key. none }

abbrev told : Facts → String
told facts = ""

abbrev failed_run : Run
failed_run = run_with 1 1 1 failed

abbrev one_failed : World
one_failed = world_with (failed_run ∷ [])

finished-keeps_runs_example :
    Held 1 failed_run
      (on_run_finished calm_jira told
        (release_dependents_of plain_text open_board plain_words)
        1
        one_failed).1
finished-keeps_runs_example =
    finished-keeps_runs calm_jira told plain_text open_board plain_words 1 1 failed_run one_failed
      refl

-- Two tickets that block each other, and one outside.
abbrev ring : Edges
ring = ("a", "b" ∷ []) ∷ ("b", "a" ∷ []) ∷ ("c", "a" ∷ []) ∷ []

ring-marked : find_cycle_tickets ring ≡ "b" ∷ "a" ∷ []
unfolding find_cycle_tickets visit_all visit turns turn nexts_of
ring-marked = refl

-- The ticket `c` is on the cycle of `a`, `c` and `b`, and the search misses it.
abbrev two_rings : Edges
two_rings = ("a", "c" ∷ "b" ∷ []) ∷ ("b", "a" ∷ []) ∷ ("c", "b" ∷ []) ∷ []

two_rings-marked : find_cycle_tickets two_rings ≡ "b" ∷ "a" ∷ []
unfolding find_cycle_tickets visit_all visit turns turn nexts_of
two_rings-marked = refl

visit_ends_example : (visit 9 ring "a" (record { path = []; colors = []; in_cycle = [] })).path ≡ []
visit_ends_example =
    visit_ends ring "a" ("b" ∷ []) (record { path = []; colors = []; in_cycle = [] }) refl refl

find_cycle_tickets-lead_back_example : All (λ x. Leads ring x x) (find_cycle_tickets ring)
find_cycle_tickets-lead_back_example = find_cycle_tickets-lead_back ring
