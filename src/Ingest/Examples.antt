-- ===== src/Ingest/Examples.antt =====
-- Reconcile passes on small stores.
use brigadir.Prelude.{
  List, Option, ap, eq_iff, get_or, arith, ◌≡◌, ℕ, String, false, some, none, [], ◌∷◌, refl,
}
use brigadir.Domain.{
  Ticket, executor_not_found, throws, jira_error, new, JiraIssue, World, Run, running, queued,
  JiraClient, Io, ok, TextMethods, indexes_ok, slot, for_each,
}
use brigadir.Fixtures.{run_with, world_with, agent_with, ticket_with}
use brigadir.Pipeline.Decision.{Facts}
use brigadir.Pipeline.Candidates.{Board}
use brigadir.Pipeline.Release.{Waiting, release_dependents_of}
use brigadir.Pipeline.Release.Keeps.{release_dependents_of-OnlyTriggers}
use brigadir.Ingest.Watchdog.{
  WatchdogText, reap_hung, reap_running, stale_running, running_rows, oldest_first,
}
use brigadir.Ingest.Watchdog.Reaped.{Ended}
use brigadir.Ingest.Watchdog.Found.{after_hung}
use brigadir.Ingest.Poller.{Polled, PollPort, process_issues}
use brigadir.Ingest.Poller.Diff.{seen_statuses-start_nothing}
use brigadir.Pipeline.StatusChange.{on_status_changed}
use brigadir.Pipeline.Gate.{evaluate_dependency_gate}
use brigadir.Runs.Trigger.{trigger}
use brigadir.Ingest.Poller.Retries.{Tracked, change_of, failed_change-retried}
use brigadir.Ingest.Reconcile.{PassPort, reconcile}
use brigadir.Ingest.Reconcile.Isolation.{reconcile-ends_hung, reconcile-ends_lost}

abbrev fine_jira : JiraClient
fine_jira = record { transition_fails = λ w key status. none; comment_fails = λ w key. none }

abbrev no_facts : Facts → String
no_facts facts = ""

abbrev ascii : TextMethods
ascii = record { to_lower_case = λ s. s; trim = λ s. s }

abbrev empty_board : Board
empty_board = record {
  search = λ query w. ok [];
  number_of = λ s. none;
  text_before = λ a b. false;
}

abbrev no_comment : Waiting → List String → String × String
no_comment x outside = ("", "")

abbrev release_pass : ℕ → String → Io Unit
release_pass = release_dependents_of ascii empty_board no_comment

abbrev log : WatchdogText
log = record {
  timeout_error = λ timeout grace. "exceeded timeout";
  timeout_message = λ timeout grace. "force-finalized";
  queued_error = λ after. "stuck in queued";
  queued_message = λ after. "job lost";
}

-- Run 1 hangs since time 0 and run 2 waits since time 0; a day has passed.
abbrev hung : Run
hung = record (run_with 1 1 1 running) { started_at = some 0 }

abbrev lost : Run
lost = run_with 2 2 1 queued

abbrev day_later : World
day_later = record (world_with (hung ∷ lost ∷ [])) { clock = 86400000 }

-- No client can be made, and Jira answers nothing.
abbrev broken_polls : PollPort
broken_polls = record {
  active_sprint_ids = λ b w. throws jira_error;
  search_updated = λ clauses w. throws jira_error;
  later = λ a b. false;
  date_parse = λ s. none;
  insert_fails = λ workspace issue w. none;
}

abbrev broken : PassPort
broken = record {
  client = λ i w. throws jira_error;
  get_board = λ i b w. throws jira_error;
  polls = λ i. broken_polls;
  boards = λ i. empty_board;
}

reconcile-ends_hung_example :
    let (r, w) =
      reconcile fine_jira no_facts release_pass log 5 720 ascii no_comment broken day_later in
    (r ≡ ok tt) × Ended 1 w
reconcile-ends_hung_example =
    reconcile-ends_hung fine_jira no_facts release_pass
      (release_dependents_of-OnlyTriggers ascii empty_board no_comment) log 5 720 ascii no_comment
      broken 1 hung (agent_with 1 "dev" false (some "Ready")) 0 day_later
      (unfold indexes_ok slot in refl) refl refl refl refl (omega arith)

abbrev lost_only : World
lost_only = record (world_with (lost ∷ [])) { clock = 86400000 }

-- Nothing hangs there, so the second query reads the same clock.
lost_only-clock :
    (after_hung fine_jira no_facts release_pass
      (release_dependents_of-OnlyTriggers ascii empty_board no_comment)
      log
      5
      720
      lost_only).clock
    ≡ 86400000
unfolding reap_hung reap_running stale_running running_rows oldest_first for_each
lost_only-clock = refl

reconcile-ends_lost_example :
    let (r, w) =
      reconcile fine_jira no_facts release_pass log 5 720 ascii no_comment broken lost_only in
    (r ≡ ok tt) × Ended 2 w
reconcile-ends_lost_example =
    reconcile-ends_lost fine_jira no_facts release_pass
      (release_dependents_of-OnlyTriggers ascii empty_board no_comment) log 5 720 ascii no_comment
      broken 2 lost lost_only (unfold indexes_ok slot in refl) refl refl refl
      (omega (arith, lost_only-clock))

abbrev ready_issue : JiraIssue
ready_issue = record {
  key = "K-9";
  status = record { name = "Ready"; category = new };
  issuelinks = [];
  priority = none;
}

abbrev polled : Polled
polled = record { issue = ready_issue; updated = "2026-01-02" }

-- Issues of the ticket of the store, in the status last seen and in another.
abbrev seen_issue : JiraIssue
seen_issue = record ready_issue {
  key = "K-1";
  status = record { name = "Backlog"; category = new };
}

abbrev seen_polled : Polled
seen_polled = record polled { issue = seen_issue }

abbrev changed_polled : Polled
changed_polled = record polled { issue = record ready_issue { key = "K-1" } }

abbrev backlog : Ticket
backlog = ticket_with 1 "K-1" "Backlog"

abbrev one_ticket : World
one_ticket = record (world_with []) { tickets = backlog ∷ [] }

abbrev always_backlog : ℕ → Option String
always_backlog i = some "Backlog"

seen_statuses-start_nothing_example :
    let v =
      (process_issues ascii empty_board broken_polls 1
        (seen_polled ∷ seen_polled ∷ [])
        none
        one_ticket).1 in
    v ≡ record one_ticket { tickets = v.tickets }
seen_statuses-start_nothing_example =
    seen_statuses-start_nothing ascii empty_board broken_polls 1 always_backlog
      (seen_polled ∷ seen_polled ∷ []) none one_ticket (refl, _)
      ((backlog, (refl, refl)), ((backlog, (refl, refl)), _))

-- The agent of the status runs on a profile that is not there.
abbrev no_profiles : World
no_profiles = record one_ticket { executors = [] }

another_status : ¬ (◌≡◌ {A = Option String} (some "Backlog") (some "Ready"))
another_status e = absurd (ground (arith, (eq_iff "Backlog" "Ready").1 (ap (λ o. get_or o "") e)))

failed_change-retried_example :
    let v =
      (on_status_changed ascii (change_of changed_polled.issue 1 (some "Backlog")) no_profiles).1 in
    (process_issues ascii empty_board broken_polls 1
        (changed_polled ∷ seen_polled ∷ [])
        none
        no_profiles
      ≡ process_issues ascii empty_board broken_polls 1 (seen_polled ∷ []) (some "2026-01-02") v)
    × Tracked 1 changed_polled.issue 1 (some "Backlog") v
failed_change-retried_example =
    failed_change-retried ascii empty_board broken_polls 1 changed_polled (seen_polled ∷ []) none
      backlog executor_not_found no_profiles refl another_status
      (unfold on_status_changed trigger evaluate_dependency_gate in refl)
