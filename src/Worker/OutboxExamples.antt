-- ===== src/Worker/OutboxExamples.antt =====
-- The sweep over the outbox on small stores.
use brigadir.Prelude.{List, false, ℕ, String, some, none, [], ◌∷◌, refl}
use brigadir.Domain.{
  TextMethods, World, Run, failed, cancelled, success, AgentReport, JiraClient, Io, ok,
}
use brigadir.Fixtures.{run_with, world_with, blank_report}
use brigadir.Runs.Lifecycle.{Kept}
use brigadir.Pipeline.Decision.{Facts}
use brigadir.Pipeline.Candidates.{Board}
use brigadir.Pipeline.Release.{Waiting, release_dependents_of}
use brigadir.Pipeline.Release.Keeps.{release_dependents_of-Held}
use brigadir.Worker.Outbox.{OutboxEntry, sweep}
use brigadir.Worker.Outbox.Sweep.{sweep-keeps_settled}

abbrev willing : JiraClient
willing = record { transition_fails = λ w key status. none; comment_fails = λ w key. none }

abbrev untold : Facts → String
untold facts = ""

abbrev silent_board : Board
silent_board = record {
  search = λ query w. ok [];
  number_of = λ s. none;
  text_before = λ a b. false;
}

abbrev same_text : TextMethods
same_text = record { to_lower_case = λ s. s; trim = λ s. s }

abbrev no_words : Waiting → List String → String × String
no_words x outside = ("", "")

-- The release pass itself, with what it is proved to keep.
abbrev releases_none : ℕ → String → Io Unit
releases_none = release_dependents_of same_text silent_board no_words

abbrev redact : String → String
redact s = "[redacted]"

abbrev done_report : AgentReport
done_report = blank_report success

abbrev left_by : ℕ → OutboxEntry
left_by i = record { run_id = some i; content = some (some done_report); mtime = 90 }

-- Run 1 failed without a word, run 2 was cancelled.
abbrev silent_run : Run
silent_run = run_with 1 1 1 failed

abbrev cancelled_run : Run
cancelled_run = run_with 2 2 1 cancelled

abbrev ended : World
ended = world_with (silent_run ∷ cancelled_run ∷ [])

sweep-keeps_settled_example :
    Kept 2 cancelled_run
      (sweep willing untold releases_none redact 100 50 (left_by 1 ∷ left_by 2 ∷ []) ended).1
sweep-keeps_settled_example =
    sweep-keeps_settled willing untold releases_none redact 100 50
      (release_dependents_of-Held same_text silent_board no_words) (left_by 1 ∷ left_by 2 ∷ []) 2
      cancelled_run ended refl refl
