-- ===== src/Callback/Service/Completion.antt =====
-- What a completion does to its run.
use brigadir.Prelude.{
  ℕ, String, Bool, true, false, Option, none, some, List, [], ◌≡◌, refl, arith, ap, inl, inr,
  if-elim, str_eq, Heads, lookup, length,
}
use brigadir.Domain.{
  World, AgentReport, is_team, parse_report, normalize_report_artifacts, Io, Result, ok, throws,
  pure, ◌>>=◌, ◌>>◌, bind-ok, JiraClient, ReceiptRules, non_fatal, RunEvent,
}
use brigadir.Runs.Service.{finalize_with_report, no_extra}
use brigadir.Pipeline.Decision.{Facts}
use brigadir.Setup.Service.{TeamAcceptResult}
use brigadir.Callback.Scrub.{scrub_agent_report}
use brigadir.Callback.CompletionGate.{
  HandoffViolation, check_handoff_gate, reported, flat_attributed, start_refs_from,
}
use brigadir.Callback.CompletionGate.Vouched.{
  start_of, check_handoff_gate-cases, check_handoff_gate-reported,
}
use brigadir.Callback.Service.{
  CompleteResult, completed, body_invalid, unreported, ReviewText, complete, on_body, after_gate,
  settle, after_completion, after_team, finish_later, write_verification_receipt,
  maybe_queue_review_task,
}

-- Whether the answer is a refusal for the body or for unreported work.
abbrev pub refuses : Result CompleteResult → Bool
refuses (ok body_invalid) = true
refuses (ok (unreported vs)) = true
refuses _ = false

module _ (jira : JiraClient) (text : Facts → String) (release : ℕ → String → Io Unit)
    (scrub : String → String) (rules : ReceiptRules) (words : ReviewText)
    (accept_team : ℕ → AgentReport → Io TeamAcceptResult) where
  after_team-accepts :
      (i : ℕ) (a : TeamAcceptResult) (w : World)
      → refuses (after_team jira text release scrub rules words accept_team i a w).0 ≡ false
  after_team-accepts i (TeamAcceptResult.applied n) w = refl
  after_team-accepts i (TeamAcceptResult.team_invalid issues) w = refl
  after_team-accepts i TeamAcceptResult.team_conflict w = refl
  after_team-accepts i TeamAcceptResult.recast_failure w = refl

  bind-accepts :
      {A : Type 0} (m : Io A) (k : A → Io CompleteResult) (w : World)
      → ((a : A) (v : World) → refuses (k a v).0 ≡ false)
      → refuses ((m >>= k) w).0 ≡ false
  bind-accepts {A} m k w h = go (m w).0 (m w).1
    where
      go :
          (r : Result A) (v : World)
          → refuses
              (elim r as (λ _. Result CompleteResult × World) [
                | ok a ↦ k a v
                | throws e ↦ (throws e, v)
              ]).0
            ≡ false
      go (ok a) v = h a v
      go (throws e) v = refl

  after_completion-accepts :
      (i : ℕ) (report : AgentReport) (o : Option Heads) (b : Bool) (w : World)
      → refuses (after_completion jira text release scrub rules words accept_team i report o b w).0
        ≡ false
  after_completion-accepts i report o false w = refl
  after_completion-accepts i report o true w =
      bind-accepts
        (non_fatal
            (write_verification_receipt jira text release scrub rules words accept_team i report o)
          >> maybe_queue_review_task jira text release scrub rules words accept_team i report
          >> finish_later jira text release scrub rules words accept_team i)
        (λ _. pure (completed report.outcome)) w (λ _ v. refl)

  settle-accepts :
      (i : ℕ) (report : AgentReport) (o : Option Heads) (w : World)
      → refuses (settle jira text release scrub rules words accept_team i report o w).0 ≡ false
  unfolding settle
  settle-accepts i report o w =
      if-elim {A = Io CompleteResult} (λ m. refuses (m w).0 ≡ false) (is_team report.outcome)
        (λ _.
          bind-accepts (accept_team i report)
            (after_team jira text release scrub rules words accept_team i) w
            (λ a v. after_team-accepts i a v))
        (λ _.
          bind-accepts (finalize_with_report i (some report) no_extra)
            (after_completion jira text release scrub rules words accept_team i report o) w
            (λ b v. after_completion-accepts i report o b v))

  on_body-refused :
      (i : ℕ) (o : Option Heads) (p : Option AgentReport) (w : World)
      → refuses (on_body jira text release scrub rules words accept_team i o p w).0 ≡ true
      → (events : List RunEvent) × ((on_body jira text release scrub rules words accept_team i o p
            w).1
          ≡ record w { run_events = events })
  on_body-refused i o none w h = (w.run_events, refl)
  on_body-refused i o (some parsed) w h =
      let report : AgentReport = scrub_agent_report scrub parsed in
      let gate = check_handoff_gate i report o in
      let next = after_gate jira text release scrub rules words accept_team i report o in
      elim (check_handoff_gate-cases i report o w) [
        | inl e ↦ absurd (ground (arith, h, bind-ok gate next w e, settle-accepts i report o w))
        | inr (vs, events, e) ↦
            (events, ap (λ (x : Result CompleteResult × World). x.1) (bind-ok gate next w e))
      ]

  -- A completion that is refused for its body or for unreported work changes nothing but the events
  -- of runs: the run stays as it was, and the agent may complete it again.
  complete-refused :
      (i : ℕ) (raw : Option AgentReport) (o : Option Heads) (w : World)
      → refuses (complete jira text release scrub rules words accept_team i raw o w).0 ≡ true
      → (events : List RunEvent) × ((complete jira text release scrub rules words accept_team i raw
            o w).1
          ≡ record w { run_events = events })
  unfolding complete
  complete-refused i raw o w h = on_body-refused i o (parse_report raw) w h

  -- A completion with measured heads that is not refused reports every repository whose head moved since
  -- the last start that the run noted for it: by name, or in the flat form of a run with one repository.
  pub complete-reported :
      (i : ℕ) (raw : AgentReport) (observed : Heads) (w : World) (repo start head : String)
      → parse_report (some raw) ≡ some raw
      → refuses
          (complete jira text release scrub rules words accept_team i
            (some raw)
            (some observed)
            w).0
        ≡ false
      → start_of i repo w.run_events ≡ some start
      → lookup repo observed ≡ some head
      → str_eq head start ≡ false
      → let artifacts = normalize_report_artifacts (scrub_agent_report scrub raw) in
        reported artifacts
          (flat_attributed artifacts (length (start_refs_from i [] w.run_events)))
          repo
        ≡ true
  unfolding complete
  complete-reported i raw observed w repo start head valid done began seen moved =
      let report : AgentReport = scrub_agent_report scrub raw in
      let gate = check_handoff_gate i report (some observed) in
      let next =
        after_gate jira text release scrub rules words accept_team i report (some observed) in
      let done' = rw valid at done in
      elim (check_handoff_gate-cases i report (some observed) w) [
        | inl e ↦
            check_handoff_gate-reported i report observed w repo start head
              (ap (λ (x : Result (Option (List HandoffViolation)) × World). x.0) e) began seen moved
        | inr (vs, events, e) ↦ absurd (ground (arith, done', bind-ok gate next w e))
      ]
