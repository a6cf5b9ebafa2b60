-- ===== src/Callback/CompletionGate/Vouched.antt =====
-- What a completion that passes the gate vouches for.
use brigadir.Prelude.{
  ℕ, String, Bool, true, false, Option, none, some, List, [], ◌∷◌, ◌≡◌, ◌∙◌, ◌⊎◌, refl, arith, ap,
  inl, inr, str_eq, eq_iff, length, Heads, lookup, put, or_else, Bool-cases, if◌then◌else◌,
}
use brigadir.Domain.{
  World, RunEvent, AgentReport, RepoArtifact, normalize_report_artifacts, Result, ok,
}
use brigadir.Callback.CompletionGate.{
  HandoffViolation, judged, violations, reported, flat_attributed, noted_start, put_start,
  start_refs_from, detect_handoff_violations, against_start, check_handoff_gate, refuse_completion,
}

-- The commit that a repository of the run started at: what the last event that notes it says.
abbrev pub start_of : ℕ → String → List RunEvent → Option String
start_of i repo [] = none
start_of i repo (e ∷ events) =
    or_else (start_of i repo events) (lookup repo (put_start (noted_start i e) []))

lookup-put :
    (repo k v : String) (refs : Heads)
    → lookup repo (put k v refs) ≡ (if str_eq k repo then some v else lookup repo refs)
lookup-put repo k v [] = refl
lookup-put repo k v ((k', v') ∷ refs) = elim (Bool-cases (str_eq k' k)) [
  | inl e ↦ let same = (eq_iff k' k).0 e in rw e (rw same (ground arith))
  | inr e ↦ rw e (
      rw (lookup-put repo k v refs) (ground (arith, e, eq_iff k' repo, eq_iff k repo, eq_iff k' k)))
]

lookup-put_start :
    (repo : String) (s : Option (String × String)) (refs : Heads)
    → lookup repo (put_start s refs) ≡ or_else (lookup repo (put_start s [])) (lookup repo refs)
lookup-put_start repo none refs = refl
lookup-put_start repo (some (k, v)) refs = rw (lookup-put repo k v refs) (ground arith)

or_else_assoc {ℓ} :
    {A : Type ℓ} (x y z : Option A) → or_else x (or_else y z) ≡ or_else (or_else x y) z
or_else_assoc none y z = refl
or_else_assoc (some a) y z = refl

-- The map that the loop builds holds the last start of every repository.
lookup-start_refs_from :
    (i : ℕ) (repo : String) (refs : Heads) (events : List RunEvent)
    → lookup repo (start_refs_from i refs events)
      ≡ or_else (start_of i repo events) (lookup repo refs)
lookup-start_refs_from i repo refs [] = refl
lookup-start_refs_from i repo refs (e ∷ events) =
    lookup-start_refs_from i repo (put_start (noted_start i e) refs) events
    ∙ ap (λ x. or_else (start_of i repo events) x) (lookup-put_start repo (noted_start i e) refs)
    ∙ or_else_assoc (start_of i repo events) (lookup repo (put_start (noted_start i e) []))
        (lookup repo refs)

judged-rest :
    (artifacts : List RepoArtifact) (flat : Bool) (repo start : String) (o : Option String)
    (rest : List HandoffViolation)
    → judged artifacts flat repo start o rest ≡ []
    → rest ≡ []
judged-rest artifacts flat repo start o rest h = ground (arith, h)

judged-reported :
    (artifacts : List RepoArtifact) (flat : Bool) (repo start head : String)
    (rest : List HandoffViolation)
    → judged artifacts flat repo start (some head) rest ≡ []
    → str_eq head start ≡ false
    → reported artifacts flat repo ≡ true
judged-reported artifacts flat repo start head rest h moved = ground (arith, h, moved)

-- Without a violation, a repository whose head moved is reported.
violations-none :
    (observed : Heads) (artifacts : List RepoArtifact) (flat : Bool) (repo start head : String)
    (refs : Heads)
    → violations observed artifacts flat refs ≡ []
    → lookup repo refs ≡ some start
    → lookup repo observed ≡ some head
    → str_eq head start ≡ false
    → reported artifacts flat repo ≡ true
violations-none observed artifacts flat repo start head [] none_found held seen moved =
    absurd (ground (arith, held))
violations-none observed artifacts flat repo start head ((k, v) ∷ refs) none_found held seen moved =
    elim (Bool-cases (str_eq k repo)) [
      | inl e ↦
          let named : k ≡ repo = (eq_iff k repo).0 e in
          let started : v ≡ start = ground (arith, held, e) in
          let h : judged artifacts flat repo start (some head)
                (violations observed artifacts flat refs)
              ≡ [] =
            rw seen at (rw started at (rw named at none_found)) in
          judged-reported artifacts flat repo start head (violations observed artifacts flat refs) h
            moved
      | inr e ↦
          violations-none observed artifacts flat repo start head refs
            (judged-rest artifacts flat k v (lookup k observed)
              (violations observed artifacts flat refs) none_found)
            (ground (arith, held, e)) seen moved
    ]

abbrev starts : ℕ → World → Heads
starts i w = start_refs_from i [] w.run_events

-- How a run of the gate ends: it passes and writes nothing, or names violations in an event.
abbrev pub Gates : Result (Option (List HandoffViolation)) × World → World → Type 0
Gates r w =
    (r ≡ (ok none, w))
    ⊎ ((vs : List HandoffViolation) × (events : List RunEvent) × (r
          ≡ (ok (some vs), record w { run_events = events })))

against_start-cases :
    (i : ℕ) (report : AgentReport) (observed refs : Heads) (w : World)
    → Gates (against_start i report observed refs w) w
against_start-cases i report observed [] w = inl refl
against_start-cases i report observed (r ∷ refs) w = go (
    detect_handoff_violations (r ∷ refs) (some observed) (normalize_report_artifacts report)
      (length (r ∷ refs)))
  where
    go : (vs : List HandoffViolation) → Gates (refuse_completion i vs w) w
    go [] = inl refl
    go (v ∷ vs) = inr (v ∷ vs, (refuse_completion i (v ∷ vs) w).1.run_events, refl)

pub check_handoff_gate-cases :
    (i : ℕ) (report : AgentReport) (o : Option Heads) (w : World)
    → Gates (check_handoff_gate i report o w) w
unfolding check_handoff_gate
check_handoff_gate-cases i report none w = inl refl
check_handoff_gate-cases i report (some observed) w =
    against_start-cases i report observed (starts i w) w

refuse_completion-none :
    (i : ℕ) (vs : List HandoffViolation) (w : World)
    → (refuse_completion i vs w).0 ≡ ok none
    → vs ≡ []
refuse_completion-none i [] w h = refl
refuse_completion-none i (v ∷ vs) w h = absurd (ground (arith, h))

against_start-reported :
    (i : ℕ) (report : AgentReport) (observed refs : Heads) (w : World) (repo start head : String)
    → (against_start i report observed refs w).0 ≡ ok none
    → lookup repo refs ≡ some start
    → lookup repo observed ≡ some head
    → str_eq head start ≡ false
    → let artifacts = normalize_report_artifacts report in
      reported artifacts (flat_attributed artifacts (length refs)) repo ≡ true
unfolding detect_handoff_violations
against_start-reported i report observed [] w repo start head passed held seen moved =
    absurd (ground (arith, held))
against_start-reported i report observed (r ∷ refs) w repo start head passed held seen moved =
    let artifacts = normalize_report_artifacts report in
    violations-none observed artifacts (flat_attributed artifacts (length (r ∷ refs))) repo start
      head (r ∷ refs)
      (refuse_completion-none i
        (detect_handoff_violations (r ∷ refs) (some observed) artifacts (length (r ∷ refs))) w
        passed)
      held seen moved

-- A repository whose head moved since the run's last start is reported in a completion that passes.
pub check_handoff_gate-reported :
    (i : ℕ) (report : AgentReport) (observed : Heads) (w : World) (repo start head : String)
    → (check_handoff_gate i report (some observed) w).0 ≡ ok none
    → start_of i repo w.run_events ≡ some start
    → lookup repo observed ≡ some head
    → str_eq head start ≡ false
    → let artifacts = normalize_report_artifacts report in
      reported artifacts
        (flat_attributed artifacts (length (start_refs_from i [] w.run_events)))
        repo
      ≡ true
unfolding check_handoff_gate
check_handoff_gate-reported i report observed w repo start head passed began seen moved =
    against_start-reported i report observed (start_refs_from i [] w.run_events) w repo start head
      passed (lookup-start_refs_from i repo [] w.run_events ∙ ap (λ x. or_else x none) began) seen
      moved
