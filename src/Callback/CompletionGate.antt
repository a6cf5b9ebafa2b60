-- ===== src/Callback/CompletionGate.antt =====
-- libs/callback/src/completion-gate.ts with the gate of callback.service.ts: a completion that leaves out
-- a repository with new commits is refused.
--
-- The header is what `parseObservedHeads` makes of it, the commit seen in each repository. A
-- repository is taken not to be named like a property of every JavaScript object.
pub mod Vouched
use brigadir.Prelude.{
  ℕ, String, Bool, true, false, ◌&&◌, ◌||◌, Option, none, some, List, [], ◌∷◌, ◌==◌, str_eq, length,
  any_where, Heads, lookup, put, map, if◌then◌else◌,
}
use brigadir.Domain.{
  World, RunEvent, Payload, AgentReport, RepoArtifact, normalize_report_artifacts, Io, pure, ◌>>◌,
  add_event,
}

pub record HandoffViolation : Type 0 where
  pub repo : String
  pub start_sha : String
  pub observed_head : String

abbrev pub names_repo : String → RepoArtifact → Bool
names_repo repo a = elim a.repo [ some r ↦ str_eq r repo | none ↦ false ]

abbrev is_flat : List RepoArtifact → Bool
is_flat [] = false
is_flat (a ∷ artifacts) = elim a.repo [ none ↦ true | some r ↦ false ]

abbrev pub flat_attributed : List RepoArtifact → ℕ → Bool
flat_attributed artifacts mounted_count = mounted_count == 1 && is_flat artifacts

abbrev pub reported : List RepoArtifact → Bool → String → Bool
reported artifacts flat repo = flat || any_where (names_repo repo) artifacts

abbrev pub judged :
    List RepoArtifact
    → Bool
    → String
    → String
    → Option String
    → List HandoffViolation
    → List HandoffViolation
judged artifacts flat repo start none rest = rest
judged artifacts flat repo start (some head) rest =
    if str_eq head start
    then rest
    else if reported artifacts flat repo
    then rest
    else record { repo = repo; start_sha = start; observed_head = head } ∷ rest

abbrev pub violations : Heads → List RepoArtifact → Bool → Heads → List HandoffViolation
violations observed artifacts flat [] = []
violations observed artifacts flat ((repo, start) ∷ start_refs) =
    judged artifacts flat repo start (lookup repo observed)
      (violations observed artifacts flat start_refs)

unfoldable pub detect_handoff_violations :
    Heads → Option Heads → List RepoArtifact → ℕ → List HandoffViolation
detect_handoff_violations start_refs none artifacts mounted_count = []
detect_handoff_violations start_refs (some observed) artifacts mounted_count =
    violations observed artifacts (flat_attributed artifacts mounted_count) start_refs

abbrev pub noted_start : ℕ → RunEvent → Option (String × String)
noted_start i e =
    if e.run_id == i
    then elim e.payload as (λ _. Option (String × String)) [
      | Payload.start_ref repo sha ↦ some (repo, sha)
      | _ ↦ none
    ]
    else none

abbrev pub put_start : Option (String × String) → Heads → Heads
put_start none refs = refs
put_start (some (repo, sha)) refs = put repo sha refs

-- The loop over the rows.
abbrev pub start_refs_from : ℕ → Heads → List RunEvent → Heads
start_refs_from i refs [] = refs
start_refs_from i refs (e ∷ events) = start_refs_from i (put_start (noted_start i e) refs) events

abbrev refuse_completion : ℕ → List HandoffViolation → Io (Option (List HandoffViolation))
refuse_completion i [] = pure none
refuse_completion i (v ∷ vs) =
    add_event i (Payload.handoff_violation (v.repo ∷ map (λ x. x.repo) vs)) >> pure (some (v ∷ vs))

abbrev pub against_start : ℕ → AgentReport → Heads → Heads → Io (Option (List HandoffViolation))
against_start i report observed [] = pure none
against_start i report observed start_refs = refuse_completion i (
    detect_handoff_violations start_refs (some observed) (normalize_report_artifacts report)
      (length start_refs))

-- The violations if the completion is refused.
unfoldable pub check_handoff_gate :
    ℕ → AgentReport → Option Heads → Io (Option (List HandoffViolation))
check_handoff_gate i report none w = pure none w
check_handoff_gate i report (some observed) w =
    against_start i report observed (start_refs_from i [] w.run_events) w
