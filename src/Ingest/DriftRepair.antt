-- ===== src/Ingest/DriftRepair.antt =====
-- libs/ingest/src/drift-repair.service.ts: finished runs whose write to Jira is still owed.
use brigadir.Prelude.{
  ℕ, List, [], ◌∷◌, Bool, ◌&&◌, not, ◌==◌, leb, String, if◌then◌else◌, all_where,
}
use brigadir.Domain.{World, Run, JiraClient, Io, for_each, non_fatal}
use brigadir.Pipeline.Decision.{Facts}
use brigadir.Pipeline.Completion.{on_run_finished, has_jira_action_marker, is_finished}

-- `order by created_at`.
abbrev pub place_created : Run → List Run → List Run
place_created r [] = r ∷ []
place_created r (x ∷ xs) =
    let rest = place_created r xs in if leb r.created_at x.created_at then r ∷ x ∷ xs else x ∷ rest

unfoldable pub by_created_at : List Run → List Run
by_created_at [] = []
by_created_at (r ∷ rows) = place_created r (by_created_at rows)

module _ (jira : JiraClient) (text : Facts → String) (release : ℕ → String → Io Unit) where
  abbrev pub is_pending : ℕ → World → Run → Bool
  is_pending workspace w r =
      r.workspace_id == workspace
      && (is_finished jira text release r.status && not (has_jira_action_marker r.id w))

  unfoldable pub pending : ℕ → World → List Run
  pending workspace w = by_created_at (all_where (is_pending workspace w) w.runs)

  -- An error is logged, and the next run is repaired.
  unfoldable pub repair : ℕ → Io Unit
  repair workspace w =
      for_each (λ r. non_fatal (on_run_finished jira text release r.id)) (pending workspace w) w
