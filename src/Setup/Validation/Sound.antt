-- ===== src/Setup/Validation/Sound.antt =====
-- What a proposal that passes validation can be trusted for.
use brigadir.Prelude.{
  ℕ, suc, String, Bool, true, false, ◌&&◌, not, Option, none, some, List, [], ◌∷◌, ◌++◌, ◌≡◌, refl,
  inl, inr, arith, sym, Option-cases, map, any_where, every, find_where, find_where-none, str_eq,
  eq_iff, ◌∙◌, ◌==◌, any_where-append, append-nothing,
}
use brigadir.Domain.{World, TeamAgent, Workspace, ok}
use brigadir.Setup.Linter.{
  LintableAgent, proposal, present, same_text?, on_board, absent_by, status_fields, others,
  normalize_jql, collides, duplicates, lint_agent,
}
use brigadir.Setup.Validation.{
  SetupPort, lintable, lintable_row, lint_issues, team_issues, key_of, rows_of, validate_team,
  on_statuses, on_workspace,
}

-- A status that is named stands on the board.
abbrev named_on : List String → Option String → Bool
named_on board o = elim (present o) [ none ↦ true | some s ↦ on_board board s ]

abbrev pub statuses_on : List String → TeamAgent → Bool
statuses_on board p =
    named_on board (some p.trigger_status)
    && (named_on board p.status_running
        && (named_on board (some p.status_success) && named_on board (some p.status_failure)))

absent_by-nothing :
    (board : List String) (path : String) (o : Option String)
    → absent_by board path o ≡ []
    → (elim o [ none ↦ true | some s ↦ on_board board s ]) ≡ true
absent_by-nothing board path none h = refl
absent_by-nothing board path (some s) h = ground (arith, h)

statuses_on-nothing :
    (board : List String) (p : TeamAgent)
    → status_fields board (lintable none p) ≡ []
    → statuses_on board p ≡ true
statuses_on-nothing board p h =
    let (three, last) = append-nothing _ _ h in
    let (two, third) = append-nothing _ _ three in
    let (first, second) = append-nothing _ _ two in
    ground (
      arith,
      absent_by-nothing board "trigger_status" (present (some p.trigger_status)) first,
      absent_by-nothing board "status_running" (present p.status_running) second,
      absent_by-nothing board "status_success" (present (some p.status_success)) third,
      absent_by-nothing board "status_failure" (present (some p.status_failure)) last,
    )

same_text?_refl : (o : Option String) → same_text? o o ≡ true
same_text?_refl none = refl
same_text?_refl (some s) = (eq_iff s s).1 refl

module _ (port : SetupPort) where
  -- An enabled agent starts on the status that starts the proposed one, with the same scope.
  abbrev pub clash : TeamAgent → LintableAgent → Bool
  clash q a = elim (present (some q.trigger_status)) [
    | none ↦ false
    | some t ↦ a.enabled && collides port.trim (lintable none q) t a
  ]

  any_where-others :
      (c : LintableAgent → Bool) (q : TeamAgent) (agents : List LintableAgent)
      → any_where c (others (lintable none q) agents) ≡ any_where (λ a. a.enabled && c a) agents
  any_where-others c q [] = refl
  any_where-others c q (a ∷ agents) = ground (arith, any_where-others c q agents)

  -- The test of `clash`, by the status that is present.
  abbrev clash_on : TeamAgent → Option String → LintableAgent → Bool
  clash_on q o a = elim o [
    | none ↦ false
    | some t ↦ a.enabled && collides port.trim (lintable none q) t a
  ]

  never : (q : TeamAgent) (agents : List LintableAgent) → any_where (clash_on q none) agents ≡ false
  never q [] = refl
  never q (a ∷ agents) = never q agents

  duplicates-nothing :
      (q : TeamAgent) (agents : List LintableAgent) (o : Option String)
      → duplicates port.trim (lintable none q) agents o ≡ []
      → any_where (clash_on q o) agents ≡ false
  duplicates-nothing q agents none h = never q agents
  duplicates-nothing q agents (some t) h =
      let c = collides port.trim (lintable none q) t in
      let near = others (lintable none q) agents in
      elim (Option-cases (find_where c near)) [
        | inl e ↦ sym (any_where-others c q agents) ∙ find_where-none c near e
        | inr (a, e) ↦ absurd (ground (arith, h, e))
      ]

  map-nothing {ℓ} : {A B : Type ℓ} (f : A → B) (xs : List A) → map f xs ≡ [] → xs ≡ []
  map-nothing f [] h = refl
  map-nothing f (x ∷ xs) h = absurd (ground (arith, h))

  lint_issues-nothing :
      (i : ℕ) (agents : List LintableAgent) (board : List String) (q : TeamAgent)
      → lint_issues port i agents board q ≡ []
      → (statuses_on board q ≡ true) × (any_where (clash q) agents ≡ false)
  unfolding lint_agent
  lint_issues-nothing i agents board q h =
      let (fields, doubles) =
        append-nothing (status_fields board (lintable none q))
          (duplicates port.trim (lintable none q) agents (present (some q.trigger_status)))
          (map-nothing _ _ h) in
      (
        statuses_on-nothing board q fields,
        duplicates-nothing q agents (present (some q.trigger_status)) doubles,
      )

  abbrev pub clean : List LintableAgent → TeamAgent → Bool
  clean agents q = not (any_where (clash q) agents)

  -- Two agents of a proposal that start on one status.
  abbrev pub same_start : TeamAgent → TeamAgent → Bool
  same_start p q = elim (present (some q.trigger_status)) [
    | none ↦ false
    | some t ↦ str_eq p.trigger_status t
  ]

  unfoldable pub distinct_starts : List TeamAgent → Bool
  distinct_starts [] = true
  distinct_starts (p ∷ ps) = every (λ q. not (same_start p q)) ps && distinct_starts ps

  same_start-clash :
      (i : ℕ) (p q : TeamAgent) → clash q (lintable (some (proposal i)) p) ≡ same_start p q
  same_start-clash i p q =
      let same = same_text?_refl (normalize_jql port.trim none) in ground (arith, same)

  clean-split :
      (i : ℕ) (agents : List LintableAgent) (p : TeamAgent) (ps : List TeamAgent)
      → every (clean (agents ++ lintable (some (proposal i)) p ∷ [])) ps ≡ true
      → (every (clean agents) ps ≡ true) × (every (λ q. not (same_start p q)) ps ≡ true)
  clean-split i agents p [] h = (refl, refl)
  clean-split i agents p (q ∷ ps) h =
      let whole = any_where-append (clash q) agents (lintable (some (proposal i)) p ∷ []) in
      let one = same_start-clash i p q in
      let (first, second) = clean-split i agents p ps (ground (arith, h)) in
      (ground (arith, h, whole, first), ground (arith, h, whole, one, second))

  team_issues-nothing :
      (w : World) (board : List String) (i : ℕ) (seen : List String) (agents : List LintableAgent)
      (ps : List TeamAgent)
      → team_issues port w board i seen agents ps ≡ []
      → (every (statuses_on board) ps ≡ true)
        × (every (clean agents) ps ≡ true)
        × (distinct_starts ps ≡ true)
  unfolding team_issues distinct_starts
  team_issues-nothing w board i seen agents [] h = (refl, refl, refl)
  team_issues-nothing w board i seen agents (p ∷ ps) h =
      let next = agents ++ lintable (some (proposal i)) p ∷ [] in
      let (own, later) = append-nothing _ _ h in
      let (statuses, alone) = lint_issues-nothing i agents board p (append-nothing _ _ own).1 in
      let (a, b, c) = team_issues-nothing w board (suc i) (key_of port p ∷ seen) next ps later in
      let (d, e) = clean-split i agents p ps b in
      (ground (arith, statuses, a), ground (arith, alone, d), ground (arith, e, c))

  on_statuses-nothing :
      (workspace : ℕ) (proposed : List TeamAgent) (o : Option (List String)) (w : World)
      → on_statuses port workspace proposed o w ≡ (ok [], w)
      → (board : List String) × (o ≡ some board)
        × (team_issues port w board 0 [] (map lintable_row (rows_of port workspace w)) proposed
            ≡ [])
  on_statuses-nothing workspace proposed none w h = absurd (ground (arith, h))
  on_statuses-nothing workspace proposed (some board) w h = (board, refl, ground (arith, h))

  on_workspace-nothing :
      (workspace : ℕ) (proposed : List TeamAgent) (o : Option Workspace) (w : World)
      → on_workspace port workspace proposed o w ≡ (ok [], w)
      → (x : Workspace) × (board : List String) × (o ≡ some x)
        × (port.project_statuses workspace x.jira_project_key w ≡ some board)
        × (team_issues port w board 0 [] (map lintable_row (rows_of port workspace w)) proposed
            ≡ [])
  on_workspace-nothing workspace proposed none w h = absurd (ground (arith, h))
  on_workspace-nothing workspace proposed (some x) w h =
      let (board, fetched, issues) =
        on_statuses-nothing workspace proposed
          (port.project_statuses workspace x.jira_project_key w) w h in
      (x, board, refl, fetched, issues)

  -- A proposal with no issue was checked against the statuses of the workspace's board.
  pub valid-checked :
      (workspace : ℕ) (proposed : List TeamAgent) (w : World)
      → validate_team port workspace proposed w ≡ (ok [], w)
      → (x : Workspace) × (board : List String) × (find_where (λ y. y.id == workspace) w.workspaces
          ≡ some x)
        × (port.project_statuses workspace x.jira_project_key w ≡ some board)
        × (team_issues port w board 0 [] (map lintable_row (rows_of port workspace w)) proposed
            ≡ [])
  unfolding validate_team
  valid-checked workspace proposed w h =
      on_workspace-nothing workspace proposed (find_where (λ y. y.id == workspace) w.workspaces) w h

  -- A proposal that validation finds nothing wrong with fits its board: every status that it names is one
  -- of the board's, no two of its agents start on one status, and none starts on a status, with an
  -- absent scope, that an enabled agent of the workspace starts on.
  pub valid_team-fits :
      (workspace : ℕ) (proposed : List TeamAgent) (w : World)
      → validate_team port workspace proposed w ≡ (ok [], w)
      → (x : Workspace) × (board : List String) × (find_where (λ y. y.id == workspace) w.workspaces
          ≡ some x)
        × (port.project_statuses workspace x.jira_project_key w ≡ some board)
        × (every (statuses_on board) proposed ≡ true)
        × (every (clean (map lintable_row (rows_of port workspace w))) proposed ≡ true)
        × (distinct_starts proposed ≡ true)
  valid_team-fits workspace proposed w h =
      let (x, board, here, fetched, nothing) = valid-checked workspace proposed w h in
      let (statuses, alone, distinct) =
        team_issues-nothing w board 0 [] (map lintable_row (rows_of port workspace w)) proposed
          nothing in
      (x, board, here, fetched, statuses, alone, distinct)
