-- ===== src/Setup/Service/Roster.antt =====
-- The rows that a team becomes, and what their insertion does.
use brigadir.Prelude.{
  ℕ, suc, ◌+◌, String, true, false, Option, none, some, List, [], ◌∷◌, ◌++◌, ◌≡◌, refl, ◌⊎◌, inl,
  inr, arith, ap, sym, Bool-cases, Option-cases, length, map, All, get_or,
}
use brigadir.Domain.{
  World, Agent, TeamAgent, ok, throws, Failure, unique_violation, not_null_violation, insert_agents,
  with_ids, agent_keys_ok, Executor,
}
use brigadir.Setup.Keys.{ensure_unique_agent_key}
use brigadir.Setup.Validation.{SetupPort, rows_of, key_of, profile_by_name}
use brigadir.Setup.Service.{roster, insert_team_agents, extended}

-- An enabled worker of the workspace.
abbrev pub IsWorker : ℕ → Agent → Type 0
IsWorker workspace a =
    (a.workspace_id ≡ workspace) × (a.enabled ≡ true) × (a.is_orchestrator ≡ false)

module _ (port : SetupPort) where
  pub extended-some :
      (o : Option Executor) (draft : Executor → ℕ → Agent) (rest : Option (List (ℕ → Agent)))
      {drafts : List (ℕ → Agent)}
      → extended port o draft rest ≡ some drafts
      → (e : Executor) × (rows : List (ℕ → Agent)) × (o ≡ some e)
        × (rest ≡ some rows)
        × (draft e ∷ rows ≡ drafts)
  extended-some none draft rest h = absurd (ground (arith, h))
  extended-some (some e) draft none h = absurd (ground (arith, h))
  extended-some (some e) draft (some rows) h =
      (e, rows, refl, refl, ap (λ o. get_or o (draft e ∷ rows)) h)

  -- The rows to insert are as many workers as there are proposed agents.
  pub roster-workers :
      (profiles : World) (workspace : ℕ) (taken : List String) (ps : List TeamAgent)
      {drafts : List (ℕ → Agent)}
      → roster port profiles workspace taken ps ≡ some drafts
      → (uuids : ℕ → ℕ) (n : ℕ)
      → (length (with_ids uuids n drafts) ≡ length ps)
        × All (IsWorker workspace) (with_ids uuids n drafts)
  unfolding roster with_ids
  roster-workers profiles workspace taken [] {drafts} h uuids n =
      let none_left : [] ≡ drafts = ap (λ o. get_or o []) h in rw (sym none_left) (refl, _)
  roster-workers profiles workspace taken (p ∷ ps) {drafts} h uuids n =
      let key = ensure_unique_agent_key port.suffixed (key_of port p) taken in
      let (e, rows, known, rest, made) =
        extended-some (profile_by_name p.executor profiles) _
          (roster port profiles workspace (key ∷ taken) ps) h in
      let (same, workers) = roster-workers profiles workspace (key ∷ taken) ps rest uuids (suc n) in
      rw (sym made) (ap suc same, ((refl, refl, refl), workers))

  pub insert_agents-cases :
      (drafts : List (ℕ → Agent)) (v : World)
      → (insert_agents drafts v ≡ (throws unique_violation, v))
        ⊎ (insert_agents drafts v ≡ (
          ok tt,
          record v {
            agents = v.agents ++ with_ids v.uuids v.drawn drafts;
            drawn = v.drawn + length drafts;
          },
        ))
  unfolding insert_agents
  insert_agents-cases drafts v =
      elim (Bool-cases (agent_keys_ok (v.agents ++ with_ids v.uuids v.drawn drafts))) [
        | inl e ↦ inr (rw (e, insert_agents) refl)
        | inr e ↦ inl (rw (e, insert_agents) refl)
      ]

  -- The insertion of the team throws and writes nothing, or inserts the roster.
  pub insert_team_agents-cases :
      (profiles : World) (workspace : ℕ) (proposed : List TeamAgent) (v : World)
      → ((e : Failure) × (insert_team_agents port profiles workspace proposed v ≡ (throws e, v)))
        ⊎ ((taken : List String) × (drafts : List (ℕ → Agent)) × (roster port profiles workspace
                taken proposed
              ≡ some drafts)
            × (insert_team_agents port profiles workspace proposed v ≡ (
              ok tt,
              record v {
                agents = v.agents ++ with_ids v.uuids v.drawn drafts;
                drawn = v.drawn + length drafts;
              },
            )))
  unfolding insert_team_agents
  insert_team_agents-cases profiles workspace proposed v =
      let taken = map (λ a. a.key) (rows_of port workspace v) in
      elim (Option-cases (roster port profiles workspace taken proposed)) [
        | inl e ↦ inl (not_null_violation, rw (e, insert_team_agents) refl)
        | inr (drafts, e) ↦ elim (insert_agents-cases drafts v) [
          | inl x ↦ inl (unique_violation, rw (e, insert_team_agents) x)
          | inr x ↦ inr (taken, drafts, e, rw (e, insert_team_agents) x)
        ]
      ]
