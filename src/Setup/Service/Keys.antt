-- ===== src/Setup/Service/Keys.antt =====
-- That the rows of a valid team can be inserted: every profile is there, and every key is free.
use mathlib.Core.List.{append_assoc, append-nil}
use brigadir.Prelude.{
  ℕ, suc, String, Bool, true, false, ◌||◌, not, Option, none, some, List, [], ◌∷◌, ◌++◌, ◌≡◌, refl,
  inl, inr, arith, ap, sym, subst, Bool-cases, get_or, map, any_where, all_where, every, str_eq,
  eq_iff, ◌==◌, any_where-append, append-nothing,
}
use brigadir.Domain.{World, Agent, TeamAgent, Executor, with_ids, agent_keys_ok, same_key}
use brigadir.Setup.Keys.{ensure_unique_agent_key}
use brigadir.Setup.Keys.Free.{ensure_unique_agent_key-least}
use brigadir.Setup.Linter.{LintableAgent, proposal}
use brigadir.Setup.Validation.{
  SetupPort, key_of, profile_by_name, profile_issues, team_issues, lintable, key_issues,
  lint_issues,
}
use brigadir.Setup.Service.{roster, agent_of_proposal}
use brigadir.Setup.Service.Roster.{extended-some}

-- Every agent of the workspace has one of the keys.
abbrev pub keys_of : ℕ → List String → List Agent → Bool
keys_of workspace taken agents =
    every (λ a. not (a.workspace_id == workspace) || any_where (str_eq a.key) taken) agents

keys_of-more :
    (workspace : ℕ) (k : String) (taken : List String) (agents : List Agent)
    → keys_of workspace taken agents ≡ true
    → keys_of workspace (k ∷ taken) agents ≡ true
keys_of-more workspace k taken [] h = refl
keys_of-more workspace k taken (a ∷ agents) h =
    ground (arith, h, keys_of-more workspace k taken agents)

pub keys_of-rows :
    (workspace : ℕ) (agents : List Agent)
    → keys_of workspace
        (map (λ a. a.key) (all_where (λ a. a.workspace_id == workspace) agents))
        agents
      ≡ true
keys_of-rows workspace [] = refl
keys_of-rows workspace (a ∷ agents) = elim (Bool-cases (a.workspace_id == workspace)) [
  | inl e ↦
      let here = all_where (λ b. b.workspace_id == workspace) in
      let keys = map (λ b. b.key) (here agents) in
      let own : str_eq a.key a.key ≡ true = (eq_iff a.key a.key).1 refl in
      let rest = keys_of-more workspace a.key keys agents (keys_of-rows workspace agents) in
      let same : here (a ∷ agents) ≡ a ∷ here agents = ground (arith, e) in
      subst (λ rows. keys_of workspace (map (λ b. b.key) rows) (a ∷ agents) ≡ true) (sym same)
        (ground (arith, own, rest))
  | inr n ↦
      let here = all_where (λ b. b.workspace_id == workspace) in
      let same : here (a ∷ agents) ≡ here agents = ground (arith, n) in
      subst (λ rows. keys_of workspace (map (λ b. b.key) rows) (a ∷ agents) ≡ true) (sym same)
        (ground (arith, n, keys_of-rows workspace agents))
]

keys_of-append :
    (workspace : ℕ) (taken : List String) (agents : List Agent) (d : Agent)
    → keys_of workspace taken agents ≡ true
    → keys_of workspace (d.key ∷ taken) (agents ++ d ∷ []) ≡ true
keys_of-append workspace taken [] d h =
    let own : str_eq d.key d.key ≡ true = (eq_iff d.key d.key).1 refl in ground (arith, own)
keys_of-append workspace taken (a ∷ agents) d h =
    ground (arith, h, keys_of-append workspace taken agents d)

pub agent_keys_ok-append :
    (workspace : ℕ) (taken : List String) (agents : List Agent) (d : Agent)
    → d.workspace_id ≡ workspace
    → any_where (str_eq d.key) taken ≡ false
    → keys_of workspace taken agents ≡ true
    → agent_keys_ok agents ≡ true
    → agent_keys_ok (agents ++ d ∷ []) ≡ true
unfolding agent_keys_ok
agent_keys_ok-append workspace taken [] d own free known k = refl
agent_keys_ok-append workspace taken (a ∷ agents) d own free known k =
    let apart : same_key a d ≡ false = elim (Bool-cases (str_eq a.key d.key)) [
      | inl e ↦
          let same : a.key ≡ d.key = (eq_iff a.key d.key).0 e in
          let other : any_where (str_eq a.key) taken ≡ false = rw same free in
          ground (arith, known, other, own)
      | inr n ↦ ground (arith, n)
    ] in
    ground (
      arith,
      apart,
      known,
      k,
      any_where-append (same_key a) agents (d ∷ []),
      agent_keys_ok-append workspace taken agents d own free,
    )

module _ (port : SetupPort)
    (differ : (base : String) (i j : ℕ) → port.suffixed base i ≡ port.suffixed base j → i ≡ j) where
  -- The keys of a roster are free beside those of the workspace, whatever the names are.
  pub roster-agent_keys_ok :
      (profiles : World) (workspace : ℕ) (taken : List String) (ps : List TeamAgent)
      (agents : List Agent) {drafts : List (ℕ → Agent)}
      → roster port profiles workspace taken ps ≡ some drafts
      → keys_of workspace taken agents ≡ true
      → agent_keys_ok agents ≡ true
      → (uuids : ℕ → ℕ) (n : ℕ) → agent_keys_ok (agents ++ with_ids uuids n drafts) ≡ true
  unfolding roster with_ids
  roster-agent_keys_ok profiles workspace taken [] agents {drafts} h known k uuids n =
      let none_left : [] ≡ drafts = ap (λ o. get_or o []) h in
      rw (sym none_left) (rw (append-nil agents) k)
  roster-agent_keys_ok profiles workspace taken (p ∷ ps) agents {drafts} h known k uuids n =
      let key = ensure_unique_agent_key port.suffixed (key_of port p) taken in
      let (e, rows, found, rest, made) =
        extended-some port (profile_by_name p.executor profiles) _
          (roster port profiles workspace (key ∷ taken) ps) h in
      let d : Agent = agent_of_proposal port workspace e key p (uuids n) in
      let least =
        (ensure_unique_agent_key-least port.suffixed (key_of port p) taken (differ _)).0 in
      let free : any_where (str_eq key) taken ≡ false = ground (arith, least) in
      let grown =
        roster-agent_keys_ok profiles workspace (key ∷ taken) ps (agents ++ d ∷ []) rest
          (keys_of-append workspace taken agents d known)
          (agent_keys_ok-append workspace taken agents d refl free known k) uuids (suc n) in
      rw (sym made) (rw (append_assoc agents (d ∷ []) (with_ids uuids (suc n) rows)) at grown)

  profile_issues-known :
      (i : ℕ) (o : Option Executor) → profile_issues i o ≡ [] → (e : Executor) × (o ≡ some e)
  profile_issues-known i none h = absurd (ground (arith, h))
  profile_issues-known i (some e) h = (e, refl)

  -- No issue with the profiles means that each is there, so that the roster is complete.
  pub roster_complete :
      (w : World) (board : List String) (workspace i : ℕ) (seen taken : List String)
      (lintables : List LintableAgent) (ps : List TeamAgent)
      → team_issues port w board i seen lintables ps ≡ []
      → (drafts : List (ℕ → Agent)) × (roster port w workspace taken ps ≡ some drafts)
  unfolding team_issues roster
  roster_complete w board workspace i seen taken lintables [] h = ([], refl)
  roster_complete w board workspace i seen taken lintables (p ∷ ps) h =
      let next : List LintableAgent = lintables ++ lintable (some (proposal i)) p ∷ [] in
      let profile = profile_issues i (profile_by_name p.executor w) in
      let (own, later) =
        append-nothing (key_issues port i seen p ++ profile ++ lint_issues port i lintables board p)
          (team_issues port w board (suc i) (key_of port p ∷ seen) next ps) h in
      let (others, _) =
        append-nothing (key_issues port i seen p ++ profile) (lint_issues port i lintables board p)
          own in
      let (e, known) =
        profile_issues-known i (profile_by_name p.executor w)
          (append-nothing (key_issues port i seen p) profile others).1 in
      let key = ensure_unique_agent_key port.suffixed (key_of port p) taken in
      let (drafts, rest) =
        roster_complete w board workspace (suc i) (key_of port p ∷ seen) (key ∷ taken) next ps
          later in
      (agent_of_proposal port workspace e key p ∷ drafts, rw (known, rest) refl)
