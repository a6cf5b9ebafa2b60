-- ===== src/Setup/Keys.antt =====
-- packages/contracts/src/agent-key.ts: the readable handle of an agent, unique in its workspace.
--
-- `to_lower_case` is JavaScript's. `suffixed` writes a base and a number with a dash between them.
pub mod Slug
pub mod Free
use Prim.Native.String.{[], ◌∷◌, ◌++◌}
use Prim.Native.Char.{Char, code}
use brigadir.Prelude.{
  ℕ, zero, suc, ◌+◌, String, Bool, true, false, ◌&&◌, ◌||◌, not, Option, none, some, List, ◌==◌,
  leb, length, any_where, get_or, str_eq, if◌then◌else◌,
}

abbrev pub orchestrator_agent_key : String
orchestrator_agent_key = "brigadir"

-- `[a-z0-9]`.
abbrev pub is_alnum : Char → Bool
is_alnum c = (leb 97 (code c) && leb (code c) 122) || (leb 48 (code c) && leb (code c) 57)

abbrev pub is_dash : Char → Bool
is_dash c = code c == 45

abbrev pub dash : Char
dash = "-"

-- `replace(/[^a-z0-9]+/g, '-')`; the flag says whether the characters so far end in such a run.
unfoldable pub squeeze : Bool → String → String
squeeze b [] = []
squeeze b (c ∷ s) =
    if is_alnum c then c ∷ squeeze false s else if b then squeeze true s else dash ∷ squeeze true s

-- `replace(/^-+/, '')`.
unfoldable pub trim_start : String → String
trim_start [] = []
trim_start (c ∷ s) = if is_dash c then trim_start s else c ∷ s

abbrev pub unless_edge : Char → String → String
unless_edge c [] = if is_dash c then [] else c ∷ []
unless_edge c (d ∷ s) = c ∷ d ∷ s

-- `replace(/-+$/, '')`.
unfoldable pub trim_end : String → String
trim_end [] = []
trim_end (c ∷ s) = unless_edge c (trim_end s)

unfoldable pub raw_slug : (String → String) → String → String
raw_slug to_lower_case input = trim_end (trim_start (squeeze false (to_lower_case input)))

-- `if (s) return s;`.
abbrev pub or_if_empty : String → String → String
or_if_empty s t = if str_eq s "" then t else s

unfoldable pub slugify_agent_key : (String → String) → String → Option String → String
slugify_agent_key to_lower_case name role =
    or_if_empty (raw_slug to_lower_case (name ++ (" " ++ get_or role "")))
      (or_if_empty (raw_slug to_lower_case (get_or role "")) "agent")

abbrev pub is_free : List String → String → Bool
is_free taken candidate =
    not (any_where (str_eq candidate) taken) && not (str_eq candidate orchestrator_agent_key)

-- `for (let i = 2; ; i++)`, with at most `fuel` turns.
unfoldable pub first_free : (ℕ → String) → List String → ℕ → ℕ → Option String
first_free suffixed taken zero i = none
first_free suffixed taken (suc fuel) i =
    let rest = first_free suffixed taken fuel (suc i) in
    if is_free taken (suffixed i) then some (suffixed i) else rest

-- As many turns as there are taken and reserved keys, and one more.
unfoldable pub ensure_unique_agent_key : (String → ℕ → String) → String → List String → String
ensure_unique_agent_key suffixed base taken =
    if is_free taken base
    then base
    else get_or (first_free (suffixed base) taken (length taken + 2) 2) base
