-- ===== src/Pipeline/Cycles.antt =====
-- libs/pipeline/src/dependency-release.service.ts: the search for tickets that block each other in a
-- circle, by depth first with three colours.
--
-- The search runs on fuel, one unit for each turn of its loop; one for each ticket and two for each
-- of its blockers are enough. The stack of the code holds the tickets of the frames of `path`.
pub mod Ends
pub mod Paths
pub mod Marks
use brigadir.Prelude.{
  ℕ, zero, suc, String, Bool, true, false, Option, none, some, List, [], ◌∷◌, ◌++◌, ◌+◌, str_eq,
  length, any_where, all_where, find_where, is_some, if◌then◌else◌,
}

abbrev pub Edges : Type 0
Edges = List (String × List String)

pub data Color : Type 0 where
  gray black : Color

pub record Frame : Type 0 where
  pub node : String
  pub nexts : List String

pub record Search : Type 0 where
  -- the top first
  pub path : List Frame
  -- the last change first
  pub colors : List (String × Color)
  pub in_cycle : List String

abbrev pub blockers_in : String → Edges → Option (List String)
blockers_in k [] = none
blockers_in k ((k', bs) ∷ edges) = if str_eq k' k then some bs else blockers_in k edges

abbrev pub reversed_onto : List String → List String → List String
reversed_onto acc [] = acc
reversed_onto acc (x ∷ xs) = reversed_onto (x ∷ acc) xs

abbrev pub waiting_in : Edges → Option (List String) → List String
waiting_in edges none = []
waiting_in edges (some bs) = reversed_onto [] (all_where (λ b. is_some (blockers_in b edges)) bs)

-- The blockers that wait too, the last one first, as `pop` takes them.
unfoldable pub nexts_of : Edges → String → List String
nexts_of edges node = waiting_in edges (blockers_in node edges)

abbrev pub frame_of : Edges → String → Frame
frame_of edges node = record { node = node; nexts = nexts_of edges node }

abbrev pub color_of : String → List (String × Color) → Option Color
color_of k [] = none
color_of k ((k', c) ∷ colors) = if str_eq k' k then some c else color_of k colors

-- The tickets on the stack from the top down to a given one.
abbrev pub down_to : String → List Frame → List String
down_to n [] = []
down_to n (f ∷ path) = if str_eq f.node n then f.node ∷ [] else f.node ∷ down_to n path

-- `Set.add`, one after the other.
abbrev pub add_all : List String → List String → List String
add_all [] set = set
add_all (x ∷ xs) set = add_all xs (if any_where (str_eq x) set then set else set ++ x ∷ [])

-- The next blocker of the frame on top, by its colour.
abbrev pub follow : Edges → Search → Frame → List Frame → String → Option Color → Search
follow edges s f path n (some gray) = record s {
  path = f ∷ path;
  in_cycle = add_all (down_to n (f ∷ path)) s.in_cycle;
}
follow edges s f path n (some black) = record s { path = f ∷ path }
follow edges s f path n none = record s {
  path = frame_of edges n ∷ f ∷ path;
  colors = (n, gray) ∷ s.colors;
}

abbrev pub on_top : Edges → Search → String → List String → List Frame → Search
on_top edges s node [] path = record s { path = path; colors = (node, black) ∷ s.colors }
on_top edges s node (n ∷ nexts) path =
    follow edges s (record { node = node; nexts = nexts }) path n (color_of n s.colors)

abbrev pub turn_on : Edges → Search → List Frame → Search
turn_on edges s [] = s
turn_on edges s (f ∷ path) = on_top edges s f.node f.nexts path

-- One turn of the loop; none is left when the path is empty.
unfoldable pub turn : Edges → Search → Search
turn edges s = turn_on edges s s.path

unfoldable pub turns : ℕ → Edges → Search → Search
turns zero edges s = s
turns (suc fuel) edges s = turns fuel edges (turn edges s)

unfoldable pub visit : ℕ → Edges → String → Search → Search
visit fuel edges start s =
    turns fuel edges
      (record s { path = frame_of edges start ∷ []; colors = (start, gray) ∷ s.colors })

abbrev pub visit_new : ℕ → Edges → String → Option Color → Search → Search
visit_new fuel edges node none s = visit fuel edges node s
visit_new fuel edges node (some c) s = s

unfoldable pub visit_all : ℕ → Edges → List (String × List String) → Search → Search
visit_all fuel edges [] s = s
visit_all fuel edges ((node, bs) ∷ rest) s =
    visit_all fuel edges rest (visit_new fuel edges node (color_of node s.colors) s)

abbrev pub size_of : Edges → ℕ
size_of [] = 0
size_of ((node, bs) ∷ edges) = suc (length bs + length bs) + size_of edges

unfoldable pub find_cycle_tickets : Edges → List String
find_cycle_tickets edges =
    (visit_all (size_of edges) edges edges
      (record { path = []; colors = []; in_cycle = [] })).in_cycle
