-- ===== src/Pipeline/Cycles/Paths.antt =====
-- Tickets that wait for each other over one blocker or more, and the path of a search.
use brigadir.Prelude.{
  String, Bool, true, some, List, [], ◌∷◌, ◌≡◌, ◌⊎◌, sym, subst, arith, inl, inr, str_eq, eq_iff,
  All, any_where, is_some, Bool-cases,
}
use brigadir.Pipeline.Cycles.{Edges, Frame, blockers_in, down_to}

-- A waiting ticket and one of its blockers, which waits too.
pub record Edge (edges : Edges) (a b : String) : Type 0 where
  pub blockers : List String
  pub waits : blockers_in a edges ≡ some blockers
  pub named : any_where (str_eq b) blockers ≡ true
  pub waits_too : is_some (blockers_in b edges) ≡ true

-- The ticket waits for the other, over one blocker or more.
pub data Leads (edges : Edges) : String → String → Type 0 where
  one : {a b : String} → Edge edges a b → Leads edges a b
  more : {a b c : String} → Edge edges a b → Leads edges b c → Leads edges a c

Leads-trans : {edges : Edges} {a b c : String} → Leads edges a b → Leads edges b c → Leads edges a c
Leads-trans (one e) l = more e l
Leads-trans (more e k) l = more e (Leads-trans k l)

abbrev pub Reach : Edges → String → String → Type 0
Reach edges a b = (a ≡ b) ⊎ Leads edges a b

Reach-Edge : {edges : Edges} {a b c : String} → Reach edges a b → Edge edges b c → Reach edges a c
Reach-Edge {edges} {c = c} (inl p) e = inr (one (subst (λ x. Edge edges x c) (sym p) e))
Reach-Edge (inr l) e = inr (Leads-trans l (one e))

Leads-Reach : {edges : Edges} {a b c : String} → Leads edges a b → Reach edges b c → Leads edges a c
Leads-Reach {edges} {a} l (inl p) = subst (Leads edges a) p l
Leads-Reach l (inr k) = Leads-trans l k

-- The frames of a path, each waited for by the one below.
abbrev pub Linked : Edges → Frame → List Frame → Type 0
Linked edges f [] = Unit
Linked edges f (g ∷ path) = Edge edges g.node f.node

abbrev pub Chain : Edges → List Frame → Type 0
Chain edges [] = Unit
Chain edges (f ∷ path) = Linked edges f path × All (Edge edges f.node) f.nexts × Chain edges path

abbrev pub on_path : String → List Frame → Bool
on_path n path = any_where (λ f. str_eq f.node n) path

-- Every ticket down to one that the top leads to waits for it, and it for them.
pub closing :
    (edges : Edges) (n : String) (f : Frame) (path : List Frame)
    → Chain edges (f ∷ path)
    → on_path n (f ∷ path) ≡ true
    → Leads edges f.node n
    → Reach edges n f.node × All (λ x. Leads edges x x) (down_to n (f ∷ path))
closing edges n f [] c on l = elim (Bool-cases (str_eq f.node n)) [
  | inl e ↦
      let same : f.node ≡ n = (eq_iff f.node n).0 e in
      rw e (inl (sym same), (Leads-Reach l (inl (sym same)), _))
  | inr e ↦ absurd (ground (arith, on, e))
]
closing edges n f (g ∷ path) (link, todo, c) on l = elim (Bool-cases (str_eq f.node n)) [
  | inl e ↦
      let same : f.node ≡ n = (eq_iff f.node n).0 e in
      rw e (inl (sym same), (Leads-Reach l (inl (sym same)), _))
  | inr e ↦
      let (below, rest) = closing edges n g path c (ground (arith, on, e)) (more link l) in
      let back = Reach-Edge below link in rw e (back, (Leads-Reach l back, rest))
]
