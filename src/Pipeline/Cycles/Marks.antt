-- ===== src/Pipeline/Cycles/Marks.antt =====
-- That the search marks only tickets that wait for themselves.
use brigadir.Prelude.{
  ℕ, zero, suc, String, Bool, true, Option, none, some, List, [], ◌∷◌, ◌++◌, ◌≡◌, refl, subst,
  arith, inl, inr, str_eq, eq_iff, Option-cases, All, All-append, all_where, any_where, is_some,
  if◌then◌else◌, if-elim,
}
use brigadir.Pipeline.Cycles.{
  Edges, Color, gray, black, Frame, Search, blockers_in, reversed_onto, waiting_in, nexts_of,
  frame_of, color_of, down_to, add_all, follow, on_top, turn_on, turn, turns, visit, visit_new,
  visit_all, size_of, find_cycle_tickets,
}
use brigadir.Pipeline.Cycles.Ends.{visit_ends}
use brigadir.Pipeline.Cycles.Paths.{Edge, one, Leads, Linked, Chain, on_path, closing}

add_all-All :
    (P : String → Type 0) (xs set : List String) → All P xs → All P set → All P (add_all xs set)
add_all-All P [] set h k = k
add_all-All P (x ∷ xs) set (p, h) k =
    add_all-All P xs (if any_where (str_eq x) set then set else set ++ x ∷ []) h (
      if-elim (λ s. All P s) (any_where (str_eq x) set) (λ _. k)
        (λ _. All-append P set (x ∷ []) k (p, _)))

-- What holds between the turns of a search.
record Sound (edges : Edges) (s : Search) : Type 0 where
  chain : Chain edges s.path
  grays : (n : String) → color_of n s.colors ≡ some gray → on_path n s.path ≡ true
  marks : All (λ x. Leads edges x x) s.in_cycle

All-reversed_onto :
    (P : String → Type 0) (acc xs : List String)
    → All P acc
    → All P xs
    → All P (reversed_onto acc xs)
All-reversed_onto P acc [] h k = h
All-reversed_onto P acc (x ∷ xs) h (p, k) = All-reversed_onto P (x ∷ acc) xs (p, h) k

All-imp :
    {A : Type 0} (P Q : A → Type 0) → ((x : A) → P x → Q x) → (xs : List A) → All P xs → All Q xs
All-imp P Q f [] h = _
All-imp P Q f (x ∷ xs) (p, h) = (f x p, All-imp P Q f xs h)

All-all_where :
    (P : String → Type 0) (p : String → Bool) (xs : List String)
    → All P xs
    → All (λ x. P x × (p x ≡ true)) (all_where p xs)
All-all_where P p [] h = _
All-all_where P p (x ∷ xs) (k, h) =
    let rest = All-all_where P p xs h in
    if-elim (λ ys. All (λ y. P y × (p y ≡ true)) ys) (p x) (λ e. ((k, e), rest)) (λ _. rest)

All-named : (xs : List String) → All (λ x. any_where (str_eq x) xs ≡ true) xs
All-named [] = _
All-named (x ∷ xs) = (
  ground (arith, (eq_iff x x).1 refl),
  All-imp (λ y. any_where (str_eq y) xs ≡ true) (λ y. any_where (str_eq y) (x ∷ xs) ≡ true)
      (λ y h. ground (arith, h)) xs (All-named xs),
)

waiting_in-Edge :
    (edges : Edges) (a : String) (o : Option (List String))
    → blockers_in a edges ≡ o
    → All (Edge edges a) (waiting_in edges o)
waiting_in-Edge edges a none e = _
waiting_in-Edge edges a (some bs) e =
    let p : String → Bool = λ b. is_some (blockers_in b edges) in
    All-reversed_onto (Edge edges a) [] (all_where p bs) _ (
      All-imp (λ b. (any_where (str_eq b) bs ≡ true) × (p b ≡ true)) (Edge edges a)
        (λ b (m, k). record { blockers = bs; waits = e; named = m; waits_too = k }) (all_where p bs)
        (All-all_where (λ b. any_where (str_eq b) bs ≡ true) p bs (All-named bs)))

follow-Sound :
    (edges : Edges) (s : Search) (f : Frame) (path : List Frame) (n : String) (o : Option Color)
    → color_of n s.colors ≡ o
    → Edge edges f.node n
    → Chain edges (f ∷ path)
    → ((m : String) → color_of m s.colors ≡ some gray → on_path m (f ∷ path) ≡ true)
    → All (λ x. Leads edges x x) s.in_cycle
    → Sound edges (follow edges s f path n o)
unfolding nexts_of
follow-Sound edges s f path n (some gray) e link c grays marks = record {
  chain = c;
  grays = grays;
  marks =
      add_all-All (λ x. Leads edges x x) (down_to n (f ∷ path)) s.in_cycle
        (closing edges n f path c (grays n e) (one link)).1 marks;
}
follow-Sound edges s f path n (some black) e link c grays marks = record {
  chain = c;
  grays = grays;
  marks = marks;
}
follow-Sound edges s f path n none e link c grays marks = record {
  chain = (link, waiting_in-Edge edges n (blockers_in n edges) refl, c);
  grays = λ m h. ground (arith, h, grays m);
  marks = marks;
}

on_top-Sound :
    (edges : Edges) (s : Search) (node : String) (nexts : List String) (path : List Frame)
    → Chain edges (record { node = node; nexts = nexts } ∷ path)
    → ((m : String)
        → color_of m s.colors ≡ some gray
        → on_path m (record { node = node; nexts = nexts } ∷ path) ≡ true)
    → All (λ x. Leads edges x x) s.in_cycle
    → Sound edges (on_top edges s node nexts path)
on_top-Sound edges s node [] path (link, todo, c) grays marks = record {
  chain = c;
  grays = λ m h. ground (arith, h, grays m);
  marks = marks;
}
on_top-Sound edges s node (n ∷ nexts) path (link, (next, todo), c) grays marks =
    follow-Sound edges s (record { node = node; nexts = nexts }) path n (color_of n s.colors) refl
      next (link_of path link, todo, c) grays marks
  where
    link_of :
        (path : List Frame)
        → Linked edges (record { node = node; nexts = n ∷ nexts }) path
        → Linked edges (record { node = node; nexts = nexts }) path
    link_of [] l = l
    link_of (g ∷ path) l = l

turn_on-Sound :
    (edges : Edges) (s : Search) (path : List Frame)
    → s.path ≡ path
    → Sound edges s
    → Sound edges (turn_on edges s path)
turn_on-Sound edges s [] e i = i
turn_on-Sound edges s (f ∷ path) e i =
    on_top-Sound edges s f.node f.nexts path (subst (Chain edges) e i.chain)
      (λ m h. subst (λ p. on_path m p ≡ true) e (i.grays m h)) i.marks

turns-Sound :
    (fuel : ℕ) (edges : Edges) (s : Search) → Sound edges s → Sound edges (turns fuel edges s)
unfolding turns turn
turns-Sound zero edges s i = i
turns-Sound (suc fuel) edges s i =
    turns-Sound fuel edges (turn edges s) (turn_on-Sound edges s s.path refl i)

-- Between two searches nothing is on the path.
abbrev Idle : Edges → Search → Type 0
Idle edges s = (s.path ≡ []) × Sound edges s

visit-Idle :
    (edges : Edges) (start : String) (s : Search)
    → is_some (blockers_in start edges) ≡ true
    → color_of start s.colors ≡ none
    → Idle edges s
    → Idle edges (visit (size_of edges) edges start s)
unfolding visit nexts_of
visit-Idle edges start s known fresh (idle, i) =
    let s' : Search = record s {
      path = frame_of edges start ∷ [];
      colors = (start, gray) ∷ s.colors;
    } in
    let first : Sound edges s' = record {
      chain = (_, waiting_in-Edge edges start (blockers_in start edges) refl, _);
      grays = λ m h. ground (
        arith,
        h,
        subst (λ p. color_of m s.colors ≡ some gray → on_path m p ≡ true) idle (i.grays m),
      );
      marks = i.marks;
    } in
    elim (Option-cases (blockers_in start edges)) [
      | inl e ↦ absurd (ground (arith, known, e))
      | inr (bs, e) ↦
          (visit_ends edges start bs s e fresh, turns-Sound (size_of edges) edges s' first)
    ]

visit_new-Idle :
    (edges : Edges) (start : String) (o : Option Color) (s : Search)
    → color_of start s.colors ≡ o
    → is_some (blockers_in start edges) ≡ true
    → Idle edges s
    → Idle edges (visit_new (size_of edges) edges start o s)
visit_new-Idle edges start none s fresh known i = visit-Idle edges start s known fresh i
visit_new-Idle edges start (some c) s seen known i = i

abbrev Known : Edges → String × List String → Type 0
Known edges entry = is_some (blockers_in entry.0 edges) ≡ true

visit_all-Idle :
    (edges : Edges) (rest : List (String × List String)) (s : Search)
    → All (Known edges) rest
    → Idle edges s
    → Idle edges (visit_all (size_of edges) edges rest s)
unfolding visit_all
visit_all-Idle edges [] s k i = i
visit_all-Idle edges ((node, bs) ∷ rest) s (known, k) i =
    visit_all-Idle edges rest (visit_new (size_of edges) edges node (color_of node s.colors) s) k
      (visit_new-Idle edges node (color_of node s.colors) s refl known i)

All-Known : (edges : Edges) → All (Known edges) edges
All-Known [] = _
All-Known ((k, bs) ∷ edges) = (
  ground (arith, (eq_iff k k).1 refl),
  All-imp (Known edges) (Known ((k, bs) ∷ edges)) (λ entry h. ground (arith, h)) edges
      (All-Known edges),
)

-- Every ticket that the search marks is on a cycle: it waits for itself, over one waiting ticket or
-- more, each of them named as a blocker of the one before.
pub find_cycle_tickets-lead_back :
    (edges : Edges) → All (λ x. Leads edges x x) (find_cycle_tickets edges)
unfolding find_cycle_tickets
find_cycle_tickets-lead_back edges =
    (visit_all-Idle edges edges (record { path = []; colors = []; in_cycle = [] }) (All-Known edges)
      (refl, record { chain = _; grays = λ n h. absurd (ground (arith, h)); marks = _ })).1.marks
