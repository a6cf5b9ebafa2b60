-- ===== src/Pipeline/Cycles/Ends.antt =====
-- That the search for cycles ends: each of its turns uses up a blocker that is still to be looked at, or
-- leaves a frame.
use brigadir.Prelude.{
  ℕ, zero, suc, String, Bool, true, Option, none, some, List, [], ◌∷◌, ◌+◌, ◌≤◌, ◌≡◌, ◌∙◌, refl,
  arith, ap, inl, inr, str_eq, eq_iff, length, all_where, is_some, Bool-cases, sym,
}
use brigadir.Pipeline.Cycles.{
  Edges, Color, gray, black, Frame, Search, blockers_in, reversed_onto, waiting_in, nexts_of,
  frame_of, color_of, follow, on_top, turn_on, turn, turns, visit, size_of,
}

length-all_where {ℓ} :
    {A : Type ℓ} (p : A → Bool) (xs : List A) → length (all_where p xs) ≤ length xs
length-all_where p [] = omega arith
length-all_where p (x ∷ xs) = ground (arith, length-all_where p xs)

length-reversed_onto :
    (acc xs : List String) → length (reversed_onto acc xs) ≡ length acc + length xs
length-reversed_onto acc [] = omega arith
length-reversed_onto acc (x ∷ xs) = omega (arith, length-reversed_onto (x ∷ acc) xs)

abbrev double : List String → ℕ
double xs = suc (length xs + length xs)

-- What a ticket costs that is looked at for the first time.
abbrev cost : Option (List String) → ℕ
cost none = 0
cost (some bs) = double bs

length-waiting_in :
    (edges : Edges) (o : Option (List String)) → double (waiting_in edges o) ≤ suc (cost o)
length-waiting_in edges none = omega arith
length-waiting_in edges (some bs) =
    let p : String → Bool = λ b. is_some (blockers_in b edges) in
    omega (arith, length-reversed_onto [] (all_where p bs), length-all_where p bs)

abbrev unseen_cost : Option Color → List String → ℕ
unseen_cost (some c) bs = 0
unseen_cost none bs = double bs

-- The tickets without a colour and their blockers.
abbrev unseen : List (String × Color) → Edges → ℕ
unseen colors [] = 0
unseen colors ((k, bs) ∷ edges) = unseen_cost (color_of k colors) bs + unseen colors edges

abbrev open_cost : Option Color → ℕ → ℕ
open_cost (some c) n = 0
open_cost none n = n

unseen-colored :
    (n : String) (c : Color) (colors : List (String × Color)) (edges : Edges)
    → unseen ((n, c) ∷ colors) edges + open_cost (color_of n colors) (cost (blockers_in n edges))
      ≤ unseen colors edges
unseen-colored n c colors [] = ground arith
unseen-colored n c colors ((k, bs) ∷ edges) = elim (Bool-cases (str_eq n k)) [
  | inl e ↦
      let same : n ≡ k = (eq_iff n k).0 e in
      let back : str_eq k n ≡ true = (eq_iff k n).1 (sym same) in
      let color : color_of n colors ≡ color_of k colors = ap (λ x. color_of x colors) same in
      rw (e, back, color) (ground (arith, unseen-colored n c colors edges))
  | inr e ↦ elim (Bool-cases (str_eq k n)) [
    | inl back ↦ absurd (ground (arith, e, (eq_iff n k).1 (sym ((eq_iff k n).0 back))))
    | inr back ↦ rw (e, back) (omega (arith, unseen-colored n c colors edges))
  ]
]

abbrev frames_cost : List Frame → ℕ
frames_cost [] = 0
frames_cost (f ∷ path) = double f.nexts + frames_cost path

-- What is left to do in a search.
abbrev work : Edges → Search → ℕ
work edges s = unseen s.colors edges + frames_cost s.path

unseen-recolored :
    (n : String) (c : Color) (colors : List (String × Color)) (edges : Edges)
    → unseen ((n, c) ∷ colors) edges ≤ unseen colors edges
unseen-recolored n c colors edges = omega (arith, unseen-colored n c colors edges)

follow-works :
    (edges : Edges) (s : Search) (f : Frame) (path : List Frame) (n : String) (o : Option Color)
    → color_of n s.colors ≡ o
    → suc (work edges (follow edges s f path n o))
      ≤ unseen s.colors edges + (2 + double f.nexts) + frames_cost path
unfolding nexts_of
follow-works edges s f path n (some gray) e = omega arith
follow-works edges s f path n (some black) e = omega arith
follow-works edges s f path n none e =
    let seen : unseen ((n, gray) ∷ s.colors) edges + cost (blockers_in n edges)
        ≤ unseen s.colors edges =
      rw e at (unseen-colored n gray s.colors edges) in
    omega (arith, seen, length-waiting_in edges (blockers_in n edges))

on_top-works :
    (edges : Edges) (s : Search) (node : String) (nexts : List String) (path : List Frame)
    → suc (work edges (on_top edges s node nexts path))
      ≤ unseen s.colors edges + double nexts + frames_cost path
on_top-works edges s node [] path = omega (arith, unseen-recolored node black s.colors edges)
on_top-works edges s node (n ∷ nexts) path = omega (
  arith,
  follow-works edges s (record { node = node; nexts = nexts }) path n (color_of n s.colors) refl,
)

turns_idle : (fuel : ℕ) (edges : Edges) (s : Search) → s.path ≡ [] → (turns fuel edges s).path ≡ []
unfolding turns turn
turns_idle zero edges s e = e
turns_idle (suc fuel) edges s e =
    let idle : turn edges s ≡ s = ap (turn_on edges s) e in
    turns_idle fuel edges (turn edges s) (ap (λ (x : Search). x.path) idle ∙ e)

turns_end :
    (fuel : ℕ) (edges : Edges) (s : Search) (path : List Frame)
    → s.path ≡ path
    → unseen s.colors edges + frames_cost path ≤ fuel
    → (turns fuel edges s).path ≡ []
unfolding turns turn
turns_end fuel edges s [] e enough = turns_idle fuel edges s e
turns_end zero edges s (f ∷ path) e enough = absurd (omega (arith, enough))
turns_end (suc fuel) edges s (f ∷ path) e enough =
    let next : turn edges s ≡ on_top edges s f.node f.nexts path = ap (turn_on edges s) e in
    let less = on_top-works edges s f.node f.nexts path in
    turns_end fuel edges (turn edges s) (turn edges s).path refl
      (rw next (omega (arith, less, enough)))

blockers_in-size :
    (colors : List (String × Color)) (edges : Edges) → unseen colors edges ≤ size_of edges
blockers_in-size colors [] = omega arith
blockers_in-size colors ((k, bs) ∷ edges) = ground (arith, blockers_in-size colors edges)

-- The search from a waiting ticket without a colour ends within the fuel that it is given, whatever it
-- has coloured before: afterwards no ticket is left on its path.
pub visit_ends :
    (edges : Edges) (start : String) (bs : List String) (s : Search)
    → blockers_in start edges ≡ some bs
    → color_of start s.colors ≡ none
    → (visit (size_of edges) edges start s).path ≡ []
unfolding visit nexts_of
visit_ends edges start bs s known fresh =
    let seen : unseen ((start, gray) ∷ s.colors) edges + cost (blockers_in start edges)
        ≤ unseen s.colors edges =
      rw fresh at (unseen-colored start gray s.colors edges) in
    let bound = length-waiting_in edges (blockers_in start edges) in
    turns_end (size_of edges) edges
      (record s { path = frame_of edges start ∷ []; colors = (start, gray) ∷ s.colors })
      (frame_of edges start ∷ []) refl
      (ground (arith, seen, bound, known, blockers_in-size s.colors edges))
