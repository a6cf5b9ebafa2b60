-- ===== src/Setup/Keys/Slug.antt =====
-- That a key is a well-formed handle.
use Prim.Native.String.{[], ◌∷◌}
use Prim.Native.String.compare
use Prim.Native.Char.{Char}
use brigadir.Prelude.{
  String, Bool, true, false, ◌&&◌, ◌||◌, Option, ◌≡◌, refl, inl, inr, arith, Bool-cases,
  if◌then◌else◌,
}
use brigadir.Setup.Keys.{
  is_alnum, is_dash, dash, squeeze, trim_start, trim_end, unless_edge, raw_slug, or_if_empty,
  slugify_agent_key,
}

-- Letters, digits and single dashes, with a letter or a digit at the end; the flag says whether the
-- character in front is a letter or a digit.
unfoldable pub handle_from : Bool → String → Bool
handle_from b [] = b
handle_from b (c ∷ s) =
    if is_alnum c then handle_from true s else is_dash c && (b && handle_from false s)

-- `[a-z0-9]+(-[a-z0-9]+)*`.
abbrev pub is_handle : String → Bool
is_handle s = handle_from false s

abbrev is_empty : String → Bool
is_empty [] = true
is_empty (c ∷ s) = false

-- What is left of a squeezed text after a letter or digit, or after a dash.
abbrev mends : Bool → String → Bool
mends false u = handle_from true u
mends true u = is_empty u || handle_from false u

unless_edge-mends :
    (b : Bool) (c : Char) (u : String)
    → is_alnum c ≡ true
    → mends false u ≡ true
    → mends b (unless_edge c u) ≡ true
unfolding handle_from
unless_edge-mends false c [] a h = ground (arith, a)
unless_edge-mends true c [] a h = ground (arith, a)
unless_edge-mends false c (d ∷ u) a h = ground (arith, a, h)
unless_edge-mends true c (d ∷ u) a h = ground (arith, a, h)

unless_edge-dash : (u : String) → mends true u ≡ true → mends false (unless_edge dash u) ≡ true
unfolding handle_from
unless_edge-dash [] h = refl
unless_edge-dash (d ∷ u) h = h

squeeze-alnum :
    (b : Bool) (c : Char) (s : String) → is_alnum c ≡ true → squeeze b (c ∷ s) ≡ c ∷ squeeze false s
unfolding squeeze
squeeze-alnum b c s a = rw (a, squeeze) refl

squeeze-first :
    (c : Char) (s : String) → is_alnum c ≡ false → squeeze false (c ∷ s) ≡ dash ∷ squeeze true s
unfolding squeeze
squeeze-first c s a = rw (a, squeeze) refl

squeeze-later : (c : Char) (s : String) → is_alnum c ≡ false → squeeze true (c ∷ s) ≡ squeeze true s
unfolding squeeze
squeeze-later c s a = rw (a, squeeze) refl

squeeze-mends : (b : Bool) (s : String) → mends b (trim_end (squeeze b s)) ≡ true
unfolding handle_from trim_end squeeze
squeeze-mends false [] = refl
squeeze-mends true [] = refl
squeeze-mends false (c ∷ s) = elim (Bool-cases (is_alnum c)) [
  | inl a ↦
      rw (squeeze-alnum false c s a)
        (unless_edge-mends false c (trim_end (squeeze false s)) a (squeeze-mends false s))
  | inr n ↦
      rw (squeeze-first c s n) (unless_edge-dash (trim_end (squeeze true s)) (squeeze-mends true s))
]
squeeze-mends true (c ∷ s) = elim (Bool-cases (is_alnum c)) [
  | inl a ↦
      rw (squeeze-alnum true c s a)
        (unless_edge-mends true c (trim_end (squeeze false s)) a (squeeze-mends false s))
  | inr n ↦ rw (squeeze-later c s n) (squeeze-mends true s)
]

alnum-stays : (c : Char) (u : String) → is_alnum c ≡ true → trim_start (c ∷ u) ≡ c ∷ u
unfolding trim_start
alnum-stays c u a = ground (arith, a)

-- The text without the dashes in front, if any, is the text squeezed as if after a dash.
trim_start-squeeze : (b : Bool) (s : String) → trim_start (squeeze b s) ≡ squeeze true s
unfolding trim_start squeeze
trim_start-squeeze false [] = refl
trim_start-squeeze true [] = refl
trim_start-squeeze false (c ∷ s) = elim (Bool-cases (is_alnum c)) [
  | inl a ↦ rw (squeeze-alnum false c s a, squeeze-alnum true c s a) (alnum-stays c _ a)
  | inr n ↦ rw (squeeze-first c s n, squeeze-later c s n) (trim_start-squeeze true s)
]
trim_start-squeeze true (c ∷ s) = elim (Bool-cases (is_alnum c)) [
  | inl a ↦ rw (squeeze-alnum true c s a) (alnum-stays c _ a)
  | inr n ↦ rw (squeeze-later c s n) (trim_start-squeeze true s)
]

raw_slug-handle :
    (to_lower_case : String → String) (s : String)
    → (is_empty (raw_slug to_lower_case s) || is_handle (raw_slug to_lower_case s)) ≡ true
unfolding raw_slug
raw_slug-handle to_lower_case s =
    rw (trim_start-squeeze false (to_lower_case s)) (squeeze-mends true (to_lower_case s))

or_if_empty-handle :
    (s t : String)
    → (is_empty s || is_handle s) ≡ true
    → is_handle t ≡ true
    → is_handle (or_if_empty s t) ≡ true
or_if_empty-handle [] t h k = k
or_if_empty-handle (c ∷ s) t h k = rw (compare.cons-nil c s, or_if_empty) h

agent-handle : is_handle "agent" ≡ true
unfolding handle_from
agent-handle = refl

-- Whatever the name and the role are, also if no character of theirs can stand in it, the key is a
-- non-empty handle: letters, digits and single dashes between them.
pub slugify_agent_key-handle :
    (to_lower_case : String → String) (name : String) (role : Option String)
    → is_handle (slugify_agent_key to_lower_case name role) ≡ true
unfolding slugify_agent_key
slugify_agent_key-handle to_lower_case name role =
    or_if_empty-handle _ _ (raw_slug-handle to_lower_case _)
      (or_if_empty-handle _ _ (raw_slug-handle to_lower_case _) agent-handle)
