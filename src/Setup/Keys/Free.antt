-- ===== src/Setup/Keys/Free.antt =====
-- That a key is free, and that the search for it ends.
use brigadir.Prelude.{
  ℕ, zero, suc, ◌+◌, ◌≤◌, ◌<◌, String, Bool, true, false, ◌&&◌, not, none, some, List, [], ◌∷◌, ◌≡◌,
  refl, ◌⊎◌, inl, inr, arith, sym, ◌∙◌, ◌≢◌, Bool-cases, Option-cases, length, all_where, any_where,
  str_eq, eq_iff, ==_iff, ◌==◌,
}
use brigadir.Setup.Keys.{orchestrator_agent_key, is_free, first_free, ensure_unique_agent_key}

-- The keys that no agent may get.
abbrev barred : List String → List String
barred taken = orchestrator_agent_key ∷ taken

free-barred :
    (taken : List String) (c : String) → is_free taken c ≡ not (any_where (str_eq c) (barred taken))
free-barred taken c = ground arith

-- A list with a text taken out.
abbrev removed : String → List String → List String
removed c xs = all_where (λ x. not (str_eq c x)) xs

length-removed : (c : String) (xs : List String) → length (removed c xs) ≤ length xs
length-removed c [] = omega arith
length-removed c (x ∷ xs) = ground (arith, length-removed c xs)

length-without_member :
    (c : String) (xs : List String)
    → any_where (str_eq c) xs ≡ true
    → length (removed c xs) < length xs
length-without_member c [] h = ground (arith, h)
length-without_member c (x ∷ xs) h =
    ground (arith, h, length-removed c xs, length-without_member c xs)

str_eq_refl : (c : String) → str_eq c c ≡ true
str_eq_refl c = (eq_iff c c).1 refl

member-removed :
    (c d : String) (xs : List String)
    → c ≢ d
    → any_where (str_eq d) (removed c xs) ≡ any_where (str_eq d) xs
member-removed c d [] n = refl
member-removed c d (x ∷ xs) n = elim (Bool-cases (str_eq c x)) [
  | inl e ↦
      let other : str_eq d x ≡ false = elim (Bool-cases (str_eq d x)) [
        | inl h ↦ absurd (n ((eq_iff c x).0 e ∙ sym ((eq_iff d x).0 h)))
        | inr h ↦ h
      ] in
      ground (arith, e, other, member-removed c d xs n)
  | inr e ↦ ground (arith, e, member-removed c d xs n)
]

module _ (suffixed : ℕ → String) (differ : (i j : ℕ) → suffixed i ≡ suffixed j → i ≡ j) where
  -- Each of the next names is in the list.
  next_in : List String → ℕ → ℕ → Bool
  next_in xs zero i = true
  next_in xs (suc n) i = any_where (str_eq (suffixed i)) xs && next_in xs n (suc i)

  next_in-removed :
      (xs : List String) (n i k : ℕ)
      → i < k
      → next_in xs n k ≡ true
      → next_in (removed (suffixed i) xs) n k ≡ true
  unfolding next_in
  next_in-removed xs zero i k l h = refl
  next_in-removed xs (suc n) i k l h =
      let other : suffixed i ≢ suffixed k = λ e. ground (arith, l, differ i k e) in
      ground (
        arith,
        h,
        member-removed (suffixed i) (suffixed k) xs other,
        next_in-removed xs n i (suc k) (omega (arith, l)),
      )

  -- Different names of a list are at most as many as its members.
  next_in-bound : (n : ℕ) (xs : List String) (i : ℕ) → next_in xs n i ≡ true → n ≤ length xs
  unfolding next_in
  next_in-bound zero xs i h = omega arith
  next_in-bound (suc n) xs i h =
      let parts : (any_where (str_eq (suffixed i)) xs ≡ true) × (next_in xs n (suc i) ≡ true) =
        ground (arith, h) in
      let rest =
        next_in-bound n (removed (suffixed i) xs) (suc i)
          (next_in-removed xs n i (suc i) (omega arith) parts.1) in
      omega (arith, rest, length-without_member (suffixed i) xs parts.0)

  first_free-none :
      (taken : List String) (fuel i : ℕ)
      → first_free suffixed taken fuel i ≡ none
      → next_in (barred taken) fuel i ≡ true
  unfolding first_free next_in
  first_free-none taken zero i h = refl
  first_free-none taken (suc fuel) i h =
      ground (arith, h, free-barred taken (suffixed i), first_free-none taken fuel (suc i))

  first_free-some :
      (taken : List String) (fuel i : ℕ) (k : String)
      → first_free suffixed taken fuel i ≡ some k
      → (j : ℕ) × (i ≤ j)
        × (k ≡ suffixed j)
        × (is_free taken k ≡ true)
        × ((m : ℕ) → i ≤ m → m < j → is_free taken (suffixed m) ≡ false)
  unfolding first_free
  first_free-some taken zero i k h = absurd (ground (arith, h))
  first_free-some taken (suc fuel) i k h = elim (Bool-cases (is_free taken (suffixed i))) [
    | inl e ↦
        let same : suffixed i ≡ k = ground (arith, h, e) in
        (i, omega arith, sym same, rw same at e, λ m a b. absurd (omega (arith, a, b)))
    | inr n ↦
        let (j, least, same, free, before) =
          first_free-some taken fuel (suc i) k (ground (arith, h, n)) in
        (
          j,
          omega (arith, least),
          same,
          free,
          λ m a b. elim (Bool-cases (m == i)) [
            | inl e ↦ rw ((==_iff m i).0 e) n
            | inr e ↦ before m (ground (arith, a, e)) b
          ],
        )
  ]

-- The key is the base, or the base with the least number from 2 on that makes a free key: it is not
-- taken and not the orchestrator's. Different numbers write different suffixes.
pub ensure_unique_agent_key-least :
    (suffixed : String → ℕ → String) (base : String) (taken : List String)
    → ((i j : ℕ) → suffixed base i ≡ suffixed base j → i ≡ j)
    → let key = ensure_unique_agent_key suffixed base taken in
      (is_free taken key ≡ true)
      × ((key ≡ base)
          ⊎ ((j : ℕ) × (2 ≤ j)
              × (key ≡ suffixed base j)
              × (is_free taken base ≡ false)
              × ((m : ℕ) → 2 ≤ m → m < j → is_free taken (suffixed base m) ≡ false)))
unfolding ensure_unique_agent_key
ensure_unique_agent_key-least suffixed base taken differ = elim (Bool-cases (is_free taken base)) [
  | inl e ↦ rw (e, ensure_unique_agent_key) (e, inl refl)
  | inr n ↦ elim (Option-cases (first_free (suffixed base) taken (length taken + 2) 2)) [
    | inl none_left ↦
        let bound =
          next_in-bound (suffixed base) differ (length taken + 2) (barred taken) 2
            (first_free-none (suffixed base) differ taken (length taken + 2) 2 none_left) in
        absurd (omega (arith, bound))
    | inr (k, found) ↦
        let (j, least, same, free, before) =
          first_free-some (suffixed base) differ taken (length taken + 2) 2 k found in
        rw (n, ensure_unique_agent_key) (rw found (free, inr (j, least, same, refl, before)))
  ]
]
