-- ===== src/Prelude/Lists.antt =====
-- Lists as tables and as sequences: the queries and updates that the program's reads and writes are.
use Prim.Native.Nat.{ℕ, suc, ◌+◌, ◌≤◌}
use mathlib.Core.Path.{◌≡◌, refl, ap, sym, subst}
use mathlib.Core.Bool.{Bool, true, false, ◌||◌, ◌&&◌}
use mathlib.Core.Logic.{inl, inr}
use mathlib.Core.Option.{Option, none, some}
use mathlib.Core.List.{List, [], ◌∷◌, ◌++◌}
use native.Mathlib.Omega.{arith}
use brigadir.Prelude.Tests.{if◌then◌else◌, Bool-cases, if-elim}

module _ {ℓ} {A : Type ℓ} where
  abbrev pub length : List A → ℕ
  length [] = 0
  length (x ∷ xs) = suc (length xs)

  -- `select … where p limit 1`, `Array.prototype.find`.
  abbrev pub find_where : (A → Bool) → List A → Option A
  find_where p [] = none
  find_where p (x ∷ xs) = if p x then some x else find_where p xs

  -- `select … where p`, `Array.prototype.filter`.
  abbrev pub all_where : (A → Bool) → List A → List A
  all_where p [] = []
  all_where p (x ∷ xs) = let rest = all_where p xs in if p x then x ∷ rest else rest

  -- `Array.prototype.some`.
  abbrev pub any_where : (A → Bool) → List A → Bool
  any_where p [] = false
  any_where p (x ∷ xs) = p x || any_where p xs

  abbrev pub every : (A → Bool) → List A → Bool
  every p [] = true
  every p (x ∷ xs) = p x && every p xs

  -- `select count(*) … where p`.
  abbrev pub count_where : (A → Bool) → List A → ℕ
  count_where p [] = 0
  count_where p (x ∷ xs) = let n = count_where p xs in if p x then suc n else n

  -- `update … set f where p`.
  abbrev pub update_where : (A → Bool) → (A → A) → List A → List A
  update_where p f [] = []
  update_where p f (x ∷ xs) = (if p x then f x else x) ∷ update_where p f xs

  -- Every element satisfies `P`.
  abbrev pub All {κ} : (A → Type κ) → List A → Type κ
  All P [] = Unit
  All P (x ∷ xs) = P x × All P xs

module _ {ℓ} {A : Type ℓ} where
  pub length-update_where :
      (p : A → Bool) (f : A → A) (xs : List A) → length (update_where p f xs) ≡ length xs
  length-update_where p f [] = refl
  length-update_where p f (x ∷ xs) = ap suc (length-update_where p f xs)

  pub any_where-append :
      (p : A → Bool) (xs ys : List A) → any_where p (xs ++ ys) ≡ (any_where p xs || any_where p ys)
  any_where-append p [] ys = refl
  any_where-append p (x ∷ xs) ys = ground (arith, any_where-append p xs ys)

  pub count_where-append :
      (p : A → Bool) (xs ys : List A)
      → count_where p (xs ++ ys) ≡ count_where p xs + count_where p ys
  count_where-append p [] ys = omega arith
  count_where-append p (x ∷ xs) ys = ground (arith, count_where-append p xs ys)

  pub find_where-append :
      (p : A → Bool) (xs ys : List A)
      → any_where p xs ≡ false
      → find_where p (xs ++ ys) ≡ find_where p ys
  find_where-append p [] ys h = refl
  find_where-append p (x ∷ xs) ys h = ground (arith, find_where-append p xs ys)

  pub find_where-none :
      (p : A → Bool) (xs : List A) → find_where p xs ≡ none → any_where p xs ≡ false
  find_where-none p [] h = refl
  find_where-none p (x ∷ xs) h = ground (arith, find_where-none p xs)

  pub find_where-some :
      (p : A → Bool) (xs : List A) {x : A}
      → find_where p xs ≡ some x
      → (p x ≡ true) × (any_where p xs ≡ true)
  find_where-some p [] h = ground arith
  find_where-some p (y ∷ xs) {x} h = ground (arith, find_where-some p xs {x = x})

  -- A test that holds of what another finds holds somewhere.
  pub any_where-found :
      (p q : A → Bool) (xs : List A) {x : A}
      → find_where q xs ≡ some x
      → p x ≡ true
      → any_where p xs ≡ true
  any_where-found p q [] h e = ground (arith, h)
  any_where-found p q (y ∷ xs) {x} h e = elim (Bool-cases (q y)) [
    | inl t ↦ let same : y ≡ x = ground (arith, h, t) in ground (arith, rw (sym same) at e)
    | inr n ↦ ground (arith, any_where-found p q xs {x = x} (ground (arith, h, n)) e)
  ]

  pub any_where-find_where :
      (p : A → Bool) (xs : List A)
      → any_where p xs ≡ true
      → (x : A) × (find_where p xs ≡ some x) × (p x ≡ true)
  any_where-find_where p [] h = ground arith
  any_where-find_where p (x ∷ xs) h = elim (Bool-cases (p x)) [
    | inl e ↦ (x, ground arith, e)
    | inr e ↦ let r = any_where-find_where p xs (ground arith) in (r.0, rw e r.1, r.2)
  ]

  pub All-append {κ} : (P : A → Type κ) (xs ys : List A) → All P xs → All P ys → All P (xs ++ ys)
  All-append P [] ys hx hy = hy
  All-append P (x ∷ xs) ys hx hy = (hx.0, All-append P xs ys hx.1 hy)

  pub All-find_where {κ} :
      (P : A → Type κ) (p : A → Bool) (xs : List A) {x : A}
      → All P xs
      → find_where p xs ≡ some x
      → P x
  All-find_where P p [] h e = absurd (ground (arith, e))
  All-find_where P p (y ∷ xs) {x} h e = elim (Bool-cases (p y)) [
    | inl t ↦ subst P (ground (arith, e, t)) h.0
    | inr n ↦ All-find_where P p xs h.1 (ground (arith, e, n))
  ]

  pub All-update_where {κ} :
      (P : A → Type κ) (p : A → Bool) (f : A → A)
      → ((x : A) → p x ≡ true → P x → P (f x))
      → (xs : List A) → All P xs
      → All P (update_where p f xs)
  All-update_where P p f keeps [] h = _
  All-update_where P p f keeps (x ∷ xs) h =
      (if-elim P (p x) (λ t. keeps x t h.0) (λ _. h.0), All-update_where P p f keeps xs h.1)

  -- A search by what an update leaves alone finds the row, as the update leaves it.
  pub find_where-update_where :
      (q p : A → Bool) (f : A → A)
      → ((x : A) → q (f x) ≡ q x)
      → (xs : List A) {x : A} → find_where q xs ≡ some x
      → find_where q (update_where p f xs) ≡ some (if p x then f x else x)
  find_where-update_where q p f same [] h = absurd (ground (arith, h))
  find_where-update_where q p f same (y ∷ xs) {x} h =
      ground (arith, same y, find_where-update_where q p f same xs {x = x})

  -- An update that no row is subject to changes nothing.
  pub update_where-none :
      (p : A → Bool) (f : A → A) (xs : List A) → any_where p xs ≡ false → update_where p f xs ≡ xs
  update_where-none p f [] h = refl
  update_where-none p f (x ∷ xs) h = ground (arith, update_where-none p f xs)

  -- After an update that makes `q` false of the rows where `p` held, and `q` only held there, `q`
  -- holds nowhere.
  pub any_where-update_where :
      (p q : A → Bool) (f : A → A)
      → ((x : A) → q (if p x then f x else x) ≡ false)
      → (xs : List A) → any_where q (update_where p f xs) ≡ false
  any_where-update_where p q f h [] = refl
  any_where-update_where p q f h (x ∷ xs) = ground (arith, h x, any_where-update_where p q f h xs)

  pub count_where-none :
      (p : A → Bool) (xs : List A) → any_where p xs ≡ false → count_where p xs ≡ 0
  count_where-none p [] h = refl
  count_where-none p (x ∷ xs) h = ground (arith, count_where-none p xs)

  pub count_where-update_where :
      (p q : A → Bool) (f : A → A) (xs : List A)
      → count_where p (update_where q f xs) ≤ count_where p xs + count_where q xs
  count_where-update_where p q f [] = omega arith
  count_where-update_where p q f (x ∷ xs) = ground (arith, count_where-update_where p q f xs)

  pub count_where_mono :
      (p q : A → Bool) (xs : List A)
      → ((x : A) → q x ≡ true → p x ≡ true)
      → count_where q xs ≤ count_where p xs
  count_where_mono p q [] h = omega arith
  count_where_mono p q (x ∷ xs) h = ground (arith, count_where_mono p q xs h, h x)

-- Nothing is appended to nothing only.
pub append-nothing {ℓ} : {A : Type ℓ} (xs ys : List A) → xs ++ ys ≡ [] → (xs ≡ []) × (ys ≡ [])
append-nothing [] ys h = (refl, h)
append-nothing (x ∷ xs) ys h = absurd (ground (arith, h))
