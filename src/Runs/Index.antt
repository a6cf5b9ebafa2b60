-- ===== src/Runs/Index.antt =====
-- The two partial unique indexes of libs/database/src/schema/runs.ts under the updates of the
-- program: which updates keep them, so that PostgreSQL never rejects the statement.
use brigadir.Prelude.{
  ℕ, suc, Bool, true, false, Option, none, some, List, [], ◌∷◌, ◌++◌, ◌≡◌, refl, ◌⊎◌, inl, inr,
  arith, update_where, any_where, any_where-append, if◌then◌else◌, Bool-cases, update_where-none,
}
use brigadir.Domain.{
  World, Run, Slot, on_ticket, on_setup, slot, same_slot, occupies, taken, indexes_ok, insert_run,
  add_run, fresh_id, update_runs, guarded_update, ok, throws, unique_violation,
}

-- The row gives its slot up or stays in it.
abbrev pub Shrinks : Option Slot → Option Slot → Type 0
Shrinks a b = (a ≡ none) ⊎ (a ≡ b)

occupies-Shrinks :
    (a b c d : Option Slot)
    → Shrinks a b
    → Shrinks c d
    → occupies b d ≡ false
    → occupies a c ≡ false
occupies-Shrinks a b c d (inl x) q e = ground arith
occupies-Shrinks none b c d (inr x) (inl y) e = ground arith
occupies-Shrinks (some s) b c d (inr x) (inl y) e = ground arith
occupies-Shrinks a b c d (inr x) (inr y) e = cc

module _ (p : Run → Bool) (f : Run → Run) where
  abbrev pub after : Run → Run
  after r = if p r then f r else r

  pub taken-update :
      (shrinks : (r : Run) → Shrinks (slot (after r)) (slot r)) (a b : Option Slot)
      → Shrinks a b
      → (rows : List Run) → taken b rows ≡ false
      → taken a (update_where p f rows) ≡ false
  taken-update shrinks a b h [] e = refl
  taken-update shrinks a b h (r ∷ rows) e = ground (
    arith,
    taken-update shrinks a b h rows,
    occupies-Shrinks a b (slot (after r)) (slot r) h (shrinks r),
  )

  -- An update under which each row keeps or gives up its slot keeps both indexes.
  pub indexes_ok-update :
      ((r : Run) → Shrinks (slot (after r)) (slot r))
      → (rows : List Run) → indexes_ok rows ≡ true
      → indexes_ok (update_where p f rows) ≡ true
  unfolding indexes_ok
  indexes_ok-update shrinks [] e = refl
  indexes_ok-update shrinks (r ∷ rows) e = ground (
    arith,
    indexes_ok-update shrinks rows,
    taken-update shrinks (slot (after r)) (slot r) (shrinks r) rows,
  )

  -- Such an update is never rejected.
  pub guarded_update-ok :
      ((r : Run) → Shrinks (slot (after r)) (slot r))
      → (w : World) → indexes_ok w.runs ≡ true
      → guarded_update p f w
        ≡ (ok (any_where p w.runs), record w { runs = update_where p f w.runs })
  unfolding update_runs
  guarded_update-ok shrinks w h =
      rw (indexes_ok-update shrinks w.runs h, guarded_update, update_runs)

same_slot_comm : (a b : Slot) → same_slot a b ≡ same_slot b a
same_slot_comm (on_ticket a) (on_ticket b) = ground arith
same_slot_comm (on_setup a) (on_setup b) = ground arith
same_slot_comm (on_ticket a) (on_setup b) = refl
same_slot_comm (on_setup a) (on_ticket b) = refl

pub occupies_comm : (a b : Option Slot) → occupies a b ≡ occupies b a
occupies_comm none none = refl
occupies_comm none (some b) = refl
occupies_comm (some a) none = refl
occupies_comm (some a) (some b) = same_slot_comm a b

-- A row whose slot is free may be added.
pub indexes_ok-append :
    (rows : List Run) (r : Run)
    → indexes_ok rows ≡ true
    → taken (slot r) rows ≡ false
    → indexes_ok (rows ++ r ∷ []) ≡ true
unfolding indexes_ok
indexes_ok-append [] r h e = refl
indexes_ok-append (x ∷ rows) r h e = ground (
  arith,
  indexes_ok-append rows r,
  occupies_comm (slot x) (slot r),
  any_where-append (λ y. occupies (slot x) (slot y)) rows (r ∷ []),
)

-- An inserted row is the table's last, and its slot was free.
pub insert_run-some :
    (r : Run) (rows rows' : List Run)
    → insert_run r rows ≡ some rows'
    → (rows' ≡ rows ++ r ∷ []) × (taken (slot r) rows ≡ false)
unfolding insert_run
insert_run-some r rows rows' h = ground arith

-- An update is either rejected, with nothing written, or made.
pub guarded_update-cases :
    (p : Run → Bool) (f : Run → Run) (w : World)
    → (guarded_update p f w ≡ (throws unique_violation, w))
      ⊎ (guarded_update p f w
          ≡ (ok (any_where p w.runs), record w { runs = update_where p f w.runs }))
unfolding update_runs
guarded_update-cases p f w = elim (Bool-cases (indexes_ok (update_where p f w.runs))) [
  | inl e ↦ inr (rw (e, guarded_update, update_runs) refl)
  | inr e ↦ inl (rw (e, guarded_update, update_runs) refl)
]

-- An update that no row is subject to is not rejected, and writes nothing.
pub guarded_update-none :
    (p : Run → Bool) (f : Run → Run) (w : World)
    → indexes_ok w.runs ≡ true
    → any_where p w.runs ≡ false
    → guarded_update p f w ≡ (ok false, w)
unfolding update_runs
guarded_update-none p f w h e =
    rw (update_where-none p f w.runs e, guarded_update, update_runs) (rw h (rw e refl))

pub add_run-free :
    (r : ℕ → Run) (w : World)
    → taken (slot (r (fresh_id w))) w.runs ≡ false
    → add_run r w
      ≡ (ok (fresh_id w), record w { runs = w.runs ++ r (fresh_id w) ∷ []; drawn = suc w.drawn })
unfolding add_run insert_run
add_run-free r w h = rw (h, add_run, insert_run) refl

pub add_run-taken :
    (r : ℕ → Run) (w : World)
    → taken (slot (r (fresh_id w))) w.runs ≡ true
    → add_run r w ≡ (throws unique_violation, w)
unfolding add_run insert_run
add_run-taken r w h = rw (h, add_run, insert_run) refl
