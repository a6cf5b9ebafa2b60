-- ===== src/HumanTasks/Resumption.antt =====
-- Resuming a parked run: the supersession frees exactly the slot that the new run takes.
use brigadir.Prelude.{
  ℕ, suc, Bool, true, false, Option, none, some, List, [], ◌∷◌, ◌++◌, ◌≡◌, refl, arith, ◌⊎◌, inl,
  inr, any_where, update_where, update_where-none, Bool-cases,
}
use brigadir.Domain.{
  World, Run, RunStatus, run_of, has_id, indexes_ok, taken, slot, ok, Slot, occupies,
}
use brigadir.Runs.Index.{
  Shrinks, after, guarded_update-ok, taken-update, occupies_comm, add_run-free, add_run-taken,
}
use brigadir.Runs.Service.{where_status}
use brigadir.HumanTasks.Resume.{
  parked_run, supersede, supersede_and_insert, is_parked, committed, ResumeRunResult, gone,
  conflict,
}

supersede-Shrinks :
    (i now : ℕ) (r : Run) → Shrinks (slot (after (parked_run i) (supersede now) r)) (slot r)
unfolding slot
supersede-Shrinks i now r = ground arith

supersede-frees :
    (i now : ℕ) (r : Run)
    → has_id i r ≡ true
    → is_parked r.status ≡ true
    → slot (after (parked_run i) (supersede now) r) ≡ none
unfolding slot
supersede-frees i now r e p = ground arith

-- A slot that no row occupies is not occupied by a row that is found.
found-free :
    (i : ℕ) (s : Option Slot) (rows : List Run) (r : Run)
    → run_of i rows ≡ some r
    → taken s rows ≡ false
    → occupies s (slot r) ≡ false
found-free i s [] r found h = ground arith
found-free i s (x ∷ rows) r found h = elim (Bool-cases (has_id i x)) [
  | inl e ↦ ground arith
  | inr e ↦ found-free i s rows r (ground arith) (ground arith)
]

-- No row but the parked one holds its slot, so superseding it frees the slot.
slot_freed :
    (i now : ℕ) (rows : List Run) (r : Run)
    → indexes_ok rows ≡ true
    → run_of i rows ≡ some r
    → is_parked r.status ≡ true
    → taken (slot r) (update_where (parked_run i) (supersede now) rows) ≡ false
unfolding indexes_ok
slot_freed i now [] r h found p = cc
slot_freed i now (x ∷ rows) r h found p = elim (Bool-cases (has_id i x)) [
  | inl e ↦
      let same : x ≡ r = ground arith in
      ground (
        arith,
        same,
        supersede-frees i now x e (rw same p),
        taken-update (parked_run i) (supersede now) (supersede-Shrinks i now) (slot r) (slot r)
            (inr refl) rows (ground (arith, same)),
      )
  | inr e ↦
      let rest : run_of i rows ≡ some r = ground arith in
      ground (
        arith,
        slot_freed i now rows r (ground arith) rest p,
        occupies_comm (slot r) (slot x),
        found-free i (slot x) rows r rest (ground arith),
      )
]

found-any :
    (i : ℕ) (guard : RunStatus → Bool) (rows : List Run) (r : Run)
    → run_of i rows ≡ some r
    → guard r.status ≡ true
    → any_where (where_status guard i) rows ≡ true
found-any i guard [] r found g = cc
found-any i guard (x ∷ rows) r found g = elim (Bool-cases (has_id i x)) [
  | inl e ↦ let same : x ≡ r = ground arith in ground (arith, same)
  | inr e ↦
      let rest : run_of i rows ≡ some r = ground arith in
      ground (arith, found-any i guard rows r rest g)
]

module _ (i : ℕ) (row : ℕ → Run) (w : World) (h : indexes_ok w.runs ≡ true) where
  abbrev pub superseded_rows : List Run
  superseded_rows = update_where (parked_run i) (supersede w.clock) w.runs

  abbrev fresh : ℕ
  fresh = w.uuids w.drawn

  -- The store after the transaction committed.
  abbrev pub resumed_world : World
  resumed_world = record w { runs = superseded_rows ++ row fresh ∷ []; drawn = suc w.drawn }

  pub supersede_and_insert-ok :
      (parked : Run)
      → run_of i w.runs ≡ some parked
      → is_parked parked.status ≡ true
      → slot (row fresh) ≡ slot parked
      → supersede_and_insert i row w ≡ (ok (some fresh), resumed_world)
  unfolding supersede_and_insert
  supersede_and_insert-ok parked found p same =
      let e =
        guarded_update-ok (parked_run i) (supersede w.clock) (supersede-Shrinks i w.clock) w h in
      let a = found-any i is_parked w.runs parked found p in
      let free =
        add_run-free row (record w { runs = superseded_rows })
          (rw same (slot_freed i w.clock w.runs parked h found p)) in
      ground (arith, e, a, free)

  -- Every way that the transaction ends: it resumes, or the store is as before.
  pub committed-cases :
      (((committed w (supersede_and_insert i row w)).0 ≡ ok (ResumeRunResult.resumed fresh)))
      ⊎ (committed w (supersede_and_insert i row w) ≡ (ok gone, w))
      ⊎ (committed w (supersede_and_insert i row w) ≡ (ok conflict, w))
  unfolding supersede_and_insert
  committed-cases =
      let e =
        guarded_update-ok (parked_run i) (supersede w.clock) (supersede-Shrinks i w.clock) w h in
      elim (Bool-cases (any_where (parked_run i) w.runs)) [
        | inl a ↦ elim (Bool-cases (taken (slot (row fresh)) superseded_rows)) [
          | inl t ↦
              inr
                (inr (ground (arith, e, add_run-taken row (record w { runs = superseded_rows }) t)))
          | inr f ↦
              inl (ground (arith, e, add_run-free row (record w { runs = superseded_rows }) f))
        ]
        | inr a ↦
            inr (
              inl
                (ground (arith, e, update_where-none (parked_run i) (supersede w.clock) w.runs a)))
      ]
