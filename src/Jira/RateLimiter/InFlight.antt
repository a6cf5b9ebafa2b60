-- ===== src/Jira/RateLimiter/InFlight.antt =====
-- How many requests are in flight at once.
use brigadir.Prelude.{ℕ, suc, zero, ◌+◌, ◌-◌, ◌≤◌, ◌<◌, ◌≡◌, refl, arith, subst, ◌⊎◌}
use brigadir.Jira.RateLimiter.{
  Slots, no_slots, acquire_slot, run_on, release_slot, call, end, wake, Turns, here, next,
}

-- What a turn of an orderly program keeps: slots that are taken or promised are within the cap, and
-- callers wait only while all are.
pub record InCap (concurrency : ℕ) (s : Slots) : Type 0 where
  pub counted : s.active ≡ s.in_flight
  pub within : s.in_flight + s.woken ≤ concurrency
  pub full : 0 < s.waiting → s.in_flight + s.woken ≡ concurrency

-- Turns in which no new caller comes between the end of a request and the caller that it wakes.
pub data Orderly (concurrency : ℕ) : Slots → Slots → Type 0 where
  still : (s : Slots) → Orderly concurrency s s
  called :
      {s t : Slots}
      → Orderly concurrency s t
      → t.woken ≡ 0
      → Orderly concurrency s (acquire_slot concurrency t)
  ended :
      {s t : Slots}
      → Orderly concurrency s t
      → 0 < t.in_flight
      → Orderly concurrency s (release_slot t)
  awoken : {s t : Slots} → Orderly concurrency s t → 0 < t.woken → Orderly concurrency s (run_on t)

acquire_slot-InCap : (c : ℕ) (s : Slots) → InCap c s → s.woken ≡ 0 → InCap c (acquire_slot c s)
unfolding acquire_slot
acquire_slot-InCap c s i w = ground arith

release_slot-InCap : (c : ℕ) (s : Slots) → InCap c s → 0 < s.in_flight → InCap c (release_slot s)
unfolding release_slot
release_slot-InCap c s i p = ground arith

run_on-InCap : (c : ℕ) (s : Slots) → InCap c s → 0 < s.woken → InCap c (run_on s)
unfolding run_on
run_on-InCap c s i p = ground arith

Orderly-InCap : {c : ℕ} {s t : Slots} → Orderly c s t → InCap c s → InCap c t
Orderly-InCap (still s) i = i
Orderly-InCap {c} (called {t = t} o w) i = acquire_slot-InCap c t (Orderly-InCap o i) w
Orderly-InCap {c} (ended {t = t} o p) i = release_slot-InCap c t (Orderly-InCap o i) p
Orderly-InCap {c} (awoken {t = t} o p) i = run_on-InCap c t (Orderly-InCap o i) p

-- As long as no new caller comes between the end of a request and the run of the caller that it
-- woke, no more requests are in flight than the cap, and callers wait only while all slots are taken
-- or promised.
pub Orderly-within_cap :
    (c : ℕ) (s : Slots)
    → Orderly c no_slots s
    → (s.in_flight + s.woken ≤ c) × ((s.waiting ≡ 0) ⊎ (s.in_flight + s.woken ≡ c))
Orderly-within_cap c s o =
    let i =
      Orderly-InCap {c = c} {s = no_slots} {t = s} o
        (record { counted = refl; within = omega arith; full = λ h. absurd (omega arith) }) in
    (i.within, ground (arith, i.full))

abbrev filled : ℕ → Slots
filled n = record { active = n; in_flight = n; waiting = 0; woken = 0 }

filled-reached : (c n : ℕ) → n ≤ c → Turns c no_slots (filled n)
unfolding acquire_slot
filled-reached c zero h = here no_slots
filled-reached c (suc n) h =
    let e : acquire_slot c (filled n) ≡ filled (suc n) = ground arith in
    subst (Turns c no_slots) e (next (filled-reached c n (omega arith)) (call (filled n)))

-- In general the cap can be passed: with every cap, a caller that comes between the end of a request
-- and the run of the woken caller takes the slot that the woken one takes too.
pub over_admission : (c : ℕ) → 0 < c → (s : Slots) × Turns c no_slots s × (s.in_flight ≡ c + 1)
unfolding acquire_slot release_slot run_on
over_admission c h =
    let full : Slots = filled c in
    let waits : Slots = record full { waiting = 1 } in
    let freed : Slots = record full { active = c - 1; in_flight = c - 1; woken = 1 } in
    let retaken : Slots = record full { woken = 1 } in
    let over : Slots = record full { active = c + 1; in_flight = c + 1 } in
    let r1 : Turns c no_slots waits =
      subst (Turns c no_slots) (ground arith)
        (next (filled-reached c c (omega arith)) (call full)) in
    let r2 : Turns c no_slots freed =
      subst (Turns c no_slots) (ground arith) (next r1 (end waits h)) in
    let r3 : Turns c no_slots retaken =
      subst (Turns c no_slots) (ground arith) (next r2 (call freed)) in
    let r4 : Turns c no_slots over =
      subst (Turns c no_slots) (ground arith) (next r3 (wake retaken (omega arith))) in
    (over, r4, refl)
