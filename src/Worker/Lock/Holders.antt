-- ===== src/Worker/Lock/Holders.antt =====
-- How many workers hold the lock.
use brigadir.Prelude.{
  ℕ, Bool, true, false, Option, none, some, ◌+◌, ◌==◌, ◌<◌, ◌≡◌, ◌≢◌, refl, ◌∙◌, arith, inl, inr,
  Bool-cases,
}
use brigadir.Worker.Lock.{
  LockState, idle, held, lock_blocked, Cluster, live, owned_by, acquire_by, try_acquire, renew_if,
  renew, tick, tick_in, stop, abandon, wait, nobody, key_after_stop,
}

-- Runs in which no key of a worker that holds the lock expires before its next tick.
pub data Timely (ttl : ℕ) : Cluster → Type 0 where
  begun : Timely ttl nobody
  ticked_on : {c : Cluster} (i : ℕ) → Timely ttl c → Timely ttl (tick ttl i c)
  stopped_on : {c : Cluster} (i : ℕ) → Timely ttl c → Timely ttl (stop i c)
  abandoned_on : {c : Cluster} (i : ℕ) → Timely ttl c → Timely ttl (abandon i c)
  waited_on :
      {c : Cluster} (t : ℕ)
      → Timely ttl c
      → ((i expires : ℕ) → c.key ≡ some (i, expires) → c.state i ≡ held → c.now + t < expires)
      → Timely ttl (wait t c)

-- Each holder has the key, and it is live.
abbrev Holds : Cluster → Type 0
Holds c =
    (i : ℕ) → c.state i ≡ held → (expires : ℕ) × (c.key ≡ some (i, expires)) × (c.now < expires)

live-some :
    (now i expires : ℕ) (k : Option (ℕ × ℕ))
    → k ≡ some (i, expires)
    → now < expires
    → live now k ≡ some i
unfolding live
live-some now i expires k e h = rw (e, live) (ground arith)

try_acquire-Holds :
    (ttl i : ℕ) (c : Cluster)
    → 0 < ttl
    → Holds c
    → (o : Option ℕ) → live c.now c.key ≡ o
    → Holds (acquire_by ttl i c o)
try_acquire-Holds ttl i c t h none e j q = elim (Bool-cases (j == i)) [
  | inl same ↦ (c.now + ttl, ground (arith, same), omega arith)
  | inr other ↦
      let (expires, k, l) = h j (ground (arith, q, other)) in
      absurd (ground (arith, e, live-some c.now j expires c.key k l))
]
try_acquire-Holds ttl i c t h (some k) e j q = h j (ground (arith, q))

renew_if-Holds :
    (ttl i : ℕ) (c : Cluster)
    → 0 < ttl
    → c.state i ≡ held
    → Holds c
    → (b : Bool) → owned_by i (live c.now c.key) ≡ b
    → Holds (renew_if ttl i c b)
renew_if-Holds ttl i c t here h true own j q =
    let (mine, k, l) = h i here in
    let (theirs, k', l') = h j q in
    let same : j ≡ i = ground (arith, k, k') in
    (c.now + ttl, ground (arith, same), omega (arith, t))
renew_if-Holds ttl i c t here h false own j q = h j (ground (arith, q))

tick_in-Holds :
    (ttl i : ℕ) (c : Cluster)
    → 0 < ttl
    → Holds c
    → (s : LockState) → c.state i ≡ s
    → Holds (tick_in ttl i c s)
unfolding renew try_acquire
tick_in-Holds ttl i c t h held e = renew_if-Holds ttl i c t e h (owned_by i (live c.now c.key)) refl
tick_in-Holds ttl i c t h idle e = try_acquire-Holds ttl i c t h (live c.now c.key) refl
tick_in-Holds ttl i c t h lock_blocked e = try_acquire-Holds ttl i c t h (live c.now c.key) refl

key_after_stop-foreign : (i : ℕ) (c : Cluster) (s : LockState) → key_after_stop i c s false ≡ c.key
key_after_stop-foreign i c held = refl
key_after_stop-foreign i c idle = refl
key_after_stop-foreign i c lock_blocked = refl

stop-Holds : (i : ℕ) (c : Cluster) → Holds c → Holds (stop i c)
unfolding stop
stop-Holds i c h j q = elim (Bool-cases (j == i)) [
  | inl same ↦ absurd (ground (arith, q, same))
  | inr other ↦
      let (expires, k, l) = h j (ground (arith, q, other)) in
      let alive = live-some c.now j expires c.key k l in
      let foreign : owned_by i (live c.now c.key) ≡ false = ground (arith, alive, other) in
      (expires, rw (foreign, stop) (key_after_stop-foreign i c (c.state i) ∙ k), l)
]

Timely-Holds : {ttl : ℕ} {c : Cluster} → 0 < ttl → Timely ttl c → Holds c
unfolding tick
Timely-Holds t begun = λ j q. absurd (ground (arith, q))
Timely-Holds {ttl} t (ticked_on {c = c} i r) =
    tick_in-Holds ttl i c t (Timely-Holds t r) (c.state i) refl
Timely-Holds t (stopped_on {c = c} i r) = stop-Holds i c (Timely-Holds t r)
Timely-Holds t (abandoned_on {c = c} i r) = λ j q. Timely-Holds t r j (ground (arith, q))
Timely-Holds t (waited_on {c = c} d r timely) =
    λ j q. let (expires, k, l) = Timely-Holds t r j q in (expires, k, timely j expires k q)

-- As long as every worker that holds the lock ticks before its key expires, no two of any number of
-- workers hold it at once, however ticks, stops and the passing of time interleave.
pub Timely-one_holder :
    (ttl i j : ℕ) (c : Cluster)
    → 0 < ttl
    → Timely ttl c
    → i ≢ j
    → c.state i ≡ held
    → c.state j ≢ held
Timely-one_holder ttl i j c t r apart p q =
    let (_, k, _) = Timely-Holds t r i p in
    let (_, k', _) = Timely-Holds t r j q in apart (ground (arith, k, k'))
