-- ===== src/Worker/Lock.antt =====
-- apps/worker/src/worker-lock.service.ts: the lock that lets one worker consume the queues.
--
-- A worker is a number, which stands for the identity that it writes into the key. Redis keeps the
-- key until its time to live is over. The contender key, which is only for log messages, is left out.
pub mod Holders
use brigadir.Prelude.{ℕ, Bool, true, false, Option, none, some, ◌+◌, ◌==◌, ltb, ◌<◌, if◌then◌else◌}

pub data LockState : Type 0 where
  idle held lock_blocked : LockState

pub record Cluster : Type 0 where
  pub now : ℕ
  -- the holder, and when the key expires
  pub key : Option (ℕ × ℕ)
  pub state : ℕ → LockState

-- What Redis finds under the key.
unfoldable pub live : ℕ → Option (ℕ × ℕ) → Option ℕ
live now none = none
live now (some (i, expires)) = if ltb now expires then some i else none

abbrev pub owned_by : ℕ → Option ℕ → Bool
owned_by i none = false
owned_by i (some j) = j == i

abbrev pub set_state : ℕ → LockState → (ℕ → LockState) → ℕ → LockState
set_state i s state j = if j == i then s else state j

-- `set … PX ttl NX`.
abbrev pub acquire_by : ℕ → ℕ → Cluster → Option ℕ → Cluster
acquire_by ttl i c none = record c { key = some (i, c.now + ttl); state = set_state i held c.state }
acquire_by ttl i c (some j) = record c { state = set_state i lock_blocked c.state }

unfoldable pub try_acquire : ℕ → ℕ → Cluster → Cluster
try_acquire ttl i c = acquire_by ttl i c (live c.now c.key)

-- The script that extends the key if it is the worker's own.
abbrev pub renew_if : ℕ → ℕ → Cluster → Bool → Cluster
renew_if ttl i c true = record c { key = some (i, c.now + ttl) }
renew_if ttl i c false = record c { state = set_state i lock_blocked c.state }

unfoldable pub renew : ℕ → ℕ → Cluster → Cluster
renew ttl i c = renew_if ttl i c (owned_by i (live c.now c.key))

abbrev tick_in : ℕ → ℕ → Cluster → LockState → Cluster
tick_in ttl i c held = renew ttl i c
tick_in ttl i c _ = try_acquire ttl i c

-- A tick that reaches Redis; one that does not changes nothing.
unfoldable pub tick : ℕ → ℕ → Cluster → Cluster
tick ttl i c = tick_in ttl i c (c.state i)

-- The script that deletes the key if it is the worker's own.
abbrev key_after_stop : ℕ → Cluster → LockState → Bool → Option (ℕ × ℕ)
key_after_stop i c held true = none
key_after_stop i c _ _ = c.key

unfoldable pub stop : ℕ → Cluster → Cluster
stop i c = record c {
  key = key_after_stop i c (c.state i) (owned_by i (live c.now c.key));
  state = set_state i idle c.state;
}

-- A stop that does not reach Redis.
abbrev pub abandon : ℕ → Cluster → Cluster
abandon i c = record c { state = set_state i idle c.state }

abbrev pub wait : ℕ → Cluster → Cluster
wait t c = record c { now = c.now + t }

abbrev pub nobody : Cluster
nobody = record { now = 0; key = none; state = λ i. idle }
