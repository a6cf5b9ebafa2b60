-- ===== src/Jira/RateLimiter.antt =====
-- libs/jira/src/rate-limiter.ts: the token bucket and the cap on requests in flight. Amounts of tokens
-- are in thousandths, so that a refill over a whole number of milliseconds is exact.
pub mod Budget
pub mod InFlight
use brigadir.Prelude.{
  ℕ, suc, zero, Bool, true, false, Option, none, some, List, [], ◌∷◌, ◌+◌, ◌-◌, ◌*◌, ◌/◌, min, leb,
  ltb, ◌<◌, if◌then◌else◌,
}

pub record Bucket : Type 0 where
  pub max_rps : ℕ
  pub tokens : ℕ
  pub last_refill : ℕ

abbrev pub whole : ℕ
whole = 1000

unfoldable pub refill : ℕ → Bucket → Bucket
refill now b = record b {
  tokens = min (whole * b.max_rps) (b.tokens + (now - b.last_refill) * b.max_rps);
  last_refill = now;
}

-- One round of `acquireToken` at a time: whether it took a token.
unfoldable pub try_token : ℕ → Bucket → Bucket × Bool
unfolding refill
try_token now b =
    let b' = refill now b in
    if leb whole b'.tokens then (record b' { tokens = b'.tokens - whole }, true) else (b', false)

-- The loop of `acquireToken`; the list holds how long each sleep took. `none` says that the sleeps
-- ran out before a token was there.
unfoldable pub acquire_token : List ℕ → ℕ → Bucket → Option (ℕ × Bucket)
acquire_token [] now b = let (b', taken) = try_token now b in if taken then some (now, b') else none
acquire_token (sleep ∷ sleeps) now b = elim (try_token now b).1 [
  | true ↦ some (now, (try_token now b).0)
  | false ↦ acquire_token sleeps (now + sleep) (try_token now b).0
]

-- What a request answers.
pub data Response {ℓ} (A : Type ℓ) : Type ℓ where
  answered : A → Response A
  rate_limited failed : Response A

pub record Scheduled {ℓ} (A : Type ℓ) : Type ℓ where
  pub calls : ℕ
  pub last : Response A

-- The loop of `schedule`, by the retries that are left; `fn` is the response to each call in turn.
unfoldable pub schedule {ℓ} : {A : Type ℓ} → ℕ → ℕ → (ℕ → Response A) → Scheduled A
schedule zero made fn = record { calls = suc made; last = fn made }
schedule (suc retries) made fn = elim (fn made) [
  | rate_limited ↦ schedule retries (suc made) fn
  | answered a ↦ record { calls = suc made; last = answered a }
  | failed ↦ record { calls = suc made; last = failed }
]

-- The slots: requests in flight, callers that wait in `waiters`, and callers that were woken and have
-- not run on yet. `active` is the limiter's own counter.
pub record Slots : Type 0 where
  pub active : ℕ
  pub in_flight : ℕ
  pub waiting : ℕ
  pub woken : ℕ

abbrev pub no_slots : Slots
no_slots = record { active = 0; in_flight = 0; waiting = 0; woken = 0 }

-- `acquireSlot` up to its `await`.
unfoldable pub acquire_slot : ℕ → Slots → Slots
acquire_slot concurrency s =
    if ltb s.active concurrency
    then record s { active = s.active + 1; in_flight = s.in_flight + 1 }
    else record s { waiting = s.waiting + 1 }

-- `acquireSlot` behind its `await`.
unfoldable pub run_on : Slots → Slots
run_on s = record s { active = s.active + 1; in_flight = s.in_flight + 1; woken = s.woken - 1 }

unfoldable pub release_slot : Slots → Slots
release_slot s =
    let released : Slots = record s { active = s.active - 1; in_flight = s.in_flight - 1 } in
    if ltb 0 s.waiting
    then record released { waiting = s.waiting - 1; woken = s.woken + 1 }
    else released

-- One step of the program between two turns of the event loop: any caller, any request that ends, and
-- any woken caller may be next.
pub data Turn (concurrency : ℕ) : Slots → Slots → Type 0 where
  call : (s : Slots) → Turn concurrency s (acquire_slot concurrency s)
  end : (s : Slots) → 0 < s.in_flight → Turn concurrency s (release_slot s)
  wake : (s : Slots) → 0 < s.woken → Turn concurrency s (run_on s)

pub data Turns (concurrency : ℕ) : Slots → Slots → Type 0 where
  here : (s : Slots) → Turns concurrency s s
  next : {s t u : Slots} → Turns concurrency s t → Turn concurrency t u → Turns concurrency s u
