-- ===== src/Jira/RateLimiter/Budget.antt =====
-- How many requests the bucket lets through, that a caller gets its token, and how often a request is
-- repeated.
use mathlib.Core.Logic.{⊎_elim}
use brigadir.Prelude.{
  ℕ, suc, zero, Bool, true, false, List, [], ◌∷◌, ◌+◌, ◌-◌, ◌*◌, ◌≤◌, ◌<◌, ◌≡◌, refl, arith, ap,
  length, All, if◌then◌else◌, ◌⊎◌, inl, inr, is_some,
}
use brigadir.Jira.RateLimiter.{
  Bucket, whole, refill, try_token, acquire_token, Response, answered, rate_limited, failed,
  Scheduled, schedule,
}

-- Requests that each ask for a token some milliseconds after the one before, and how many got one.
abbrev pub grants : List ℕ → ℕ → Bucket → ℕ × Bucket
grants [] now b = (0, b)
grants (gap ∷ gaps) now b =
    let (b', taken) = try_token (now + gap) b in
    let (n, b'') = grants gaps (now + gap) b' in ((if taken then suc n else n), b'')

abbrev pub sum : List ℕ → ℕ
sum [] = 0
sum (x ∷ xs) = x + sum xs

-- What a round does to the bucket, whether it takes a token or not.
try_token_lem :
    (gap now : ℕ) (b : Bucket)
    → b.last_refill ≡ now
    → let (b', taken) = try_token (now + gap) b in
      (b'.tokens + (if taken then whole else 0) ≤ b.tokens + gap * b.max_rps)
      × (b'.max_rps ≡ b.max_rps)
      × (b'.last_refill ≡ now + gap)
unfolding try_token refill
try_token_lem gap now b at_now =
    let e : now + gap - b.last_refill ≡ gap = omega arith in
    rw e (ground arith, ground arith, ground arith)

grants-le :
    (gaps : List ℕ) (now : ℕ) (b : Bucket)
    → b.last_refill ≡ now
    → whole * (grants gaps now b).0 ≤ b.tokens + sum gaps * b.max_rps
grants-le [] now b e = omega arith
grants-le (gap ∷ gaps) now b e =
    let b' : Bucket = (try_token (now + gap) b).0 in
    let step = try_token_lem gap now b e in
    let ih = grants-le gaps (now + gap) b' step.2 in
    let rate : sum gaps * b'.max_rps ≡ sum gaps * b.max_rps = ap (λ m. sum gaps * m) step.1 in
    let split : (gap + sum gaps) * b.max_rps ≡ gap * b.max_rps + sum gaps * b.max_rps =
      grind arith in
    ground (arith, step.0, ih, rate, split)

-- A round leaves, with the token that it takes, no more than the size of the bucket, however long the
-- bucket was idle.
try_token-capped :
    (now : ℕ) (b : Bucket)
    → let (b', taken) = try_token now b in
      (b'.tokens + (if taken then whole else 0) ≤ whole * b.max_rps)
      × (b'.max_rps ≡ b.max_rps)
      × (b'.last_refill ≡ now)
unfolding try_token refill
try_token-capped now b = (ground arith, ground arith, ground arith)

-- From any state of the bucket, and after any idle time, the requests of a span of time, from the first
-- of them to the last, get at most the bucket's size and what the sustained rate gives for that span; the
-- idle time before the first does not count.
pub grants-within_rate :
    (idle : ℕ) (gaps : List ℕ) (b : Bucket)
    → whole * (grants (idle ∷ gaps) b.last_refill b).0 ≤ whole * b.max_rps + sum gaps * b.max_rps
grants-within_rate idle gaps b =
    let now = b.last_refill + idle in
    let b' : Bucket = (try_token now b).0 in
    let first = try_token-capped now b in
    let rest = grants-le gaps now b' first.2 in
    let rate : sum gaps * b'.max_rps ≡ sum gaps * b.max_rps = ap (λ m. sum gaps * m) first.1 in
    ground (arith, first.0, rest, rate)

-- A round without a token leaves the bucket short of one, and fuller than before.
short_round :
    (gap now : ℕ) (b : Bucket)
    → b.last_refill ≡ now
    → 0 < gap
    → 0 < b.max_rps
    → (try_token (now + gap) b).1 ≡ false
    → (b.tokens < (try_token (now + gap) b).0.tokens) × ((try_token (now + gap) b).0.tokens < whole)
unfolding try_token refill
short_round gap now b at_now p q h =
    let e : now + gap - b.last_refill ≡ gap = omega arith in
    let grows : 0 < gap * b.max_rps = grind arith in
    let h' = rw e at h in rw e (ground (arith, grows))

abbrev Positive : ℕ → Type 0
Positive n = 0 < n

-- From a bucket that is short by no more than there are sleeps.
acquire_token-from :
    (sleeps : List ℕ) (gap now : ℕ) (b : Bucket)
    → b.last_refill ≡ now
    → 0 < gap
    → 0 < b.max_rps
    → All Positive sleeps
    → whole ≤ b.tokens + 1 + length sleeps
    → is_some (acquire_token sleeps (now + gap) b) ≡ true
unfolding acquire_token
acquire_token-from [] gap now b at_now p q sleeps enough =
    ground (arith, short_round gap now b at_now p q)
acquire_token-from (sleep ∷ sleeps) gap now b at_now p q (s, ss) enough =
    let step = try_token_lem gap now b at_now in
    ground (
      arith,
      step,
      short_round gap now b at_now p q,
      acquire_token-from sleeps sleep (now + gap) (try_token (now + gap) b).0 step.2 s,
    )

-- A caller that waits for a token gets one after at most a thousand sleeps of a millisecond or more,
-- whatever the bucket held and however the sleeps were cut short.
pub acquire_token_total :
    (sleeps : List ℕ) (gap : ℕ) (b : Bucket)
    → 0 < gap
    → 0 < b.max_rps
    → All Positive sleeps
    → whole ≤ length sleeps + 1
    → is_some (acquire_token sleeps (b.last_refill + gap) b) ≡ true
acquire_token_total sleeps gap b p q s enough =
    acquire_token-from sleeps gap b.last_refill b refl p q s (omega arith)

abbrev is_limited {ℓ} : {A : Type ℓ} → Response A → Bool
is_limited rate_limited = true
is_limited _ = false

-- What holds of a request that may be repeated so often, and was called so often before.
abbrev pub Bounded {ℓ} : {A : Type ℓ} → ℕ → ℕ → (ℕ → Response A) → Scheduled A → Type ℓ
Bounded retries made fn r =
    (made < r.calls)
    × (r.calls ≤ made + retries + 1)
    × (r.last ≡ fn (r.calls - 1))
    × ((is_limited r.last ≡ false) ⊎ (r.calls ≡ made + retries + 1))

-- `schedule` calls `fn` once and at most as often again as it may retry, what it returns or throws is
-- the response to its last call, and that is a rate limit only after all retries.
pub schedule-Bounded {ℓ} :
    {A : Type ℓ} (retries made : ℕ) (fn : ℕ → Response A)
    → Bounded retries made fn (schedule retries made fn)
unfolding schedule
schedule-Bounded zero made fn = (omega arith, omega arith, ap fn (omega arith), inr (omega arith))
schedule-Bounded {A} (suc retries) made fn =
    go (schedule-Bounded retries (suc made) fn) (fn made) refl
  where
    go :
        Bounded retries (suc made) fn (schedule retries (suc made) fn)
        → (first : Response A) → fn made ≡ first
        → Bounded (suc retries) made fn (schedule (suc retries) made fn)
    go ih rate_limited e =
        rw (e, schedule)
          (
            omega (arith, ih.0),
            omega (arith, ih.1),
            ih.2,
            ⊎_elim inl (λ q. inr (omega (arith, q))) ih.3,
          )
    go ih (answered a) e = rw (e, schedule) (omega arith, omega arith, ground arith, inl refl)
    go ih failed e = rw (e, schedule) (omega arith, omega arith, ground arith, inl refl)
