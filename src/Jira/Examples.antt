-- ===== src/Jira/Examples.antt =====
-- Concrete texts, buckets and slots for the rate limiter and the escaping of JQL.
use brigadir.Prelude.{
  if◌then◌else◌, ◌==◌, ℕ, suc, zero, List, [], ◌∷◌, ◌++◌, some, length, All, ◌≡◌, ◌≤◌, ◌<◌, ◌+◌,
  ◌*◌, ◌⊎◌, refl, arith,
}
use brigadir.Jira.Jql.{jql_escape, quote, backslash, read_literal, read_literal-jql_escape}
use brigadir.Jira.Transitions.{
  JiraTransition, TransitionPort, conflicting, posted_ok, discover_transition,
}
use brigadir.Jira.Transitions.Posts.{Lawful, discover_transition-Lawful}
use brigadir.Jira.RateLimiter.{Bucket, whole, Slots, no_slots, acquire_slot, Turns}
use brigadir.Jira.RateLimiter.Budget.{grants, sum, grants-within_rate}
use brigadir.Jira.RateLimiter.InFlight.{Orderly, still, called, Orderly-within_cap, over_admission}

-- `a"b\`.
abbrev spiky : List ℕ
spiky = 97 ∷ quote ∷ 98 ∷ backslash ∷ []

read_literal-jql_escape_example :
    read_literal (jql_escape spiky ++ quote ∷ 41 ∷ []) ≡ some (spiky, 41 ∷ [])
read_literal-jql_escape_example = read_literal-jql_escape spiky (41 ∷ [])

abbrev five_rps : Bucket
five_rps = record { max_rps = 5; tokens = 5000; last_refill = 0 }

grants-within_rate_example :
    whole * (grants (60000 ∷ 100 ∷ 200 ∷ []) 0 five_rps).0 ≤ whole * 5 + sum (100 ∷ 200 ∷ []) * 5
grants-within_rate_example = grants-within_rate 60000 (100 ∷ 200 ∷ []) five_rps

abbrev sleeps_of : ℕ → List ℕ
sleeps_of zero = []
sleeps_of (suc n) = 7 ∷ sleeps_of n

length-sleeps_of : (n : ℕ) → length (sleeps_of n) ≡ n
length-sleeps_of zero = refl
length-sleeps_of (suc n) = omega (arith, length-sleeps_of n)

sleeps_positive : (n : ℕ) → All (λ s. 0 < s) (sleeps_of n)
sleeps_positive zero = _
sleeps_positive (suc n) = (omega arith, sleeps_positive n)

abbrev empty_bucket : Bucket
empty_bucket = record { max_rps = 5; tokens = 0; last_refill = 40 }

abbrev after_two : Slots
after_two = acquire_slot 1 (acquire_slot 1 no_slots)

two_called : Orderly 1 no_slots after_two
unfolding acquire_slot
two_called = called (called (still no_slots) refl) refl

Orderly-within_cap_example :
    (after_two.in_flight + after_two.woken ≤ 1)
    × ((after_two.waiting ≡ 0) ⊎ (after_two.in_flight + after_two.woken ≡ 1))
Orderly-within_cap_example = Orderly-within_cap 1 after_two two_called

over_admission_example : (s : Slots) × Turns 6 no_slots s × (s.in_flight ≡ 6 + 1)
over_admission_example = over_admission 6 (omega arith)

abbrev to_review : JiraTransition
to_review = record { id = "31"; to = "review" }

-- Jira refuses the first post for a conflict and accepts the second.
abbrev racing : TransitionPort
racing = record {
  context = some (record { cache_key = "K|Task|ready"; current_status = "ready" });
  list = λ n. some (to_review ∷ []);
  post = λ n id. if n == 0 then conflicting else posted_ok;
  to_lower_case = λ s. s;
}

discover_transition-Lawful_example :
    Lawful racing 600 5 "review" (discover_transition racing 600 5 "review" [])
discover_transition-Lawful_example = discover_transition-Lawful racing 600 5 "review" []

racing-posts : (discover_transition racing 600 5 "review" []).posts ≡ to_review ∷ to_review ∷ []
unfolding discover_transition
racing-posts = refl
