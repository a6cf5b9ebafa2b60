-- ===== src/Worker/LockExamples.antt =====
-- Two workers that contend for the lock.
use brigadir.Prelude.{◌≡◌, ◌≢◌, refl, arith}
use brigadir.Worker.Lock.{Cluster, nobody, tick, wait, try_acquire, live, held}
use brigadir.Worker.Lock.Holders.{Timely, begun, ticked_on, waited_on, Timely-one_holder}

abbrev contended : Cluster
contended = tick 10 1 (tick 10 0 nobody)

-- Worker 0 holds the lock, worker 1 tried, and four units of time pass.
contended-Timely : Timely 10 (wait 4 contended)
unfolding tick try_acquire live
contended-Timely =
    waited_on 4 (ticked_on 1 (ticked_on 0 begun)) (λ i expires k h. ground (arith, k))

contended-held : (wait 4 contended).state 0 ≡ held
unfolding tick try_acquire live
contended-held = refl

Timely-one_holder_example : (wait 4 contended).state 1 ≢ held
Timely-one_holder_example =
    Timely-one_holder 10 0 1 (wait 4 contended) (omega arith) contended-Timely
      (λ e. absurd (omega (arith, e))) contended-held
