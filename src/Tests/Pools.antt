-- ===== src/Tests/Pools.antt =====
-- Tests of the connection pool, and its theorems at concrete inputs.
use http_client.Prelude.{◌<◌, ◌≡◌, refl, true, false, List, [], ◌∷◌, ◌++◌, length, take}
use http_client.Pool.{Waiter, Pool, Limits, new_pool, new_waiter}
use http_client.Pool.Run.{
  Event, acquires, connected, resets, resumes, times_out, cancels, returns, closes, step, run,
  suspended_at,
}
use http_client.Pool.Weights.{total}
use http_client.Pool.Counts.{IsCounted, run-new_pool-IsCounted}
use http_client.Pool.Owners.{IsOwned, run-new_pool-IsOwned}
use http_client.Pool.Refines.{SpecRun, permits, run-new_pool-SpecRun}
use http_client.Pool.Reserved.{resumes-run-new_pool}
use http_client.Pool.Starved.{IsStuck, times_out-returns-starved}

abbrev one_connection : Limits
one_connection = record { max_connections_per_origin = 1; max_connecting_per_origin = 1 }

abbrev two_connections : Limits
two_connections = record { max_connections_per_origin = 2; max_connecting_per_origin = 1 }

-- Two requests, one connection: the second waits, and gets it before a third.
abbrev handed_over : List Event
handed_over = acquires ∷ connected ∷ acquires ∷ returns 0 ∷ acquires ∷ []

handed_over_queue : (run one_connection handed_over new_pool).queue ≡ 1 ∷ []
unfolding run
handed_over_queue = refl

handed_over_held : (run one_connection (handed_over ++ resumes 0 ∷ []) new_pool).held ≡ 0 ∷ []
unfolding run
handed_over_held = refl

-- A connection that fails is closed, and the waiter that is woken opens another.
failed_over_opening :
    (run one_connection
      (acquires ∷ connected ∷ acquires ∷ closes 0 ∷ resumes 0 ∷ [])
      new_pool).opening
    ≡ 1
unfolding run
failed_over_opening = refl

-- A cancelled waiter is passed over.
cancelled_held :
    (run one_connection
      (acquires
        ∷ connected
        ∷ acquires
        ∷ acquires
        ∷ cancels 0
        ∷ returns 0
        ∷ resumes 0
        ∷ resumes 1
        ∷ [])
      new_pool).held
    ≡ 0 ∷ []
unfolding run
cancelled_held = refl

-- A reset while a connection is being opened lets more be opened than the limit.
reset_opening : (run two_connections (acquires ∷ resets ∷ acquires ∷ []) new_pool).opening ≡ 2
unfolding run
reset_opening = refl

run-new_pool-IsCounted_example :
    IsCounted two_connections (run two_connections handed_over new_pool)
run-new_pool-IsCounted_example = run-new_pool-IsCounted two_connections handed_over

run-new_pool-IsOwned_example : IsOwned 0 (run two_connections handed_over new_pool)
run-new_pool-IsOwned_example = run-new_pool-IsOwned two_connections handed_over 0

run-new_pool-SpecRun_example :
    SpecRun 2
      (record { free = 0; used = 0; opening = 0 })
      handed_over
      (permits (run two_connections handed_over new_pool))
run-new_pool-SpecRun_example = run-new_pool-SpecRun two_connections handed_over

abbrev woken_waiter : Waiter
woken_waiter = record { woken = true; cancelled = false; reserved_idle = true; suspended = true }

resumes-run-new_pool_example :
    (0 < length (run one_connection handed_over new_pool).idle)
    × ((step one_connection (resumes 0) (run one_connection handed_over new_pool)).held
        ≡ take 1 (run one_connection handed_over new_pool).idle
          ++ (run one_connection handed_over new_pool).held)
unfolding run
resumes-run-new_pool_example =
    resumes-run-new_pool one_connection handed_over 0 woken_waiter
      ((cc, cc), ((cc, cc), ((cc, cc), ((cc, cc), ((cc, cc), tt))))) refl refl refl

abbrev one_waits : Pool
one_waits = record new_pool {
  active = 1;
  made = 1;
  held = 0 ∷ [];
  queue = 0 ∷ [];
  waiters = new_waiter ∷ [];
}

one_waits_lem : run one_connection (acquires ∷ connected ∷ acquires ∷ []) new_pool ≡ one_waits
unfolding run
one_waits_lem = refl

times_out-returns-starved_example : IsStuck (0 ∷ []) (
    run one_connection (times_out 0 ∷ returns 0 ∷ acquires ∷ acquires ∷ times_out 1 ∷ []) one_waits)
unfolding suspended_at total
times_out-returns-starved_example =
    times_out-returns-starved one_connection one_waits 0 0 new_waiter []
      (acquires ∷ acquires ∷ times_out 1 ∷ []) refl refl refl refl refl refl
      ((cc, cc, λ n. cc), ((cc, cc, λ n. cc), ((cc, cc, λ n. cc), tt)))
