-- ===== src/Pool/Run.antt =====
-- What happens to a pool between two suspensions of the requests that use it.
use http_client.Prelude.{
  ℕ, suc, ◌-◌, Bool, true, false, ◌||◌, ◌&&◌, List, [], ◌∷◌, Option, none, some, ◌==◌,
  if◌then◌else◌, ltb, length, is_nil, get_elem?, set, remove_if,
}
use http_client.Pool.{
  Waiter, Pool, Limits, wake_one, wake_one_with_idle_reservation, acquire, start_connect,
  max_connections, max_connecting,
}

-- `acquires`: a request comes. `connected`, `connect_failed`: a connection that was being opened is there,
-- or the attempt threw. `resumes`: the wait of a waiter ends since its timer was cancelled; `times_out`:
-- since the timer expired, which a cancellation that comes later does not change. `cancels`: the request
-- that waits is cancelled. `returns`: the exchange over a connection ended without an error; `closes`:
-- with one. `resets`: `reset_connections`. `preconnects`: a worker of `preconnect` that wants so many idle
-- connections goes round its loop; `preconnected`: a connection that it opened is there. Which openings are
-- its own and how many rounds the workers have gone is left open. `evicts`: `evict_idle_origins` comes to
-- the pool, for its age or for the number of pools, and nothing stands against it in the half of the other
-- kind of connection; those that hold the pool go on with it when it is no longer in the map.
pub data Event : Type 0 where
  acquires connected connect_failed resets evicts : Event
  preconnected : Event
  resumes times_out cancels returns closes preconnects : ℕ → Event

-- The connection is open.
unfoldable pub opened : Pool → Pool
opened p = record p {
  connecting = p.connecting - 1;
  opening = p.opening - 1;
  held = p.made ∷ p.held;
  made = suc p.made;
}

unfoldable pub finish_connect : Pool → Pool
unfolding opened wake_one
finish_connect p = wake_one (opened p)

-- `catch (...)` of the attempt.
unfoldable pub not_opened : Pool → Pool
not_opened p = record p {
  connecting = p.connecting - 1;
  opening = p.opening - 1;
  active = p.active - 1;
}

unfoldable pub fail_connect : Pool → Pool
unfolding not_opened wake_one
fail_connect p = wake_one (not_opened p)

-- `remove_waiter`.
unfoldable pub remove_waiter : ℕ → List ℕ → List ℕ
remove_waiter n queue = remove_if (λ x. x == n) queue

-- The coroutine of the waiter goes on.
unfoldable pub resumed : ℕ → Waiter → Pool → Pool
resumed n w p = record p { waiters = set p.waiters n (record w { suspended = false }) }

-- `throw std::runtime_error("h1 pool wait cancelled")`.
unfoldable pub lapsed : ℕ → Waiter → Pool → Pool
unfolding remove_waiter
lapsed n w p = record p {
  waiters = set p.waiters n (record w { suspended = false; cancelled = true });
  queue = remove_waiter n p.queue;
}

-- The wait has ended with `operation_aborted`: a woken waiter goes round the loop again.
unfoldable pub resume : Limits → ℕ → Waiter → Pool → Pool
unfolding acquire
resume l n w p = if w.woken then acquire l true w.reserved_idle (resumed n w p) else lapsed n w p

-- `throw std::runtime_error("h1 pool timeout")`.
unfoldable pub time_out : ℕ → Waiter → Pool → Pool
unfolding resumed
time_out n w p = resumed n w p

-- The last part of `cancel_request_on_shard`.
unfoldable pub cancel_waiter : ℕ → Waiter → Pool → Pool
cancel_waiter n w p =
    if w.cancelled
    then p
    else record p { waiters = set p.waiters n (record w { cancelled = true }) }

unfoldable pub is_held : ℕ → List ℕ → Bool
is_held c [] = false
is_held c (x ∷ xs) = x == c || is_held c xs

unfoldable pub take_out : ℕ → List ℕ → List ℕ
take_out c [] = []
take_out c (x ∷ xs) = let rest = take_out c xs in if x == c then xs else x ∷ rest

-- The path without an error: the connection goes back, and a waiter is woken for it.
unfoldable pub returned : ℕ → Pool → Pool
unfolding take_out
returned c p = record p { idle = c ∷ p.idle; held = take_out c p.held }

unfoldable pub give_back : ℕ → Pool → Pool
unfolding returned wake_one_with_idle_reservation
give_back c p = wake_one_with_idle_reservation (returned c p)

-- The path with an error.
unfoldable pub closed : ℕ → Pool → Pool
unfolding take_out
closed c p = record p { active = p.active - 1; held = take_out c p.held }

unfoldable pub give_up : ℕ → Pool → Pool
unfolding closed wake_one
give_up c p = wake_one (closed c p)

-- `reset_connections` on one pool.
unfoldable pub emptied : Pool → Pool
emptied p = record p {
  idle = [];
  active = p.active - length p.idle;
  connecting = 0;
  reserved_idle = 0;
}

unfoldable pub reset_connections : Pool → Pool
unfolding emptied wake_one
reset_connections p = wake_one (emptied p)

-- `pool_idle`: nothing is in use, and nobody waits in the queue.
unfoldable pub pool_idle : Pool → Bool
pool_idle p = p.active == length p.idle && is_nil p.queue

unfoldable pub close_pool_idle : Pool → Pool
close_pool_idle p = record p { idle = []; active = 0; connecting = 0; reserved_idle = 0 }

unfoldable pub evict : Pool → Pool
unfolding pool_idle close_pool_idle
evict p = if pool_idle p then close_pool_idle p else p

-- Whether a worker of `preconnect` opens a connection, or ends.
unfoldable pub may_preconnect : Limits → ℕ → Pool → Bool
may_preconnect l target_count p =
    ltb (length p.idle) target_count
    && (ltb p.active (max_connections l) && ltb p.connecting (max_connecting l))

unfoldable pub preconnect : Limits → ℕ → Pool → Pool
unfolding may_preconnect start_connect
preconnect l target_count p = if may_preconnect l target_count p then start_connect p else p

-- The connection that it opened goes to the idle ones.
unfoldable pub stored : Pool → Pool
stored p = record p {
  connecting = p.connecting - 1;
  opening = p.opening - 1;
  idle = p.made ∷ p.idle;
  made = suc p.made;
}

unfoldable pub finish_preconnect : Pool → Pool
unfolding stored wake_one_with_idle_reservation
finish_preconnect p = wake_one_with_idle_reservation (stored p)

-- The waiter of that number, if its coroutine is suspended.
unfoldable pub suspended_at : ℕ → Pool → Option Waiter
suspended_at n p = elim (get_elem? p.waiters n) [
  | none ↦ none
  | some w ↦ if w.suspended then some w else none
]

-- Whether the timer of the waiter has been cancelled.
unfoldable pub timer_cancelled : Waiter → Bool
timer_cancelled w = w.woken || w.cancelled

-- An event that cannot happen in the state changes nothing.
unfoldable pub step : Limits → Event → Pool → Pool
unfolding evict preconnect finish_preconnect finish_connect fail_connect resume resumed lapsed
    time_out cancel_waiter give_back give_up reset_connections suspended_at timer_cancelled is_held
step l acquires p = acquire l false false p
step l connected p = if ltb 0 p.opening then finish_connect p else p
step l connect_failed p = if ltb 0 p.opening then fail_connect p else p
step l resets p = reset_connections p
step l evicts p = evict p
step l (resumes n) p = elim (suspended_at n p) [
  | none ↦ p
  | some w ↦ if timer_cancelled w then resume l n w p else p
]
step l (times_out n) p = elim (suspended_at n p) [ none ↦ p | some w ↦ time_out n w p ]
step l (cancels n) p = elim (suspended_at n p) [ none ↦ p | some w ↦ cancel_waiter n w p ]
step l (returns c) p = if is_held c p.held then give_back c p else p
step l preconnected p = if ltb 0 p.opening then finish_preconnect p else p
step l (preconnects n) p = preconnect l n p
step l (closes c) p = if is_held c p.held then give_up c p else p

unfoldable pub run : Limits → List Event → Pool → Pool
unfolding step
run l [] p = p
run l (e ∷ es) p = run l es (step l e p)
