-- ===== src/Pool.antt =====
-- The connection pool of an origin in src/asio_http_client.cpp: `OriginPool`, `acquire_plain`, the
-- paths of `run_pooled_request` that give a connection back, `wake_one`, `reset_connections` and the
-- cancellation of a request, and `evict_idle_origins`, for plain connections. The code for TLS
-- connections is the same, but probe_request and the connection actors use them as well. A shard runs
-- on one thread, so that what stands between two suspensions is one step. A waiter is named by the
-- number of waiters made before it, a connection by the number of connections made before it.
-- Connecting, the timers and the exchange over a connection are of Boost.Asio: the events of Run.
pub mod Run
pub mod Cases
pub mod Weights
pub mod Counts
pub mod Owners
pub mod Reserved
pub mod Refines
pub mod Starved
use http_client.Prelude.{
  ℕ, suc, ◌-◌, ◌≡◌, Bool, true, false, ◌&&◌, ◌||◌, not, List, [], ◌∷◌, ◌++◌, Option, none, some,
  max, ◌==◌, if◌then◌else◌, ltb, length, is_nil, get_elem?, set, remove_if,
}

-- `Waiter`, and whether its coroutine is still suspended on the timer.
pub record Waiter : Type 0 where
  pub woken : Bool
  pub cancelled : Bool
  pub reserved_idle : Bool
  pub suspended : Bool

abbrev pub new_waiter : Waiter
new_waiter = record { woken = false; cancelled = false; reserved_idle = false; suspended = true }

-- The members of `OriginPool` for one kind of connection, the last returned connection first, with the
-- waiters made so far, the connections made so far, those that requests hold, and the number of
-- requests that are connecting.
pub record Pool : Type 0 where
  pub idle : List ℕ
  pub queue : List ℕ
  pub active : ℕ
  pub connecting : ℕ
  pub reserved_idle : ℕ
  pub waiters : List Waiter
  pub made : ℕ
  pub held : List ℕ
  pub opening : ℕ

abbrev pub new_pool : Pool
new_pool = record {
  idle = [];
  queue = [];
  active = 0;
  connecting = 0;
  reserved_idle = 0;
  waiters = [];
  made = 0;
  held = [];
  opening = 0;
}

-- `max_connections_per_origin` and `max_connecting_per_origin`, as the options give them.
pub record Limits : Type 0 where
  pub max_connections_per_origin : ℕ
  pub max_connecting_per_origin : ℕ

abbrev pub max_connections : Limits → ℕ
max_connections l = max 1 l.max_connections_per_origin

abbrev pub max_connecting : Limits → ℕ
max_connecting l = max 1 l.max_connecting_per_origin

-- `wake_waiter`: the cancelled timer ends the wait.
unfoldable pub wake_waiter : Waiter → Waiter
wake_waiter w = if w.cancelled then w else record w { woken = true }

-- The first waiter of the queue that is not cancelled.
unfoldable pub first_live : List Waiter → List ℕ → Option (ℕ × Waiter)
first_live ws [] = none
first_live ws (n ∷ queue) = elim (get_elem? ws n) [
  | none ↦ first_live ws queue
  | some w ↦ if w.cancelled then first_live ws queue else some (n, w)
]

-- The queue behind that waiter.
unfoldable pub behind_live : List Waiter → List ℕ → List ℕ
behind_live ws [] = []
behind_live ws (n ∷ queue) = elim (get_elem? ws n) [
  | none ↦ behind_live ws queue
  | some w ↦ if w.cancelled then behind_live ws queue else queue
]

-- `wake_one(queue)`.
unfoldable pub wake_one : Pool → Pool
unfolding wake_waiter first_live behind_live
wake_one p = elim (first_live p.waiters p.queue) [
  | none ↦ record p { queue = behind_live p.waiters p.queue }
  | some (n, w) ↦ record p {
    queue = behind_live p.waiters p.queue;
    waiters = set p.waiters n (wake_waiter w);
  }
]

-- `if (wake_one_with_idle_reservation(queue)) ++reserved_idle`.
unfoldable pub wake_one_with_idle_reservation : Pool → Pool
unfolding wake_waiter first_live behind_live
wake_one_with_idle_reservation p = elim (first_live p.waiters p.queue) [
  | none ↦ record p { queue = behind_live p.waiters p.queue }
  | some (n, w) ↦ record p {
    queue = behind_live p.waiters p.queue;
    waiters = set p.waiters n (wake_waiter (record w { reserved_idle = true }));
    reserved_idle = suc p.reserved_idle;
  }
]

-- The first test of the loop in `acquire_plain`.
unfoldable pub may_take : Bool → Bool → Pool → Bool
may_take woke_from_wait has_idle_reservation p =
    has_idle_reservation || (p.reserved_idle == 0 && (woke_from_wait || is_nil p.queue))

-- `idle_plain.back()` is taken, and a reservation is used up.
unfoldable pub take_idle : Bool → ℕ → List ℕ → Pool → Pool
take_idle has_idle_reservation c idle p = record p {
  idle = idle;
  held = c ∷ p.held;
  reserved_idle = if has_idle_reservation then p.reserved_idle - 1 else p.reserved_idle;
}

-- A reservation that found no idle connection is given up.
unfoldable pub drop_reservation : Bool → Pool → Pool
drop_reservation has_idle_reservation p = record p {
  reserved_idle = if has_idle_reservation then p.reserved_idle - 1 else p.reserved_idle;
}

-- The test before a connection is opened.
unfoldable pub may_connect : Limits → Bool → Pool → Bool
may_connect l woke_from_wait p =
    (ltb p.active (max_connections l) && ltb p.connecting (max_connecting l))
    && (woke_from_wait || (p.reserved_idle == 0 && is_nil p.queue))

unfoldable pub start_connect : Pool → Pool
start_connect p = record p {
  active = suc p.active;
  connecting = suc p.connecting;
  opening = suc p.opening;
}

unfoldable pub join_queue : Pool → Pool
join_queue p = record p {
  queue = p.queue ++ length p.waiters ∷ [];
  waiters = p.waiters ++ new_waiter ∷ [];
}

-- The loop's body behind its first test.
unfoldable pub connect_or_wait : Limits → Bool → Pool → Pool
unfolding may_connect start_connect join_queue
connect_or_wait l woke_from_wait p =
    if may_connect l woke_from_wait p then start_connect p else join_queue p

-- The loop's body where there is an idle connection, and where there is none.
unfoldable pub acquire_from : List ℕ → Limits → Bool → Bool → Pool → Pool
unfolding may_take take_idle drop_reservation connect_or_wait
acquire_from [] l woke has p = connect_or_wait l woke (drop_reservation has p)
acquire_from (c ∷ idle) l woke has p =
    if may_take woke has p then take_idle has c idle p else connect_or_wait l woke p

-- One round of the loop in `acquire_plain`, up to where it returns or suspends.
unfoldable pub acquire : Limits → Bool → Bool → Pool → Pool
unfolding acquire_from
acquire l woke_from_wait has_idle_reservation p =
    acquire_from p.idle l woke_from_wait has_idle_reservation p
