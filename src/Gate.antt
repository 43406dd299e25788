-- ===== src/Gate.antt =====
-- `OriginGate` of src/http_client.cpp: which request detects the protocol of an origin, which wait for
-- it, and how they are woken. The strand runs the operations one after another. A waiter is named by
-- the number of waiters made before it; the timers' state is part of the model, since the gate's
-- `cancel()` completes only a wait that has begun.
pub mod Run
pub mod Waiters
pub mod Detection
pub mod Invariant
use http_client.Prelude.{
  ℕ, suc, ◌+◌, Bool, true, false, ◌||◌, List, [], ◌∷◌, ◌++◌, ◌==◌, if◌then◌else◌, ltb, leb, length,
  remove_if,
}

pub data ProtocolState : Type 0 where
  unknown detecting h2_available h1_only h2_failed_recently : ProtocolState

pub data GateAction : Type 0 where
  use_h1 use_h2 detect : GateAction
  wait : ℕ → GateAction

pub record GateDecision : Type 0 where
  pub action : GateAction
  pub overflow_fallback : Bool

pub data OverflowPolicy : Type 0 where
  fallback_h1 wait_detection : OverflowPolicy

pub record GateOptions : Type 0 where
  pub origin_waiter_limit : ℕ
  pub detection_overflow_policy : OverflowPolicy
  pub h2_failure_ttl : ℕ

-- `OriginState` and `eviction_blocked`, and of the waiters made so far: how many there are, whose flag
-- `done` is set, and on whose timer a coroutine is suspended.
pub record Gate : Type 0 where
  pub protocol : ProtocolState
  pub retry_after : ℕ
  pub waiters : List ℕ
  pub saw_h2_origin : Bool
  pub eviction_blocked : Bool
  pub made : ℕ
  pub done : List ℕ
  pub suspended : List ℕ

abbrev pub new_gate : Gate
new_gate = record {
  protocol = unknown;
  retry_after = 0;
  waiters = [];
  saw_h2_origin = false;
  eviction_blocked = false;
  made = 0;
  done = [];
  suspended = [];
}

abbrev decide_plain : GateAction → GateDecision
decide_plain a = record { action = a; overflow_fallback = false }

-- `state.protocol = Detecting; eviction_blocked = true`.
start_detection : Gate → GateDecision × Gate
start_detection g =
    (decide_plain detect, record g { protocol = detecting; eviction_blocked = true })

-- A new waiter with a timer that never expires.
join_waiters : Gate → GateDecision × Gate
join_waiters g =
    (decide_plain (wait g.made), record g { waiters = g.waiters ++ g.made ∷ []; made = suc g.made })

-- At the limit the policy decides.
at_limit : OverflowPolicy → Gate → GateDecision × Gate
unfolding join_waiters
at_limit wait_detection g = join_waiters g
at_limit fallback_h1 g = (record { action = use_h1; overflow_fallback = true }, g)

-- `case Detecting`.
enter_detecting : GateOptions → Gate → GateDecision × Gate
unfolding at_limit join_waiters
enter_detecting o g =
    if leb o.origin_waiter_limit (length g.waiters)
    then at_limit o.detection_overflow_policy g
    else join_waiters g

enter_in : ProtocolState → GateOptions → ℕ → Gate → GateDecision × Gate
unfolding start_detection enter_detecting
enter_in h2_available o now g = (decide_plain use_h2, g)
enter_in h1_only o now g = (decide_plain use_h1, g)
enter_in h2_failed_recently o now g =
    if ltb now g.retry_after then (decide_plain use_h1, g) else start_detection g
enter_in detecting o now g = enter_detecting o g
enter_in unknown o now g = start_detection g

-- `enter()` at the time `now`.
unfoldable pub enter : GateOptions → ℕ → Gate → GateDecision × Gate
unfolding enter_in
enter o now g = enter_in g.protocol o now g

unfoldable pub contains : ℕ → List ℕ → Bool
contains w [] = false
contains w (x ∷ xs) = x == w || contains w xs

-- Every queued waiter is marked, its timer is cancelled, and the queue is cleared.
notify_waiters : Gate → Gate
notify_waiters g = record g {
  done = g.waiters ++ g.done;
  suspended = remove_if (λ w. contains w g.waiters) g.suspended;
  waiters = [];
}

unfoldable pub set_protocol : ProtocolState → Gate → Gate
unfolding notify_waiters
set_protocol p g = record (notify_waiters (record g { protocol = p; retry_after = 0 })) {
  eviction_blocked = false;
}

unfoldable pub mark_h2_failed : GateOptions → ℕ → Gate → Gate
unfolding notify_waiters
mark_h2_failed o now g =
    record (notify_waiters
      (record g { protocol = h2_failed_recently; retry_after = now + o.h2_failure_ttl })) {
        eviction_blocked = false;
      }

unfoldable pub record_h2_origin : Gate → Gate
record_h2_origin g = record g { saw_h2_origin = true }

unfoldable pub has_h2_origin : Gate → Bool
has_h2_origin g = g.saw_h2_origin

-- `wait_for_detection(waiter)`: the coroutine suspends on the timer. It does not read `done`.
unfoldable pub wait_for_detection : ℕ → Gate → Gate
wait_for_detection w g = record g { suspended = w ∷ g.suspended }
