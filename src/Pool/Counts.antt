-- ===== src/Pool/Counts.antt =====
-- The counters of a pool over every run.
use http_client.Prelude.{
  ℕ, suc, ◌+◌, ◌≤◌, ◌<◌, ◌≡◌, refl, ap, inl, inr, Bool, true, false, List, [], ◌∷◌, arith, length,
  Bool-cases, Option-cases,
}
use http_client.Pool.{
  Waiter, Pool, Limits, max_connections, max_connecting, new_pool, first_live, wake_one,
  wake_one_with_idle_reservation, may_take, may_connect, take_idle, drop_reservation,
  connect_or_wait, acquire_from, acquire,
}
use http_client.Pool.Run.{
  Event, opened, not_opened, returned, closed, emptied, evict, pool_idle, close_pool_idle,
  preconnect, stored, finish_preconnect, finish_connect, fail_connect, resume, resumed, lapsed,
  time_out, cancel_waiter, give_back, give_up, reset_connections, is_held, step, run,
}
use http_client.Pool.Cases.{step-cases}
use http_client.Pool.Weights.{length-take_out}

-- `active` counts the connections that are idle, held or being opened, and keeps to its limit, as
-- `connecting` does to its own; there is an idle connection for every reservation.
pub record IsCounted (l : Limits) (p : Pool) : Type 0 where
  pub active : p.active ≡ length p.idle + (length p.held + p.opening)
  pub connecting : p.connecting ≤ p.opening
  pub active_limit : p.active ≤ max_connections l
  pub connecting_limit : p.connecting ≤ max_connecting l
  pub reserved : p.reserved_idle ≤ length p.idle

module _ (l : Limits) where
  wake_one-IsCounted : (p : Pool) → IsCounted l p → IsCounted l (wake_one p)
  unfolding wake_one
  wake_one-IsCounted p v = elim (Option-cases (first_live p.waiters p.queue)) [
    | inl e ↦ rw (wake_one, e) (ground arith)
    | inr ((n, w), e) ↦ rw (wake_one, e) (ground arith)
  ]

  wake_reserved-IsCounted :
      (p : Pool)
      → IsCounted l p
      → p.reserved_idle < length p.idle
      → IsCounted l (wake_one_with_idle_reservation p)
  unfolding wake_one_with_idle_reservation
  wake_reserved-IsCounted p v h = elim (Option-cases (first_live p.waiters p.queue)) [
    | inl e ↦ rw (wake_one_with_idle_reservation, e) (ground arith)
    | inr ((n, w), e) ↦ rw (wake_one_with_idle_reservation, e) (ground arith)
  ]

  connect_or_wait-IsCounted :
      (woke : Bool) (p : Pool) → IsCounted l p → IsCounted l (connect_or_wait l woke p)
  unfolding connect_or_wait
  connect_or_wait-IsCounted woke p v = elim (Bool-cases (may_connect l woke p)) [
    | inl e ↦ rw (connect_or_wait, e) (ground arith)
    | inr e ↦ rw (connect_or_wait, e) (ground arith)
  ]

  drop-IsCounted : (has : Bool) (p : Pool) → IsCounted l p → IsCounted l (drop_reservation has p)
  unfolding drop_reservation
  drop-IsCounted true p v = ground arith
  drop-IsCounted false p v = ground arith

  take-IsCounted :
      (has : Bool) (c : ℕ) (idle : List ℕ) (p : Pool)
      → p.idle ≡ c ∷ idle
      → may_take true has p ≡ true
      → IsCounted l p
      → IsCounted l (take_idle has c idle p)
  unfolding take_idle may_take
  take-IsCounted true c idle p e h v =
      let e' : length p.idle ≡ suc (length idle) = ap length e in ground arith
  take-IsCounted false c idle p e h v =
      let e' : length p.idle ≡ suc (length idle) = ap length e in ground arith

  may_take_woken :
      (woke has : Bool) (p : Pool) → may_take woke has p ≡ true → may_take true has p ≡ true
  unfolding may_take
  may_take_woken woke has p h = ground arith

  acquire_from-IsCounted :
      (idle : List ℕ) (woke has : Bool) (p : Pool)
      → p.idle ≡ idle
      → IsCounted l p
      → IsCounted l (acquire_from idle l woke has p)
  unfolding acquire_from
  acquire_from-IsCounted [] woke has p e v =
      connect_or_wait-IsCounted woke (drop_reservation has p) (drop-IsCounted has p v)
  acquire_from-IsCounted (c ∷ idle) woke has p e v = elim (Bool-cases (may_take woke has p)) [
    | inl h ↦ rw (acquire_from, h) (take-IsCounted has c idle p e (may_take_woken woke has p h) v)
    | inr h ↦ rw (acquire_from, h) (connect_or_wait-IsCounted woke p v)
  ]

  acquire-IsCounted :
      (woke has : Bool) (p : Pool) → IsCounted l p → IsCounted l (acquire l woke has p)
  unfolding acquire
  acquire-IsCounted woke has p v = acquire_from-IsCounted p.idle woke has p refl v

  resume-IsCounted : (n : ℕ) (w : Waiter) (p : Pool) → IsCounted l p → IsCounted l (resume l n w p)
  unfolding resume resumed lapsed
  resume-IsCounted n w p v = elim (Bool-cases w.woken) [
    | inl e ↦ rw e (acquire-IsCounted true w.reserved_idle _ (ground arith))
    | inr e ↦ rw e (ground arith)
  ]

  opened-IsCounted : (p : Pool) → 0 < p.opening → IsCounted l p → IsCounted l (opened p)
  unfolding opened
  opened-IsCounted p h v = ground arith

  not_opened-IsCounted : (p : Pool) → 0 < p.opening → IsCounted l p → IsCounted l (not_opened p)
  unfolding not_opened
  not_opened-IsCounted p h v = ground arith

  give_back-IsCounted :
      (c : ℕ) (p : Pool) → is_held c p.held ≡ true → IsCounted l p → IsCounted l (give_back c p)
  unfolding give_back
  give_back-IsCounted c p h v =
      wake_reserved-IsCounted (returned c p) (ground (arith, length-take_out c p.held h))
        (ground arith)

  closed-IsCounted :
      (c : ℕ) (p : Pool) → is_held c p.held ≡ true → IsCounted l p → IsCounted l (closed c p)
  unfolding closed
  closed-IsCounted c p h v = ground (arith, length-take_out c p.held h)

  emptied-IsCounted : (p : Pool) → IsCounted l p → IsCounted l (emptied p)
  unfolding emptied
  emptied-IsCounted p v = ground arith

  evict-IsCounted : (p : Pool) → IsCounted l p → IsCounted l (evict p)
  unfolding evict pool_idle close_pool_idle
  evict-IsCounted p v = ground arith

  cancel-IsCounted :
      (n : ℕ) (w : Waiter) (p : Pool) → IsCounted l p → IsCounted l (cancel_waiter n w p)
  unfolding cancel_waiter
  cancel-IsCounted n w p v = elim (Bool-cases w.cancelled) [
    | inl e ↦ rw e v
    | inr e ↦ rw e (ground arith)
  ]

  time_out-IsCounted :
      (n : ℕ) (w : Waiter) (p : Pool) → IsCounted l p → IsCounted l (time_out n w p)
  unfolding time_out
  time_out-IsCounted n w p v = ground arith

  preconnect-IsCounted : (n : ℕ) (p : Pool) → IsCounted l p → IsCounted l (preconnect l n p)
  unfolding preconnect
  preconnect-IsCounted n p v = ground arith

  finish_preconnect-IsCounted :
      (p : Pool) → 0 < p.opening → IsCounted l p → IsCounted l (finish_preconnect p)
  unfolding finish_preconnect
  finish_preconnect-IsCounted p h v =
      wake_reserved-IsCounted (stored p) (ground arith) (ground arith)

  pub step-IsCounted : (e : Event) (p : Pool) → IsCounted l p → IsCounted l (step l e p)
  unfolding finish_connect fail_connect give_up reset_connections
  step-IsCounted e p v = step-cases l e p (IsCounted l) (record {
    same = v;
    acquires = acquire-IsCounted false false p v;
    connected = λ h. wake_one-IsCounted (opened p) (opened-IsCounted p h v);
    connect_failed = λ h. wake_one-IsCounted (not_opened p) (not_opened-IsCounted p h v);
    resets = λ _. wake_one-IsCounted (emptied p) (emptied-IsCounted p v);
    evicts = λ _. evict-IsCounted p v;
    resumes = λ n w _ _. resume-IsCounted n w p v;
    times_out = λ n w _. time_out-IsCounted n w p v;
    cancels = λ n w _. cancel-IsCounted n w p v;
    preconnected = λ h. finish_preconnect-IsCounted p h v;
    preconnects = λ n _. preconnect-IsCounted n p v;
    returns = λ c h. give_back-IsCounted c p h v;
    closes = λ c h. wake_one-IsCounted (closed c p) (closed-IsCounted c p h v);
  })

  pub run-IsCounted : (es : List Event) (p : Pool) → IsCounted l p → IsCounted l (run l es p)
  unfolding run
  run-IsCounted [] p v = v
  run-IsCounted (e ∷ es) p v = run-IsCounted es (step l e p) (step-IsCounted e p v)

pub new_pool-IsCounted : (l : Limits) → IsCounted l new_pool
new_pool-IsCounted l = ground arith

-- After any sequence of events, `reset_connections` among them, `active` is the number of connections
-- that are idle, held by requests or being opened, and at most `max_connections_per_origin`;
-- `connecting` is at most that number of openings and `max_connecting_per_origin`, limits below 1
-- counting as 1; and the reserved connections are at most the idle ones.
pub run-new_pool-IsCounted : (l : Limits) (es : List Event) → IsCounted l (run l es new_pool)
run-new_pool-IsCounted l es = run-IsCounted l es new_pool (new_pool-IsCounted l)
