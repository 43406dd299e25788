-- ===== src/Pool/Owners.antt =====
-- Who has a connection of a pool.
use http_client.Prelude.{
  ℕ, ◌+◌, ◌≤◌, ◌≡◌, refl, ap, inl, inr, Bool, true, false, List, [], ◌∷◌, arith, ◌==◌, Bool-cases,
  Option-cases, if-both,
}
use http_client.Pool.{
  Waiter, Pool, Limits, new_pool, first_live, wake_one, wake_one_with_idle_reservation, may_take,
  may_connect, take_idle, drop_reservation, connect_or_wait, acquire_from, acquire, start_connect,
}
use http_client.Pool.Run.{
  Event, opened, not_opened, returned, closed, emptied, evict, pool_idle, close_pool_idle,
  may_preconnect, preconnect, stored, finish_preconnect, finish_connect, fail_connect, resume,
  resumed, lapsed, time_out, cancel_waiter, give_back, give_up, reset_connections, is_held, step,
  run,
}
use http_client.Pool.Cases.{step-cases}
use http_client.Pool.Weights.{count, count-take_out}

-- How often the connection stands in the pool, idle or held.
abbrev copies : ℕ → Pool → ℕ
copies d p = count d p.idle + count d p.held

-- A connection that was made stands there at most once, and one that was not made does not.
pub record IsOwned (d : ℕ) (p : Pool) : Type 0 where
  pub once : copies d p ≤ 1
  pub fresh : p.made ≤ d → copies d p ≡ 0

module _ (d : ℕ) where
  wake_one-IsOwned : (p : Pool) → IsOwned d p → IsOwned d (wake_one p)
  unfolding wake_one
  wake_one-IsOwned p v = elim (Option-cases (first_live p.waiters p.queue)) [
    | inl e ↦ rw (wake_one, e) (record { once = v.once; fresh = v.fresh })
    | inr ((n, w), e) ↦ rw (wake_one, e) (record { once = v.once; fresh = v.fresh })
  ]

  wake_reserved-IsOwned : (p : Pool) → IsOwned d p → IsOwned d (wake_one_with_idle_reservation p)
  unfolding wake_one_with_idle_reservation
  wake_reserved-IsOwned p v = elim (Option-cases (first_live p.waiters p.queue)) [
    | inl e ↦ rw (wake_one_with_idle_reservation, e) (record { once = v.once; fresh = v.fresh })
    | inr ((n, w), e) ↦
        rw (wake_one_with_idle_reservation, e) (record { once = v.once; fresh = v.fresh })
  ]

  connect_or_wait-IsOwned :
      (l : Limits) (woke : Bool) (p : Pool) → IsOwned d p → IsOwned d (connect_or_wait l woke p)
  unfolding connect_or_wait
  connect_or_wait-IsOwned l woke p v = elim (Bool-cases (may_connect l woke p)) [
    | inl e ↦ rw (connect_or_wait, e) (record { once = v.once; fresh = v.fresh })
    | inr e ↦ rw (connect_or_wait, e) (record { once = v.once; fresh = v.fresh })
  ]

  take-IsOwned :
      (has : Bool) (c : ℕ) (idle : List ℕ) (p : Pool)
      → p.idle ≡ c ∷ idle
      → IsOwned d p
      → IsOwned d (take_idle has c idle p)
  unfolding take_idle count
  take-IsOwned has c idle p e v =
      let e' : count d p.idle ≡ count d (c ∷ idle) = ap (count d) e in
      record { once = ground (arith, v.once); fresh = λ h. ground (arith, v.fresh h) }

  acquire_from-IsOwned :
      (l : Limits) (idle : List ℕ) (woke has : Bool) (p : Pool)
      → p.idle ≡ idle
      → IsOwned d p
      → IsOwned d (acquire_from idle l woke has p)
  unfolding acquire_from
  acquire_from-IsOwned l [] woke has p e v =
      connect_or_wait-IsOwned l woke (drop_reservation has p)
        (record { once = v.once; fresh = v.fresh })
  acquire_from-IsOwned l (c ∷ idle) woke has p e v = elim (Bool-cases (may_take woke has p)) [
    | inl h ↦ rw (acquire_from, h) (take-IsOwned has c idle p e v)
    | inr h ↦ rw (acquire_from, h) (connect_or_wait-IsOwned l woke p v)
  ]

  acquire-IsOwned :
      (l : Limits) (woke has : Bool) (p : Pool) → IsOwned d p → IsOwned d (acquire l woke has p)
  unfolding acquire
  acquire-IsOwned l woke has p v = acquire_from-IsOwned l p.idle woke has p refl v

  resume-IsOwned :
      (l : Limits) (n : ℕ) (w : Waiter) (p : Pool) → IsOwned d p → IsOwned d (resume l n w p)
  unfolding resume resumed lapsed
  resume-IsOwned l n w p v = elim (Bool-cases w.woken) [
    | inl e ↦
        rw e (acquire-IsOwned l true w.reserved_idle _ (record { once = v.once; fresh = v.fresh }))
    | inr e ↦ rw e (record { once = v.once; fresh = v.fresh })
  ]

  opened-IsOwned : (p : Pool) → IsOwned d p → IsOwned d (opened p)
  unfolding opened count
  opened-IsOwned p v = elim (Bool-cases (p.made == d)) [
    | inl e ↦ record { once = ground (arith, v.fresh); fresh = λ h. absurd (ground arith) }
    | inr e ↦ record { once = ground (arith, v.once); fresh = λ h. ground (arith, v.fresh) }
  ]

  returned-IsOwned :
      (c : ℕ) (p : Pool) → is_held c p.held ≡ true → IsOwned d p → IsOwned d (returned c p)
  unfolding returned count
  returned-IsOwned c p h v = record {
    once = omega (arith, v.once, count-take_out c d p.held h);
    fresh = λ m. omega (arith, v.fresh m, count-take_out c d p.held h);
  }

  closed-IsOwned :
      (c : ℕ) (p : Pool) → is_held c p.held ≡ true → IsOwned d p → IsOwned d (closed c p)
  unfolding closed
  closed-IsOwned c p h v = record {
    once = omega (arith, v.once, count-take_out c d p.held h);
    fresh = λ m. omega (arith, v.fresh m, count-take_out c d p.held h);
  }

  stored-IsOwned : (p : Pool) → IsOwned d p → IsOwned d (stored p)
  unfolding stored count
  stored-IsOwned p v = elim (Bool-cases (p.made == d)) [
    | inl e ↦ record { once = ground (arith, v.fresh); fresh = λ h. absurd (ground arith) }
    | inr e ↦ record { once = ground (arith, v.once); fresh = λ h. ground (arith, v.fresh) }
  ]

  preconnect-IsOwned : (l : Limits) (n : ℕ) (p : Pool) → IsOwned d p → IsOwned d (preconnect l n p)
  unfolding preconnect
  preconnect-IsOwned l n p v =
      if-both (IsOwned d) (may_preconnect l n p) (start_connect p) p
        (λ _. unfold start_connect in record { once = v.once; fresh = v.fresh }) (λ _. v)

  emptied-IsOwned : (p : Pool) → IsOwned d p → IsOwned d (emptied p)
  unfolding emptied count
  emptied-IsOwned p v = record {
    once = omega (arith, v.once);
    fresh = λ m. omega (arith, v.fresh m);
  }

  evict-IsOwned : (p : Pool) → IsOwned d p → IsOwned d (evict p)
  unfolding evict close_pool_idle count
  evict-IsOwned p v =
      if-both (IsOwned d) (pool_idle p) (close_pool_idle p) p
        (λ _. record { once = omega (arith, v.once); fresh = λ m. omega (arith, v.fresh m) })
        (λ _. v)

  cancel-IsOwned : (n : ℕ) (w : Waiter) (p : Pool) → IsOwned d p → IsOwned d (cancel_waiter n w p)
  unfolding cancel_waiter
  cancel-IsOwned n w p v = elim (Bool-cases w.cancelled) [
    | inl e ↦ rw e v
    | inr e ↦ rw e (record { once = v.once; fresh = v.fresh })
  ]

  step-IsOwned : (l : Limits) (e : Event) (p : Pool) → IsOwned d p → IsOwned d (step l e p)
  unfolding finish_preconnect finish_connect fail_connect not_opened give_back give_up
      reset_connections time_out
  step-IsOwned l e p v = step-cases l e p (IsOwned d) (record {
    same = v;
    acquires = acquire-IsOwned l false false p v;
    connected = λ h. wake_one-IsOwned (opened p) (opened-IsOwned p v);
    connect_failed =
        λ h. wake_one-IsOwned (not_opened p) (record { once = v.once; fresh = v.fresh });
    resets = λ _. wake_one-IsOwned (emptied p) (emptied-IsOwned p v);
    evicts = λ _. evict-IsOwned p v;
    resumes = λ n w _ _. resume-IsOwned l n w p v;
    times_out = λ n w _. record { once = v.once; fresh = v.fresh };
    cancels = λ n w _. cancel-IsOwned n w p v;
    preconnected = λ h. wake_reserved-IsOwned (stored p) (stored-IsOwned p v);
    preconnects = λ n _. preconnect-IsOwned l n p v;
    returns = λ c h. wake_reserved-IsOwned (returned c p) (returned-IsOwned c p h v);
    closes = λ c h. wake_one-IsOwned (closed c p) (closed-IsOwned c p h v);
  })

  run-IsOwned : (l : Limits) (es : List Event) (p : Pool) → IsOwned d p → IsOwned d (run l es p)
  unfolding run
  run-IsOwned l [] p v = v
  run-IsOwned l (e ∷ es) p v = run-IsOwned l es (step l e p) (step-IsOwned l e p v)

-- After any sequence of events no connection is held by two requests, nor by one and idle too: it stands
-- at most once among the idle and the held ones, and only once it has been made.
pub run-new_pool-IsOwned : (l : Limits) (es : List Event) (d : ℕ) → IsOwned d (run l es new_pool)
run-new_pool-IsOwned l es d =
    run-IsOwned d l es new_pool
      (unfold count in record { once = omega arith; fresh = λ h. omega arith })
