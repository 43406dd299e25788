-- ===== src/Pool/Reserved.antt =====
-- Reservations of a pool: a connection that is returned for a waiter is there when the waiter resumes.
use http_client.Prelude.{
  ℕ, ◌+◌, ◌≤◌, ◌<◌, ◌≡◌, ◌≢◌, refl, inl, inr, Bool, true, false, ◌&&◌, List, [], ◌∷◌, ◌++◌, some,
  arith, length, take, if◌then◌else◌, Bool-cases, Option-cases, if-both, All,
}
use http_client.Pool.{
  Waiter, Pool, Limits, new_pool, new_waiter, first_live, wake_waiter, wake_one,
  wake_one_with_idle_reservation, may_take, may_connect, take_idle, drop_reservation,
  connect_or_wait, acquire_from, acquire, start_connect,
}
use http_client.Pool.Run.{
  Event, resets, evicts, resumes, opened, not_opened, returned, closed, may_preconnect, preconnect,
  stored, finish_preconnect, finish_connect, fail_connect, resume, resumed, lapsed, time_out,
  cancel_waiter, give_back, give_up, suspended_at, timer_cancelled, step, run,
}
use http_client.Pool.Cases.{step-cases}
use http_client.Pool.Weights.{
  total, total-set, total-append, le-total, first_live-get_elem?, suspended_at-get_elem?,
}
use http_client.Pool.Counts.{IsCounted, run-IsCounted, new_pool-IsCounted}

-- 1 for a suspended waiter that was woken for a returned connection.
abbrev pub holds : Waiter → ℕ
holds w = if w.suspended && w.reserved_idle then 1 else 0

-- Neither a reset nor an eviction.
abbrev pub IsKept : Event → Type 0
IsKept e = (e ≢ resets) × (e ≢ evicts)

-- Every such waiter has its reservation.
pub record IsReserved (p : Pool) : Type 0 where
  pub kept : total holds p.waiters ≤ p.reserved_idle

wake_one-IsReserved : (p : Pool) → IsReserved p → IsReserved (wake_one p)
unfolding wake_one wake_waiter
wake_one-IsReserved p v = elim (Option-cases (first_live p.waiters p.queue)) [
  | inl e ↦ rw (wake_one, e) (record { kept = v.kept })
  | inr ((n, w), e) ↦
      let at = first_live-get_elem? p.waiters p.queue n w e in
      rw (wake_one, e)
        (record { kept = ground (arith, v.kept, total-set holds p.waiters n w (wake_waiter w) at) })
]

wake_idle-IsReserved : (p : Pool) → IsReserved p → IsReserved (wake_one_with_idle_reservation p)
unfolding wake_one_with_idle_reservation wake_waiter
wake_idle-IsReserved p v = elim (Option-cases (first_live p.waiters p.queue)) [
  | inl e ↦ rw (wake_one_with_idle_reservation, e) (record { kept = v.kept })
  | inr ((n, w), e) ↦
      let at = first_live-get_elem? p.waiters p.queue n w e in
      let sum =
        total-set holds p.waiters n w (wake_waiter (record w { reserved_idle = true })) at in
      rw (wake_one_with_idle_reservation, e) (record { kept = ground (arith, v.kept, sum) })
]

module _ (l : Limits) where
  -- A request that goes round the loop with a reservation counts as one more.
  abbrev Covers : Bool → Pool → Type 0
  Covers has p = total holds p.waiters + (if has then 1 else 0) ≤ p.reserved_idle

  connect_or_wait-IsReserved :
      (woke : Bool) (p : Pool) → IsReserved p → IsReserved (connect_or_wait l woke p)
  unfolding connect_or_wait
  connect_or_wait-IsReserved woke p v = elim (Bool-cases (may_connect l woke p)) [
    | inl e ↦ rw (connect_or_wait, e) (record { kept = v.kept })
    | inr e ↦
        rw (connect_or_wait, e)
          (record { kept = omega (arith, v.kept, total-append holds p.waiters new_waiter) })
  ]

  acquire_from-IsReserved :
      (idle : List ℕ) (woke has : Bool) (p : Pool)
      → Covers has p
      → IsReserved (acquire_from idle l woke has p)
  unfolding acquire_from take_idle drop_reservation
  acquire_from-IsReserved [] woke has p h =
      connect_or_wait-IsReserved woke (drop_reservation has p) (record { kept = ground arith })
  acquire_from-IsReserved (c ∷ idle) woke has p h = elim (Bool-cases (may_take woke has p)) [
    | inl e ↦ rw (acquire_from, e) (record { kept = ground arith })
    | inr e ↦
        rw (acquire_from, e) (connect_or_wait-IsReserved woke p (record { kept = ground arith }))
  ]

  acquire-IsReserved :
      (woke has : Bool) (p : Pool) → Covers has p → IsReserved (acquire l woke has p)
  unfolding acquire
  acquire-IsReserved woke has p h = acquire_from-IsReserved p.idle woke has p h

  resumed-Covers :
      (n : ℕ) (w : Waiter) (p : Pool)
      → suspended_at n p ≡ some w
      → IsReserved p
      → Covers w.reserved_idle (resumed n w p)
  unfolding resumed
  resumed-Covers n w p s v =
      let at = suspended_at-get_elem? n p w s in
      let sum = total-set holds p.waiters n w (record w { suspended = false }) at.0 in
      ground (arith, v.kept, at.1, sum)

  lapsed-IsReserved :
      (n : ℕ) (w : Waiter) (p : Pool)
      → suspended_at n p ≡ some w
      → IsReserved p
      → IsReserved (lapsed n w p)
  unfolding lapsed
  lapsed-IsReserved n w p s v =
      let at = suspended_at-get_elem? n p w s in
      let gone = record w { suspended = false; cancelled = true } in
      record { kept = ground (arith, v.kept, total-set holds p.waiters n w gone at.0) }

  resume-IsReserved :
      (n : ℕ) (w : Waiter) (p : Pool)
      → suspended_at n p ≡ some w
      → IsReserved p
      → IsReserved (resume l n w p)
  unfolding resume
  resume-IsReserved n w p s v =
      if-both IsReserved w.woken (acquire l true w.reserved_idle (resumed n w p)) (lapsed n w p)
        (λ _. acquire-IsReserved true w.reserved_idle (resumed n w p) (resumed-Covers n w p s v))
        (λ _. lapsed-IsReserved n w p s v)

  time_out-IsReserved :
      (n : ℕ) (w : Waiter) (p : Pool)
      → suspended_at n p ≡ some w
      → IsReserved p
      → IsReserved (time_out n w p)
  unfolding time_out
  time_out-IsReserved n w p s v =
      let at = suspended_at-get_elem? n p w s in
      let sum = total-set holds p.waiters n w (record w { suspended = false }) at.0 in
      record { kept = ground (arith, v.kept, sum) }

  cancel-IsReserved :
      (n : ℕ) (w : Waiter) (p : Pool)
      → suspended_at n p ≡ some w
      → IsReserved p
      → IsReserved (cancel_waiter n w p)
  unfolding cancel_waiter
  cancel-IsReserved n w p s v = elim (Bool-cases w.cancelled) [
    | inl e ↦ rw e v
    | inr e ↦
        let at = suspended_at-get_elem? n p w s in
        let sum = total-set holds p.waiters n w (record w { cancelled = true }) at.0 in
        rw e (record { kept = ground (arith, v.kept, sum) })
  ]

  preconnect-IsReserved : (n : ℕ) (p : Pool) → IsReserved p → IsReserved (preconnect l n p)
  unfolding preconnect
  preconnect-IsReserved n p v =
      if-both IsReserved (may_preconnect l n p) (start_connect p) p
        (λ _. unfold start_connect in record { kept = v.kept }) (λ _. v)

  step-IsReserved : (e : Event) (p : Pool) → IsKept e → IsReserved p → IsReserved (step l e p)
  unfolding finish_preconnect stored finish_connect fail_connect give_back give_up opened not_opened
      returned closed
  step-IsReserved e p ne v = step-cases l e p IsReserved (record {
    same = v;
    acquires = acquire-IsReserved false false p (omega (arith, v.kept));
    connected = λ h. wake_one-IsReserved (opened p) (record { kept = v.kept });
    connect_failed = λ h. wake_one-IsReserved (not_opened p) (record { kept = v.kept });
    resets = λ r. absurd (ne.0 r);
    evicts = λ r. absurd (ne.1 r);
    resumes = λ n w s _. resume-IsReserved n w p s v;
    times_out = λ n w s. time_out-IsReserved n w p s v;
    cancels = λ n w s. cancel-IsReserved n w p s v;
    preconnected = λ h. wake_idle-IsReserved (stored p) (record { kept = v.kept });
    preconnects = λ n _. preconnect-IsReserved n p v;
    returns = λ c h. wake_idle-IsReserved (returned c p) (record { kept = v.kept });
    closes = λ c h. wake_one-IsReserved (closed c p) (record { kept = v.kept });
  })

  run-IsReserved :
      (es : List Event) (p : Pool) → All IsKept es → IsReserved p → IsReserved (run l es p)
  unfolding run
  run-IsReserved [] p a v = v
  run-IsReserved (e ∷ es) p (ne, a) v = run-IsReserved es (step l e p) a (step-IsReserved e p ne v)

acquire_from-held :
    (l : Limits) (idle : List ℕ) (woke : Bool) (p : Pool)
    → 0 < length idle
    → (acquire_from idle l woke true p).held ≡ take 1 idle ++ p.held
unfolding acquire_from may_take take_idle
acquire_from-held l [] woke p h = absurd (omega arith)
acquire_from-held l (c ∷ idle) woke p h = refl

-- It holds the connection that was returned last.
resumes-held :
    (l : Limits) (n : ℕ) (w : Waiter) (p : Pool)
    → suspended_at n p ≡ some w
    → w.woken ≡ true
    → w.reserved_idle ≡ true
    → IsReserved p
    → IsCounted l p
    → (0 < length p.idle) × ((step l (resumes n) p).held ≡ take 1 p.idle ++ p.held)
unfolding step resume resumed timer_cancelled acquire
resumes-held l n w p s wk r v c =
    let at = suspended_at-get_elem? n p w s in
    let some_idle : 0 < length p.idle =
      ground (arith, v.kept, c.reserved, at.1, le-total holds p.waiters n w at.0) in
    (some_idle, ground (arith, s, acquire_from-held l p.idle true (resumed n w p) some_idle))

-- In a pool of plain connections that was neither reset nor evicted, a suspended waiter that was woken
-- for a returned connection finds an idle one when it resumes, and takes the one that became idle
-- last, whatever came in between: other requests, preconnections, timeouts and cancellations too.
pub resumes-run-new_pool :
    (l : Limits) (es : List Event) (n : ℕ) (w : Waiter)
    → All IsKept es
    → suspended_at n (run l es new_pool) ≡ some w
    → w.woken ≡ true
    → w.reserved_idle ≡ true
    → (0 < length (run l es new_pool).idle)
      × ((step l (resumes n) (run l es new_pool)).held
          ≡ take 1 (run l es new_pool).idle ++ (run l es new_pool).held)
resumes-run-new_pool l es n w a s wk r =
    resumes-held l n w (run l es new_pool) s wk r
      (run-IsReserved l es new_pool a (unfold total in record { kept = omega arith }))
      (run-IsCounted l es new_pool (new_pool-IsCounted l))
