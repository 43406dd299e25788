-- ===== src/Pool/Refines.antt =====
-- What a pool promises, as a machine of three numbers, and that the pool keeps to it.
use http_client.Prelude.{
  ℕ, suc, ◌+◌, ◌-◌, ◌<◌, ◌≡◌, ◌⊎◌, refl, ap, ◌∙◌, inl, inr, Bool, true, false, List, [], ◌∷◌, arith,
  length, ltb, Bool-cases, Option-cases,
}
use http_client.Pool.{
  Waiter, Pool, Limits, max_connections, new_pool, first_live, wake_one,
  wake_one_with_idle_reservation, may_take, may_connect, drop_reservation, connect_or_wait,
  acquire_from, acquire,
}
use http_client.Pool.Run.{
  Event, acquires, connected, connect_failed, resets, evicts, resumes, times_out, cancels, returns,
  closes, opened, not_opened, returned, closed, emptied, evict, pool_idle, close_pool_idle,
  may_preconnect, preconnect, stored, finish_preconnect, preconnects, preconnected, finish_connect,
  fail_connect, resume, resumed, lapsed, time_out, cancel_waiter, give_back, give_up,
  reset_connections, suspended_at, timer_cancelled, is_held, step, run,
}
use http_client.Pool.Weights.{length-take_out}
use http_client.Pool.Counts.{IsCounted, step-IsCounted, new_pool-IsCounted}

-- The connections that nobody uses, those in use, and those being opened.
pub record Permits : Type 0 where
  pub free : ℕ
  pub used : ℕ
  pub opening : ℕ

-- A request waits, takes a free connection, or opens one while fewer than `m` are there.
abbrev Acquires : ℕ → Permits → Permits → Type 0
Acquires m s t =
    (t ≡ s)
    ⊎ (((0 < s.free) × (t ≡ record s { free = s.free - 1; used = suc s.used }))
        ⊎ ((s.free + (s.used + s.opening) < m) × (t ≡ record s { opening = suc s.opening })))

-- What each event may do. An event for which there is no connection does nothing.
abbrev pub SpecStep : ℕ → Event → Permits → Permits → Type 0
SpecStep m acquires s t = Acquires m s t
SpecStep m (resumes n) s t = Acquires m s t
SpecStep m connected s t =
    ((s.opening ≡ 0) × (t ≡ s))
    ⊎ ((0 < s.opening) × (t ≡ record s { opening = s.opening - 1; used = suc s.used }))
SpecStep m connect_failed s t =
    ((s.opening ≡ 0) × (t ≡ s)) ⊎ ((0 < s.opening) × (t ≡ record s { opening = s.opening - 1 }))
SpecStep m resets s t = t ≡ record s { free = 0 }
SpecStep m evicts s t = (t ≡ s) ⊎ ((s.used + s.opening ≡ 0) × (t ≡ record s { free = 0 }))
SpecStep m (times_out n) s t = t ≡ s
SpecStep m (cancels n) s t = t ≡ s
SpecStep m (returns c) s t =
    (t ≡ s) ⊎ ((0 < s.used) × (t ≡ record s { free = suc s.free; used = s.used - 1 }))
SpecStep m preconnected s t =
    ((s.opening ≡ 0) × (t ≡ s))
    ⊎ ((0 < s.opening) × (t ≡ record s { opening = s.opening - 1; free = suc s.free }))
SpecStep m (preconnects n) s t =
    (t ≡ s)
    ⊎ ((s.free < n)
        × (s.free + (s.used + s.opening) < m)
        × (t ≡ record s { opening = suc s.opening }))
SpecStep m (closes c) s t = (t ≡ s) ⊎ ((0 < s.used) × (t ≡ record s { used = s.used - 1 }))

-- The machine's runs over a list of events.
pub data SpecRun (m : ℕ) : Permits → List Event → Permits → Type 0 where
  ends : {s : Permits} → SpecRun m s [] s
  steps :
      {e : Event} {es : List Event} {s t u : Permits}
      → SpecStep m e s t
      → SpecRun m t es u
      → SpecRun m s (e ∷ es) u

unfoldable pub permits : Pool → Permits
permits p = record { free = length p.idle; used = length p.held; opening = p.opening }

permits-wake_one : (p : Pool) → permits (wake_one p) ≡ permits p
unfolding permits wake_one
permits-wake_one p = elim (Option-cases (first_live p.waiters p.queue)) [
  | inl e ↦ rw (wake_one, e) refl
  | inr ((n, w), e) ↦ rw (wake_one, e) refl
]

permits-wake_reserved : (p : Pool) → permits (wake_one_with_idle_reservation p) ≡ permits p
unfolding permits wake_one_with_idle_reservation
permits-wake_reserved p = elim (Option-cases (first_live p.waiters p.queue)) [
  | inl e ↦ rw (wake_one_with_idle_reservation, e) refl
  | inr ((n, w), e) ↦ rw (wake_one_with_idle_reservation, e) refl
]

module _ (l : Limits) where
  connect_or_wait-Acquires :
      (woke : Bool) (p : Pool)
      → p.active ≡ length p.idle + (length p.held + p.opening)
      → Acquires (max_connections l) (permits p) (permits (connect_or_wait l woke p))
  unfolding permits connect_or_wait
  connect_or_wait-Acquires woke p v = elim (Bool-cases (may_connect l woke p)) [
    | inl e ↦ rw (connect_or_wait, e) (inr (inr (ground arith, refl)))
    | inr e ↦ rw (connect_or_wait, e) (inl refl)
  ]

  acquire_from-Acquires :
      (idle : List ℕ) (woke has : Bool) (p : Pool)
      → p.idle ≡ idle
      → p.active ≡ length p.idle + (length p.held + p.opening)
      → Acquires (max_connections l) (permits p) (permits (acquire_from idle l woke has p))
  unfolding permits acquire_from
  acquire_from-Acquires [] woke has p e v = connect_or_wait-Acquires woke (drop_reservation has p) v
  acquire_from-Acquires (c ∷ idle) woke has p e v = elim (Bool-cases (may_take woke has p)) [
    | inl h ↦
        let e' : length p.idle ≡ suc (length idle) = ap length e in
        rw (acquire_from, h) (inr (inl (omega arith, ground arith)))
    | inr h ↦ rw (acquire_from, h) (connect_or_wait-Acquires woke p v)
  ]

  resume-Acquires :
      (n : ℕ) (w : Waiter) (p : Pool)
      → p.active ≡ length p.idle + (length p.held + p.opening)
      → Acquires (max_connections l) (permits p) (permits (resume l n w p))
  unfolding permits resume resumed lapsed
  resume-Acquires n w p v = elim (Bool-cases w.woken) [
    | inl e ↦ rw e (acquire_from-Acquires p.idle true w.reserved_idle _ refl v)
    | inr e ↦ rw e (inl refl)
  ]

  permits-cancel : (n : ℕ) (w : Waiter) (p : Pool) → permits (cancel_waiter n w p) ≡ permits p
  unfolding permits cancel_waiter
  permits-cancel n w p = elim (Bool-cases w.cancelled) [ inl e ↦ rw e refl | inr e ↦ rw e refl ]

  preconnect-SpecStep :
      (n : ℕ) (p : Pool)
      → IsCounted l p
      → SpecStep (max_connections l) (preconnects n) (permits p) (permits (preconnect l n p))
  unfolding permits preconnect
  preconnect-SpecStep n p v = elim (Bool-cases (may_preconnect l n p)) [
    | inl e ↦ rw (preconnect, e) (inr (ground arith, ground (arith, v.active), refl))
    | inr e ↦ rw (preconnect, e) (inl refl)
  ]

  evict-SpecStep :
      (p : Pool)
      → IsCounted l p
      → SpecStep (max_connections l) evicts (permits p) (permits (evict p))
  unfolding permits evict close_pool_idle
  evict-SpecStep p v = elim (Bool-cases (pool_idle p)) [
    | inl e ↦ rw (evict, e) (inr (unfold pool_idle in ground (arith, v.active, e), refl))
    | inr e ↦ rw (evict, e) (inl refl)
  ]

  step-SpecStep :
      (e : Event) (p : Pool)
      → IsCounted l p
      → SpecStep (max_connections l) e (permits p) (permits (step l e p))
  unfolding finish_preconnect stored permits step acquire finish_connect fail_connect give_back
      give_up reset_connections opened not_opened returned closed emptied time_out
  step-SpecStep acquires p v = acquire_from-Acquires p.idle false false p refl v.active
  step-SpecStep connected p v = elim (Bool-cases (ltb 0 p.opening)) [
    | inl e ↦ rw e (inr (ground arith, permits-wake_one (opened p)))
    | inr e ↦ rw e (inl (ground arith, refl))
  ]
  step-SpecStep connect_failed p v = elim (Bool-cases (ltb 0 p.opening)) [
    | inl e ↦ rw e (inr (ground arith, permits-wake_one (not_opened p)))
    | inr e ↦ rw e (inl (ground arith, refl))
  ]
  step-SpecStep resets p v = permits-wake_one (emptied p)
  step-SpecStep evicts p v = evict-SpecStep p v
  step-SpecStep (resumes n) p v = elim (Option-cases (suspended_at n p)) [
    | inl e ↦ rw (step, e) (inl refl)
    | inr (w, e) ↦ elim (Bool-cases (timer_cancelled w)) [
      | inl t ↦ rw (step, e, t) (resume-Acquires n w p v.active)
      | inr t ↦ rw (step, e, t) (inl refl)
    ]
  ]
  step-SpecStep (times_out n) p v = elim (Option-cases (suspended_at n p)) [
    | inl e ↦ rw (step, e) refl
    | inr (w, e) ↦ rw (step, e) refl
  ]
  step-SpecStep (cancels n) p v = elim (Option-cases (suspended_at n p)) [
    | inl e ↦ rw (step, e) refl
    | inr (w, e) ↦ rw (step, e) (permits-cancel n w p)
  ]
  step-SpecStep (returns c) p v = elim (Bool-cases (is_held c p.held)) [
    | inl e ↦
        let n = length-take_out c p.held e in
        rw e (inr (omega arith, permits-wake_reserved (returned c p) ∙ ground arith))
    | inr e ↦ rw e (inl refl)
  ]
  step-SpecStep preconnected p v = elim (Bool-cases (ltb 0 p.opening)) [
    | inl e ↦ rw e (inr (ground arith, permits-wake_reserved (stored p)))
    | inr e ↦ rw e (inl (ground arith, refl))
  ]
  step-SpecStep (preconnects n) p v = preconnect-SpecStep n p v
  step-SpecStep (closes c) p v = elim (Bool-cases (is_held c p.held)) [
    | inl e ↦
        let n = length-take_out c p.held e in
        rw e (inr (omega arith, permits-wake_one (closed c p) ∙ ground arith))
    | inr e ↦ rw e (inl refl)
  ]

  run-SpecRun :
      (es : List Event) (p : Pool)
      → IsCounted l p
      → SpecRun (max_connections l) (permits p) es (permits (run l es p))
  unfolding run
  run-SpecRun [] p v = ends
  run-SpecRun (e ∷ es) p v =
      steps (step-SpecStep e p v) (run-SpecRun es (step l e p) (step-IsCounted l e p v))

-- Over any events the numbers of idle connections, of held ones and of openings change as in a machine
-- that knows nothing else: an acquisition waits, takes a free connection if there is one, or opens one
-- while the three numbers together are below `max_connections_per_origin`, which a preconnection does
-- only if fewer are free than it wants; and every other event changes at most one connection, but a reset
-- and, when none is in use or being opened, an eviction, which close the free ones.
pub run-new_pool-SpecRun :
    (l : Limits) (es : List Event)
    → SpecRun
        (max_connections l)
        (record { free = 0; used = 0; opening = 0 })
        es
        (permits (run l es new_pool))
run-new_pool-SpecRun l es = unfold permits in run-SpecRun l es new_pool (new_pool-IsCounted l)
