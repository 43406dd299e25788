-- ===== src/Pool/Starved.antt =====
-- A waiter of a pool whose time runs out stays in the queue: `throw std::runtime_error("h1 pool timeout")`
-- stands before any removal.
use http_client.Prelude.{
  ℕ, ◌≤◌, ◌<◌, ◌≡◌, ◌≢◌, refl, ap, sym, ◌∙◌, subst, inl, inr, true, false, ◌&&◌, List, [], ◌∷◌,
  some, arith, get_elem?, set, if◌then◌else◌, Bool-cases, if-both, All, ==_refl,
}
use http_client.Pool.{
  Waiter, Pool, Limits, new_waiter, first_live, wake_waiter, wake_one_with_idle_reservation,
  may_take, may_connect, connect_or_wait, acquire_from, acquire, take_idle, drop_reservation,
}
use http_client.Pool.Run.{
  Event, resets, evicts, preconnects, times_out, returns, resumed, lapsed, resume, time_out,
  cancel_waiter, give_back, returned, is_held, take_out, suspended_at, step, run,
}
use http_client.Pool.Cases.{step-cases}
use http_client.Pool.Weights.{
  total, total-set, total-append, le-total, get_elem?-set_self, first_live-get_elem?,
  suspended_at-get_elem?,
}

-- No reset, no eviction, and no preconnection.
abbrev pub IsCalm : Event → Type 0
IsCalm e = (e ≢ resets) × (e ≢ evicts) × ((n : ℕ) → e ≢ preconnects n)

-- 1 for a suspended waiter that was woken.
abbrev pub wakes : Waiter → ℕ
wakes w = if w.suspended && w.woken then 1 else 0

-- No connection is held or being opened, one is reserved, and no waiter is woken that could take it.
pub record IsStuck (idle : List ℕ) (p : Pool) : Type 0 where
  pub held : p.held ≡ []
  pub opening : p.opening ≡ 0
  pub reserved : 0 < p.reserved_idle
  pub asleep : total wakes p.waiters ≡ 0
  pub idle_left : p.idle ≡ idle

module _ (idle : List ℕ) (l : Limits) where
  connect_or_wait-IsStuck : (p : Pool) → IsStuck idle p → IsStuck idle (connect_or_wait l false p)
  unfolding connect_or_wait
  connect_or_wait-IsStuck p v = elim (Bool-cases (may_connect l false p)) [
    | inl e ↦ absurd (unfold may_connect in ground (arith, v.reserved))
    | inr e ↦
        rw (connect_or_wait, e)
          (record {
            held = v.held;
            opening = v.opening;
            reserved = v.reserved;
            asleep = omega (arith, v.asleep, total-append wakes p.waiters new_waiter);
            idle_left = v.idle_left;
          })
  ]

  acquire_from-IsStuck :
      (xs : List ℕ) (p : Pool) → IsStuck idle p → IsStuck idle (acquire_from xs l false false p)
  unfolding acquire_from drop_reservation
  acquire_from-IsStuck [] p v = connect_or_wait-IsStuck p v
  acquire_from-IsStuck (c ∷ xs) p v =
      if-both (IsStuck idle) (may_take false false p) (take_idle false c xs p)
        (connect_or_wait l false p) (λ e. absurd (unfold may_take in ground (arith, v.reserved)))
        (λ _. connect_or_wait-IsStuck p v)

  set-IsStuck :
      (p : Pool) (n : ℕ) (w v : Waiter) (queue : List ℕ)
      → get_elem? p.waiters n ≡ some w
      → wakes v ≤ wakes w
      → IsStuck idle p
      → IsStuck idle (record p { waiters = set p.waiters n v; queue = queue })
  set-IsStuck p n w v queue at h s = record {
    held = s.held;
    opening = s.opening;
    reserved = s.reserved;
    asleep = omega (arith, s.asleep, total-set wakes p.waiters n w v at);
    idle_left = s.idle_left;
  }

  resume-IsStuck :
      (n : ℕ) (w : Waiter) (p : Pool)
      → suspended_at n p ≡ some w
      → IsStuck idle p
      → IsStuck idle (resume l n w p)
  unfolding resume lapsed
  resume-IsStuck n w p s v =
      let at = suspended_at-get_elem? n p w s in
      let gone = record w { suspended = false; cancelled = true } in
      if-both (IsStuck idle) w.woken (acquire l true w.reserved_idle (resumed n w p)) (lapsed n w p)
        (λ k. absurd (ground (arith, v.asleep, at.1, le-total wakes p.waiters n w at.0)))
        (λ _. set-IsStuck p n w gone _ at.0 (ground arith) v)

  cancel-IsStuck :
      (n : ℕ) (w : Waiter) (p : Pool)
      → suspended_at n p ≡ some w
      → IsStuck idle p
      → IsStuck idle (cancel_waiter n w p)
  unfolding cancel_waiter
  cancel-IsStuck n w p s v =
      let at = suspended_at-get_elem? n p w s in
      if-both (IsStuck idle) w.cancelled p
        (record p { waiters = set p.waiters n (record w { cancelled = true }) }) (λ _. v)
        (λ _. set-IsStuck p n w (record w { cancelled = true }) p.queue at.0 (omega arith) v)

  time_out-IsStuck :
      (n : ℕ) (w : Waiter) (p : Pool)
      → suspended_at n p ≡ some w
      → IsStuck idle p
      → IsStuck idle (time_out n w p)
  unfolding time_out
  time_out-IsStuck n w p s v =
      set-IsStuck p n w (record w { suspended = false }) p.queue (suspended_at-get_elem? n p w s).0
        (omega arith) v

  not_held : (c : ℕ) (p : Pool) → p.held ≡ [] → is_held c p.held ≡ true → ⊥
  unfolding is_held
  not_held c p e h = let e' = ap (is_held c) e in cc

  step-IsStuck : (e : Event) (p : Pool) → IsCalm e → IsStuck idle p → IsStuck idle (step l e p)
  unfolding acquire
  step-IsStuck e p ne v = step-cases l e p (IsStuck idle) (record {
    same = v;
    acquires = acquire_from-IsStuck p.idle p v;
    connected = λ h. absurd (omega (arith, v.opening));
    connect_failed = λ h. absurd (omega (arith, v.opening));
    resets = λ r. absurd (ne.0 r);
    evicts = λ r. absurd (ne.1 r);
    resumes = λ n w s _. resume-IsStuck n w p s v;
    times_out = λ n w s. time_out-IsStuck n w p s v;
    cancels = λ n w s. cancel-IsStuck n w p s v;
    preconnected = λ h. absurd (omega (arith, v.opening));
    preconnects = λ n r. absurd (ne.2 n r);
    returns = λ c h. absurd (not_held c p v.held h);
    closes = λ c h. absurd (not_held c p v.held h);
  })

  run-IsStuck :
      (es : List Event) (p : Pool) → All IsCalm es → IsStuck idle p → IsStuck idle (run l es p)
  unfolding run
  run-IsStuck [] p a v = v
  run-IsStuck (e ∷ es) p (ne, a) v = run-IsStuck es (step l e p) a (step-IsStuck e p ne v)

first_live_head :
    (ws : List Waiter) (n : ℕ) (queue rest : List ℕ) (w : Waiter)
    → queue ≡ n ∷ rest
    → get_elem? ws n ≡ some w
    → w.cancelled ≡ false
    → first_live ws queue ≡ some (n, w)
unfolding first_live
first_live_head ws n queue rest w q at a = rw (q, first_live, at, a) refl

-- The waiter that is woken is asleep no longer, unless it is gone.
wake_reserved-IsStuck :
    (idle : List ℕ) (p : Pool) (n : ℕ) (w : Waiter)
    → first_live p.waiters p.queue ≡ some (n, w)
    → w.suspended ≡ false
    → p.held ≡ []
    → p.opening ≡ 0
    → p.idle ≡ idle
    → total wakes p.waiters ≡ 0
    → IsStuck idle (wake_one_with_idle_reservation p)
unfolding wake_one_with_idle_reservation wake_waiter
wake_reserved-IsStuck idle p n w e s h o i z =
    let at = first_live-get_elem? p.waiters p.queue n w e in
    let sum = total-set wakes p.waiters n w (wake_waiter (record w { reserved_idle = true })) at in
    rw (wake_one_with_idle_reservation, e)
      (record {
        held = h;
        opening = o;
        reserved = omega arith;
        asleep = ground (arith, s, z, sum);
        idle_left = i;
      })

remove_only : (c : ℕ) (held : List ℕ) → held ≡ c ∷ [] → take_out c held ≡ []
unfolding take_out
remove_only c held h = rw h (rw (==_refl c) refl)

-- The connection comes back behind the timeout of the first waiter, which is woken for it all the same.
returns-IsStuck :
    (p : Pool) (n c : ℕ) (w : Waiter) (rest : List ℕ)
    → p.held ≡ c ∷ []
    → p.opening ≡ 0
    → p.queue ≡ n ∷ rest
    → suspended_at n p ≡ some w
    → w.cancelled ≡ false
    → total wakes p.waiters ≡ 0
    → IsStuck (c ∷ p.idle) (give_back c (time_out n w p))
unfolding give_back returned time_out resumed
returns-IsStuck p n c w rest h o q s a z =
    let at = (suspended_at-get_elem? n p w s).0 in
    let late = record w { suspended = false } in
    let sum = total-set wakes p.waiters n w late at in
    wake_reserved-IsStuck (c ∷ p.idle) (returned c (time_out n w p)) n late
      (first_live_head (set p.waiters n late) n p.queue rest late q
        (get_elem?-set_self p.waiters n w late at) a)
      refl (remove_only c p.held h) o refl (omega arith)

step-times_out :
    (l : Limits) (n : ℕ) (p : Pool) (w : Waiter)
    → suspended_at n p ≡ some w
    → step l (times_out n) p ≡ time_out n w p
unfolding step
step-times_out l n p w s = rw (step, s) refl

step-returns :
    (l : Limits) (c : ℕ) (p : Pool) → p.held ≡ c ∷ [] → step l (returns c) p ≡ give_back c p
unfolding step is_held
step-returns l c p h = rw (step, h) (rw (==_refl c) refl)

-- In a pool of plain connections the wait of the first waiter in the queue runs out while the last
-- connection in use is held by one request, nothing is being opened and no waiter is woken; then the
-- connection comes back. From there on, whatever happens but a reset, an eviction or a preconnection,
-- no request gets a connection or opens one, though all that came back stays idle: the connection is
-- reserved for the waiter that is gone.
pub times_out-returns-starved :
    (l : Limits) (p : Pool) (n c : ℕ) (w : Waiter) (rest : List ℕ) (es : List Event)
    → p.held ≡ c ∷ []
    → p.opening ≡ 0
    → p.queue ≡ n ∷ rest
    → suspended_at n p ≡ some w
    → w.cancelled ≡ false
    → total wakes p.waiters ≡ 0
    → All IsCalm es
    → IsStuck (c ∷ p.idle) (run l (times_out n ∷ returns c ∷ es) p)
unfolding run
times_out-returns-starved l p n c w rest es h o q s a z ne =
    let stuck = returns-IsStuck p n c w rest h o q s a z in
    let back : step l (returns c) (step l (times_out n) p) ≡ give_back c (time_out n w p) =
      ap (step l (returns c)) (step-times_out l n p w s)
      ∙ step-returns l c (time_out n w p) (unfold time_out resumed in h) in
    run-IsStuck (c ∷ p.idle) l es _ ne (subst (IsStuck (c ∷ p.idle)) (sym back) stuck)
