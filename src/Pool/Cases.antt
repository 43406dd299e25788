-- ===== src/Pool/Cases.antt =====
-- The cases of one step of a pool, for a property of the next state.
use http_client.Prelude.{
  ℕ, ◌<◌, ◌≡◌, refl, inl, inr, true, false, some, arith, ltb, Bool-cases, Option-cases,
}
use http_client.Pool.{Waiter, Pool, Limits, acquire}
use http_client.Pool.Run.{
  Event, acquires, connected, connect_failed, resets, evicts, resumes, times_out, cancels, returns,
  closes, preconnects, preconnected, preconnect, finish_preconnect, finish_connect, fail_connect,
  resume, time_out, cancel_waiter, give_back, give_up, reset_connections, evict, suspended_at,
  timer_cancelled, is_held, step,
}

-- What has to be shown of each part of the code; `resets` and
-- its like only where that is the event.
pub record StepCases {κ} (l : Limits) (e : Event) (p : Pool) (Q : Pool → Type κ) : Type κ where
  pub same : Q p
  pub acquires : Q (acquire l false false p)
  pub connected : 0 < p.opening → Q (finish_connect p)
  pub connect_failed : 0 < p.opening → Q (fail_connect p)
  pub resets : e ≡ Event.resets → Q (reset_connections p)
  pub evicts : e ≡ Event.evicts → Q (evict p)
  pub resumes :
      (n : ℕ) (w : Waiter)
      → suspended_at n p ≡ some w
      → timer_cancelled w ≡ true
      → Q (resume l n w p)
  pub times_out : (n : ℕ) (w : Waiter) → suspended_at n p ≡ some w → Q (time_out n w p)
  pub cancels : (n : ℕ) (w : Waiter) → suspended_at n p ≡ some w → Q (cancel_waiter n w p)
  pub returns : (c : ℕ) → is_held c p.held ≡ true → Q (give_back c p)
  pub preconnected : 0 < p.opening → Q (finish_preconnect p)
  pub preconnects : (n : ℕ) → e ≡ Event.preconnects n → Q (preconnect l n p)
  pub closes : (c : ℕ) → is_held c p.held ≡ true → Q (give_up c p)

pub step-cases {κ} :
    (l : Limits) (e : Event) (p : Pool) (Q : Pool → Type κ) → StepCases l e p Q → Q (step l e p)
unfolding step
step-cases l acquires p Q k = k.acquires
step-cases l connected p Q k = elim (Bool-cases (ltb 0 p.opening)) [
  | inl e ↦ rw e (k.connected (ground arith))
  | inr e ↦ rw e k.same
]
step-cases l connect_failed p Q k = elim (Bool-cases (ltb 0 p.opening)) [
  | inl e ↦ rw e (k.connect_failed (ground arith))
  | inr e ↦ rw e k.same
]
step-cases l resets p Q k = k.resets refl
step-cases l evicts p Q k = k.evicts refl
step-cases l (resumes n) p Q k = elim (Option-cases (suspended_at n p)) [
  | inl e ↦ rw (step, e) k.same
  | inr (w, e) ↦ elim (Bool-cases (timer_cancelled w)) [
    | inl t ↦ rw (step, e, t) (k.resumes n w e t)
    | inr t ↦ rw (step, e, t) k.same
  ]
]
step-cases l (times_out n) p Q k = elim (Option-cases (suspended_at n p)) [
  | inl e ↦ rw (step, e) k.same
  | inr (w, e) ↦ rw (step, e) (k.times_out n w e)
]
step-cases l (cancels n) p Q k = elim (Option-cases (suspended_at n p)) [
  | inl e ↦ rw (step, e) k.same
  | inr (w, e) ↦ rw (step, e) (k.cancels n w e)
]
step-cases l (returns c) p Q k = elim (Bool-cases (is_held c p.held)) [
  | inl e ↦ rw e (k.returns c e)
  | inr e ↦ rw e k.same
]
step-cases l preconnected p Q k = elim (Bool-cases (ltb 0 p.opening)) [
  | inl e ↦ rw e (k.preconnected (ground arith))
  | inr e ↦ rw e k.same
]
step-cases l (preconnects n) p Q k = k.preconnects n refl
step-cases l (closes c) p Q k = elim (Bool-cases (is_held c p.held)) [
  | inl e ↦ rw e (k.closes c e)
  | inr e ↦ rw e k.same
]
