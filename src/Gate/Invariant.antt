-- ===== src/Gate/Invariant.antt =====
-- The gate's invariant over every run.
use http_client.Prelude.{
  ℕ, suc, ◌≤◌, ◌<◌, ◌≡◌, refl, ap, ◌∙◌, ◌⊎◌, inl, inr, Bool, true, false, ◌||◌, List, [], ◌∷◌, ◌++◌,
  arith, length, length-append, leb, ltb, subst, ◌==◌, Bool-cases,
}
use http_client.Gate.{
  Gate, GateOptions, ProtocolState, unknown, detecting, h1_only, h2_available, h2_failed_recently,
  OverflowPolicy, fallback_h1, wait_detection, enter, enter_in, enter_detecting, at_limit,
  join_waiters, set_protocol, mark_h2_failed, record_h2_origin, wait_for_detection, new_gate,
  contains,
}
use http_client.Gate.Run.{
  Event, enters, finds_h1, finds_h2, fails_h2, records_h2, suspends, step, run,
}
use http_client.Gate.Waiters.{contains-append, contains_last}

-- Whether the gate detects.
abbrev is_detecting : ProtocolState → Bool
is_detecting unknown = false
is_detecting detecting = true
is_detecting h2_available = false
is_detecting h1_only = false
is_detecting h2_failed_recently = false

-- Only a detection has waiters and keeps its origin from eviction; under `FallbackH1` the queue keeps to
-- the limit; and every waiter ever made is queued or marked done.
pub record IsValid (o : GateOptions) (g : Gate) : Type 0 where
  pub queue : (g.protocol ≡ detecting) ⊎ (g.waiters ≡ [])
  pub blocked : g.eviction_blocked ≡ is_detecting g.protocol
  pub bounded :
      (o.detection_overflow_policy ≡ wait_detection) ⊎ (length g.waiters ≤ o.origin_waiter_limit)
  pub kept : (w : ℕ) → w < g.made → (contains w g.waiters || contains w g.done) ≡ true

kept_join :
    (w n : ℕ) (waiters done : List ℕ)
    → ((v : ℕ) → v < n → (contains v waiters || contains v done) ≡ true)
    → w < suc n
    → (contains w (waiters ++ n ∷ []) || contains w done) ≡ true
kept_join w n waiters done k h = elim (Bool-cases (w == n)) [
  | inl e ↦
      let same : w ≡ n = ground arith in
      subst (λ (x : ℕ). (contains w (waiters ++ x ∷ []) || contains w done) ≡ true) same
        (ap (λ b. b || contains w done) (contains_last w waiters))
  | inr e ↦ ground (arith, contains-append w waiters (n ∷ []), k w)
]

kept_notify :
    (w : ℕ) (waiters done : List ℕ)
    → (contains w waiters || contains w done) ≡ true
    → (contains w [] || contains w (waiters ++ done)) ≡ true
unfolding contains
kept_notify w waiters done k = contains-append w waiters done ∙ k

join-IsValid :
    (o : GateOptions) (g : Gate)
    → g.protocol ≡ detecting
    → (o.detection_overflow_policy ≡ wait_detection) ⊎ (length g.waiters < o.origin_waiter_limit)
    → IsValid o g
    → IsValid o (join_waiters g).1
unfolding join_waiters
join-IsValid o g d b v = record {
  queue = inl d;
  blocked = v.blocked;
  bounded = bounded_join b;
  kept = λ w h. kept_join w g.made g.waiters g.done v.kept h;
}
  where
    bounded_join :
        (o.detection_overflow_policy ≡ wait_detection) ⊎ (length g.waiters < o.origin_waiter_limit)
        → (o.detection_overflow_policy ≡ wait_detection)
          ⊎ (length (g.waiters ++ g.made ∷ []) ≤ o.origin_waiter_limit)
    bounded_join (inl e) = inl e
    bounded_join (inr e) = inr (omega (arith, length-append g.waiters (g.made ∷ [])))

at_limit-IsValid :
    (p : OverflowPolicy) (o : GateOptions) (g : Gate)
    → o.detection_overflow_policy ≡ p
    → g.protocol ≡ detecting
    → IsValid o g
    → IsValid o (at_limit p g).1
unfolding at_limit
at_limit-IsValid wait_detection o g h d v = join-IsValid o g d (inl h) v
at_limit-IsValid fallback_h1 o g h d v = v

enter_detecting-IsValid :
    (o : GateOptions) (g : Gate)
    → g.protocol ≡ detecting
    → IsValid o g
    → IsValid o (enter_detecting o g).1
unfolding enter_detecting
enter_detecting-IsValid o g d v = elim (Bool-cases (leb o.origin_waiter_limit (length g.waiters))) [
  | inr e ↦ rw e (join-IsValid o g d (inr (ground arith)) v)
  | inl e ↦ rw e (at_limit-IsValid o.detection_overflow_policy o g refl d v)
]

enter_in-IsValid :
    (p : ProtocolState) (o : GateOptions) (now : ℕ) (g : Gate)
    → g.protocol ≡ p
    → IsValid o g
    → IsValid o (enter_in p o now g).1
unfolding enter
enter_in-IsValid h2_available o now g e v = v
enter_in-IsValid h1_only o now g e v = v
enter_in-IsValid h2_failed_recently o now g e v = elim (Bool-cases (ltb now g.retry_after)) [
  | inl q ↦ rw q v
  | inr q ↦ rw q (record { queue = inl refl; blocked = refl; bounded = v.bounded; kept = v.kept })
]
enter_in-IsValid detecting o now g e v = enter_detecting-IsValid o g e v
enter_in-IsValid unknown o now g e v = record {
  queue = inl refl;
  blocked = refl;
  bounded = v.bounded;
  kept = v.kept;
}

enter-IsValid : (o : GateOptions) (now : ℕ) (g : Gate) → IsValid o g → IsValid o (enter o now g).1
enter-IsValid o now g v = unfold enter in enter_in-IsValid g.protocol o now g refl v

no_waiters :
    (o : GateOptions) → (o.detection_overflow_policy ≡ wait_detection) ⊎ (0 ≤ o.origin_waiter_limit)
no_waiters o = inr (omega arith)

pub step-IsValid : (o : GateOptions) (e : Event) (g : Gate) → IsValid o g → IsValid o (step o e g)
unfolding step set_protocol mark_h2_failed record_h2_origin wait_for_detection
step-IsValid o (enters now) g v = enter-IsValid o now g v
step-IsValid o finds_h1 g v = record {
  queue = inr refl;
  blocked = refl;
  bounded = no_waiters o;
  kept = λ w h. kept_notify w g.waiters g.done (v.kept w h);
}
step-IsValid o finds_h2 g v = record {
  queue = inr refl;
  blocked = refl;
  bounded = no_waiters o;
  kept = λ w h. kept_notify w g.waiters g.done (v.kept w h);
}
step-IsValid o (fails_h2 now) g v = record {
  queue = inr refl;
  blocked = refl;
  bounded = no_waiters o;
  kept = λ w h. kept_notify w g.waiters g.done (v.kept w h);
}
step-IsValid o records_h2 g v = record {
  queue = v.queue;
  blocked = v.blocked;
  bounded = v.bounded;
  kept = v.kept;
}
step-IsValid o (suspends w) g v = record {
  queue = v.queue;
  blocked = v.blocked;
  bounded = v.bounded;
  kept = v.kept;
}

run-IsValid : (o : GateOptions) (es : List Event) (g : Gate) → IsValid o g → IsValid o (run o es g)
unfolding run
run-IsValid o [] g v = v
run-IsValid o (e ∷ es) g v = run-IsValid o es (step o e g) (step-IsValid o e g v)

new_gate-IsValid : (o : GateOptions) → IsValid o new_gate
new_gate-IsValid o = record {
  queue = inr refl;
  blocked = refl;
  bounded = no_waiters o;
  kept = λ w h. absurd (omega arith);
}

-- After any sequence of operations on a new gate: there are waiters only while a detection runs; the
-- origin is kept from eviction exactly then; unless the policy is to wait, the waiters number at most
-- `origin_waiter_limit`; and every waiter ever made is still queued or is marked done.
pub run-new_gate-IsValid : (o : GateOptions) (es : List Event) → IsValid o (run o es new_gate)
run-new_gate-IsValid o es = run-IsValid o es new_gate (new_gate-IsValid o)
