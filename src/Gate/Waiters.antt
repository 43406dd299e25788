-- ===== src/Gate/Waiters.antt =====
-- What becomes of the waiters: every one is marked by the next result; one that suspends only after
-- that is never woken.
use http_client.Prelude.{
  ℕ, suc, ◌<◌, ◌≡◌, ◌≢◌, refl, sym, ap, ◌∙◌, ◌⊎◌, inl, inr, Bool, true, false, ◌||◌, List, [], ◌∷◌,
  ◌++◌, arith, length, remove_if, leb, ltb, Bool-cases, ==_refl, subst,
}
use http_client.Gate.{
  Gate, GateOptions, GateDecision, wait, ProtocolState, unknown, detecting, h1_only, h2_available,
  h2_failed_recently, OverflowPolicy, fallback_h1, wait_detection, enter, enter_in, enter_detecting,
  at_limit, join_waiters, set_protocol, mark_h2_failed, record_h2_origin, wait_for_detection,
  contains,
}
use http_client.Gate.Run.{
  Event, enters, finds_h1, finds_h2, fails_h2, records_h2, suspends, step, run,
}

pub contains-append :
    (w : ℕ) (xs ys : List ℕ) → contains w (xs ++ ys) ≡ (contains w xs || contains w ys)
unfolding contains
contains-append w [] ys = refl
contains-append w (x ∷ xs) ys = ground (arith, contains-append w xs ys)

contains-remove_if :
    (w : ℕ) (p : ℕ → Bool) (xs : List ℕ)
    → p w ≡ false
    → contains w xs ≡ true
    → contains w (remove_if p xs) ≡ true
unfolding contains
contains-remove_if w p [] h e = cc
contains-remove_if w p (x ∷ xs) h e = ground (arith, contains-remove_if w p xs h)

contains-remove_if_not :
    (w : ℕ) (p : ℕ → Bool) (xs : List ℕ) → p w ≡ true → contains w (remove_if p xs) ≡ false
unfolding contains
contains-remove_if_not w p [] h = refl
contains-remove_if_not w p (x ∷ xs) h = ground (arith, contains-remove_if_not w p xs h)

-- The events that end a detection.
pub data IsResult : Event → Type 0 where
  h1 : IsResult finds_h1
  h2 : IsResult finds_h2
  failure : (now : ℕ) → IsResult (fails_h2 now)

-- What `enter` does to the waiters: nothing, or it adds a new one at the end of the queue.
abbrev Same : Gate → Gate → Type 0
Same g g' = (g'.waiters ≡ g.waiters) × (g'.made ≡ g.made)

abbrev Joined : Gate → Gate → Type 0
Joined g g' = (g'.waiters ≡ g.waiters ++ g.made ∷ []) × (g'.made ≡ suc g.made)

abbrev Entered : Gate → GateDecision × Gate → Type 0
Entered g r =
    ((Same g (r.1) × ((w : ℕ) → (r.0).action ≢ wait w))
      ⊎ (Joined g (r.1) × ((r.0).action ≡ wait g.made)))
    × ((r.1).done ≡ g.done)
    × ((r.1).suspended ≡ g.suspended)

join-Entered : (g : Gate) → Entered g (join_waiters g)
unfolding join_waiters
join-Entered g = (inr ((refl, refl), refl), refl, refl)

at_limit-Entered : (p : OverflowPolicy) (g : Gate) → Entered g (at_limit p g)
unfolding at_limit
at_limit-Entered wait_detection g = join-Entered g
at_limit-Entered fallback_h1 g = (inl ((refl, refl), λ w h. cc), refl, refl)

enter_detecting-Entered : (o : GateOptions) (g : Gate) → Entered g (enter_detecting o g)
unfolding enter_detecting join_waiters
enter_detecting-Entered o g = elim (Bool-cases (leb o.origin_waiter_limit (length g.waiters))) [
  | inr e ↦ rw e (join-Entered g)
  | inl e ↦ rw e (at_limit-Entered o.detection_overflow_policy g)
]

enter_in-Entered :
    (p : ProtocolState) (o : GateOptions) (now : ℕ) (g : Gate) → Entered g (enter_in p o now g)
unfolding enter join_waiters
enter_in-Entered h2_available o now g = (inl ((refl, refl), λ w e. cc), refl, refl)
enter_in-Entered h1_only o now g = (inl ((refl, refl), λ w e. cc), refl, refl)
enter_in-Entered h2_failed_recently o now g = elim (Bool-cases (ltb now g.retry_after)) [
  | inl e ↦ rw e (inl ((refl, refl), λ w h. cc), refl, refl)
  | inr e ↦ rw e (inl ((refl, refl), λ w h. cc), refl, refl)
]
enter_in-Entered detecting o now g = enter_detecting-Entered o g
enter_in-Entered unknown o now g = (inl ((refl, refl), λ w e. cc), refl, refl)

enter-Entered : (o : GateOptions) (now : ℕ) (g : Gate) → Entered g (enter o now g)
enter-Entered o now g = unfold enter in enter_in-Entered g.protocol o now g

-- A result marks what is queued and completes the waits on it.
woken :
    (w : ℕ) (waiters done suspended : List ℕ)
    → contains w waiters ≡ true
    → (contains w (waiters ++ done) ≡ true)
      × (contains w (remove_if (λ v. contains v waiters) suspended) ≡ false)
woken w waiters done suspended q = (
  contains-append w waiters done ∙ ap (λ b. b || contains w done) q,
  contains-remove_if_not w (λ v. contains v waiters) suspended q,
)

-- A queued waiter is marked done by the next result, leaves the queue, and is no longer suspended.
pub result_wakes :
    (o : GateOptions) (e : Event) (g : Gate) (w : ℕ)
    → IsResult e
    → contains w g.waiters ≡ true
    → (contains w (step o e g).done ≡ true)
      × (contains w (step o e g).suspended ≡ false)
      × ((step o e g).waiters ≡ [])
unfolding step set_protocol mark_h2_failed
result_wakes o e g w h1 q = let (a, b) = woken w g.waiters g.done g.suspended q in (a, b, refl)
result_wakes o e g w h2 q = let (a, b) = woken w g.waiters g.done g.suspended q in (a, b, refl)
result_wakes o e g w (failure now) q =
    let (a, b) = woken w g.waiters g.done g.suspended q in (a, b, refl)

-- A waiter that is suspended and no longer queued.
abbrev pub IsLost : ℕ → Gate → Type 0
IsLost w g = (w < g.made) × (contains w g.waiters ≡ false) × (contains w g.suspended ≡ true)

contains-cons : (w v : ℕ) (xs : List ℕ) → contains w xs ≡ true → contains w (v ∷ xs) ≡ true
unfolding contains
contains-cons w v xs h = ground arith

keeps_suspended :
    (w : ℕ) (waiters suspended : List ℕ)
    → contains w waiters ≡ false
    → contains w suspended ≡ true
    → contains w (remove_if (λ v. contains v waiters) suspended) ≡ true
keeps_suspended w waiters suspended q s =
    contains-remove_if w (λ v. contains v waiters) suspended q s

contains-snoc :
    (w v : ℕ) (xs : List ℕ) → w < v → contains w xs ≡ false → contains w (xs ++ v ∷ []) ≡ false
unfolding contains
contains-snoc w v [] h q = ground arith
contains-snoc w v (x ∷ xs) h q = ground (arith, contains-snoc w v xs h)

enter-IsLost :
    (g : Gate) (r : GateDecision × Gate) (w : ℕ) → Entered g r → IsLost w g → IsLost w r.1
enter-IsLost g r w (inl ((a, b), c), d, e) (l, m, n) =
    (omega arith, ap (contains w) a ∙ m, ap (contains w) e ∙ n)
enter-IsLost g r w (inr ((a, b), c), d, e) (l, m, n) =
    (omega arith, ap (contains w) a ∙ contains-snoc w g.made g.waiters l m, ap (contains w) e ∙ n)

step-IsLost : (o : GateOptions) (e : Event) (g : Gate) (w : ℕ) → IsLost w g → IsLost w (step o e g)
unfolding step set_protocol mark_h2_failed record_h2_origin wait_for_detection
step-IsLost o (enters now) g w l = enter-IsLost g (enter o now g) w (enter-Entered o now g) l
step-IsLost o finds_h1 g w (l, m, n) =
    (l, unfold contains in refl, keeps_suspended w g.waiters g.suspended m n)
step-IsLost o finds_h2 g w (l, m, n) =
    (l, unfold contains in refl, keeps_suspended w g.waiters g.suspended m n)
step-IsLost o (fails_h2 now) g w (l, m, n) =
    (l, unfold contains in refl, keeps_suspended w g.waiters g.suspended m n)
step-IsLost o records_h2 g w l = l
step-IsLost o (suspends v) g w (l, m, n) = (l, m, contains-cons w v g.suspended n)

run-IsLost :
    (o : GateOptions) (es : List Event) (g : Gate) (w : ℕ) → IsLost w g → IsLost w (run o es g)
unfolding run
run-IsLost o [] g w l = l
run-IsLost o (e ∷ es) g w l = run-IsLost o es (step o e g) w (step-IsLost o e g w l)

contains_first : (w : ℕ) (xs : List ℕ) → contains w (w ∷ xs) ≡ true
unfolding contains
contains_first w xs = rw (==_refl w)

pub contains_last : (w : ℕ) (xs : List ℕ) → contains w (xs ++ w ∷ []) ≡ true
unfolding contains
contains_last w [] = rw (==_refl w)
contains_last w (x ∷ xs) = contains-cons w x (xs ++ w ∷ []) (contains_last w xs)

-- A request that is told to wait is in the queue.
wait_queued :
    (g : Gate) (r : GateDecision × Gate) (w : ℕ)
    → Entered g r
    → (r.0).action ≡ wait w
    → (contains w (r.1).waiters ≡ true) × (w < (r.1).made)
wait_queued g r w (inl (s, c), d, e) a = absurd (c w a)
wait_queued g r w (inr ((x, m), c), d, e) a =
    let same : w ≡ g.made = wait_inj (sym a ∙ c) in
    (
      ap (contains w) x
          ∙ subst (λ v. contains w (g.waiters ++ v ∷ []) ≡ true) same (contains_last w g.waiters),
      omega arith,
    )
  where
    wait_inj : {v v' : ℕ} → wait v ≡ wait v' → v ≡ v'
    wait_inj h = cc

result-made : (o : GateOptions) (e : Event) (g : Gate) → IsResult e → (step o e g).made ≡ g.made
unfolding step set_protocol mark_h2_failed
result-made o e g h1 = refl
result-made o e g h2 = refl
result-made o e g (failure now) = refl

suspend-IsLost :
    (o : GateOptions) (e : Event) (g : Gate) (w : ℕ)
    → IsResult e
    → w < g.made
    → (step o e g).waiters ≡ []
    → IsLost w (wait_for_detection w (step o e g))
unfolding wait_for_detection
suspend-IsLost o e g w r l n = (
  omega (arith, result-made o e g r),
  rw n (unfold contains in refl),
  contains_first w (step o e g).suspended,
)

-- The bug: a request that is told to wait, and whose coroutine suspends on its timer only after the
-- result has come in, is marked done, and stays suspended whatever happens later.
pub wait_after_result :
    (o : GateOptions) (now : ℕ) (g : Gate) (w : ℕ) (e : Event) (es : List Event)
    → ((enter o now g).0).action ≡ wait w
    → IsResult e
    → (contains w (run o (enters now ∷ e ∷ suspends w ∷ []) g).done ≡ true)
      × (contains w (run o (enters now ∷ e ∷ suspends w ∷ es) g).suspended ≡ true)
unfolding run step set_protocol mark_h2_failed record_h2_origin wait_for_detection
wait_after_result o now g w e es a r =
    let (q, l) = wait_queued g (enter o now g) w (enter-Entered o now g) a in
    let (d, s, n) = result_wakes o e (enter o now g).1 w r q in
    (d, (run-IsLost o es _ w (suspend-IsLost o e (enter o now g).1 w r l n)).2)
