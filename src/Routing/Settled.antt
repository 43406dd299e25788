-- ===== src/Routing/Settled.antt =====
-- What `detect_route` and its relatives leave in the gate of the origin.
use http_client.Prelude.{
  ◌<◌, ◌≤◌, ◌&&◌, leb, ltb, if-both, arith, ℕ, false, [], ◌≡◌, ◌≢◌, refl, ap, sym, subst, ◌∙◌, inl,
  inr, Option, none, some, Bytes, Result, ok, err, ◌==◌, is_nil, Bool-cases, ==_refl, ok-injective,
  err-ne-ok,
}
use http_client.Request.{Request}
use http_client.Response.{Response}
use http_client.Url.{origin_key}
use http_client.Gate.{
  Gate, new_gate, GateOptions, detecting, h1_only, h2_available, use_h1, enter, set_protocol,
  mark_h2_failed,
}
use http_client.Origins.{OriginCache, get_gate, remember_route}
use http_client.Origins.Evict.{get_gate-gates}
use http_client.Routing.{
  with_origins, blocked_in, Router, Call, ProbeResult, Clients, and_then, is_h2, is_adopted,
  at_gate, gate_of, note_failure, request_h2, found_h2, found_h1, remember, store_route,
  after_probe, after_h2, detect_route,
}

-- No detection runs, nobody waits for one, and the origin may be evicted.
pub record IsSettled (s : Gate) : Type 0 where
  pub protocol : s.protocol ≢ detecting
  pub waiters : s.waiters ≡ []
  pub eviction_blocked : s.eviction_blocked ≡ false

set_h2-IsSettled : (s : Gate) → IsSettled (set_protocol h2_available s)
unfolding set_protocol
set_h2-IsSettled s = record { protocol = λ e. cc; waiters = refl; eviction_blocked = refl }

set_h1-IsSettled : (s : Gate) → IsSettled (set_protocol h1_only s)
unfolding set_protocol
set_h1-IsSettled s = record { protocol = λ e. cc; waiters = refl; eviction_blocked = refl }

failed-IsSettled : (o : GateOptions) (now : ℕ) (s : Gate) → IsSettled (mark_h2_failed o now s)
unfolding mark_h2_failed
failed-IsSettled o now s = record { protocol = λ e. cc; waiters = refl; eviction_blocked = refl }

new_gate-IsSettled : IsSettled new_gate
new_gate-IsSettled = record { protocol = λ e. cc; waiters = refl; eviction_blocked = refl }

module _ (t : Clients) (g : ℕ) where
  open t use {World, now, h1_request, h1_probe, h2_request, gate_options, cache_options}

  -- While a client is at work on this request, nothing else happens to the gate.
  pub record LeavesGate : Type 0 where
    pub h1 : (q : Request) (r : Router World) → (h1_request q r).1.gates g ≡ r.gates g
    pub probe : (q : Request) (r : Router World) → (h1_probe q r).1.gates g ≡ r.gates g
    pub h2 : (q : Request) (r : Router World) → (h2_request q r).1.gates g ≡ r.gates g

  -- The number of a gate that has been made is not given again.
  pub record KeepsNumbers : Type 0 where
    pub probe : (q : Request) (r : Router World) → r.origins.gates ≤ (h1_probe q r).1.origins.gates
    pub h2 : (q : Request) (r : Router World) → r.origins.gates ≤ (h2_request q r).1.origins.gates

  with_origins-kept :
      (c : OriginCache) (r : Router World)
      → g < r.origins.gates
      → (with_origins t c r).gates g ≡ r.gates g
  unfolding with_origins
  with_origins-kept c r h = ground (arith, h)

  with_origins-IsSettled :
      (c : OriginCache) (r : Router World)
      → IsSettled (r.gates g)
      → IsSettled ((with_origins t c r).gates g)
  unfolding with_origins
  with_origins-IsSettled c r h =
      if-both IsSettled (leb r.origins.gates g && ltb g c.gates) new_gate (r.gates g)
        (λ _. new_gate-IsSettled) (λ _. h)

  at_gate_self : (f : Gate → Gate) (r : Router World) → (at_gate t g f r).gates g ≡ f (r.gates g)
  unfolding at_gate
  at_gate_self f r = rw (==_refl g) refl

  at_gate-IsSettled :
      (n : ℕ) (f : Gate → Gate) (r : Router World)
      → ((s : Gate) → IsSettled (f s))
      → IsSettled (r.gates g)
      → IsSettled ((at_gate t n f r).gates g)
  unfolding at_gate
  at_gate-IsSettled n f r h k = elim (Bool-cases (g == n)) [
    | inl e ↦ rw e (h (r.gates g))
    | inr e ↦ rw e k
  ]

  note_failure-IsSettled :
      (key : Bytes) (response : Response) (r : Router World)
      → IsSettled (r.gates g)
      → IsSettled ((note_failure t key false response r).1.gates g)
  unfolding note_failure gate_of
  note_failure-IsSettled key response r h = elim (Bool-cases (is_nil response.error)) [
    | inl e ↦ rw e h
    | inr e ↦ rw e (
        at_gate-IsSettled (gate_of t key r).0 (mark_h2_failed gate_options (now r.world))
          (gate_of t key r).1 (failed-IsSettled gate_options (now r.world))
          (with_origins-IsSettled
            (get_gate cache_options (blocked_in t r) (now r.world) key r.origins).1 r h))
  ]

  and_then-ok :
      {A B : Type 0} (m : Result A × Router World) (next : A → Call World B) (a : A)
      → m.0 ≡ ok a
      → and_then m next ≡ next a m.1
  and_then-ok (ok b, r) next a e = ap (λ x. next x r) (ok-injective e)
  and_then-ok (err b, r) next a e = absurd (err-ne-ok e)

  -- What holds behind a call, and what of it behind what follows, which an exception skips.
  and_then-holds :
      {A B : Type 0} (P Q : Router World → Type 0) (m : Result A × Router World)
      (next : A → Call World B)
      → P m.1
      → ((r : Router World) → P r → Q r)
      → ((a : A) (r : Router World) → m.0 ≡ ok a → P r → Q (next a r).1)
      → Q (and_then m next).1
  and_then-holds P Q (ok a, r) next h w k = k a r refl h
  and_then-holds P Q (err e, r) next h w k = w r h

  and_then-IsSettled :
      {A B : Type 0} (m : Result A × Router World) (next : A → Call World B)
      → IsSettled (m.1.gates g)
      → ((a : A) (r : Router World) → IsSettled (r.gates g) → IsSettled ((next a r).1.gates g))
      → IsSettled ((and_then m next).1.gates g)
  and_then-IsSettled m next h k =
      and_then-holds (λ r. IsSettled (r.gates g)) (λ r. IsSettled (r.gates g)) m next h (λ r v. v)
        (λ a r _. k a r)

  kept-IsSettled : {s s' : Gate} → s' ≡ s → IsSettled s → IsSettled s'
  kept-IsSettled e h = subst IsSettled (sym e) h

  request_h2-IsSettled :
      (request : Request) (r : Router World)
      → LeavesGate
      → IsSettled (r.gates g)
      → IsSettled ((request_h2 t request false r).1.gates g)
  unfolding request_h2
  request_h2-IsSettled request r q h =
      and_then-IsSettled (origin_key request.url, r) _ h
        (λ key r' h'.
          and_then-IsSettled (h2_request request r') (note_failure t key false)
            (kept-IsSettled (q.h2 request r') h') (note_failure-IsSettled key))

  found_h2-IsSettled :
      (key : Bytes) (url : Option Bytes) (r : Router World)
      → IsSettled ((found_h2 t g key url r).gates g)
  unfolding found_h2 at_gate
  found_h2-IsSettled key none r = rw (==_refl g) (set_h2-IsSettled _)
  found_h2-IsSettled key (some u) r = rw (==_refl g) (set_h2-IsSettled _)

  found_h1-kept :
      (key : Bytes) (url : Option Bytes) (r : Router World)
      → g < r.origins.gates
      → (found_h1 t key url r).gates g ≡ r.gates g
  unfolding found_h1 remember store_route
  found_h1-kept key none r h =
      with_origins-kept
        (remember_route cache_options (blocked_in t r) (now r.world) key h1_only r.origins) r h
  found_h1-kept key (some u) r h =
      with_origins-kept
        (remember_route cache_options (blocked_in t r) (now r.world) key h1_only r.origins) r h

  found_h1-IsSettled :
      (key : Bytes) (url : Option Bytes) (r : Router World)
      → IsSettled (r.gates g)
      → IsSettled ((found_h1 t key url r).gates g)
  unfolding found_h1 remember store_route
  found_h1-IsSettled key none r h =
      with_origins-IsSettled
        (remember_route cache_options (blocked_in t r) (now r.world) key h1_only r.origins) r h
  found_h1-IsSettled key (some u) r h =
      with_origins-IsSettled
        (remember_route cache_options (blocked_in t r) (now r.world) key h1_only r.origins) r h

  after_probe-IsSettled :
      (key : Bytes) (url : Option Bytes) (request : Request) (probe : ProbeResult)
      (r : Router World)
      → LeavesGate
      → IsSettled (r.gates g)
      → IsSettled ((after_probe t g key url request probe r).1.gates g)
  unfolding after_probe
  after_probe-IsSettled key url request probe r q h = elim (Bool-cases (is_adopted probe)) [
    | inl e ↦ rw e (found_h1-IsSettled key url r h)
    | inr e ↦ elim (Bool-cases (is_h2 probe.protocol)) [
      | inl e' ↦
          rw (e, e')
            (request_h2-IsSettled request (found_h2 t g key url r) q (found_h2-IsSettled key url r))
      | inr e' ↦ rw (e, e') (kept-IsSettled (q.h1 request r) h)
    ]
  ]

  after_h2-IsSettled :
      (key : Bytes) (url : Option Bytes) (failed : Gate → Gate) (request : Request)
      (response : Response) (r : Router World)
      → LeavesGate
      → ((s : Gate) → IsSettled (failed s))
      → IsSettled ((after_h2 t g key url failed request response r).1.gates g)
  unfolding after_h2
  after_h2-IsSettled key url failed request response r q f =
      elim (Bool-cases (is_nil response.error)) [
        | inl e ↦ rw e (found_h2-IsSettled key url r)
        | inr e ↦ rw e (
            and_then-IsSettled (h1_probe request (at_gate t g failed r))
              (after_probe t g key url request)
              (kept-IsSettled (q.probe request _ ∙ at_gate_self failed r) (f (r.gates g)))
              (λ probe r' h. after_probe-IsSettled key url request probe r' q h))
      ]

  -- A detection, whose first try over HTTP/2 returns, leaves the gate settled, whatever the clients
  -- answer or throw behind it, if nothing else happens to the gate meanwhile.
  pub detect_route-IsSettled :
      (key : Bytes) (request : Request) (response : Response) (r : Router World)
      → LeavesGate
      → (request_h2 t request false r).0 ≡ ok response
      → IsSettled ((detect_route t g key request r).1.gates g)
  unfolding detect_route
  detect_route-IsSettled key request response r q e =
      rw (and_then-ok (request_h2 t request false r) _ response e) (
        after_h2-IsSettled key (some request.url) (set_protocol h1_only) request response
          (request_h2 t request false r).1 q set_h1-IsSettled)

  enter_h1 :
      (o : GateOptions) (time : ℕ) (s : Gate)
      → s.protocol ≡ h1_only
      → (enter o time s).0.action ≡ use_h1
  unfolding enter
  enter_h1 o time s h = rw h refl

  at_gate-h1 :
      (r : Router World) → ((at_gate t g (set_protocol h1_only) r).gates g).protocol ≡ h1_only
  unfolding at_gate set_protocol
  at_gate-h1 r = rw (==_refl g) refl

  -- The gate has been made.
  abbrev HasGate : Router World → Type 0
  HasGate r = g < r.origins.gates

  -- It keeps to HTTP/1.1, too.
  abbrev IsH1 : Router World → Type 0
  IsH1 r = ((r.gates g).protocol ≡ h1_only) × (g < r.origins.gates)

  after_probe-IsH1 :
      (key : Bytes) (url : Option Bytes) (request : Request) (probe : ProbeResult)
      (r : Router World)
      → LeavesGate
      → is_h2 probe.protocol ≡ false
      → IsH1 r
      → ((after_probe t g key url request probe r).1.gates g).protocol ≡ h1_only
  unfolding after_probe
  after_probe-IsH1 key url request probe r q n h = elim (Bool-cases (is_adopted probe)) [
    | inl e ↦ rw (e, found_h1-kept key url r h.1) h.0
    | inr e ↦ rw (e, n) (ap Gate.protocol (q.h1 request r) ∙ h.0)
  ]

  note_failure-made :
      (key : Bytes) (response : Response) (r : Router World)
      → g < r.origins.gates
      → g < (note_failure t key false response r).1.origins.gates
  unfolding note_failure gate_of with_origins at_gate
  note_failure-made key response r h = elim (Bool-cases (is_nil response.error)) [
    | inl e ↦ rw e h
    | inr e ↦ rw e (
        omega (arith, h, get_gate-gates cache_options (blocked_in t r) (now r.world) key r.origins))
  ]

  request_h2-made :
      (request : Request) (r : Router World)
      → KeepsNumbers
      → g < r.origins.gates
      → g < (request_h2 t request false r).1.origins.gates
  unfolding request_h2
  request_h2-made request r q h =
      and_then-holds HasGate HasGate (origin_key request.url, r) _ h (λ s k. k)
        (λ key r' _ h'.
          and_then-holds HasGate HasGate (h2_request request r') (note_failure t key false)
            (omega (arith, h', q.h2 request r')) (λ s k. k)
            (λ response s _ k. note_failure-made key response s k))

  -- After a detection whose first try over HTTP/2 fails, and whose probe does not speak HTTP/2, whether
  -- it fails as well or not, the gate keeps to HTTP/1.1 at every time, whatever `h2_failure_ttl`, if
  -- nothing else happens to the gate, which has been made, and no number of a gate is given twice.
  pub detect_route-enter :
      (o : GateOptions) (time : ℕ) (key : Bytes) (request : Request) (response : Response)
      (r : Router World)
      → LeavesGate
      → KeepsNumbers
      → g < r.origins.gates
      → (request_h2 t request false r).0 ≡ ok response
      → is_nil response.error ≡ false
      → ((q : Request) (s : Router World) (p : ProbeResult)
          → (h1_probe q s).0 ≡ ok p
          → is_h2 p.protocol ≡ false)
      → (enter o time ((detect_route t g key request r).1.gates g)).0.action ≡ use_h1
  unfolding detect_route after_h2
  detect_route-enter o time key request response r q k made e failed no_h2 =
      let r' = at_gate t g (set_protocol h1_only) (request_h2 t request false r).1 in
      let made' = request_h2-made request r k made in
      rw (and_then-ok (request_h2 t request false r) _ response e, failed)
        (enter_h1 o time _ (
          and_then-holds IsH1 (λ s. (s.gates g).protocol ≡ h1_only) (h1_probe request r')
            (after_probe t g key (some request.url) request)
            (
              ap Gate.protocol (q.probe request r') ∙ at_gate-h1 (request_h2 t request false r).1,
              unfold at_gate in omega (arith, made', k.probe request r'),
            )
            (λ s v. v.0)
            (λ probe s p v.
              after_probe-IsH1 key (some request.url) request probe s q (no_h2 request r' probe p)
                v)))
