-- ===== src/Policy/Invariant.antt =====
-- What holds of the state below the policy, and is kept by what the policy calls, is kept by the policy.
use http_client.Prelude.{
  ℕ, zero, suc, Bool, true, false, ◌&&◌, ◌||◌, Result, ok, Ensures, Ensures-bind, Ensures-each,
  Ensures-any, Bool-cases, inl, inr,
}
use http_client.Prelude.Int.{ℤ, pos, negsuc, to_nat}
use http_client.Request.{Request}
use http_client.Response.{Response}
use http_client.Policy.{
  Transport, PolicyOptions, RetryStats, Outcome, stop, next, wants_cookie, attach_cookie,
  process_response, apply_hooks, exchange, store_cookies, after_response, follow_chain, attempts,
  wants_retry_status, wants_retry_transport, count_retry, request_with_policy, own_or, flag_or,
  retry_loop,
}

-- The laws that a transport's operations are to have for a predicate on its state.
pub record Preserves (t : Transport) (P : t.World → Type 0) : Type 1 where
  pub sends : (r : Request) (w : t.World) → P w → P (t.raw_request r w).1
  pub asks : (r : Request) (w : t.World) → P w → Ensures (λ p. P p.1) (t.cookie_header r w)
  pub stores :
      (r : Request) (a : Response) (w : t.World) → P w → Ensures P (t.add_from_response r a w)

module _ (t : Transport) (P : t.World → Type 0) (laws : Preserves t P) where
  attach_keeps :
      (o : PolicyOptions) (r : Request) (w : t.World)
      → P w
      → Ensures (λ p. P p.1) (attach_cookie t o r w)
  unfolding attach_cookie
  attach_keeps o r w h = elim (Bool-cases (wants_cookie o r)) [
    | inr e ↦ rw (attach_cookie, e) h
    | inl e ↦
        rw (attach_cookie, e)
          (Ensures-bind (λ p. P p.1) (λ p. P p.1) _ _ (laws.asks r w h) (λ a g. g))
  ]

  store_keeps :
      (o : PolicyOptions) (r : Request) (a : Response) (w : t.World)
      → P w
      → Ensures P (store_cookies t o r a w)
  unfolding store_cookies
  store_keeps o r a w h = elim (Bool-cases (o.enable_cookie_jar && r.use_cookie_jar)) [
    | inr e ↦ rw (store_cookies, e) h
    | inl e ↦ rw (store_cookies, e) (laws.stores r a w h)
  ]

  exchange_keeps :
      (o : PolicyOptions) (k : ℕ) (r : Request) (w : t.World)
      → P w
      → Ensures (λ p. P p.2) (exchange t o k r w)
  unfolding exchange
  exchange_keeps o k r w h =
      Ensures-bind (λ p. P p.1) (λ p. P p.2) _ _ (attach_keeps o r w h)
        λ sent g.
          Ensures-bind P (λ p. P p.2) _ _ (store_keeps o sent.0 _ _ (laws.sends sent.0 sent.1 g))
            λ w' g'.
              Ensures-each (λ p. P p.2)
                (apply_hooks t o.response_hooks
                  (process_response t sent.0 k (t.raw_request sent.0 sent.1).0))
                (λ seen. ok (sent.0, seen, w')) (λ seen. g')

  chain_keeps :
      (o : PolicyOptions) (follow : Bool) (left redirects : ℕ) (r : Request) (w : t.World)
      → P w
      → Ensures (λ p. P p.1) (follow_chain t o follow left redirects r w)
  unfolding follow_chain
  chain_keeps o follow zero redirects r w h =
      Ensures-bind (λ p. P p.2) (λ p. P p.1) _ _ (exchange_keeps o redirects r w h)
        λ round g.
          Ensures-bind (λ _. Unit {0}) (λ p. P p.1) (after_response follow true round.0 round.1) _
            (Ensures-any (after_response follow true round.0 round.1))
            λ outcome _. last outcome round g
    where
      last :
          (outcome : Outcome) (round : Request × Response × t.World)
          → P round.2
          → Ensures
              (λ p. P p.1)
              (elim outcome as (λ _. Result (Response × t.World)) [
                | stop a ↦ ok (a, round.2)
                | next q ↦ ok (round.1, round.2)
              ])
      last (stop a) round g = g
      last (next q) round g = g
  chain_keeps o follow (suc left) redirects r w h =
      Ensures-bind (λ p. P p.2) (λ p. P p.1) _ _ (exchange_keeps o redirects r w h)
        λ round g.
          Ensures-bind (λ _. Unit {0}) (λ p. P p.1) (after_response follow false round.0 round.1) _
            (Ensures-any (after_response follow false round.0 round.1))
            λ outcome _. again (chain_keeps o follow left (suc redirects)) outcome round g
    where
      again :
          ((q : Request) (v : t.World)
            → P v
            → Ensures (λ p. P p.1) (follow_chain t o follow left (suc redirects) q v))
          → (outcome : Outcome) (round : Request × Response × t.World) → P round.2
          → Ensures
              (λ p. P p.1)
              (elim outcome as (λ _. Result (Response × t.World)) [
                | stop a ↦ ok (a, round.2)
                | next q ↦ follow_chain t o follow left (suc redirects) q round.2
              ])
      again ih (stop a) round g = g
      again ih (next q) round g = ih q round.2 g

  attempts_keeps :
      (o : PolicyOptions) (follow : Bool) (left n : ℕ) (r : Request) (w : t.World) (s : RetryStats)
      → P w
      → Ensures (λ p. P p.1) (attempts t o follow left n r w s)
  unfolding attempts
  attempts_keeps o follow left zero r w s h =
      Ensures-bind (λ p. P p.1) (λ p. P p.1) _ _ (chain_keeps o follow left 0 r w h) (λ p g. g)
  attempts_keeps o follow left (suc n) r w s h =
      Ensures-bind (λ p. P p.1) (λ p. P p.1) _ _ (chain_keeps o follow left 0 r w h)
        λ done g.
          split (attempts_keeps o follow left n r) done g (wants_retry_status o r done.0)
            (wants_retry_status o r done.0 || wants_retry_transport r done.0)
    where
      split :
          ((v : t.World) (s' : RetryStats)
            → P v
            → Ensures (λ p. P p.1) (attempts t o follow left n r v s'))
          → (done : Response × t.World) → P done.1
          → (again both : Bool)
          → Ensures
              (λ p. P p.1)
              (elim both as (λ _. Result (Response × t.World × RetryStats)) [
                | false ↦ ok (done.0, done.1, s)
                | true ↦ attempts t o follow left n r done.1 (count_retry again s)
              ])
      split ih done g again false = g
      split ih done g again true = ih done.1 (count_retry again s) g

  -- A call of the policy that returns keeps what its transport's operations keep.
  pub request_with_policy-Preserves :
      (o : PolicyOptions) (r : Request) (w : t.World) (s : RetryStats)
      → P w
      → Ensures (λ p. P p.1) (request_with_policy t o r w s)
  unfolding request_with_policy
  request_with_policy-Preserves o r w s h = go (own_or r.max_retries o.max_retries)
    where
      go :
          (n : ℤ)
          → Ensures
              (λ p. P p.1)
              (retry_loop t n o
                (flag_or r.follow_redirects o.follow_redirects)
                (to_nat (own_or r.max_redirects o.max_redirects))
                r
                w
                s)
      go (pos n) =
          attempts_keeps o (flag_or r.follow_redirects o.follow_redirects)
            (to_nat (own_or r.max_redirects o.max_redirects)) n r w s h
      go (negsuc n) = h
