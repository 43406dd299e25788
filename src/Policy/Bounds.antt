-- ===== src/Policy/Bounds.antt =====
-- How many requests the policy may send: a transport that counts the calls of `raw_request`.
use http_client.Prelude.{
  ℕ, zero, suc, ◌+◌, ◌*◌, ◌≤◌, ◌<◌, ◌≡◌, ◌≢◌, refl, ap, ◌∙◌, inl, inr, Bool, true, false, ◌&&◌,
  ◌||◌, Result, ok, err, Ensures, Ensures-bind, Ensures-each, Ensures-any, Ensures-mono, arith,
  Bool-cases,
}
use http_client.Prelude.Int.{pos, to_nat}
use http_client.Request.{Request}
use http_client.Response.{Response}
use http_client.Policy.{
  Transport, PolicyOptions, RetryStats, Outcome, stop, next, wants_cookie, attach_cookie,
  process_response, apply_hooks, exchange, store_cookies, after_response, on_location, follow_chain,
  attempts, wants_retry_status, wants_retry_transport, count_retry, request_with_policy, own_or,
  flag_or,
}

-- A result of the second state, with the count beside it.
pub keep_count : {A W : Type 0} → ℕ → Result (A × W) → Result (A × (W × ℕ))
keep_count n (ok (a, w)) = ok (a, (w, n))
keep_count n (err e) = err e

pub keep_world : {W : Type 0} → ℕ → Result W → Result (W × ℕ)
keep_world n (ok w) = ok (w, n)
keep_world n (err e) = err e

-- The same transport, which also counts the requests that it is given.
abbrev pub counting : Transport → Transport
counting t = record {
  World = t.World × ℕ;
  raw_request = λ r w. let answer = t.raw_request r w.0 in (answer.0, (answer.1, suc w.1));
  cookie_header = λ r w. keep_count w.1 (t.cookie_header r w.0);
  add_from_response = λ r a w. keep_world w.1 (t.add_from_response r a w.0);
  zlib_decode = t.zlib_decode;
}

keep_count_lem :
    {A W : Type 0} (n : ℕ) (m : Result (A × W)) → Ensures (λ p. (p.1).1 ≡ n) (keep_count n m)
unfolding keep_count
keep_count_lem n (ok (a, w)) = refl
keep_count_lem n (err e) = tt

keep_world_lem : {W : Type 0} (n : ℕ) (m : Result W) → Ensures (λ w. w.1 ≡ n) (keep_world n m)
unfolding keep_world
keep_world_lem n (ok w) = refl
keep_world_lem n (err e) = tt

-- At the limit on the redirects no round goes on.
after_response_limit :
    (follow : Bool) (current : Request) (r : Response) (q : Request)
    → after_response follow true current r ≢ ok (next q)
unfolding after_response on_location
after_response_limit follow current r q h = ground arith

module _ (t : Transport) where
  abbrev W : Type 0
  W = t.World × ℕ

  attach_count :
      (o : PolicyOptions) (r : Request) (w : W)
      → Ensures (λ p. (p.1).1 ≡ w.1) (attach_cookie (counting t) o r w)
  unfolding attach_cookie
  attach_count o r w = elim (Bool-cases (wants_cookie o r)) [
    | inr e ↦ rw (attach_cookie, e) refl
    | inl e ↦
        rw (attach_cookie, e)
          (Ensures-bind (λ p. (p.1).1 ≡ w.1) (λ p. (p.1).1 ≡ w.1) _ _
            (keep_count_lem w.1 (t.cookie_header r w.0)) (λ a h. h))
  ]

  store_count :
      (o : PolicyOptions) (r : Request) (a : Response) (w : W)
      → Ensures (λ w'. w'.1 ≡ w.1) (store_cookies (counting t) o r a w)
  unfolding store_cookies
  store_count o r a w = elim (Bool-cases (o.enable_cookie_jar && r.use_cookie_jar)) [
    | inr e ↦ rw (store_cookies, e) refl
    | inl e ↦ rw (store_cookies, e) (keep_world_lem w.1 (t.add_from_response r a w.0))
  ]

  -- A round sends one request.
  exchange_count :
      (o : PolicyOptions) (k : ℕ) (r : Request) (w : W)
      → Ensures (λ p. (p.2).1 ≡ suc w.1) (exchange (counting t) o k r w)
  unfolding exchange
  exchange_count o k r w =
      Ensures-bind (λ p. (p.1).1 ≡ w.1) (λ p. (p.2).1 ≡ suc w.1) _ _ (attach_count o r w)
        λ sent h.
          Ensures-bind (λ w'. w'.1 ≡ suc (sent.1).1) (λ p. (p.2).1 ≡ suc w.1) _ _
            (store_count o sent.0 _ _)
            λ w' h'.
              Ensures-each (λ p. (p.2).1 ≡ suc w.1)
                (apply_hooks (counting t) o.response_hooks (
                  process_response (counting t) sent.0 k
                    ((counting t).raw_request sent.0 sent.1).0))
                (λ seen. ok (sent.0, seen, w')) (λ seen. h' ∙ ap suc h)

  -- At least one request, and one more for each redirect.
  abbrev Sends : ℕ → ℕ → (Response × W) → Type 0
  Sends n k p = (n < (p.1).1) × ((p.1).1 ≤ n + k)

  chain_count :
      (o : PolicyOptions) (follow : Bool) (left redirects : ℕ) (r : Request) (w : W)
      → Ensures (Sends w.1 (suc left)) (follow_chain (counting t) o follow left redirects r w)
  unfolding follow_chain
  chain_count o follow zero redirects r w =
      Ensures-bind (λ p. (p.2).1 ≡ suc w.1) (Sends w.1 1) _ _ (exchange_count o redirects r w)
        λ round h.
          Ensures-bind (λ _. Unit {0}) (Sends w.1 1) (after_response follow true round.0 round.1) _
            (Ensures-any (after_response follow true round.0 round.1))
            λ outcome _. last outcome round h
    where
      last :
          (outcome : Outcome) (round : Request × Response × W)
          → (round.2).1 ≡ suc w.1
          → Ensures (Sends w.1 1) (elim outcome as (λ _. Result (Response × W)) [
            | stop a ↦ ok (a, round.2)
            | next q ↦ ok (round.1, round.2)
          ])
      last (stop a) round h = omega arith
      last (next q) round h = omega arith
  chain_count o follow (suc left) redirects r w =
      Ensures-bind (λ p. (p.2).1 ≡ suc w.1) (Sends w.1 (suc (suc left))) _ _
        (exchange_count o redirects r w)
        λ round h.
          Ensures-bind (λ _. Unit {0}) (Sends w.1 (suc (suc left)))
            (after_response follow false round.0 round.1) _
            (Ensures-any (after_response follow false round.0 round.1))
            λ outcome _. again (chain_count o follow left (suc redirects)) outcome round h
    where
      again :
          ((q : Request) (v : W)
            → Ensures
                (Sends v.1 (suc left))
                (follow_chain (counting t) o follow left (suc redirects) q v))
          → (outcome : Outcome) (round : Request × Response × W) → (round.2).1 ≡ suc w.1
          → Ensures (Sends w.1 (suc (suc left))) (elim outcome as (λ _. Result (Response × W)) [
            | stop a ↦ ok (a, round.2)
            | next q ↦ follow_chain (counting t) o follow left (suc redirects) q round.2
          ])
      again ih (stop a) round h = omega arith
      again ih (next q) round h =
          Ensures-mono (Sends (round.2).1 (suc left)) (Sends w.1 (suc (suc left))) _ (ih q round.2)
            (λ p b. omega arith)

  abbrev Sent : ℕ → ℕ → (Response × W × RetryStats) → Type 0
  Sent n k p = (n < (p.1).1) × ((p.1).1 ≤ n + k)

  attempts_count :
      (o : PolicyOptions) (follow : Bool) (left n : ℕ) (r : Request) (w : W) (s : RetryStats)
      → Ensures (Sent w.1 (suc n * suc left)) (attempts (counting t) o follow left n r w s)
  unfolding attempts
  attempts_count o follow left zero r w s =
      Ensures-bind (Sends w.1 (suc left)) (Sent w.1 (1 * suc left)) _ _
        (chain_count o follow left 0 r w) (λ p b. omega arith)
  attempts_count o follow left (suc n) r w s =
      Ensures-bind (Sends w.1 (suc left)) (Sent w.1 (suc (suc n) * suc left)) _ _
        (chain_count o follow left 0 r w)
        λ p b.
          split (attempts_count o follow left n r) p b (wants_retry_status o r p.0)
            (wants_retry_status o r p.0 || wants_retry_transport r p.0)
    where
      split :
          ((v : W) (s' : RetryStats)
            → Ensures (Sent v.1 (suc n * suc left)) (attempts (counting t) o follow left n r v s'))
          → (p : Response × W) → Sends w.1 (suc left) p
          → (again both : Bool)
          → Ensures
              (Sent w.1 (suc (suc n) * suc left))
              (elim both as (λ _. Result (Response × W × RetryStats)) [
                | false ↦ ok (p.0, p.1, s)
                | true ↦ attempts (counting t) o follow left n r p.1 (count_retry again s)
              ])
      split ih p b again false = omega arith
      split ih p b again true =
          Ensures-mono (Sent (p.1).1 (suc n * suc left)) (Sent w.1 (suc (suc n) * suc left)) _
            (ih p.1 (count_retry again s)) (λ q c. omega arith)

  -- Over a transport that counts the requests it is given, where the limit on the retries is `n` and that
  -- on the redirects gives `left`: a call that returns has sent at least one request, and at most
  -- `(n + 1) * (left + 1)`.
  pub request_with_policy_count :
      (o : PolicyOptions) (n : ℕ) (r : Request) (w : W) (s : RetryStats)
      → own_or r.max_retries o.max_retries ≡ pos n
      → let left = to_nat (own_or r.max_redirects o.max_redirects) in
        Ensures (Sent w.1 (suc n * suc left)) (request_with_policy (counting t) o r w s)
  unfolding request_with_policy
  request_with_policy_count o n r w s h =
      rw (request_with_policy, h)
        (attempts_count o (flag_or r.follow_redirects o.follow_redirects)
          (to_nat (own_or r.max_redirects o.max_redirects)) n r w s)
