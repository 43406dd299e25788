-- ===== src/Policy/Retry.antt =====
-- When a request is sent again.
use http_client.Prelude.{ℕ, zero, suc, ◌≡◌, refl, ap, Bool, false, ◌||◌, ok, ◌>>=◌, arith}
use mathlib.Core.Path.{fun_ext}
use http_client.Request.{Request}
use http_client.Response.{Response}
use http_client.Policy.{
  Transport, PolicyOptions, RetryStats, follow_chain, attempts, wants_retry_status,
  wants_retry_transport, is_replayable_request,
}

module _ (t : Transport) where
  not_replayable :
      (o : PolicyOptions) (request : Request) (last : Response)
      → is_replayable_request request ≡ false
      → (wants_retry_status o request last || wants_retry_transport request last) ≡ false
  unfolding wants_retry_status wants_retry_transport
  not_replayable o request last h = ground arith

  -- A request that is not replayable, such as a POST without an idempotency key, goes through the
  -- redirects once, whatever the response is and however many retries are allowed; no retry is counted.
  pub attempts_once :
      (o : PolicyOptions) (follow : Bool) (left n : ℕ) (request : Request) (w : t.World)
      (s : RetryStats)
      → is_replayable_request request ≡ false
      → attempts t o follow left n request w s
        ≡ (follow_chain t o follow left 0 request w >>= λ done. ok (done.0, done.1, s))
  unfolding attempts
  attempts_once o follow left zero request w s h = refl
  attempts_once o follow left (suc n) request w s h =
      ap (λ k. follow_chain t o follow left 0 request w >>= k)
        (fun_ext (λ done. rw (not_replayable o request done.0 h)))
