-- ===== src/Policy/Rules.antt =====
-- The tests of src/http_client.cpp on statuses, methods and errors that the policy makes.
use http_client.Prelude.{
  ℕ, Bool, false, ◌&&◌, ◌||◌, not, List, [], ◌∷◌, Bytes, codes, ◌==◌, is_some,
}
use http_client.Text.{bytes_eq, find_text}
use http_client.Headers.{lower_copy}
use http_client.Request.{Request, header}

unfoldable pub redirect_changes_to_get : ℕ → Bytes → Bool
redirect_changes_to_get status method =
    let lower = lower_copy method in
    (status == 301 || status == 302 || status == 303)
    && (not (bytes_eq lower (codes "get")) && not (bytes_eq lower (codes "head")))

unfoldable pub is_retry_status : ℕ → List ℕ → Bool
is_retry_status status [] = false
is_retry_status status (s ∷ statuses) = s == status || is_retry_status status statuses

unfoldable pub is_go_replayable_method : Bytes → Bool
is_go_replayable_method method =
    let lower = lower_copy method in
    bytes_eq lower (codes "get")
    || bytes_eq lower (codes "head")
    || bytes_eq lower (codes "options")
    || bytes_eq lower (codes "trace")

unfoldable pub has_idempotency_key : Request → Bool
has_idempotency_key r =
    is_some (header (codes "Idempotency-Key") r) || is_some (header (codes "X-Idempotency-Key") r)

unfoldable pub is_replayable_request : Request → Bool
is_replayable_request r = is_go_replayable_method r.method || has_idempotency_key r

unfoldable pub is_retriable_transport_error : Bytes → Bool
is_retriable_transport_error error =
    is_some (find_text (codes "h1_read_headers") error)
    || is_some (find_text (codes "h1_read_body") error)
    || is_some (find_text (codes "h1_write") error)
    || is_some (find_text (codes "End of file") error)
    || is_some (find_text (codes "timeout") error)
