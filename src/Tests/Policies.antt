-- ===== src/Tests/Policies.antt =====
-- The request policy over a small transport.
use http_client.Prelude.{
  Bytes, ℕ, suc, ◌+◌, ◌*◌, ◌≡◌, ◌<◌, ◌≤◌, refl, true, false, [], ◌∷◌, none, some, codes, ok, ◌>>=◌,
  Ensures,
}
use http_client.Prelude.Int.{pos}
use http_client.Headers.{is_named, header_name_equal, lower_copy, find_header, split_header_view}
use http_client.Text.{is_space, find, to_lower, trim_front, trim_back}
use http_client.Request.{Request, default_request, header, body_view}
use http_client.Response.{Response, empty_response}
use http_client.Policy.{
  Transport, PolicyOptions, RetryStats, attach_cookie, redirected, redirect_changes_to_get,
  is_replayable_request, is_go_replayable_method, has_idempotency_key, attempts, follow_chain,
  request_with_policy,
}
use http_client.Policy.Bounds.{counting, request_with_policy_count}
use http_client.Policy.Redirect.{redirected_keeps_credentials, body_view-redirected}
use http_client.Cookies.Jar.{JarOptions}
use http_client.Cookies.Bounds.{IsBounded}
use http_client.Cookies.Client.{with_jar, request_with_policy-IsBounded}
use http_client.Policy.Retry.{attempts_once}

-- A server that sends every request on, over a state that counts what was sent.
abbrev redirecting : Transport
redirecting = record {
  World = ℕ;
  raw_request = λ r w.
      (record empty_response { status = 302; headers = codes "Location: /next" ∷ [] }, suc w);
  cookie_header = λ r w. ok (codes "id=7", w);
  add_from_response = λ r a w. ok w;
  zlib_decode = λ b f. ok b;
}

abbrev options : PolicyOptions
options = record {
  follow_redirects = true;
  max_redirects = pos 2;
  max_retries = pos 1;
  retry_statuses = 503 ∷ [];
  enable_cookie_jar = true;
  response_hooks = [];
}

abbrev login : Request
login = record default_request {
  method = codes "POST";
  url = codes "http://a.org/login";
  headers =
      codes "Authorization: Basic bWU6eA=="
      ∷ codes "Cookie: id=7"
      ∷ codes "Content-Type: text/plain"
      ∷ [];
  shared_body = some (codes "secret");
}

abbrev no_stats : RetryStats
no_stats = record { retry_status = 0; retry_transport = 0 }

request_with_policy_count_example :
    Ensures
      (λ p. (0 < (p.1).1) × ((p.1).1 ≤ 0 + 2 * 3))
      (request_with_policy (counting redirecting) options login (0, 0) no_stats)
request_with_policy_count_example =
    request_with_policy_count redirecting options 1 login (0, 0) no_stats refl

not_replayable_login : is_replayable_request login ≡ false
unfolding is_replayable_request is_go_replayable_method has_idempotency_key header find_header
    split_header_view header_name_equal lower_copy to_lower find trim_front trim_back is_named
not_replayable_login = refl

attempts_once_example :
    attempts redirecting options true 2 1 login 0 no_stats
    ≡ (follow_chain redirecting options true 2 0 login 0 >>= λ done. ok (done.0, done.1, no_stats))
attempts_once_example =
    attempts_once redirecting options true 2 1 login 0 no_stats not_replayable_login

names_differ : header_name_equal (codes "Content-Type") (codes "Authorization") ≡ false
unfolding header_name_equal
names_differ = refl

lengths_differ : header_name_equal (codes "Content-Length") (codes "Authorization") ≡ false
unfolding header_name_equal to_lower
lengths_differ = refl

login_cookie : header (codes "Cookie") login ≡ some (codes "id=7")
unfolding header find_header split_header_view header_name_equal to_lower find trim_front is_named
    is_space
login_cookie = refl

redirected_keeps_credentials_example :
    (header (codes "Authorization") (redirected login 302 (codes "http://b.org/"))
      ≡ header (codes "Authorization") login)
    × (header (codes "Cookie") (redirected login 302 (codes "http://b.org/")) ≡ some (codes "id=7"))
    × (attach_cookie redirecting options (redirected login 302 (codes "http://b.org/")) 0
        ≡ ok (redirected login 302 (codes "http://b.org/"), 0))
redirected_keeps_credentials_example =
    redirected_keeps_credentials redirecting options login 302 (codes "http://b.org/")
      (codes "id=7") 0 login_cookie

changes_to_get : redirect_changes_to_get 302 login.method ≡ true
unfolding redirect_changes_to_get lower_copy to_lower
changes_to_get = refl

body_view-redirected_example :
    ((redirected login 302 (codes "http://b.org/")).method ≡ codes "GET")
    × (header (codes "Content-Type") (redirected login 302 (codes "http://b.org/")) ≡ none)
    × (header (codes "Content-Length") (redirected login 302 (codes "http://b.org/")) ≡ none)
    × (body_view (redirected login 302 (codes "http://b.org/")) ≡ codes "secret")
body_view-redirected_example = body_view-redirected login 302 (codes "http://b.org/") changes_to_get

abbrev set_cookie : Request → Bytes × ℕ → Response × (Bytes × ℕ)
set_cookie r w = (
  record empty_response { status = 200; headers = codes "Set-Cookie: k=v; Path=/" ∷ [] },
  (w.0, suc w.1),
)

abbrev two_cookies : JarOptions
two_cookies = record { max_cookie_domains = 2; max_cookies_per_domain = 2 }

request_with_policy-IsBounded_example :
    Ensures
      (λ x. IsBounded two_cookies (x.1).1)
      (request_with_policy
        (with_jar two_cookies set_cookie (λ b f. ok b))
        options
        login
        ((codes "open", 5), [])
        no_stats)
request_with_policy-IsBounded_example =
    request_with_policy-IsBounded two_cookies Bytes set_cookie (λ b f. ok b) options login
      ((codes "open", 5), []) no_stats tt
