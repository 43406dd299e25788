-- ===== src/Policy.antt =====
-- The request policy of src/http_client.cpp: `request_with_httpx_policy` with its tests, and
-- `decode_response_body`. What is below it enters as a record of operations: `raw_request`, the cookie
-- jar, and zlib.
mod Rules
unfoldable pub use Rules.*
pub mod Redirect
pub mod Bounds
pub mod Retry
pub mod Invariant
use http_client.Prelude.{
  ℕ, suc, ◌+◌, Bool, true, false, ◌&&◌, ◌||◌, not, List, [], ◌∷◌, ◌++◌, Option, none, some, Bytes,
  codes, ◌==◌, if◌then◌else◌, is_nil, is_some, Result, ok, err, ◌>>=◌,
}
use http_client.Prelude.Int.{ℤ, pos, negsuc, is_nonneg, to_nat}
use http_client.Text.{bytes_eq, find_text}
use http_client.Headers.{lower_copy, trim_copy, remove_header_case_insensitive}
use http_client.Request.{Request, header, set_header, remove_header}
use http_client.Response.{Response, empty_response, is_redirect}
use http_client.Response
use http_client.Url.{resolve_redirect_url}

pub data ZFormat : Type 0 where
  gzip zlib raw : ZFormat

-- What the loop calls, over the state `World` of the connections and the cookie jar. `raw_request`
-- catches every exception; the cookie jar parses the url and may throw.
pub record Transport : Type 1 where
  pub World : Type 0
  pub raw_request : Request → World → Response × World
  pub cookie_header : Request → World → Result (Bytes × World)
  pub add_from_response : Request → Response → World → Result World
  pub zlib_decode : Bytes → ZFormat → Result Bytes

-- The members of `Options` that the loop reads.
pub record PolicyOptions : Type 0 where
  pub follow_redirects : Bool
  pub max_redirects : ℤ
  pub max_retries : ℤ
  pub retry_statuses : List ℕ
  pub enable_cookie_jar : Bool
  pub response_hooks : List (Response → Result Response)

-- The jar is asked where both sides enable it and the request has no cookie.
wants_cookie : PolicyOptions → Request → Bool
wants_cookie o current =
    o.enable_cookie_jar
    && (current.use_cookie_jar && not (is_some (header (codes "Cookie") current)))

-- The end of `decode_response_body`: the decoded body without the two headers, or the error.
decoded : Response → Result Bytes → Response
decoded r (err e) = record r { error = e }
decoded r (ok body) =
    let headers = (remove_header_case_insensitive r.headers (codes "Content-Encoding")).0 in
    record r {
      body = body;
      headers = (remove_header_case_insensitive headers (codes "Content-Length")).0;
    }

abbrev or_try : Result Bytes → Result Bytes → Result Bytes
or_try (ok body) other = ok body
or_try (err e) other = other

module _ (t : Transport) where
  open t use {World, raw_request, cookie_header, add_from_response, zlib_decode}

  -- A `deflate` body is tried with the zlib header first, and without it on an error.
  decode_as : Bytes → Response → Response
  unfolding decoded
  decode_as enc r =
      if bytes_eq enc (codes "gzip") || bytes_eq enc (codes "x-gzip")
      then decoded r (zlib_decode r.body gzip)
      else if bytes_eq enc (codes "deflate")
      then decoded r (or_try (zlib_decode r.body zlib) (zlib_decode r.body raw))
      else r

  unfoldable pub decode_response_body : Response → Response
  unfolding decode_as
  decode_response_body r = elim (Response.header (codes "Content-Encoding") r) [
    | none ↦ r
    | some encoding ↦ decode_as (lower_copy (trim_copy encoding)) r
  ]

  -- The cookie of the jar, unless the request has one.
  unfoldable pub attach_cookie : PolicyOptions → Request → World → Result (Request × World)
  unfolding wants_cookie
  attach_cookie o current w =
      if wants_cookie o current
      then (do
        found ← cookie_header current w
        ok (
          if is_nil found.0 then current else set_header (codes "Cookie") found.0 current,
          found.1,
        ))
      else ok (current, w)

  -- What is done to a response before the redirect is looked at.
  process_response : Request → ℕ → Response → Response
  unfolding decode_response_body
  process_response current redirects response =
      let r = record response { final_url = current.url; redirect_count = redirects } in
      if current.auto_decompress
        && (current.store_response_body && (is_nil r.error && not (is_nil r.body)))
      then decode_response_body r
      else r

  -- A hook changes the response, or throws.
  apply_hooks : List (Response → Result Response) → Response → Result Response
  apply_hooks [] r = ok r
  apply_hooks (hook ∷ hooks) r = do r' ← hook r; apply_hooks hooks r'

  store_cookies : PolicyOptions → Request → Response → World → Result World
  store_cookies o current r w =
      if o.enable_cookie_jar && current.use_cookie_jar then add_from_response current r w else ok w

  -- One round of the inner loop up to the response hooks: the request that was sent, the response
  -- and the state.
  unfoldable pub exchange :
      PolicyOptions → ℕ → Request → World → Result (Request × Response × World)
  unfolding attach_cookie process_response apply_hooks store_cookies
  exchange o redirects request w = do
    sent ← attach_cookie o request w
    let current = sent.0
    let answer = raw_request current sent.1
    let response = process_response current redirects answer.0
    w' ← store_cookies o current response answer.1
    seen ← apply_hooks o.response_hooks response
    ok (current, seen, w')

-- What a round ends with.
pub data Outcome : Type 0 where
  stop : Response → Outcome
  next : Request → Outcome

-- `next` of the loop: the same request for the new url, as a GET without a body where the status says
-- so.
unfoldable pub redirected : Request → ℕ → Bytes → Request
redirected current status url =
    let r = record current { url = url } in
    if redirect_changes_to_get status current.method
    then (let bare = record r { method = codes "GET"; body = [] } in
        (remove_header (codes "Content-Length") (remove_header (codes "Content-Type") bare).0).0)
    else r

-- The branches on a `Location`; the flag is `redirects >= max_redirects`.
on_location : Bool → Request → Response → Bytes → Result Outcome
unfolding redirected
on_location at_limit current response location =
    if at_limit then ok (stop (record response { error = codes "too many redirects" })) else do
      url ← resolve_redirect_url current.url location
      ok (next (redirected current response.status url))

unfoldable pub after_response : Bool → Bool → Request → Response → Result Outcome
unfolding on_location
after_response follow at_limit current response =
    if not follow || not (is_nil response.error) || not (is_redirect response)
    then ok (stop response)
    else elim (Response.header (codes "Location") response) [
      | none ↦ ok (stop response)
      | some location ↦ on_location at_limit current response location
    ]

module _ (t : Transport) where
  open t use {World}

  -- The inner loop. The first number is how many redirects may still be followed, so
  -- `redirects >= max_redirects` is its being zero; the second counts those followed.
  unfoldable pub follow_chain :
      PolicyOptions → Bool → ℕ → ℕ → Request → World → Result (Response × World)
  unfolding exchange after_response
  follow_chain o follow ℕ.zero redirects request w = do
    round ← exchange t o redirects request w
    outcome ← after_response follow true round.0 round.1
    elim outcome [ stop r ↦ ok (r, round.2) | next r ↦ ok (round.1, round.2) ]
  follow_chain o follow (ℕ.suc left) redirects request w = do
    round ← exchange t o redirects request w
    outcome ← after_response follow false round.0 round.1
    elim outcome [
      | stop r ↦ ok (r, round.2)
      | next r ↦ follow_chain o follow left (suc redirects) r round.2
    ]

pub record RetryStats : Type 0 where
  pub retry_status : ℕ
  pub retry_transport : ℕ

unfoldable pub wants_retry_status : PolicyOptions → Request → Response → Bool
wants_retry_status o request last =
    is_nil last.error
    && (is_replayable_request request && is_retry_status last.status o.retry_statuses)

unfoldable pub wants_retry_transport : Request → Response → Bool
wants_retry_transport request last =
    not (is_nil last.error)
    && (last.reused_connection
        && (is_replayable_request request && is_retriable_transport_error last.error))

-- The counter that a retry adds to.
count_retry : Bool → RetryStats → RetryStats
count_retry true s = record s { retry_status = s.retry_status + 1 }
count_retry false s = record s { retry_transport = s.retry_transport + 1 }

abbrev pub flag_or : Option Bool → Bool → Bool
flag_or none b = b
flag_or (some b) c = b

-- `request.x >= 0 ? request.x : options.x`.
abbrev pub own_or : ℤ → ℤ → ℤ
own_or own common = if is_nonneg own then own else common

module _ (t : Transport) where
  open t use {World}

  -- The outer loop from some attempt on; the first number is how many attempts are left behind it, and
  -- `left` how many redirects each may follow. The wait between two attempts changes no state.
  unfoldable pub attempts :
      PolicyOptions
      → Bool
      → ℕ
      → ℕ
      → Request
      → World
      → RetryStats
      → Result (Response × World × RetryStats)
  unfolding follow_chain count_retry
  attempts o follow left ℕ.zero request w s = do
    done ← follow_chain t o follow left 0 request w
    ok (done.0, done.1, s)
  attempts o follow left (ℕ.suc n) request w s = do
    done ← follow_chain t o follow left 0 request w
    let again = wants_retry_status o request done.0 in
        elim (again || wants_retry_transport request done.0) [
          | false ↦ ok (done.0, done.1, s)
          | true ↦ attempts o follow left n request done.1 (count_retry again s)
        ]

  -- With a negative limit on the retries the loop body is never run, and the response is the default
  -- one.
  abbrev pub retry_loop :
      ℤ
      → PolicyOptions
      → Bool
      → ℕ
      → Request
      → World
      → RetryStats
      → Result (Response × World × RetryStats)
  retry_loop (negsuc n) o follow left request w s = ok (empty_response, w, s)
  retry_loop (pos n) o follow left request w s = attempts o follow left n request w s

  -- `request_with_httpx_policy`, behind `apply_defaults`.
  unfoldable pub request_with_policy :
      PolicyOptions → Request → World → RetryStats → Result (Response × World × RetryStats)
  unfolding attempts
  request_with_policy o request w s =
      retry_loop (own_or request.max_retries o.max_retries) o
        (flag_or request.follow_redirects o.follow_redirects)
        (to_nat (own_or request.max_redirects o.max_redirects)) request w s
