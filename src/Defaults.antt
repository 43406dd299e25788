-- ===== src/Defaults.antt =====
-- The defaults of a client of src/http_client.cpp: `apply_defaults` with `host_matches_no_proxy`,
-- `append_no_proxy_items`, `effective_no_proxy` and `env_proxy_for`, and `needs_httpx_policy`. The
-- environment is a function from names to values; a hook is a function on requests that may
-- throw.
pub mod Proxies
pub mod Headers
use http_client.Prelude.{
  ℕ, suc, Bool, true, false, ◌&&◌, ◌||◌, not, List, [], ◌∷◌, ◌++◌, Option, none, some, Bytes, codes,
  ◌==◌, if◌then◌else◌, take, drop, is_nil, is_some, Result, ok, err, ◌>>=◌,
}
use http_client.Prelude.Int.{ℤ, pos, negsuc, is_nonneg}
use http_client.Text.{bytes_eq, find}
use http_client.Headers.{lower_copy, trim_copy}
use http_client.Form.{FormField, append_query_params}
use http_client.Url.{ParsedUrl, parse_url, resolve_base_url}
use http_client.Cookies.{without_dot, is_subdomain}
use http_client.Request.{Request, Timeout, ProxyConfig, header, add_header_line, set_header}
use http_client.Response.{Response}
use http_client.Policy.{Transport, PolicyOptions, RetryStats, own_or, flag_or, request_with_policy}

-- `std::getenv`.
abbrev pub Environment : Type 0
Environment = Bytes → Option Bytes

-- The members of `Options` that `apply_defaults` reads.
pub record DefaultOptions : Type 0 where
  pub base_url : Bytes
  pub timeout : Timeout
  pub auto_decompress : Bool
  pub default_headers : List Bytes
  pub default_query_params : List FormField
  pub proxy : Option ProxyConfig
  pub trust_env_proxy : Bool
  pub no_proxy : List Bytes
  pub request_hooks : List (Request → Result Request)

-- One item, trimmed and in lower case, against the host in lower case.
unfoldable pub matches_item : Bytes → Bytes → Bool
matches_item h n = not (is_nil n) && (bytes_eq n (codes "*") || is_subdomain h (without_dot n))

unfoldable pub host_matches_no_proxy : Bytes → List Bytes → Bool
unfolding matches_item
host_matches_no_proxy host [] = false
host_matches_no_proxy host (item ∷ items) =
    matches_item (lower_copy host) (lower_copy (trim_copy item)) || host_matches_no_proxy host items

-- The items between the commas, trimmed, without the empty ones. The second text is the item read so far.
unfoldable pub add_item : Bytes → List Bytes → List Bytes
add_item item items = let t = trim_copy item in if is_nil t then items else t ∷ items

unfoldable pub no_proxy_items : Bytes → Bytes → List Bytes
unfolding add_item
no_proxy_items [] item = add_item item []
no_proxy_items (c ∷ text) item = elim (c == b',') [
  | true ↦ add_item item (no_proxy_items text [])
  | false ↦ no_proxy_items text (item ++ c ∷ [])
]

unfoldable pub append_no_proxy_items : List Bytes → Option Bytes → List Bytes
unfolding no_proxy_items
append_no_proxy_items out none = out
append_no_proxy_items out (some value) = out ++ no_proxy_items value []

unfoldable pub effective_no_proxy : Environment → List Bytes → List Bytes
unfolding append_no_proxy_items
effective_no_proxy env configured =
    append_no_proxy_items (append_no_proxy_items configured (env (codes "NO_PROXY")))
      (env (codes "no_proxy"))

-- `if (value == nullptr || *value == '\0') value = …`.
abbrev pub or_else : Option Bytes → Option Bytes → Option Bytes
or_else none other = other
or_else (some []) other = other
or_else (some (c ∷ value)) other = some (c ∷ value)

abbrev pub as_proxy : Option Bytes → Option ProxyConfig
as_proxy none = none
as_proxy (some []) = none
as_proxy (some (c ∷ value)) = some (record { url = c ∷ value })

unfoldable pub env_proxy_for : Environment → Bytes → Result (Option ProxyConfig)
env_proxy_for env url = do
  u ← parse_url url
  let own =
      if bytes_eq u.scheme (codes "https")
      then or_else (env (codes "HTTPS_PROXY")) (env (codes "https_proxy"))
      else or_else (env (codes "HTTP_PROXY")) (env (codes "http_proxy"))
  ok (as_proxy (or_else (or_else own (env (codes "ALL_PROXY"))) (env (codes "all_proxy"))))

unfoldable pub default_timeout : DefaultOptions → Request → Request
default_timeout o r =
    if not (is_nonneg r.timeout.total_ms) && is_nonneg o.timeout.total_ms
    then record r { timeout = o.timeout; timeout_ms = o.timeout.total_ms }
    else if is_nonneg r.timeout.total_ms
    then record r { timeout_ms = r.timeout.total_ms }
    else r

-- One line of `default_headers`.
unfoldable pub default_header : Bytes → Request → Request
default_header line r = elim (find b':' line) [
  | none ↦ add_header_line line r
  | some colon ↦
      if is_some (header (trim_copy (take colon line)) r) then r else add_header_line line r
]

unfoldable pub default_headers_of : List Bytes → Request → Request
unfolding default_header
default_headers_of [] r = r
default_headers_of (line ∷ lines) r = default_headers_of lines (default_header line r)

unfoldable pub default_encoding : Request → Request
default_encoding r =
    if r.auto_decompress && not (is_some (header (codes "Accept-Encoding") r))
    then set_header (codes "Accept-Encoding") (codes "gzip, deflate") r
    else r

-- The proxy for a request that has none of its own, to a host that is not excepted.
unfoldable pub chosen_proxy : DefaultOptions → Environment → Request → Result Request
unfolding env_proxy_for
chosen_proxy o env r = elim o.proxy [
  | some p ↦ ok (record r { proxy = some p; proxy_override = false })
  | none ↦
      if o.trust_env_proxy
      then (do p ← env_proxy_for env r.url; ok (record r { proxy = p; proxy_override = false }))
      else ok r
]

unfoldable pub default_proxy : DefaultOptions → Environment → Request → Result Request
unfolding chosen_proxy host_matches_no_proxy effective_no_proxy
default_proxy o env r =
    if not r.disable_proxy && not (is_some r.proxy)
    then (do
      u ← parse_url r.url
      let excepted = if o.trust_env_proxy then effective_no_proxy env o.no_proxy else o.no_proxy
      if host_matches_no_proxy u.host excepted then ok r else chosen_proxy o env r)
    else ok r

-- The steps on the request up to the query parameters.
unfoldable pub default_members : DefaultOptions → Bytes → Request → Request
unfolding default_timeout default_headers_of
default_members o url r =
    let r' = default_timeout o (record r { url = url }) in
    let r'' =
      default_headers_of o.default_headers
        (record r' { auto_decompress = o.auto_decompress || r'.auto_decompress }) in
    record r'' { url = append_query_params r''.url o.default_query_params }

unfoldable pub run_hooks : List (Request → Result Request) → Request → Result Request
run_hooks [] r = ok r
run_hooks (hook ∷ hooks) r = do r' ← hook r; run_hooks hooks r'

unfoldable pub apply_defaults : DefaultOptions → Environment → Request → Result Request
unfolding default_members default_encoding default_proxy run_hooks
apply_defaults o env r = do
  url ← resolve_base_url o.base_url r.url
  r' ← default_proxy o env (default_encoding (default_members o url r))
  run_hooks o.request_hooks r'

-- `request_with_httpx_policy`: the defaults, and then the loops of Policy.
unfoldable pub request_with_httpx_policy :
    (t : Transport)
    → DefaultOptions
    → Environment
    → PolicyOptions
    → Request
    → t.World
    → RetryStats
    → Result (Response × t.World × RetryStats)
unfolding apply_defaults
request_with_httpx_policy t d env o r w s = do
  r' ← apply_defaults d env r
  request_with_policy t o r' w s

abbrev is_positive : ℤ → Bool
is_positive (pos n) = not (n == 0)
is_positive (negsuc n) = false

unfoldable pub needs_httpx_policy : DefaultOptions → PolicyOptions → Request → Bool
needs_httpx_policy d o r =
    flag_or r.follow_redirects o.follow_redirects
    || is_positive (own_or r.max_retries o.max_retries)
    || (o.enable_cookie_jar && r.use_cookie_jar)
    || is_some r.proxy
    || is_some d.proxy
    || d.trust_env_proxy
    || not (is_nil d.default_headers)
    || not (is_nil d.default_query_params)
    || not (is_nil d.base_url)
    || d.auto_decompress
    || r.auto_decompress
    || is_nonneg d.timeout.total_ms
    || not (is_nil d.request_hooks)
    || not (is_nil o.response_hooks)
