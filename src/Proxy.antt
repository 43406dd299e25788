-- ===== src/Proxy.antt =====
-- Proxies of src/proxy_support.hpp: `Url`, `EffectiveProxy`, `parse_proxy_url`, `proxy_for_request` and
-- `parse_http_status_code`. `percent_decode` stands in Form and `basic_auth_value` in Base64. The
-- tunnels are in the children Connect and Socks.
pub mod Connect
pub mod Socks
pub mod Chunks
pub mod Handshake
pub mod Parse
use http_client.Prelude.{
  ℕ, suc, ◌+◌, ◌-◌, ◌*◌, Bool, true, false, ◌&&◌, ◌||◌, not, List, [], ◌∷◌, ◌++◌, length, Option,
  none, some, Bytes, codes, ◌==◌, if◌then◌else◌, take, drop, is_nil, leb, Result, ok, err, ◌>>=◌,
}
use http_client.Text.{bytes_eq, find, rfind, find_text}
use http_client.Url.{scheme_mark, authority_of}
use http_client.Form.{percent_decode}
use http_client.Base64.{basic_auth_value}
use http_client.Request.{Request, ProxyConfig}

pub data Scheme : Type 0 where
  http https socks5 : Scheme

-- `proxy_support::Url`.
pub record ProxyUrl : Type 0 where
  pub scheme : Bytes
  pub host : Bytes
  pub port : Bytes
  pub username : Bytes
  pub password : Bytes

pub record EffectiveProxy : Type 0 where
  pub enabled : Bool
  pub url : ProxyUrl
  pub authorization : Bytes
  pub kind : Scheme

abbrev pub no_url : ProxyUrl
no_url = record { scheme = []; host = []; port = []; username = []; password = [] }

unfoldable pub proxy_port : Bytes → Bytes
proxy_port scheme =
    if bytes_eq scheme (codes "http")
    then codes "80"
    else if bytes_eq scheme (codes "https")
    then codes "443"
    else codes "1080"

-- The user information is cut at its first `:`.
unfoldable pub with_userinfo : Bytes → ProxyUrl → ProxyUrl
with_userinfo userinfo u = elim (find b':' userinfo) [
  | none ↦ record u { username = percent_decode userinfo }
  | some i ↦ record u {
    username = percent_decode (take i userinfo);
    password = percent_decode (drop (suc i) userinfo);
  }
]

-- What is left of the authority is cut at its last `:`.
unfoldable pub with_host : Bytes → ProxyUrl → ProxyUrl
unfolding proxy_port
with_host authority u = elim (rfind b':' authority) [
  | none ↦ record u { host = authority; port = proxy_port u.scheme }
  | some i ↦ record u { host = take i authority; port = drop (suc i) authority }
]

-- What `userinfo`, a view of the first `at` bytes of the authority, shows when these bytes and the `@`
-- have been erased from it: the buffer is used again, with what is left of the authority at its front,
-- the 0 that ends it, and the old bytes behind that.
unfoldable pub userinfo_view : ℕ → Bytes → Bytes
userinfo_view at authority =
    let left = drop (suc at) authority in take at (left ++ 0 ∷ drop (suc (length left)) authority)

-- The authority is cut at its last `@`. The user information is read behind `authority.erase(0, at + 1)`.
unfoldable pub with_authority : Bytes → ProxyUrl → ProxyUrl
unfolding with_userinfo with_host userinfo_view
with_authority authority u = elim (rfind b'@' authority) [
  | none ↦ with_host authority u
  | some at ↦ with_host (drop (suc at) authority) (with_userinfo (userinfo_view at authority) u)
]

-- `if (out.host.empty()) throw …; return out;`.
unfoldable pub require_host : ProxyUrl → Result ProxyUrl
require_host u = if is_nil u.host then err (codes "proxy host is empty") else ok u

unfoldable pub parse_proxy_url : Bytes → Result ProxyUrl
unfolding with_authority require_host
parse_proxy_url value = elim (find_text scheme_mark value) [
  | none ↦ err (codes "proxy url must include scheme")
  | some i ↦ require_host (
      with_authority (authority_of (drop (suc (suc (suc i))) value))
        (record no_url { scheme = take i value }))
]

unfoldable pub scheme_of : Bytes → Result Scheme
scheme_of s =
    if bytes_eq s (codes "https")
    then ok https
    else if bytes_eq s (codes "socks5") || bytes_eq s (codes "socks5h")
    then ok socks5
    else if bytes_eq s (codes "http")
    then ok http
    else err (codes "unsupported proxy scheme")

unfoldable pub is_socks5 : Scheme → Bool
is_socks5 http = false
is_socks5 https = false
is_socks5 socks5 = true

unfoldable pub authorization_of : Scheme → ProxyUrl → Bytes
unfolding is_socks5
authorization_of s u =
    if not (is_socks5 s) && (not (is_nil u.username) || not (is_nil u.password))
    then basic_auth_value u.username u.password
    else []

unfoldable pub effective_proxy : Bytes → Result EffectiveProxy
unfolding parse_proxy_url scheme_of authorization_of
effective_proxy url = do
  u ← parse_proxy_url url
  s ← scheme_of u.scheme
  ok (record { enabled = true; url = u; authorization = authorization_of s u; kind = s })

-- `return {}`.
abbrev pub no_effective_proxy : EffectiveProxy
no_effective_proxy = record { enabled = false; url = no_url; authorization = []; kind = http }

unfoldable pub configured_proxy : Option ProxyConfig → Result EffectiveProxy
unfolding effective_proxy
configured_proxy none = ok no_effective_proxy
configured_proxy (some p) = if is_nil p.url then ok no_effective_proxy else effective_proxy p.url

unfoldable pub proxy_for_request : Request → Result EffectiveProxy
unfolding configured_proxy
proxy_for_request r = if r.disable_proxy then ok no_effective_proxy else configured_proxy r.proxy

-- The three characters behind the first space; 0 unless they are there and are digits.
unfoldable pub is_digit : ℕ → Bool
is_digit c = leb b'0' c && leb c b'9'

unfoldable pub status_digits : Bytes → ℕ
unfolding is_digit
status_digits [] = 0
status_digits (a ∷ []) = 0
status_digits (a ∷ b ∷ []) = 0
status_digits (a ∷ b ∷ c ∷ rest) =
    if is_digit a && (is_digit b && is_digit c)
    then ((a - b'0') * 10 + (b - b'0')) * 10 + (c - b'0')
    else 0

unfoldable pub parse_http_status_code : Bytes → ℕ
unfolding status_digits
parse_http_status_code headers = elim (find b' ' headers) [
  | none ↦ 0
  | some i ↦ status_digits (drop (suc i) headers)
]
