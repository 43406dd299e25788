-- ===== src/Cookies/Store.antt =====
-- `CookieJar::add_from_response` and `CookieJar::cookie_header`, over the parts in `Jar.antt`.
use http_client.Prelude.{
  ℕ, suc, Bool, ◌&&◌, not, List, [], ◌∷◌, ◌++◌, Option, none, some, Bytes, codes, if◌then◌else◌,
  is_nil, take, drop, Result, ok, ◌>>=◌,
}
use http_client.Text.{bytes_eq, find}
use http_client.Headers.{lower_copy, trim_copy}
use http_client.Url.{ParsedUrl, parse_url}
use http_client.Cookies.{Cookie, domain_match, path_match}
use http_client.Cookies.Jar.{
  JarOptions, Cookies, is_expired, prune_expired, enforce_domain_count, update_jar, store_in_jar,
  parse_set_cookie,
}

abbrev pub store_parsed : JarOptions → Option (Cookie × Bool) → Cookies → Cookies
store_parsed o none cookies = cookies
store_parsed o (some (cookie, delete_cookie)) cookies =
    update_jar cookie.domain (store_in_jar o cookie delete_cookie) cookies

-- One header line of the response; only a `Set-Cookie` line counts.
unfoldable pub add_line : JarOptions → ParsedUrl → ℕ → Bytes → Cookies → Cookies
add_line o u now line cookies = elim (find b':' line) [
  | none ↦ cookies
  | some colon ↦
      if bytes_eq (lower_copy (trim_copy (take colon line))) (codes "set-cookie")
      then store_parsed o (parse_set_cookie u now (trim_copy (drop (suc colon) line))) cookies
      else cookies
]

unfoldable pub add_lines : JarOptions → ParsedUrl → ℕ → List Bytes → Cookies → Cookies
add_lines o u now [] cookies = cookies
add_lines o u now (line ∷ lines) cookies = add_lines o u now lines (add_line o u now line cookies)

-- `add_from_response`, over the request's url and the response's headers.
unfoldable pub add_from_response : JarOptions → ℕ → Bytes → List Bytes → Cookies → Result Cookies
add_from_response o now url headers cookies = do
  u ← parse_url url
  ok (enforce_domain_count o (add_lines o u now headers (prune_expired now cookies)))

-- The three tests on a cookie of a matching domain.
unfoldable pub is_sent : ParsedUrl → ℕ → Cookie → Bool
is_sent u now c =
    not (c.host_only && not (bytes_eq (lower_copy u.host) c.domain))
    && (not (is_expired now c) && path_match u.path c.path)

-- What one cookie adds to the header.
unfoldable pub append_cookie : Bytes → Cookie → Bytes
append_cookie out c = (if is_nil out then out else out ++ codes "; ") ++ (c.name ++ b'=' ∷ c.value)

-- The loop over the cookies of a domain: the header so far, and the cookies with `last_used` set.
unfoldable pub send_jar : ParsedUrl → ℕ → List Cookie → Bytes → Bytes × List Cookie
unfolding append_cookie
send_jar u now [] out = (out, [])
send_jar u now (c ∷ jar) out =
    let sent = is_sent u now c in
    let (out', jar') = send_jar u now jar (if sent then append_cookie out c else out) in
    (out', (if sent then record c { last_used = now } else c) ∷ jar')

unfoldable pub send_jars : ParsedUrl → ℕ → Cookies → Bytes → Bytes × Cookies
unfolding send_jar
send_jars u now [] out = (out, [])
send_jars u now ((domain, jar) ∷ rest) out =
    let here = domain_match u.host domain in
    let (out', jar') = send_jar u now jar out in
    let (out'', rest') = send_jars u now rest (if here then out' else out) in
    (out'', (domain, if here then jar' else jar) ∷ rest')

unfoldable pub cookie_header : ℕ → Bytes → Cookies → Result (Bytes × Cookies)
unfolding send_jars
cookie_header now url cookies = do
  u ← parse_url url
  ok (send_jars u now (prune_expired now cookies) [])
