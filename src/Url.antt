-- ===== src/Url.antt =====
-- Urls of src/http_client.cpp: `parse_url`, `origin_key`, `resolve_redirect_url`, `has_url_scheme` and
-- `resolve_base_url`.
pub mod Parse
pub mod Redirect
use http_client.Prelude.{
  ℕ, suc, ◌+◌, Bool, true, false, ◌&&◌, ◌||◌, not, List, [], ◌∷◌, ◌++◌, Option, none, some, Bytes,
  codes, if◌then◌else◌, take, drop, is_nil, is_some, Result, ok, err, ◌>>=◌,
}
use http_client.Text.{bytes_eq, find, rfind, find_text, starts_with, front_is}
use http_client.Headers.{trim_copy}

pub record ParsedUrl : Type 0 where
  pub scheme : Bytes
  pub host : Bytes
  pub port : Bytes
  pub path : Bytes

abbrev pub scheme_mark : Bytes
scheme_mark = codes "://"

-- What is behind the scheme is cut at the first `/`; without one the path is `/`.
unfoldable pub authority_of : Bytes → Bytes
authority_of rest = elim (find b'/' rest) [ none ↦ rest | some i ↦ take i rest ]

unfoldable pub path_of : Bytes → Bytes
path_of rest = elim (find b'/' rest) [ none ↦ b'/' ∷ [] | some i ↦ drop i rest ]

unfoldable pub default_port : Bytes → Bytes
default_port scheme = if bytes_eq scheme (codes "https") then codes "443" else codes "80"

-- The authority is cut at its last `:`.
unfoldable pub url_of : Bytes → Bytes → Bytes → ParsedUrl
unfolding default_port
url_of scheme authority path = elim (rfind b':' authority) [
  | none ↦ record { scheme = scheme; host = authority; port = default_port scheme; path = path }
  | some i ↦ record {
    scheme = scheme;
    host = take i authority;
    port = drop (suc i) authority;
    path = path;
  }
]

unfoldable pub parse_url : Bytes → Result ParsedUrl
unfolding url_of authority_of path_of
parse_url url = elim (find_text scheme_mark url) [
  | none ↦ err (codes "url must include scheme")
  | some i ↦
      let rest = drop (suc (suc (suc i))) url in
      ok (url_of (take i url) (authority_of rest) (path_of rest))
]

-- The key of an origin, from a parsed url.
unfoldable pub key_of : ParsedUrl → Bytes
key_of u = u.scheme ++ (scheme_mark ++ (u.host ++ b':' ∷ u.port))

-- `origin_key`, over the url of the request.
unfoldable pub origin_key : Bytes → Result Bytes
unfolding parse_url key_of
origin_key url = do u ← parse_url url; ok (key_of u)

-- The port is written unless it is the default of `http` or `https`.
unfoldable pub is_default_port : ParsedUrl → Bool
is_default_port u =
    (bytes_eq u.scheme (codes "https") && bytes_eq u.port (codes "443"))
    || (bytes_eq u.scheme (codes "http") && bytes_eq u.port (codes "80"))

unfoldable pub origin_of : ParsedUrl → Bytes
unfolding is_default_port
origin_of u =
    u.scheme ++ (scheme_mark ++ (u.host ++ (if is_default_port u then [] else b':' ∷ u.port)))

-- `path.resize(query)` where there is a `?`.
unfoldable pub without_query : Bytes → Bytes
without_query path = elim (find b'?' path) [ none ↦ path | some i ↦ take i path ]

-- The path up to its last `/`.
unfoldable pub directory : Bytes → Bytes
directory path = elim (rfind b'/' path) [ none ↦ b'/' ∷ [] | some i ↦ take (suc i) path ]

-- The branches behind the test for an absolute url, which read the base.
unfoldable pub resolve_against : ParsedUrl → Bytes → Bytes
unfolding origin_of without_query directory
resolve_against u target =
    if starts_with (codes "//") target
    then u.scheme ++ b':' ∷ target
    else if front_is b'/' target
    then origin_of u ++ target
    else origin_of u ++ (directory (without_query u.path) ++ target)

unfoldable pub resolve_redirect_url : Bytes → Bytes → Result Bytes
unfolding resolve_against
resolve_redirect_url base location =
    let target = trim_copy location in
    if is_some (find_text scheme_mark target)
    then ok target
    else do u ← parse_url base; ok (resolve_against u target)

unfoldable pub has_url_scheme : Bytes → Bool
has_url_scheme url = is_some (find_text scheme_mark url)

unfoldable pub resolve_base_url : Bytes → Bytes → Result Bytes
unfolding resolve_redirect_url has_url_scheme
resolve_base_url base url =
    if is_nil base || has_url_scheme url
    then ok url
    else if is_nil url
    then ok base
    else resolve_redirect_url base url
