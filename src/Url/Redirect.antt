-- ===== src/Url/Redirect.antt =====
-- `resolve_redirect_url` and `resolve_base_url`: where a relative reference leads.
use http_client.Prelude.{
  suc, ◌≡◌, refl, sym, ap, ◌∙◌, inl, inr, true, false, [], ◌∷◌, ◌++◌, none, Bytes, codes,
  if◌then◌else◌, arith, All-append, take, append_assoc, append-nil, Bool-cases, Option-cases, ok,
  subst,
}
use http_client.Text.{
  Lacks, bytes_eq, bytes_eq_sound, find, rfind, find_text, starts_with, front_is,
}
use http_client.Headers.{trim_copy}
use http_client.Url.{
  ParsedUrl, scheme_mark, default_port, url_of, parse_url, is_default_port, origin_of,
  without_query, directory, resolve_against, resolve_redirect_url,
}
use http_client.Url.Parse.{
  StartsWithSlash, IsSeparated, parse_url-scheme, url_of-port, url_of-host, authority_of-append,
  path_of-append, parse_url-IsSeparated,
}

https_not_http : (s : Bytes) → bytes_eq s (codes "https") ≡ true → bytes_eq s (codes "http") ≡ false
https_not_http s e =
    subst (λ (t : Bytes). bytes_eq t (codes "http") ≡ false)
      (sym (bytes_eq_sound s (codes "https") e)) refl

default_port_lem : (u : ParsedUrl) → is_default_port u ≡ true → default_port u.scheme ≡ u.port
unfolding default_port is_default_port
default_port_lem u h = elim (Bool-cases (bytes_eq u.scheme (codes "https"))) [
  | inl e ↦ rw e (sym (bytes_eq_sound u.port (codes "443") (https_port e h)))
  | inr e ↦ rw e (sym (bytes_eq_sound u.port (codes "80") (http_port e h)))
]
  where
    https_port :
        bytes_eq u.scheme (codes "https") ≡ true
        → is_default_port u ≡ true
        → bytes_eq u.port (codes "443") ≡ true
    https_port e h = ground (arith, https_not_http u.scheme e)

    http_port :
        bytes_eq u.scheme (codes "https") ≡ false
        → is_default_port u ≡ true
        → bytes_eq u.port (codes "80") ≡ true
    http_port e h = ground arith

authority : ParsedUrl → Bytes
authority u = u.host ++ (if is_default_port u then [] else b':' ∷ u.port)

origin_of-append :
    (u : ParsedUrl) (x : Bytes) → origin_of u ++ x ≡ u.scheme ++ (scheme_mark ++ (authority u ++ x))
unfolding origin_of authority
origin_of-append u x =
    append_assoc u.scheme (scheme_mark ++ authority u) x
    ∙ ap (◌++◌ u.scheme) (append_assoc scheme_mark (authority u) x)

authority-Lacks : (u : ParsedUrl) → IsSeparated u → Lacks b'/' (authority u)
unfolding authority
authority-Lacks u (hh, hp, hc, hs) = elim (Bool-cases (is_default_port u)) [
  | inl e ↦ rw (authority, e) (All-append _ u.host [] hh tt)
  | inr e ↦ rw (authority, e) (All-append _ u.host (b':' ∷ u.port) hh (omega arith, hp))
]

url_of-authority :
    (u : ParsedUrl) (path : Bytes)
    → IsSeparated u
    → Lacks b':' u.host
    → url_of u.scheme (authority u) path ≡ record u { path = path }
unfolding authority
url_of-authority u path (hh, hp, hc, hs) n = elim (Bool-cases (is_default_port u)) [
  | inl e ↦
      rw (authority, e, append-nil u.host)
        (url_of-host u.scheme u.host path n
          ∙ ap (λ p. record u { port = p; path = path }) (default_port_lem u e))
  | inr e ↦ rw (authority, e) (url_of-port u.scheme u.host u.port path hc)
]

-- A path behind the origin that the code prints is read back under that origin.
pub parse_url-origin_of :
    (u : ParsedUrl) (path : Bytes)
    → IsSeparated u
    → Lacks b':' u.scheme
    → Lacks b':' u.host
    → parse_url (origin_of u ++ b'/' ∷ path) ≡ ok (record u { path = b'/' ∷ path })
parse_url-origin_of u path s hs hh =
    let clean = authority-Lacks u s in
    ap parse_url (origin_of-append u (b'/' ∷ path))
    ∙ parse_url-scheme u.scheme (authority u ++ b'/' ∷ path) hs
    ∙ rw (authority_of-append (authority u) path clean, path_of-append (authority u) path clean)
        (ap ok (url_of-authority u (b'/' ∷ path) s hh))

-- The path that a reference to the same origin leads to: itself if it is absolute, else behind the
-- directory of the base.
abbrev pub redirect_path : ParsedUrl → Bytes → Bytes
redirect_path u target =
    if front_is b'/' target then target else directory (without_query u.path) ++ target

without_query-StartsWithSlash : (path : Bytes) → StartsWithSlash (without_query (b'/' ∷ path))
unfolding without_query find
without_query-StartsWithSlash path = elim (Option-cases (find b'?' path)) [
  | inl e ↦ rw (without_query, e) (path, refl)
  | inr (i, e) ↦ rw (without_query, e) (take i path, refl)
]

directory-StartsWithSlash : (path : Bytes) → StartsWithSlash (directory (b'/' ∷ path))
unfolding directory rfind
directory-StartsWithSlash path = elim (Option-cases (rfind b'/' path)) [
  | inl e ↦ rw (directory, e) ([], refl)
  | inr (i, e) ↦ rw (directory, e) (take (suc i) path, refl)
]

front_is-StartsWithSlash : (s : Bytes) → front_is b'/' s ≡ true → StartsWithSlash s
unfolding front_is
front_is-StartsWithSlash [] h = cc
front_is-StartsWithSlash (x ∷ s) h = (s, ground arith)

StartsWithSlash-append : (s t : Bytes) → StartsWithSlash s → StartsWithSlash (s ++ t)
StartsWithSlash-append s t (r, e) = (r ++ t, ap (λ (u : Bytes). u ++ t) e)

redirect_path-StartsWithSlash :
    (u : ParsedUrl) (target : Bytes)
    → StartsWithSlash u.path
    → StartsWithSlash (redirect_path u target)
redirect_path-StartsWithSlash u target (p, e) = elim (Bool-cases (front_is b'/' target)) [
  | inl q ↦ rw q (front_is-StartsWithSlash target q)
  | inr q ↦
      let (w, f) = without_query-StartsWithSlash p in
      let start : StartsWithSlash (directory (without_query u.path)) =
        subst (λ (x : Bytes). StartsWithSlash (directory x)) (sym (ap without_query e ∙ f))
          (directory-StartsWithSlash w) in
      rw q (StartsWithSlash-append _ target start)
]

resolve_relative :
    (base location : Bytes) (u : ParsedUrl)
    → parse_url base ≡ ok u
    → find_text scheme_mark (trim_copy location) ≡ none
    → starts_with (codes "//") (trim_copy location) ≡ false
    → resolve_redirect_url base location ≡ ok (origin_of u ++ redirect_path u (trim_copy location))
unfolding resolve_redirect_url resolve_against
resolve_relative base location u p m d = elim (Bool-cases (front_is b'/' (trim_copy location))) [
  | inl q ↦ rw (resolve_redirect_url, resolve_against, m, p, d, q)
  | inr q ↦ rw (resolve_redirect_url, resolve_against, m, p, d, q)
]

-- A location without a scheme and without `//` in front, absolute or relative, resolves to a url of the
-- base's own scheme, host and port, where neither the scheme nor the host of the base holds a `:`;
-- its path is the location, or the location behind the directory of the base's path.
pub resolve_redirect_url-origin :
    (base location : Bytes) (u : ParsedUrl)
    → parse_url base ≡ ok u
    → Lacks b':' u.scheme
    → Lacks b':' u.host
    → find_text scheme_mark (trim_copy location) ≡ none
    → starts_with (codes "//") (trim_copy location) ≡ false
    → (url : Bytes) × (resolve_redirect_url base location ≡ ok url)
      × (parse_url url ≡ ok (record u { path = redirect_path u (trim_copy location) }))
resolve_redirect_url-origin base location u p hs hh m d =
    let s = parse_url-IsSeparated base u p in
    let path = redirect_path u (trim_copy location) in
    let (r, e) = redirect_path-StartsWithSlash u (trim_copy location) s.3 in
    (
      origin_of u ++ path,
      resolve_relative base location u p m d,
      subst (λ (x : Bytes). parse_url (origin_of u ++ x) ≡ ok (record u { path = x })) (sym e)
          (parse_url-origin_of u r s hs hh),
    )
