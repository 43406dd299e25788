-- ===== src/Url/Parse.antt =====
-- `parse_url`: what it accepts, and what it returns on a url written from its parts.
use http_client.Prelude.{
  ℕ, suc, ◌≡◌, ◌≢◌, refl, sym, ap, ◌∙◌, inl, inr, [], ◌∷◌, ◌++◌, some, Bytes, codes, arith,
  All-append, All-append_left, All-append_right, take, drop, length, take-append, drop-append,
  drop-append_cons, Bool-cases, Option-cases, ok, ok-injective, err-ne-ok, subst, ==_ne,
}
use http_client.Text.{Lacks, bytes_eq, find, rfind, find_text, starts_with}
use http_client.Text.Search.{
  find-Lacks, find-append, find-some, find-none, find-drop, rfind-Lacks, rfind-append, rfind-some,
}
use http_client.Url.{
  ParsedUrl, scheme_mark, authority_of, path_of, default_port, url_of, parse_url, key_of,
}

-- The first mark is behind a scheme that has no `:`.
pub find_text-scheme :
    (s rest : Bytes)
    → Lacks b':' s
    → find_text scheme_mark (s ++ (scheme_mark ++ rest)) ≡ some (length s)
unfolding find_text starts_with
find_text-scheme [] rest h = refl
find_text-scheme (x ∷ s) rest h = rw (==_ne b':' x (λ e. h.0 (sym e)), find_text-scheme s rest h.1)

pub drop-mark :
    (s rest : Bytes) → drop (suc (suc (suc (length s)))) (s ++ (scheme_mark ++ rest)) ≡ rest
drop-mark [] rest = refl
drop-mark (x ∷ s) rest = drop-mark s rest

-- A path as a request sends it.
abbrev pub StartsWithSlash : Bytes → Type 0
StartsWithSlash path = (rest : Bytes) × (path ≡ b'/' ∷ rest)

pub authority_of-append : (a rest : Bytes) → Lacks b'/' a → authority_of (a ++ b'/' ∷ rest) ≡ a
unfolding authority_of
authority_of-append a rest h =
    rw (authority_of, find-append b'/' a rest h) (take-append a (b'/' ∷ rest))

pub path_of-append : (a rest : Bytes) → Lacks b'/' a → path_of (a ++ b'/' ∷ rest) ≡ b'/' ∷ rest
unfolding path_of
path_of-append a rest h = rw (path_of, find-append b'/' a rest h) (drop-append a (b'/' ∷ rest))

pub authority_of-Lacks : (a : Bytes) → Lacks b'/' a → authority_of a ≡ a
unfolding authority_of
authority_of-Lacks a h = rw (authority_of, find-Lacks b'/' a h)

path_of-Lacks : (a : Bytes) → Lacks b'/' a → path_of a ≡ b'/' ∷ []
unfolding path_of
path_of-Lacks a h = rw (path_of, find-Lacks b'/' a h)

-- Behind the scheme the url is cut as the two functions say.
pub parse_url-scheme :
    (s rest : Bytes)
    → Lacks b':' s
    → parse_url (s ++ (scheme_mark ++ rest)) ≡ ok (url_of s (authority_of rest) (path_of rest))
unfolding parse_url
parse_url-scheme s rest h =
    rw (parse_url, find_text-scheme s rest h, take-append s (scheme_mark ++ rest), drop-mark s rest)

pub url_of-port :
    (s h p path : Bytes)
    → Lacks b':' p
    → url_of s (h ++ b':' ∷ p) path ≡ record { scheme = s; host = h; port = p; path = path }
unfolding url_of
url_of-port s h p path n =
    rw (url_of, rfind-append b':' h p n, take-append h (b':' ∷ p), drop-append_cons h p b':')

pub url_of-host :
    (s h path : Bytes)
    → Lacks b':' h
    → url_of s h path ≡ record { scheme = s; host = h; port = default_port s; path = path }
unfolding url_of
url_of-host s h path n = rw (url_of, rfind-Lacks b':' h n)

-- A url written with a port is read back part by part: the scheme has no `:`, the host no `/`, the port
-- neither, and the path starts with `/`. The host may hold any number of `:`.
pub parse_url-print :
    (s h p path : Bytes)
    → Lacks b':' s
    → Lacks b'/' h
    → Lacks b'/' p
    → Lacks b':' p
    → parse_url (s ++ (scheme_mark ++ ((h ++ b':' ∷ p) ++ b'/' ∷ path)))
      ≡ ok (record { scheme = s; host = h; port = p; path = b'/' ∷ path })
parse_url-print s h p path hs hh hp hc =
    let clean : Lacks b'/' (h ++ b':' ∷ p) = All-append _ h (b':' ∷ p) hh (omega arith, hp) in
    parse_url-scheme s ((h ++ b':' ∷ p) ++ b'/' ∷ path) hs
    ∙ rw (authority_of-append (h ++ b':' ∷ p) path clean, path_of-append (h ++ b':' ∷ p) path clean)
        (ap ok (url_of-port s h p (b'/' ∷ path) hc))

-- `origin_key` writes a url with the port, and reading the key back gives the origin: so two urls with
-- one key have the same scheme, host and port.
pub parse_url-key_of :
    (u : ParsedUrl)
    → Lacks b':' u.scheme
    → Lacks b'/' u.host
    → Lacks b'/' u.port
    → Lacks b':' u.port
    → parse_url (key_of u) ≡ ok (record u { path = codes "/" })
unfolding key_of
parse_url-key_of u hs hh hp hc =
    let clean : Lacks b'/' (u.host ++ b':' ∷ u.port) =
      All-append _ u.host (b':' ∷ u.port) hh (omega arith, hp) in
    parse_url-scheme u.scheme (u.host ++ b':' ∷ u.port) hs
    ∙ rw (authority_of-Lacks _ clean, path_of-Lacks _ clean)
        (ap ok (url_of-port u.scheme u.host u.port (codes "/") hc))

-- What every parsed url satisfies.
abbrev pub IsSeparated : ParsedUrl → Type 0
IsSeparated u = Lacks b'/' u.host × Lacks b'/' u.port × Lacks b':' u.port × StartsWithSlash u.path

default_port-Lacks :
    (c : ℕ) (s : Bytes) → c ≢ b'4' → c ≢ b'3' → c ≢ b'8' → c ≢ b'0' → Lacks c (default_port s)
unfolding default_port
default_port-Lacks c s h4 h3 h8 h0 = elim (Bool-cases (bytes_eq s (codes "https"))) [
  | inl e ↦ rw e (flip h4, (flip h4, (flip h3, tt)))
  | inr e ↦ rw e (flip h8, (flip h0, tt))
]
  where
    flip : {d : ℕ} → c ≢ d → d ≢ c
    flip h e = h (sym e)

authority_of-noslash : (rest : Bytes) → Lacks b'/' (authority_of rest)
unfolding authority_of
authority_of-noslash rest = elim (Option-cases (find b'/' rest)) [
  | inl e ↦ rw (authority_of, e) (find-none b'/' rest e)
  | inr (i, e) ↦ rw (authority_of, e) (find-some b'/' rest i e).0
]

path_of-StartsWithSlash : (rest : Bytes) → StartsWithSlash (path_of rest)
unfolding path_of
path_of-StartsWithSlash rest = elim (Option-cases (find b'/' rest)) [
  | inl e ↦ rw (path_of, e) ([], refl)
  | inr (i, e) ↦ rw (path_of, e) (drop (suc i) rest, find-drop b'/' rest i e)
]

url_of-IsSeparated :
    (s a path : Bytes) → Lacks b'/' a → StartsWithSlash path → IsSeparated (url_of s a path)
unfolding url_of
url_of-IsSeparated s a path h p = elim (Option-cases (rfind b':' a)) [
  | inl e ↦
      rw (url_of, e)
        (
          h,
          default_port-Lacks b'/' s (omega arith) (omega arith) (omega arith) (omega arith),
          default_port-Lacks b':' s (omega arith) (omega arith) (omega arith) (omega arith),
          p,
        )
  | inr (i, e) ↦
      let (q, w) = rfind-some b':' a i e in
      let both = subst (Lacks b'/') w h in
      rw (url_of, e)
        (All-append_left _ (take i a) _ both, (All-append_right _ (take i a) _ both).1, q, p)
]

-- Whatever `parse_url` returns, the host and the port hold no `/`, the port holds no `:`, and the path
-- starts with a `/`.
pub parse_url-IsSeparated : (url : Bytes) (u : ParsedUrl) → parse_url url ≡ ok u → IsSeparated u
unfolding parse_url
parse_url-IsSeparated url u h = elim (Option-cases (find_text scheme_mark url)) [
  | inl e ↦ absurd (err-ne-ok (rw (parse_url, e) at h))
  | inr (i, e) ↦
      let rest = drop (suc (suc (suc i))) url in
      subst IsSeparated (ok-injective (rw (parse_url, e) at h)) (
        url_of-IsSeparated (take i url) (authority_of rest) (path_of rest)
          (authority_of-noslash rest) (path_of-StartsWithSlash rest))
]
