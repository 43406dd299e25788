-- ===== src/Defaults/Headers.antt =====
-- The defaults keep the headers of the request.
use http_client.Prelude.{
  ◌≡◌, refl, sym, Bool, true, false, ◌&&◌, ◌||◌, not, List, [], ◌∷◌, some, Bytes, codes, arith,
  Bool-cases, Option-cases, is_some, Result, ok, Ensures, Ensures-bind, Ensures-any, if◌then◌else◌,
  subst, inl, inr,
}
use http_client.Headers.{header_name_equal, find_header, is_named, split_header_view}
use http_client.Headers.Laws.{
  header_name_equal_iff, find_header-append_some, header_name_equal-lower_copy,
}
use http_client.Url.{parse_url, resolve_base_url}
use http_client.Request.{Request, header, add_header_line}
use http_client.Request.Laws.{header-set_header}
use http_client.Defaults.{
  DefaultOptions, Environment, default_timeout, default_header, default_headers_of,
  default_encoding, default_members, chosen_proxy, default_proxy, run_hooks, apply_defaults,
  env_proxy_for,
}

is_named-equal :
    (a b line : Bytes) → header_name_equal a b ≡ true → is_named a line ≡ is_named b line
unfolding is_named
is_named-equal a b line e =
    rw
      (
        header_name_equal-lower_copy (split_header_view line).0 a,
        header_name_equal-lower_copy (split_header_view line).0 b,
        (header_name_equal_iff a b).0 e,
      )
      refl

-- Names that agree up to case find the same header.
find_header-equal :
    (a b : Bytes) (lines : List Bytes)
    → header_name_equal a b ≡ true
    → find_header a lines ≡ find_header b lines
unfolding find_header
find_header-equal a b [] e = refl
find_header-equal a b (x ∷ lines) e =
    ground (arith, find_header-equal a b lines e, is_named-equal a b x e)

header-default_header :
    (name line : Bytes) (r : Request) (v : Bytes)
    → header name r ≡ some v
    → header name (default_header line r) ≡ some v
unfolding default_header header add_header_line
header-default_header name line r v h =
    ground (arith, find_header-append_some name r.headers (line ∷ []) v h)

header-default_headers_of :
    (name : Bytes) (lines : List Bytes) (r : Request) (v : Bytes)
    → header name r ≡ some v
    → header name (default_headers_of lines r) ≡ some v
unfolding default_headers_of
header-default_headers_of name [] r v h = h
header-default_headers_of name (line ∷ lines) r v h =
    header-default_headers_of name lines (default_header line r) v
      (header-default_header name line r v h)

headers-default_timeout :
    (o : DefaultOptions) (r : Request) → (default_timeout o r).headers ≡ r.headers
unfolding default_timeout
headers-default_timeout o r = ground arith

Keeps : Request → Request → Type 0
Keeps r r' = r'.headers ≡ r.headers

headers-chosen_proxy :
    (o : DefaultOptions) (env : Environment) (r : Request)
    → Ensures (Keeps r) (chosen_proxy o env r)
unfolding chosen_proxy Keeps
headers-chosen_proxy o env r = elim (Option-cases o.proxy) [
  | inr (p, e) ↦ rw (chosen_proxy, e) refl
  | inl e ↦
      rw (chosen_proxy, e)
        (elim (Bool-cases o.trust_env_proxy) [
          | inr q ↦ rw q refl
          | inl q ↦ rw q (
              Ensures-bind (λ _. Unit {0}) (Keeps r) (env_proxy_for env r.url) _
                (Ensures-any (env_proxy_for env r.url)) (λ p _. refl))
        ])
]

headers-unless :
    (r : Request) (b : Bool) (m : Result Request)
    → Ensures (Keeps r) m
    → Ensures (Keeps r) (if b then ok r else m)
unfolding Keeps
headers-unless r true m h = refl
headers-unless r false m h = h

headers-default_proxy :
    (o : DefaultOptions) (env : Environment) (r : Request)
    → Ensures (Keeps r) (default_proxy o env r)
unfolding default_proxy Keeps
headers-default_proxy o env r = elim (Bool-cases (not r.disable_proxy && not (is_some r.proxy))) [
  | inr q ↦ rw (default_proxy, q) refl
  | inl q ↦
      rw (default_proxy, q)
        (Ensures-bind (λ _. Unit {0}) (Keeps r) (parse_url r.url) _ (Ensures-any (parse_url r.url))
          (λ u _. headers-unless r _ (chosen_proxy o env r) (headers-chosen_proxy o env r)))
]

header-equal : (a b : Bytes) (r : Request) → header_name_equal a b ≡ true → header a r ≡ header b r
unfolding header
header-equal a b r e = find_header-equal a b r.headers e

header-default_encoding :
    (name : Bytes) (r : Request) (v : Bytes)
    → header name r ≡ some v
    → header name (default_encoding r) ≡ some v
unfolding default_encoding
header-default_encoding name r v h =
    elim (Bool-cases (header_name_equal (codes "Accept-Encoding") name)) [
      | inl e ↦ ground (arith, h, header-equal (codes "Accept-Encoding") name r e)
      | inr e ↦ ground (
        arith,
        h,
        (header-set_header (codes "Accept-Encoding") (codes "gzip, deflate") r (omega arith)).2 name
            e,
      )
    ]

header-default_members :
    (o : DefaultOptions) (url name : Bytes) (r : Request) (v : Bytes)
    → header name r ≡ some v
    → header name (default_members o url r) ≡ some v
unfolding default_members header
header-default_members o url name r v h =
    let r' = default_timeout o (record r { url = url }) in
    let r'' = record r' { auto_decompress = o.auto_decompress || r'.auto_decompress } in
    header-default_headers_of name o.default_headers r'' v (
      subst (λ l. find_header name l ≡ some v)
        (sym (headers-default_timeout o (record r { url = url }))) h)

-- Without hooks, the defaults keep every header that the request has: of a name that the request and
-- `default_headers` both have, and of `Accept-Encoding`, the request's own value is found.
pub header-apply_defaults :
    (o : DefaultOptions) (env : Environment) (name : Bytes) (r : Request) (v : Bytes)
    → o.request_hooks ≡ []
    → header name r ≡ some v
    → Ensures (λ r'. header name r' ≡ some v) (apply_defaults o env r)
unfolding apply_defaults run_hooks Keeps
header-apply_defaults o env name r v n h =
    Ensures-bind (λ _. Unit {0}) (λ r'. header name r' ≡ some v) (resolve_base_url o.base_url r.url)
      _ (Ensures-any (resolve_base_url o.base_url r.url))
      λ url _.
        let q = default_encoding (default_members o url r) in
        Ensures-bind (Keeps q) (λ r'. header name r' ≡ some v) (default_proxy o env q) _
          (headers-default_proxy o env q)
          λ r' k. rw n (
            unfold header in
            rw k (
              unfold header in
              header-default_encoding name (default_members o url r) v
                (header-default_members o url name r v h)))
