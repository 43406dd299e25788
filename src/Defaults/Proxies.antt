-- ===== src/Defaults/Proxies.antt =====
-- Which hosts the list of exceptions covers, and which requests keep their own proxy.
use http_client.Prelude.{
  ◌≡◌, ◌≢◌, ◌↔◌, ◌⊎◌, inl, inr, refl, Bool, true, false, ◌&&◌, ◌||◌, not, List, [], ◌∷◌, Bytes,
  codes, arith, Bool-cases, is_some, ok,
}
use http_client.Text.{bytes_eq, bytes_eq_iff}
use http_client.Headers.{lower_copy, trim_copy}
use http_client.Url.{ParsedUrl, parse_url}
use http_client.Cookies.{without_dot}
use http_client.Cookies.Match.{IsSubdomain, is_subdomain_sound, is_subdomain_complete}
use http_client.Request.{Request}
use http_client.Defaults.{
  DefaultOptions, Environment, matches_item, host_matches_no_proxy, default_proxy,
}

-- An item, trimmed and in lower case, covers a host in lower case: it is `*`, or the host is the item
-- without a leading `.` or a subdomain of that.
abbrev pub Covers : Bytes → Bytes → Type 0
Covers h n = (n ≢ []) × ((n ≡ codes "*") ⊎ IsSubdomain h (without_dot n))

abbrev pub IsExcepted : Bytes → List Bytes → Type 0
IsExcepted host [] = ⊥
IsExcepted host (item ∷ items) =
    Covers (lower_copy host) (lower_copy (trim_copy item)) ⊎ IsExcepted host items

matches_item_sound : (h n : Bytes) → matches_item h n ≡ true → Covers h n
unfolding matches_item
matches_item_sound h [] e = cc
matches_item_sound h (c ∷ n) e = (
  (λ q. cc),
  elim (Bool-cases (bytes_eq (c ∷ n) (codes "*"))) [
    | inl q ↦ inl ((bytes_eq_iff (c ∷ n) (codes "*")).0 q)
    | inr q ↦ inr (is_subdomain_sound h (without_dot (c ∷ n)) (ground (arith, q)))
  ],
)

or_true_right : (a b : Bool) → b ≡ true → (a || b) ≡ true
or_true_right a b e = ground arith

or_true_left : (a b : Bool) → a ≡ true → (a || b) ≡ true
or_true_left a b e = ground arith

matches_item_complete : (h n : Bytes) → Covers h n → matches_item h n ≡ true
unfolding matches_item
matches_item_complete h [] (e, c) = absurd (e refl)
matches_item_complete h (x ∷ n) (e, inl q) =
    or_true_left _ _ ((bytes_eq_iff (x ∷ n) (codes "*")).1 q)
matches_item_complete h (x ∷ n) (e, inr s) =
    or_true_right _ _ (is_subdomain_complete h (without_dot (x ∷ n)) s)

no_proxy_sound :
    (host : Bytes) (items : List Bytes)
    → host_matches_no_proxy host items ≡ true
    → IsExcepted host items
unfolding host_matches_no_proxy
no_proxy_sound host [] e = cc
no_proxy_sound host (item ∷ items) e =
    elim (Bool-cases (matches_item (lower_copy host) (lower_copy (trim_copy item)))) [
      | inl q ↦ inl (matches_item_sound _ _ q)
      | inr q ↦ inr (no_proxy_sound host items (ground (arith, q)))
    ]

no_proxy_complete :
    (host : Bytes) (items : List Bytes)
    → IsExcepted host items
    → host_matches_no_proxy host items ≡ true
unfolding host_matches_no_proxy
no_proxy_complete host [] x = elim x [ ]
no_proxy_complete host (item ∷ items) (inl c) = or_true_left _ _ (matches_item_complete _ _ c)
no_proxy_complete host (item ∷ items) (inr x) = or_true_right _ _ (no_proxy_complete host items x)

-- A host is excepted from the proxy exactly when one of the items, trimmed and in lower case, is not
-- empty and is `*`, or is the host or a domain above it, with or without a leading `.`.
pub host_matches_no_proxy_iff :
    (host : Bytes) (items : List Bytes)
    → (host_matches_no_proxy host items ≡ true) ↔ IsExcepted host items
host_matches_no_proxy_iff host items = (no_proxy_sound host items, no_proxy_complete host items)

-- Where the environment is not trusted, the request for a host that `no_proxy` excepts stays as it is,
-- whatever proxy the client has.
pub default_proxy-excepted :
    (o : DefaultOptions) (env : Environment) (r : Request) (u : ParsedUrl)
    → parse_url r.url ≡ ok u
    → IsExcepted u.host o.no_proxy
    → o.trust_env_proxy ≡ false
    → default_proxy o env r ≡ ok r
unfolding default_proxy
default_proxy-excepted o env r u e x n =
    let m = no_proxy_complete u.host o.no_proxy x in
    elim (Bool-cases (not r.disable_proxy && not (is_some r.proxy))) [
      | inl q ↦ rw (default_proxy, q) (rw (e, n) (rw m refl))
      | inr q ↦ rw (default_proxy, q) refl
    ]
