-- ===== src/Cookies/Client.antt =====
-- The policy over the cookie jar: the limit on the cookies of a domain holds through every call.
use http_client.Prelude.{
  ℕ, suc, ◌≡◌, ◌≤◌, refl, List, [], ◌∷◌, Bytes, length, Result, ok, ◌>>=◌, Ensures, Ensures-bind,
  Ensures-any, Bool-cases, inl, inr, ap, subst, sym,
}
use http_client.Request.{Request}
use http_client.Response.{Response}
use http_client.Url.{ParsedUrl, parse_url}
use http_client.Cookies.{Cookie, domain_match}
use http_client.Cookies.Jar.{JarOptions, Cookies, prune_expired}
use http_client.Cookies.Store.{add_from_response, cookie_header, send_jar, send_jars}
use http_client.Cookies.Bounds.{IsBounded, prune_expired-IsBounded}
use http_client.Cookies.Limits.{KeepsLimits, add_from_response-KeepsLimits}
use http_client.Policy.{Transport, PolicyOptions, RetryStats, ZFormat, request_with_policy}
use http_client.Policy.Invariant.{Preserves, request_with_policy-Preserves}

-- A transport over the jar: `send` answers a request over the state of the connections, and moves the
-- clock.
abbrev pub with_jar :
    JarOptions
    → {A : Type 0} → (Request → A × ℕ → Response × (A × ℕ))
    → (Bytes → ZFormat → Result Bytes)
    → Transport
with_jar o {A} send decode = record {
  World = (A × ℕ) × Cookies;
  raw_request = λ r w. let a = send r w.0 in (a.0, (a.1, w.1));
  cookie_header = λ r w. cookie_header (w.0).1 r.url w.1 >>= λ p. ok (p.0, (w.0, p.1));
  add_from_response = λ r a w. add_from_response o (w.0).1 r.url a.headers w.1 >>= λ c. ok (w.0, c);
  zlib_decode = decode;
}

length-send_jar :
    (u : ParsedUrl) (now : ℕ) (jar : List Cookie) (out : Bytes)
    → length (send_jar u now jar out).1 ≡ length jar
unfolding send_jar
length-send_jar u now [] out = refl
length-send_jar u now (c ∷ jar) out = ap suc (length-send_jar u now jar _)

send_jars-IsBounded :
    (o : JarOptions) (u : ParsedUrl) (now : ℕ) (cookies : Cookies) (out : Bytes)
    → IsBounded o cookies
    → IsBounded o (send_jars u now cookies out).1
unfolding send_jars
send_jars-IsBounded o u now [] out h = tt
send_jars-IsBounded o u now ((d, jar) ∷ rest) out (h, k) =
    elim (Bool-cases (domain_match u.host d)) [
      | inl e ↦ rw e (
        subst (λ n. n ≤ o.max_cookies_per_domain) (sym (length-send_jar u now jar out)) h,
        send_jars-IsBounded o u now rest _ k,
      )
      | inr e ↦ rw e (h, send_jars-IsBounded o u now rest _ k)
    ]

cookie_header-IsBounded :
    (o : JarOptions) (now : ℕ) (url : Bytes) (cookies : Cookies)
    → IsBounded o cookies
    → Ensures (λ p. IsBounded o p.1) (cookie_header now url cookies)
unfolding cookie_header
cookie_header-IsBounded o now url cookies h =
    Ensures-bind (λ _. Unit {0}) (λ p. IsBounded o p.1) (parse_url url) _
      (Ensures-any (parse_url url))
      λ u _.
        send_jars-IsBounded o u now (prune_expired now cookies) []
          (prune_expired-IsBounded o now cookies h)

module _ (o : JarOptions) (A : Type 0) (send : Request → A × ℕ → Response × (A × ℕ))
    (decode : Bytes → ZFormat → Result Bytes) where
  with_jar-Preserves : Preserves (with_jar o send decode) (λ w. IsBounded o w.1)
  with_jar-Preserves = record {
    sends = λ r w h. h;
    asks = λ r w h.
        Ensures-bind {A = Bytes × Cookies} {B = Bytes × ((A × ℕ) × Cookies)} (λ p. IsBounded o p.1)
          (λ p. IsBounded o (p.1).1) _ _ (cookie_header-IsBounded o (w.0).1 r.url w.1 h) (λ p g. g);
    stores = λ r a w h.
        Ensures-bind {A = Cookies} {B = (A × ℕ) × Cookies} (KeepsLimits o) (λ v. IsBounded o v.1) _
          _ (add_from_response-KeepsLimits o (w.0).1 r.url a.headers w.1 h) (λ c g. g.0);
  }

  -- Over the jar, a call of the policy that returns leaves no domain with more cookies than the limit,
  -- where none had before, through all its redirects and retries and whatever the server answers.
  pub request_with_policy-IsBounded :
      (p : PolicyOptions) (r : Request) (w : (A × ℕ) × Cookies) (s : RetryStats)
      → IsBounded o w.1
      → Ensures (λ x. IsBounded o (x.1).1) (request_with_policy (with_jar o send decode) p r w s)
  request_with_policy-IsBounded p r w s h =
      request_with_policy-Preserves (with_jar o send decode) (λ w. IsBounded o w.1)
        with_jar-Preserves p r w s h
