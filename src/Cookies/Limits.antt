-- ===== src/Cookies/Limits.antt =====
-- The limits of the jar, after a response.
use http_client.Prelude.{
  ℕ, zero, suc, ◌+◌, ◌≤◌, ◌<◌, ◌≡◌, ◌≢◌, refl, ◌⊎◌, inl, inr, Bool, true, false, List, [], ◌∷◌,
  Option, none, some, Bytes, ◌==◌, if◌then◌else◌, ltb, length, arith, Bool-cases, All, Ensures,
  Ensures-bind, Ensures-any, Option-cases, subst,
}
use http_client.Url.{parse_url}
use http_client.Cookies.Jar.{
  JarOptions, Cookies, prune_expired, domain_time, oldest_domain, remove_at, shrink_domains,
  enforce_domain_count, earlier,
}
use http_client.Cookies.Store.{add_lines, add_from_response}
use http_client.Cookies.Bounds.{IsBounded, add_lines-IsBounded, prune_expired-IsBounded}

-- A position below a bound.
abbrev IsBelow : ℕ → Option ℕ → Type 0
IsBelow n none = Unit {0}
IsBelow n (some i) = i < n

IsBelow-mono : (m n : ℕ) (o : Option ℕ) → m ≤ n → IsBelow m o → IsBelow n o
IsBelow-mono m n none h b = tt
IsBelow-mono m n (some i) h b = omega arith

next-IsBelow :
    (i : ℕ) (at : Option ℕ) (b : Bool) → IsBelow i at → IsBelow (suc i) (if b then some i else at)
next-IsBelow i at true h = omega arith
next-IsBelow i at false h = IsBelow-mono i (suc i) at (omega arith) h

oldest_domain-IsBelow :
    (cookies : Cookies) (i : ℕ) (best at : Option ℕ)
    → IsBelow i at
    → IsBelow (i + length cookies) (oldest_domain cookies i best at)
unfolding oldest_domain
oldest_domain-IsBelow [] i best at h = IsBelow-mono i (i + 0) at (omega arith) h
oldest_domain-IsBelow ((d, jar) ∷ rest) i best at h =
    IsBelow-mono (suc i + length rest) (i + suc (length rest)) _ (omega arith) (
      oldest_domain-IsBelow rest (suc i) _ _ (next-IsBelow i at (earlier (domain_time jar) best) h))

oldest_domain-some :
    (cookies : Cookies) (i : ℕ) (best : Option ℕ) (j : ℕ)
    → oldest_domain cookies i best (some j) ≢ none
unfolding oldest_domain
oldest_domain-some [] i best j h = cc
oldest_domain-some ((d, jar) ∷ rest) i best j h =
    elim (Bool-cases (earlier (domain_time jar) best)) [
      | inl e ↦ oldest_domain-some rest (suc i) _ i (rw e at h)
      | inr e ↦ oldest_domain-some rest (suc i) _ j (rw e at h)
    ]

abbrev AllEmpty : Cookies → Type 0
AllEmpty = All (λ entry. entry.1 ≡ [])

oldest_domain-none :
    (cookies : Cookies) (i : ℕ) → oldest_domain cookies i none none ≡ none → AllEmpty cookies
unfolding oldest_domain domain_time
oldest_domain-none [] i h = tt
oldest_domain-none ((d, []) ∷ rest) i h = (refl, oldest_domain-none rest (suc i) h)
oldest_domain-none ((d, c ∷ jar) ∷ rest) i h = absurd (oldest_domain-some rest (suc i) _ i h)

length-remove_at :
    (i : ℕ) (cookies : Cookies)
    → i < length cookies
    → length (remove_at i cookies) + 1 ≡ length cookies
unfolding remove_at
length-remove_at i [] h = absurd (omega arith)
length-remove_at zero (d ∷ rest) h = omega arith
length-remove_at (suc i) (d ∷ rest) h = omega (arith, length-remove_at i rest (omega arith))

shrink_domains_lem :
    (fuel limit : ℕ) (cookies : Cookies)
    → length cookies ≤ fuel + limit
    → (length (shrink_domains fuel limit cookies) ≤ limit)
      ⊎ AllEmpty (shrink_domains fuel limit cookies)
unfolding shrink_domains
shrink_domains_lem zero limit cookies h = inl (omega arith)
shrink_domains_lem (suc fuel) limit cookies h = elim (Bool-cases (ltb limit (length cookies))) [
  | inr e ↦ rw (shrink_domains, e) (inl (ground arith))
  | inl e ↦ elim (Option-cases (oldest_domain cookies 0 none none)) [
    | inl p ↦ rw (shrink_domains, e, p) (inr (oldest_domain-none cookies 0 p))
    | inr (i, p) ↦
        let below : i < 0 + length cookies =
          subst (IsBelow (0 + length cookies)) p (oldest_domain-IsBelow cookies 0 none none tt) in
        rw (shrink_domains, e, p)
          (shrink_domains_lem fuel limit (remove_at i cookies)
            (omega (arith, length-remove_at i cookies (omega arith))))
  ]
]

remove_at-IsBounded :
    (o : JarOptions) (i : ℕ) (cookies : Cookies)
    → IsBounded o cookies
    → IsBounded o (remove_at i cookies)
unfolding remove_at
remove_at-IsBounded o i [] h = tt
remove_at-IsBounded o zero (d ∷ rest) h = h.1
remove_at-IsBounded o (suc i) (d ∷ rest) h = (h.0, remove_at-IsBounded o i rest h.1)

shrink_domains-IsBounded :
    (o : JarOptions) (fuel limit : ℕ) (cookies : Cookies)
    → IsBounded o cookies
    → IsBounded o (shrink_domains fuel limit cookies)
unfolding shrink_domains
shrink_domains-IsBounded o zero limit cookies h = h
shrink_domains-IsBounded o (suc fuel) limit cookies h =
    elim (Bool-cases (ltb limit (length cookies))) [
      | inr e ↦ rw (shrink_domains, e) h
      | inl e ↦ elim (Option-cases (oldest_domain cookies 0 none none)) [
        | inl p ↦ rw (shrink_domains, e, p) h
        | inr (i, p) ↦
            rw (shrink_domains, e, p)
              (shrink_domains-IsBounded o fuel limit (remove_at i cookies)
                (remove_at-IsBounded o i cookies h))
      ]
    ]

-- Both limits.
abbrev pub KeepsLimits : JarOptions → Cookies → Type 0
KeepsLimits o cookies =
    IsBounded o cookies × ((length cookies ≤ o.max_cookie_domains) ⊎ AllEmpty cookies)

enforce_domain_count-KeepsLimits :
    (o : JarOptions) (cookies : Cookies)
    → IsBounded o cookies
    → KeepsLimits o (enforce_domain_count o cookies)
unfolding enforce_domain_count
enforce_domain_count-KeepsLimits o cookies h = elim (Bool-cases (o.max_cookie_domains == 0)) [
  | inl e ↦ rw (enforce_domain_count, e) (tt, inr tt)
  | inr e ↦
      rw (enforce_domain_count, e)
        (
          shrink_domains-IsBounded o (length cookies) o.max_cookie_domains cookies h,
          shrink_domains_lem (length cookies) o.max_cookie_domains cookies (omega arith),
        )
]

-- When a response has been read, on a jar whose domains keep the limit on their cookies: they still do,
-- and the domains keep theirs, unless no domain has a cookie at all.
pub add_from_response-KeepsLimits :
    (o : JarOptions) (now : ℕ) (url : Bytes) (headers : List Bytes) (cookies : Cookies)
    → IsBounded o cookies
    → Ensures (KeepsLimits o) (add_from_response o now url headers cookies)
unfolding add_from_response
add_from_response-KeepsLimits o now url headers cookies h =
    Ensures-bind (λ _. Unit {0}) (KeepsLimits o) (parse_url url) _ (Ensures-any (parse_url url))
      λ u _.
        enforce_domain_count-KeepsLimits o (add_lines o u now headers (prune_expired now cookies)) (
          add_lines-IsBounded o u now headers (prune_expired now cookies)
            (prune_expired-IsBounded o now cookies h))
