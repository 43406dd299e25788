-- ===== src/Cookies/Bounds.antt =====
-- The limit on the cookies of a domain.
use http_client.Prelude.{
  ℕ, zero, suc, ◌+◌, ◌-◌, ◌≤◌, ◌≡◌, inl, inr, Bool, true, false, ◌&&◌, List, [], ◌∷◌, Option, none,
  some, Bytes, codes, length, take, arith, Bool-cases, All, length-remove_if, Option-cases,
}
use http_client.Text.{bytes_eq, find}
use http_client.Headers.{lower_copy, trim_copy}
use http_client.Url.{ParsedUrl}
use http_client.Cookies.{Cookie}
use http_client.Cookies.Jar.{
  JarOptions, Cookies, is_expired, prune_expired, least_used, remove_first, remove_oldest, shrink,
  enforce_domain_limit, update_jar, store_in_jar,
}
use http_client.Cookies.Store.{add_line, add_lines, store_parsed}

-- The least time is found in the jar: one cookie goes.
length-remove_first :
    (c : Cookie) (jar : List Cookie)
    → length (remove_first (least_used c jar) (c ∷ jar)) ≡ length jar
unfolding least_used remove_first
length-remove_first c [] = ground arith
length-remove_first c (d ∷ jar) = ground (arith, length-remove_first d jar)

length-remove_oldest : (jar : List Cookie) → length (remove_oldest jar) ≡ length jar - 1
unfolding remove_oldest
length-remove_oldest [] = omega arith
length-remove_oldest (c ∷ jar) = omega (arith, length-remove_first c jar)

length-shrink :
    (fuel limit : ℕ) (jar : List Cookie)
    → length jar ≤ fuel + limit
    → length (shrink fuel limit jar) ≤ limit
unfolding shrink
length-shrink zero limit jar h = omega arith
length-shrink (suc fuel) limit jar h =
    ground (arith, length-shrink fuel limit (remove_oldest jar), length-remove_oldest jar)

length-enforce :
    (o : JarOptions) (jar : List Cookie)
    → length (enforce_domain_limit o jar) ≤ o.max_cookies_per_domain
unfolding enforce_domain_limit
length-enforce o jar = ground (arith, length-shrink (length jar) o.max_cookies_per_domain jar)

-- No domain has more cookies than the limit.
abbrev pub IsBounded : JarOptions → Cookies → Type 0
IsBounded o = All (λ entry. length (entry.1) ≤ o.max_cookies_per_domain)

pub prune_expired-IsBounded :
    (o : JarOptions) (now : ℕ) (cookies : Cookies)
    → IsBounded o cookies
    → IsBounded o (prune_expired now cookies)
unfolding prune_expired
prune_expired-IsBounded o now [] h = tt
prune_expired-IsBounded o now ((d, jar) ∷ rest) h =
    ground (arith, prune_expired-IsBounded o now rest, length-remove_if (is_expired now) jar)

length-store :
    (o : JarOptions) (c : Cookie) (del : Bool) (jar : List Cookie)
    → length jar ≤ o.max_cookies_per_domain
    → length (store_in_jar o c del jar) ≤ o.max_cookies_per_domain
unfolding store_in_jar
length-store o c true jar h =
    omega (
      arith,
      length-remove_if (λ (x : Cookie). bytes_eq x.name c.name && bytes_eq x.path c.path) jar,
    )
length-store o c false jar h = length-enforce o _

update_jar-IsBounded :
    (o : JarOptions) (domain : Bytes) (c : Cookie) (del : Bool) (cookies : Cookies)
    → IsBounded o cookies
    → IsBounded o (update_jar domain (store_in_jar o c del) cookies)
unfolding update_jar
update_jar-IsBounded o domain c del [] h = (length-store o c del [] (omega arith), tt)
update_jar-IsBounded o domain c del ((d, jar) ∷ rest) h =
    ground (arith, update_jar-IsBounded o domain c del rest, length-store o c del jar)

store_parsed-IsBounded :
    (o : JarOptions) (p : Option (Cookie × Bool)) (cookies : Cookies)
    → IsBounded o cookies
    → IsBounded o (store_parsed o p cookies)
store_parsed-IsBounded o none cookies h = h
store_parsed-IsBounded o (some (c, del)) cookies h = update_jar-IsBounded o c.domain c del cookies h

add_line-IsBounded :
    (o : JarOptions) (u : ParsedUrl) (now : ℕ) (line : Bytes) (cookies : Cookies)
    → IsBounded o cookies
    → IsBounded o (add_line o u now line cookies)
unfolding add_line
add_line-IsBounded o u now line cookies h = elim (Option-cases (find b':' line)) [
  | inl e ↦ rw (add_line, e) h
  | inr (i, e) ↦
      rw (add_line, e)
        (elim (Bool-cases (bytes_eq (lower_copy (trim_copy (take i line))) (codes "set-cookie"))) [
          | inr q ↦ rw q h
          | inl q ↦ rw q (store_parsed-IsBounded o _ cookies h)
        ])
]

pub add_lines-IsBounded :
    (o : JarOptions) (u : ParsedUrl) (now : ℕ) (lines : List Bytes) (cookies : Cookies)
    → IsBounded o cookies
    → IsBounded o (add_lines o u now lines cookies)
unfolding add_lines
add_lines-IsBounded o u now [] cookies h = h
add_lines-IsBounded o u now (line ∷ lines) cookies h =
    add_lines-IsBounded o u now lines (add_line o u now line cookies)
      (add_line-IsBounded o u now line cookies h)
