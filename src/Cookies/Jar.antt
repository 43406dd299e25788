-- ===== src/Cookies/Jar.antt =====
-- The operations of `CookieJar`: `add_from_response`, `cookie_header`, `prune_expired_locked` and the two
-- limits.
use http_client.Prelude.{
  ℕ, zero, suc, ◌+◌, ◌-◌, ◌*◌, Bool, true, false, ◌&&◌, not, List, [], ◌∷◌, ◌++◌, Option, none,
  some, Bytes, codes, ◌==◌, if◌then◌else◌, ltb, leb, min, is_nil, length, remove_if,
}
use http_client.Prelude.Int.{ℤ, pos, negsuc}
use http_client.Text.{bytes_eq, front_is, trim_front}
use http_client.Headers.{lower_copy}
use http_client.Url.{ParsedUrl}
use http_client.Cookies.{
  Cookie, split_semicolon, split_name_value, default_cookie_path, without_dot, domain_match,
}

pub record JarOptions : Type 0 where
  pub max_cookie_domains : ℕ
  pub max_cookies_per_domain : ℕ

-- `cookies`: the domains with their cookies.
abbrev pub Cookies : Type 0
Cookies = List (Bytes × List Cookie)

-- The test of `prune_expired_locked`.
unfoldable pub is_expired : ℕ → Cookie → Bool
is_expired now c = not (c.expires == 0) && leb c.expires now

unfoldable pub prune_expired : ℕ → Cookies → Cookies
unfolding is_expired
prune_expired now [] = []
prune_expired now ((domain, jar) ∷ rest) =
    let jar' = remove_if (is_expired now) jar in
    let rest' = prune_expired now rest in if is_nil jar' then rest' else (domain, jar') ∷ rest'

-- The first cookie with the least `last_used`, and the jar without it: `erase(min_element)`.
unfoldable pub least_used : Cookie → List Cookie → ℕ
least_used c [] = c.last_used
least_used c (d ∷ jar) = min c.last_used (least_used d jar)

unfoldable pub remove_first : ℕ → List Cookie → List Cookie
remove_first t [] = []
remove_first t (c ∷ jar) =
    let rest = remove_first t jar in if c.last_used == t then jar else c ∷ rest

unfoldable pub remove_oldest : List Cookie → List Cookie
unfolding least_used remove_first
remove_oldest [] = []
remove_oldest (c ∷ jar) = remove_first (least_used c jar) (c ∷ jar)

-- `while (jar.size() > limit)`; each round takes one cookie out, so as many rounds as there are cookies
-- are enough.
unfoldable pub shrink : ℕ → ℕ → List Cookie → List Cookie
unfolding remove_oldest
shrink zero limit jar = jar
shrink (suc fuel) limit jar =
    let rest = shrink fuel limit (remove_oldest jar) in if ltb limit (length jar) then rest else jar

unfoldable pub enforce_domain_limit : JarOptions → List Cookie → List Cookie
unfolding shrink
enforce_domain_limit o jar =
    if o.max_cookies_per_domain == 0 then [] else shrink (length jar) o.max_cookies_per_domain jar

-- `domain_time`: the least `last_used` of a jar, `none` (the largest time) for an empty one.
unfoldable pub domain_time : List Cookie → Option ℕ
unfolding least_used
domain_time [] = none
domain_time (c ∷ jar) = some (least_used c jar)

-- `a < b`, where `none` is the largest time.
abbrev pub earlier : Option ℕ → Option ℕ → Bool
earlier none b = false
earlier (some a) none = true
earlier (some a) (some b) = ltb a b

-- The position of the domain with the least time, or `none` if there is no cookie at all; the last two
-- arguments are the least time so far and its position.
unfoldable pub oldest_domain : Cookies → ℕ → Option ℕ → Option ℕ → Option ℕ
unfolding domain_time
oldest_domain [] i best at = at
oldest_domain ((domain, jar) ∷ rest) i best at =
    let here = earlier (domain_time jar) best in
    oldest_domain rest (suc i) (if here then domain_time jar else best)
      (if here then some i else at)

unfoldable pub remove_at : ℕ → Cookies → Cookies
remove_at i [] = []
remove_at zero (d ∷ rest) = rest
remove_at (suc i) (d ∷ rest) = d ∷ remove_at i rest

unfoldable pub shrink_domains : ℕ → ℕ → Cookies → Cookies
unfolding oldest_domain remove_at
shrink_domains zero limit cookies = cookies
shrink_domains (suc fuel) limit cookies = elim (ltb limit (length cookies)) [
  | false ↦ cookies
  | true ↦ elim (oldest_domain cookies 0 none none) [
    | none ↦ cookies
    | some i ↦ shrink_domains fuel limit (remove_at i cookies)
  ]
]

unfoldable pub enforce_domain_count : JarOptions → Cookies → Cookies
unfolding shrink_domains
enforce_domain_count o cookies =
    if o.max_cookie_domains == 0
    then []
    else shrink_domains (length cookies) o.max_cookie_domains cookies

-- `cookies[domain]`, changed by a function; a missing entry is made first, with no cookies.
unfoldable pub update_jar : Bytes → (List Cookie → List Cookie) → Cookies → Cookies
update_jar domain f [] = (domain, f []) ∷ []
update_jar domain f ((d, jar) ∷ rest) =
    let rest' = update_jar domain f rest in
    if bytes_eq d domain then (d, f jar) ∷ rest else (d, jar) ∷ rest'

-- The old cookie of that name and path goes; the new one is stored unless it is to be deleted.
unfoldable pub store_in_jar : JarOptions → Cookie → Bool → List Cookie → List Cookie
store_in_jar o cookie delete_cookie jar =
    let kept = remove_if (λ c. bytes_eq c.name cookie.name && bytes_eq c.path cookie.path) jar in
    if delete_cookie then kept else enforce_domain_limit o (kept ++ cookie ∷ [])

-- `std::stoll`: leading white space, a sign, and the longest run of digits; `none` where it throws.
digits_value : ℕ → Bytes → ℕ
digits_value n [] = n
digits_value n (c ∷ s) =
    let rest = digits_value (n * 10 + (c - b'0')) s in if leb b'0' c && leb c b'9' then rest else n

starts_with_digit : Bytes → Bool
starts_with_digit [] = false
starts_with_digit (c ∷ s) = leb b'0' c && leb c b'9'

positive : ℕ → Option ℤ
positive n = if ltb n 9223372036854775808 then some (pos n) else none

negative : ℕ → Option ℤ
negative zero = some (pos 0)
negative (suc n) = if ltb n 9223372036854775808 then some (negsuc n) else none

unsigned : (ℕ → Option ℤ) → Bytes → Option ℤ
unfolding digits_value starts_with_digit
unsigned f s = if starts_with_digit s then f (digits_value 0 s) else none

signed : Bytes → Option ℤ
unfolding unsigned positive negative
signed [] = none
signed (c ∷ s) =
    if c == b'-'
    then unsigned negative s
    else if c == b'+'
    then unsigned positive s
    else unsigned positive (c ∷ s)

unfoldable pub stoll : Bytes → Option ℤ
unfolding signed
stoll s = signed (trim_front s)

-- `expires = now + seconds`, in nanoseconds; the sum is taken not to overflow.
unfoldable pub with_max_age : ℕ → Option ℤ → Cookie × Bool → Cookie × Bool
with_max_age now none (cookie, delete_cookie) = (cookie, delete_cookie)
with_max_age now (some (negsuc n)) (cookie, delete_cookie) = (cookie, true)
with_max_age now (some (pos zero)) (cookie, delete_cookie) = (cookie, true)
with_max_age now (some (pos (suc n))) (cookie, delete_cookie) =
    (record cookie { expires = now + suc n * 1000000000 }, delete_cookie)

-- One attribute of a `Set-Cookie` line.
unfoldable pub apply_attribute : Bytes → ℕ → Bytes × Bytes → Cookie × Bool → Cookie × Bool
unfolding stoll with_max_age
apply_attribute host now (name, value) (cookie, delete_cookie) =
    let attr = lower_copy name in
    if bytes_eq attr (codes "domain") && (not (is_nil value) && domain_match host value)
    then (
      record cookie { domain = without_dot (lower_copy value); host_only = false },
      delete_cookie,
    )
    else if bytes_eq attr (codes "path") && front_is b'/' value
    then (record cookie { path = value }, delete_cookie)
    else if bytes_eq attr (codes "max-age")
    then with_max_age now (stoll value) (cookie, delete_cookie)
    else (cookie, delete_cookie)

unfoldable pub apply_attributes : Bytes → ℕ → List Bytes → Cookie × Bool → Cookie × Bool
unfolding apply_attribute
apply_attributes host now [] c = c
apply_attributes host now (part ∷ parts) c =
    apply_attributes host now parts (apply_attribute host now (split_name_value part) c)

-- The cookie of a line's value, and whether it is to be deleted; `none` where the line is skipped.
unfoldable pub parse_set_cookie : ParsedUrl → ℕ → Bytes → Option (Cookie × Bool)
unfolding apply_attributes
parse_set_cookie u now value = elim (split_semicolon value) [
  | [] ↦ none
  | first ∷ parts ↦
      let pair = split_name_value first in
      if is_nil pair.0
      then none
      else some (
          apply_attributes u.host now parts (
            record {
              name = pair.0;
              value = pair.1;
              domain = lower_copy u.host;
              path = default_cookie_path u.path;
              host_only = true;
              expires = 0;
              last_used = now;
            },
            false,
          ))
]

-- `clear`.
unfoldable pub clear : Cookies → Cookies
clear cookies = []
