-- ===== src/Tests/Caches.antt =====
-- The cookie jar and the cache of origins at concrete states.
use http_client.Prelude.{
  ◌≡◌, ◌≤◌, ◌⊎◌, refl, true, false, [], ◌∷◌, ◌==◌, codes, some, length, All, Ensures, ok, arith,
}
use http_client.Text.{find, rfind, find_text, starts_with}
use http_client.Url.{ParsedUrl, parse_url, url_of, authority_of, path_of, default_port}
use http_client.Cookies.Jar.{JarOptions, Cookies, prune_expired}
use http_client.Cookies.Store.{add_from_response, cookie_header}
use http_client.Cookies.Limits.{KeepsLimits, add_from_response-KeepsLimits}
use http_client.Cookies.Send.{MaySend, sent, header_text, cookie_header-sent}
use http_client.Gate.{unknown, h2_available}
use http_client.Origins.{
  OriginCache, CacheOptions, Blocked, find_origin, evict_cached_origins, get_gate, remembered_route,
  remember_route,
}
use http_client.Origins.Routes.{h2, get_gate-get_gate, remembered_route-remember_route}
use http_client.Origins.Evict.{IsInUse, evict_cached_origins-blocked, length-evict_cached_origins}

abbrev cookies : Cookies
cookies =
    (
      codes "a.org",
      record {
        name = codes "id";
        value = codes "7";
        domain = codes "a.org";
        path = codes "/";
        host_only = false;
        expires = 0;
        last_used = 1;
      }
          ∷ record {
            name = codes "old";
            value = codes "x";
            domain = codes "a.org";
            path = codes "/";
            host_only = true;
            expires = 3;
            last_used = 2;
          }
          ∷ [],
    )
    ∷ []

abbrev limits : JarOptions
limits = record { max_cookie_domains = 2; max_cookies_per_domain = 2 }

add_from_response-KeepsLimits_example : Ensures (KeepsLimits limits) (
    add_from_response limits 5
      (codes "http://www.a.org/x")
      (codes "Set-Cookie: k=v; Path=/; Domain=a.org" ∷ [])
      cookies)
add_from_response-KeepsLimits_example =
    add_from_response-KeepsLimits limits 5 (codes "http://www.a.org/x")
      (codes "Set-Cookie: k=v; Path=/; Domain=a.org" ∷ []) cookies (omega arith)

abbrev parsed_url : ParsedUrl
parsed_url = record {
  scheme = codes "http";
  host = codes "www.a.org";
  port = codes "80";
  path = codes "/x";
}

parse_cookie_url : parse_url (codes "http://www.a.org/x") ≡ ok parsed_url
unfolding parse_url url_of authority_of path_of find find_text rfind starts_with default_port
parse_cookie_url = refl

cookie_header-sent_example :
    ((jar : Cookies) × (cookie_header 5 (codes "http://www.a.org/x") cookies
        ≡ ok (header_text (sent parsed_url 5 (prune_expired 5 cookies)), jar)))
    × All (MaySend parsed_url 5) (sent parsed_url 5 (prune_expired 5 cookies))
cookie_header-sent_example =
    cookie_header-sent 5 (codes "http://www.a.org/x") parsed_url cookies parse_cookie_url

abbrev cache : OriginCache
cache = record {
  origins =
      (codes "a", record { gate = 0; protocol = unknown; last_used = 1 })
      ∷ (codes "b", record { gate = 1; protocol = h2_available; last_used = 2 })
      ∷ [];
  lru = codes "b" ∷ codes "a" ∷ [];
  generation = 0;
  gates = 2;
}

abbrev cache_options : CacheOptions
cache_options = record { max_cached_origins = 1; origin_cache_ttl = 0 }

-- The gate 0 is in use.
abbrev zero_in_use : Blocked
zero_in_use gate = gate == 0

found_a :
    find_origin (codes "a") cache.origins
    ≡ some (record { gate = 0; protocol = unknown; last_used = 1 })
unfolding find_origin
found_a = refl

evict_cached_origins-blocked_example :
    find_origin (codes "a") (evict_cached_origins cache_options zero_in_use 9 cache).origins
    ≡ some (record { gate = 0; protocol = unknown; last_used = 1 })
evict_cached_origins-blocked_example =
    evict_cached_origins-blocked cache_options zero_in_use 9 cache (codes "a")
      (record { gate = 0; protocol = unknown; last_used = 1 }) found_a refl

length-evict_cached_origins_example :
    (length (evict_cached_origins cache_options zero_in_use 9 cache).origins ≤ 1)
    ⊎ All
        (IsInUse zero_in_use (evict_cached_origins cache_options zero_in_use 9 cache).origins)
        (evict_cached_origins cache_options zero_in_use 9 cache).lru
length-evict_cached_origins_example =
    length-evict_cached_origins cache_options zero_in_use 9 cache (omega arith)

get_gate-get_gate_example :
    (get_gate cache_options zero_in_use 10
      (codes "c")
      (get_gate cache_options zero_in_use 9 (codes "c") cache).1).0
    ≡ (get_gate cache_options zero_in_use 9 (codes "c") cache).0
get_gate-get_gate_example =
    get_gate-get_gate cache_options zero_in_use zero_in_use 9 10 (codes "c") cache

remembered_route-remember_route_example :
    (remembered_route 10
      (codes "b")
      (remember_route cache_options zero_in_use 9 (codes "b") h2_available cache)).0
    ≡ h2_available
remembered_route-remember_route_example =
    remembered_route-remember_route cache_options zero_in_use 9 10 (codes "b") h2_available cache h2
