-- ===== src/Routes.antt =====
-- The route cache of each thread of src/http_client.cpp: `CachedRouteProtocol`, `ThreadLocalRouteEntry`,
-- `lookup_tls_route` and `store_tls_route`. An owner is named by a number, 0 for `nullptr`.
pub mod Lookup
use http_client.Prelude.{
  ℕ, zero, suc, ◌+◌, ◌-◌, ◌%◌, Bool, true, false, ◌&&◌, ◌||◌, not, List, [], ◌∷◌, Option, none,
  some, Bytes, ◌==◌, if◌then◌else◌, leb, is_nil, set, replicate,
}
use http_client.Text.{bytes_eq}

pub data RouteProtocol : Type 0 where
  unknown h1_only h2_available : RouteProtocol

pub record RouteEntry : Type 0 where
  pub owner : ℕ
  pub url : Bytes
  pub origin : Bytes
  pub protocol : RouteProtocol
  pub last_used : ℕ
  pub generation : ℕ

abbrev pub no_entry : RouteEntry
no_entry = record {
  owner = 0;
  url = [];
  origin = [];
  protocol = unknown;
  last_used = 0;
  generation = 0;
}

-- `tls_route_cache` and `tls_route_cursor`.
pub record RouteCache : Type 0 where
  pub entries : List RouteEntry
  pub cursor : ℕ

abbrev pub cache_size : ℕ
cache_size = 64

abbrev pub new_cache : RouteCache
new_cache = record { entries = replicate cache_size no_entry; cursor = 0 }

unfoldable pub is_entry_for : ℕ → Bytes → RouteEntry → Bool
is_entry_for owner url e = e.owner == owner && (not (is_nil e.url) && bytes_eq e.url url)

-- `entry.generation != generation || expired`; a time to live of 0 never expires.
unfoldable pub is_stale : ℕ → ℕ → ℕ → RouteEntry → Bool
is_stale ttl generation now e =
    not (e.generation == generation) || (not (ttl == 0) && leb ttl (now - e.last_used))

-- The loop: what is found, and the entries behind it.
unfoldable pub lookup_entries :
    ℕ → Bytes → ℕ → ℕ → ℕ → List RouteEntry → Option (Bytes × RouteProtocol) × List RouteEntry
unfolding is_entry_for is_stale
lookup_entries owner url ttl generation now [] = (none, [])
lookup_entries owner url ttl generation now (e ∷ es) =
    let rest = lookup_entries owner url ttl generation now es in
    if is_entry_for owner url e
    then (if is_stale ttl generation now e
        then (none, no_entry ∷ es)
        else (some (e.origin, e.protocol), record e { last_used = now } ∷ es))
    else (rest.0, e ∷ rest.1)

unfoldable pub lookup_tls_route :
    ℕ → Bytes → ℕ → ℕ → ℕ → RouteCache → Option (Bytes × RouteProtocol) × RouteCache
unfolding lookup_entries
lookup_tls_route owner url ttl generation now c =
    let found = lookup_entries owner url ttl generation now c.entries in
    (found.0, record c { entries = found.1 })

unfoldable pub store_tls_route : ℕ → Bytes → Bytes → RouteProtocol → ℕ → ℕ → RouteCache → RouteCache
store_tls_route owner url origin protocol generation now c = record {
  entries = set c.entries (c.cursor % cache_size) (record {
    owner = owner;
    url = url;
    origin = origin;
    protocol = protocol;
    last_used = now;
    generation = generation;
  });
  cursor = (c.cursor + 1) % 18446744073709551616;
}
