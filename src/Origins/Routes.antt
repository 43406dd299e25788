-- ===== src/Origins/Routes.antt =====
-- What a key finds in the cache after the calls.
use http_client.Prelude.{
  ℕ, suc, ◌≡◌, refl, ◌≢◌, List, [], ◌∷◌, some, Bytes, arith, Option-cases, ◌∙◌, inl, inr,
}
use http_client.Text.{bytes_eq_refl, bytes_eq_iff}
use http_client.Gate.{ProtocolState, unknown, detecting, h1_only, h2_available, h2_failed_recently}
use http_client.Origins.{
  CachedOrigin, OriginCache, CacheOptions, Blocked, find_origin, set_origin, erase_origin, touch,
  insert_origin, evict_cached_origins, get_gate, remembered_route, remember_known, remember_route,
}

pub find_origin-set_origin :
    (key : Bytes) (e : CachedOrigin) (l : List (Bytes × CachedOrigin))
    → find_origin key (set_origin key e l) ≡ some e
unfolding find_origin set_origin
find_origin-set_origin key e [] = ground (arith, bytes_eq_refl key)
find_origin-set_origin key e ((k, d) ∷ rest) =
    ground (arith, find_origin-set_origin key e rest, bytes_eq_refl key)

pub find_origin-erase_origin :
    (key k : Bytes) (l : List (Bytes × CachedOrigin))
    → key ≢ k
    → find_origin k (erase_origin key l) ≡ find_origin k l
unfolding find_origin erase_origin
find_origin-erase_origin key k [] h = refl
find_origin-erase_origin key k ((j, d) ∷ rest) h =
    ground (arith, find_origin-erase_origin key k rest h, bytes_eq_iff j key, bytes_eq_iff j k)

-- A touched key finds its entry, with its time set.
find_origin-touch :
    (key : Bytes) (e : CachedOrigin) (now : ℕ) (c : OriginCache)
    → find_origin key (touch key e now c).origins ≡ some (record e { last_used = now })
unfolding touch
find_origin-touch key e now c = find_origin-set_origin key (record e { last_used = now }) c.origins

get_gate_kept :
    (o : CacheOptions) (b : Blocked) (now : ℕ) (key : Bytes) (c : OriginCache) (e : CachedOrigin)
    → find_origin key c.origins ≡ some e
    → (get_gate o b now key c).0 ≡ e.gate
unfolding get_gate
get_gate_kept o b now key c e h = rw (h, get_gate) refl

-- Whatever the eviction does, the entry that `get_gate` returns is in the map with its gate.
find_origin-get_gate :
    (o : CacheOptions) (b : Blocked) (now : ℕ) (key : Bytes) (c : OriginCache)
    → (e : CachedOrigin) × (find_origin key (get_gate o b now key c).1.origins ≡ some e)
      × (e.gate ≡ (get_gate o b now key c).0)
unfolding get_gate find_origin
find_origin-get_gate o b now key c = elim (Option-cases (find_origin key c.origins)) [
  | inl h ↦
      let c' = evict_cached_origins o b now c in
      rw (h, get_gate)
        (
          _,
          (unfold insert_origin in
              find_origin-touch key
                (record { gate = c'.gates; protocol = unknown; last_used = now }) now
                (record c' { gates = suc c'.gates })),
          refl,
        )
  | inr (e, h) ↦ rw (h, get_gate) (_, find_origin-touch key e now c, refl)
]

-- Two requests for an origin, one after the other, come to the same gate, however full the cache is
-- and whatever the first call evicts.
pub get_gate-get_gate :
    (o : CacheOptions) (b b' : Blocked) (now now' : ℕ) (key : Bytes) (c : OriginCache)
    → (get_gate o b' now' key (get_gate o b now key c).1).0 ≡ (get_gate o b now key c).0
get_gate-get_gate o b b' now now' key c =
    let (e, h, g) = find_origin-get_gate o b now key c in
    get_gate_kept o b' now' key (get_gate o b now key c).1 e h ∙ g

-- What a call remembers.
find_origin-remember_known :
    (o : CacheOptions) (b : Blocked) (now : ℕ) (key : Bytes) (p : ProtocolState) (c : OriginCache)
    → (e : CachedOrigin) × (find_origin key (remember_known o b now key p c).origins ≡ some e)
      × (e.protocol ≡ p)
unfolding remember_known find_origin
find_origin-remember_known o b now key p c =
    let c' = evict_cached_origins o b now c in
    elim (Option-cases (find_origin key c'.origins)) [
      | inl h ↦
          rw (h, remember_known)
            (
              _,
              (unfold insert_origin in
                  find_origin-touch key (record { gate = c'.gates; protocol = p; last_used = now })
                    now (record c' { gates = suc c'.gates })),
              refl,
            )
      | inr (e, h) ↦
          rw (h, remember_known) (_, find_origin-touch key (record e { protocol = p }) now c', refl)
    ]

remembered_route_kept :
    (now : ℕ) (key : Bytes) (c : OriginCache) (e : CachedOrigin)
    → find_origin key c.origins ≡ some e
    → (remembered_route now key c).0 ≡ e.protocol
unfolding remembered_route
remembered_route_kept now key c e h = rw (h, remembered_route) refl

remembered_route-remember_known :
    (o : CacheOptions) (b : Blocked) (now now' : ℕ) (key : Bytes) (p : ProtocolState)
    (c : OriginCache)
    → (remembered_route now' key (remember_known o b now key p c)).0 ≡ p
remembered_route-remember_known o b now now' key p c =
    let (e, h, g) = find_origin-remember_known o b now key p c in
    remembered_route_kept now' key (remember_known o b now key p c) e h ∙ g

-- The protocols that a route can have.
pub data IsRoute : ProtocolState → Type 0 where
  h1 : IsRoute h1_only
  h2 : IsRoute h2_available

-- A route to HTTP/1.1 or to HTTP/2 that is remembered for an origin is the one found for it next,
-- also when the cache is full or evicts the origin's old entry on the way.
pub remembered_route-remember_route :
    (o : CacheOptions) (b : Blocked) (now now' : ℕ) (key : Bytes) (p : ProtocolState)
    (c : OriginCache)
    → IsRoute p
    → (remembered_route now' key (remember_route o b now key p c)).0 ≡ p
unfolding remember_route
remembered_route-remember_route o b now now' key h1_only c r =
    remembered_route-remember_known o b now now' key h1_only c
remembered_route-remember_route o b now now' key h2_available c r =
    remembered_route-remember_known o b now now' key h2_available c
remembered_route-remember_route o b now now' key unknown c r = elim r [ ]
remembered_route-remember_route o b now now' key detecting c r = elim r [ ]
remembered_route-remember_route o b now now' key h2_failed_recently c r = elim r [ ]
