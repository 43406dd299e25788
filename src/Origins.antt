-- ===== src/Origins.antt =====
-- The cache of origins of src/http_client.cpp: `get_gate`, `remembered_route`, `remember_route`,
-- `touch_cached_origin_locked`, `cached_origin_idle` and `evict_cached_origins_locked`. The mutex makes
-- each call one step. A gate is named by a number, and `Blocked` reads its flag `eviction_blocked`. The
-- `lru_it` of an entry is the place of its key in the list.
pub mod Routes
pub mod Evict
use mathlib.Core.List.{reverse}
use http_client.Prelude.{
  ℕ, zero, suc, ◌+◌, ◌-◌, Bool, true, false, ◌&&◌, ◌||◌, not, List, [], ◌∷◌, ◌++◌, Option, none,
  some, Bytes, ◌==◌, if◌then◌else◌, ltb, leb, length,
}
use http_client.Text.{bytes_eq}
use http_client.Gate.{ProtocolState, unknown, detecting, h1_only, h2_available, h2_failed_recently}

pub record CachedOrigin : Type 0 where
  pub gate : ℕ
  pub protocol : ProtocolState
  pub last_used : ℕ

-- `origins_`, `origin_lru_` with the most recently used key first, `cache_generation_`, and how many
-- gates have been made. An entry is in the map from `emplace` to the end of the same call with a link
-- into the list, so `lru_linked` is not kept.
pub record OriginCache : Type 0 where
  pub origins : List (Bytes × CachedOrigin)
  pub lru : List Bytes
  pub generation : ℕ
  pub gates : ℕ

pub record CacheOptions : Type 0 where
  pub max_cached_origins : ℕ
  pub origin_cache_ttl : ℕ

-- The flag of each gate, as the call finds it.
abbrev pub Blocked : Type 0
Blocked = ℕ → Bool

unfoldable pub find_origin : Bytes → List (Bytes × CachedOrigin) → Option CachedOrigin
find_origin key [] = none
find_origin key ((k, e) ∷ rest) = if bytes_eq k key then some e else find_origin key rest

unfoldable pub set_origin :
    Bytes → CachedOrigin → List (Bytes × CachedOrigin) → List (Bytes × CachedOrigin)
set_origin key e [] = (key, e) ∷ []
set_origin key e ((k, d) ∷ rest) =
    let rest' = set_origin key e rest in if bytes_eq k key then (k, e) ∷ rest else (k, d) ∷ rest'

unfoldable pub erase_origin : Bytes → List (Bytes × CachedOrigin) → List (Bytes × CachedOrigin)
erase_origin key [] = []
erase_origin key ((k, e) ∷ rest) =
    let rest' = erase_origin key rest in if bytes_eq k key then rest else (k, e) ∷ rest'

unfoldable pub erase_key : Bytes → List Bytes → List Bytes
erase_key key [] = []
erase_key key (k ∷ rest) =
    let rest' = erase_key key rest in if bytes_eq k key then rest else k ∷ rest'

-- The key goes to the front of the list, whether it was linked or not.
unfoldable pub touch : Bytes → CachedOrigin → ℕ → OriginCache → OriginCache
touch key e now c = record c {
  origins = set_origin key (record e { last_used = now }) c.origins;
  lru = key ∷ erase_key key c.lru;
}

-- `ttl.count() > 0 && now - entry.last_used >= ttl`.
unfoldable pub is_expired : CacheOptions → ℕ → CachedOrigin → Bool
is_expired o now e = not (o.origin_cache_ttl == 0) && leb o.origin_cache_ttl (now - e.last_used)

-- What the loop does with the key it stands at.
pub data Verdict : Type 0 where
  drop_link evict leave_off go_on : Verdict

unfoldable pub verdict : CacheOptions → Blocked → ℕ → List (Bytes × CachedOrigin) → Bytes → Verdict
unfolding is_expired
verdict o blocked now origins key = elim (find_origin key origins) [
  | none ↦ drop_link
  | some e ↦
      if not (blocked e.gate) && (is_expired o now e || ltb o.max_cached_origins (length origins))
      then evict
      else if leb (length origins) o.max_cached_origins
      then leave_off
      else go_on
]

-- The loop from the least recently used key on: the keys that stay, in the order of the argument, the
-- map, and the generation.
unfoldable pub scan :
    CacheOptions
    → Blocked
    → ℕ
    → List Bytes
    → List (Bytes × CachedOrigin)
    → ℕ
    → List Bytes × List (Bytes × CachedOrigin) × ℕ
unfolding verdict
scan o blocked now [] origins generation = ([], origins, generation)
scan o blocked now (key ∷ keys) origins generation = elim (verdict o blocked now origins key) [
  | drop_link ↦ scan o blocked now keys origins generation
  | evict ↦ scan o blocked now keys (erase_origin key origins) (suc generation)
  | leave_off ↦ (key ∷ keys, origins, generation)
  | go_on ↦
      let (kept, origins', generation') = scan o blocked now keys origins generation in
      (key ∷ kept, origins', generation')
]

unfoldable pub evict_cached_origins : CacheOptions → Blocked → ℕ → OriginCache → OriginCache
unfolding scan
evict_cached_origins o blocked now c =
    if o.max_cached_origins == 0
    then c
    else (let (kept, origins, generation) =
          scan o blocked now (reverse c.lru) c.origins c.generation in
        record c { origins = origins; lru = reverse kept; generation = generation })

-- A new entry with a gate of its own, touched.
unfoldable pub insert_origin : Bytes → ProtocolState → ℕ → OriginCache → OriginCache
unfolding touch
insert_origin key protocol now c =
    touch key (record { gate = c.gates; protocol = protocol; last_used = now }) now
      (record c { gates = suc c.gates })

unfoldable pub get_gate : CacheOptions → Blocked → ℕ → Bytes → OriginCache → ℕ × OriginCache
unfolding evict_cached_origins insert_origin
get_gate o blocked now key c = elim (find_origin key c.origins) [
  | some e ↦ (e.gate, touch key e now c)
  | none ↦
      let c' = evict_cached_origins o blocked now c in (c'.gates, insert_origin key unknown now c')
]

unfoldable pub remembered_route : ℕ → Bytes → OriginCache → ProtocolState × OriginCache
remembered_route now key c = elim (find_origin key c.origins) [
  | none ↦ (unknown, c)
  | some e ↦ (e.protocol, touch key e now c)
]

-- `try_emplace(key)` behind an eviction, which may have taken the old entry out.
unfoldable pub remember_known :
    CacheOptions → Blocked → ℕ → Bytes → ProtocolState → OriginCache → OriginCache
unfolding evict_cached_origins insert_origin
remember_known o blocked now key protocol c =
    let c' = evict_cached_origins o blocked now c in
    elim (find_origin key c'.origins) [
      | none ↦ insert_origin key protocol now c'
      | some e ↦ touch key (record e { protocol = protocol }) now c'
    ]

unfoldable pub remember_route :
    CacheOptions → Blocked → ℕ → Bytes → ProtocolState → OriginCache → OriginCache
unfolding remember_known
remember_route o blocked now key h1_only c = remember_known o blocked now key h1_only c
remember_route o blocked now key h2_available c = remember_known o blocked now key h2_available c
remember_route o blocked now key unknown c = c
remember_route o blocked now key detecting c = c
remember_route o blocked now key h2_failed_recently c = c
