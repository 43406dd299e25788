-- ===== src/Routes/Lookup.antt =====
-- What a lookup in the route cache returns.
use http_client.Prelude.{
  ℕ, zero, suc, ◌-◌, ◌%◌, ◌<◌, ◌≡◌, refl, ◌⊎◌, inl, inr, true, false, List, [], ◌∷◌, some, Bytes,
  is_nil, set, length, replicate, All, arith, Bool-cases,
}
use http_client.Text.{bytes_eq_refl, bytes_eq_sound}
use http_client.Routes.{
  RouteProtocol, RouteEntry, RouteCache, no_entry, cache_size, is_entry_for, is_stale,
  lookup_entries, lookup_tls_route, store_tls_route,
}

-- An entry that a lookup may use.
pub record IsLive (owner : ℕ) (url : Bytes) (ttl generation now : ℕ) (e : RouteEntry) : Type 0 where
  pub same_owner : e.owner ≡ owner
  pub same_url : e.url ≡ url
  pub same_generation : e.generation ≡ generation
  pub in_time : (ttl ≡ 0) ⊎ (now - e.last_used < ttl)

-- A list has an entry of the owner for the url that is live, with this origin and protocol.
abbrev pub HasRoute : ℕ → Bytes → ℕ → ℕ → ℕ → Bytes × RouteProtocol → List RouteEntry → Type 0
HasRoute owner url ttl generation now route [] = ⊥
HasRoute owner url ttl generation now route (e ∷ es) =
    (IsLive owner url ttl generation now e × ((e.origin, e.protocol) ≡ route))
    ⊎ HasRoute owner url ttl generation now route es

entry-IsLive :
    (owner : ℕ) (url : Bytes) (ttl generation now : ℕ) (e : RouteEntry)
    → is_entry_for owner url e ≡ true
    → is_stale ttl generation now e ≡ false
    → IsLive owner url ttl generation now e
unfolding is_entry_for is_stale
entry-IsLive owner url ttl generation now e h s = record {
  same_owner = ground arith;
  same_url = ground (arith, bytes_eq_sound e.url url);
  same_generation = ground arith;
  in_time = ground arith;
}

some_injective : {A : Type 0} {a b : A} → some a ≡ some b → a ≡ b
some_injective h = cc

lookup_entries-HasRoute :
    (owner : ℕ) (url : Bytes) (ttl generation now : ℕ) (es : List RouteEntry)
    (route : Bytes × RouteProtocol)
    → (lookup_entries owner url ttl generation now es).0 ≡ some route
    → HasRoute owner url ttl generation now route es
unfolding lookup_entries
lookup_entries-HasRoute owner url ttl generation now [] route h = cc
lookup_entries-HasRoute owner url ttl generation now (e ∷ es) route h =
    elim (Bool-cases (is_entry_for owner url e)) [
      | inr q ↦ inr (lookup_entries-HasRoute owner url ttl generation now es route (rw q at h))
      | inl q ↦ elim (Bool-cases (is_stale ttl generation now e)) [
        | inl s ↦ absurd (ground (arith, q, s))
        | inr s ↦
            inl (entry-IsLive owner url ttl generation now e q s, some_injective (rw (q, s) at h))
      ]
    ]

-- A route that a lookup finds stands in an entry of the owner for that very url, of the current
-- generation, and used within the time to live if there is one.
pub lookup_tls_route-HasRoute :
    (owner : ℕ) (url : Bytes) (ttl generation now : ℕ) (c : RouteCache)
    (route : Bytes × RouteProtocol)
    → (lookup_tls_route owner url ttl generation now c).0 ≡ some route
    → HasRoute owner url ttl generation now route c.entries
unfolding lookup_tls_route
lookup_tls_route-HasRoute owner url ttl generation now c route h =
    lookup_entries-HasRoute owner url ttl generation now c.entries route h

-- The entries that are not the owner's for the url.
abbrev pub IsNew : ℕ → Bytes → List RouteEntry → Type 0
IsNew owner url = All (λ e. is_entry_for owner url e ≡ false)

not_for_owner : (owner : ℕ) (url : Bytes) → is_entry_for owner url no_entry ≡ false
unfolding is_entry_for
not_for_owner owner url = ground arith

-- A cache that is empty has no entry of anyone.
pub replicate-IsNew : (owner : ℕ) (url : Bytes) (n : ℕ) → IsNew owner url (replicate n no_entry)
replicate-IsNew owner url zero = tt
replicate-IsNew owner url (suc n) = (not_for_owner owner url, replicate-IsNew owner url n)

fresh_entry :
    (owner : ℕ) (url origin : Bytes) (p : RouteProtocol) (generation now : ℕ)
    → is_nil url ≡ false
    → is_entry_for owner url (record {
      owner = owner;
      url = url;
      origin = origin;
      protocol = p;
      last_used = now;
      generation = generation;
    })
      ≡ true
unfolding is_entry_for
fresh_entry owner url origin p generation now h = ground (arith, bytes_eq_refl url)

fresh_not_stale :
    (owner ttl generation now : ℕ) (url origin : Bytes) (p : RouteProtocol) (later : ℕ)
    → (ttl ≡ 0) ⊎ (later - now < ttl)
    → is_stale ttl generation later (record {
      owner = owner;
      url = url;
      origin = origin;
      protocol = p;
      last_used = now;
      generation = generation;
    })
      ≡ false
unfolding is_stale
fresh_not_stale owner ttl generation now url origin p later h = ground arith

lookup_entries-set :
    (owner ttl generation now later : ℕ) (url origin : Bytes) (p : RouteProtocol)
    (es : List RouteEntry) (i : ℕ)
    → is_nil url ≡ false
    → IsNew owner url es
    → (ttl ≡ 0) ⊎ (later - now < ttl)
    → i < length es
    → (lookup_entries owner url ttl generation later (
        set es i (record {
          owner = owner;
          url = url;
          origin = origin;
          protocol = p;
          last_used = now;
          generation = generation;
        }))).0
      ≡ some (origin, p)
unfolding lookup_entries
lookup_entries-set owner ttl generation now later url origin p [] i u n t l = absurd (omega arith)
lookup_entries-set owner ttl generation now later url origin p (e ∷ es) zero u n t l =
    rw
      (
        fresh_entry owner url origin p generation now u,
        fresh_not_stale owner ttl generation now url origin p later t,
      )
      refl
lookup_entries-set owner ttl generation now later url origin p (e ∷ es) (suc i) u n t l =
    rw n.0
      (lookup_entries-set owner ttl generation now later url origin p es i u n.1 t (omega arith))

-- A route that is stored for a url that the owner has no entry for is found by the next lookup of the
-- same generation, within the time to live, wherever the cursor stands.
pub lookup_tls_route-store_tls_route :
    (owner ttl generation now later : ℕ) (url origin : Bytes) (p : RouteProtocol) (c : RouteCache)
    → is_nil url ≡ false
    → length c.entries ≡ cache_size
    → IsNew owner url c.entries
    → (ttl ≡ 0) ⊎ (later - now < ttl)
    → (lookup_tls_route owner url ttl generation later
        (store_tls_route owner url origin p generation now c)).0
      ≡ some (origin, p)
unfolding lookup_tls_route store_tls_route
lookup_tls_route-store_tls_route owner ttl generation now later url origin p c u l n t =
    lookup_entries-set owner ttl generation now later url origin p c.entries (c.cursor % cache_size)
      u n t (omega arith)
