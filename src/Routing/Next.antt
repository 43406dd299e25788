-- ===== src/Routing/Next.antt =====
-- What a detection that has ended means for the next request.
use http_client.Prelude.{ℕ, ◌-◌, ◌<◌, ◌≡◌, ◌⊎◌, refl, false, some, Bytes, length, is_nil}
use http_client.Request.{Request}
use http_client.Routes
use http_client.Routes.{RouteCache, cache_size, lookup_tls_route, store_tls_route}
use http_client.Routes.Lookup.{IsNew, lookup_tls_route-store_tls_route}
use http_client.Routing.{
  Router, Clients, at_gate, remember, store_route, found_h2, found_h1, request_h2,
}
use http_client.Routing.Auto.{answered, by_cache, auto_round}

module _ (t : Clients) where
  open t use {World, now, h1_request, owner, cache_options}

  -- The route cache behind a lookup of the url.
  abbrev pub looked_up : Bytes → Router World → Router World
  looked_up url s = record s {
    routes =
        (lookup_tls_route owner url cache_options.origin_cache_ttl s.origins.generation
          (now s.world) s.routes).1;
  }

  -- When a request has found out the protocol of an origin, the next one for the same url goes to the
  -- client of that protocol without a look at the gate, if it comes within the time to live and the
  -- thread had no route for the url in its cache of 64 entries.
  pub auto_round-found :
      (g : ℕ) (key : Bytes) (request : Request) (r : Router World) (later : World)
      → is_nil request.url ≡ false
      → length r.routes.entries ≡ cache_size
      → IsNew owner request.url r.routes.entries
      → (cache_options.origin_cache_ttl ≡ 0)
        ⊎ (now later - now r.world < cache_options.origin_cache_ttl)
      → (auto_round t request (record (found_h2 t g key (some request.url) r) { world = later })
          ≡ answered (
              request_h2 t request false (
                looked_up request.url
                  (record (found_h2 t g key (some request.url) r) { world = later }))))
        × (auto_round t request (record (found_h1 t key (some request.url) r) { world = later })
            ≡ answered (
                h1_request request (
                  looked_up request.url
                    (record (found_h1 t key (some request.url) r) { world = later }))))
  unfolding auto_round by_cache found_h2 found_h1 at_gate remember store_route
  auto_round-found g key request r later u l n e = (
    rw
        (lookup_tls_route-store_tls_route owner cache_options.origin_cache_ttl
          (found_h2 t g key (some request.url) r).origins.generation (now r.world) (now later)
          request.url key Routes.h2_available r.routes u l n e)
        refl,
    rw
        (lookup_tls_route-store_tls_route owner cache_options.origin_cache_ttl
          (found_h1 t key (some request.url) r).origins.generation (now r.world) (now later)
          request.url key Routes.h1_only r.routes u l n e)
        refl,
  )
