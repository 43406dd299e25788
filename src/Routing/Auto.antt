-- ===== src/Routing/Auto.antt =====
-- `request_auto` and `raw_request` of src/http_client.cpp.
use http_client.Prelude.{
  ℕ, zero, suc, Bool, true, false, Option, none, some, Bytes, Result, ok, err, if◌then◌else◌,
}
use http_client.Request.{Request, ProtocolPolicy, auto, force_h1, force_h2, prefer_h1, prefer_h2}
use http_client.Response.{Response, empty_response}
use http_client.Url.{origin_key}
use http_client.Gate.{
  ProtocolState, GateAction, unknown, detecting, h1_only, h2_available, h2_failed_recently, use_h1,
  use_h2, detect, wait, enter, contains, wait_for_detection,
}
use http_client.Origins.{remembered_route}
use http_client.Routes
use http_client.Routes.{RouteProtocol, lookup_tls_route}
use http_client.Routing.{
  Router, Clients, at_gate, gate_of, store_route, request_h2, detect_route, request_prefer_h1,
  request_prefer_h2,
}

-- What a round of `request_auto` comes to: an answer or an exception, or `none` when the request starts
-- again behind a detection that it has waited for.
abbrev pub Round : Type 0 → Type 0
Round World = Router World → Option (Result Response) × Router World

abbrev pub answered :
    {World : Type 0} → Result Response × Router World → Option (Result Response) × Router World
answered (a, r) = (some a, r)

abbrev or_again :
    {World : Type 0}
    → Option (Result Response) × Router World
    → Round World
    → Option (Result Response) × Router World
or_again (some a, r) again = (some a, r)
or_again (none, r) again = again r

-- Over a proxy only `ForceH2` and `PreferH2` keep their policy.
unfoldable pub over_proxy : ProtocolPolicy → ProtocolPolicy
over_proxy force_h2 = force_h2
over_proxy prefer_h2 = prefer_h2
over_proxy force_h1 = force_h1
over_proxy prefer_h1 = force_h1
over_proxy auto = force_h1

unfoldable pub policy_of : Request → ProtocolPolicy
unfolding over_proxy
policy_of request = elim request.proxy [
  | none ↦ request.protocol_policy
  | some p ↦ over_proxy request.protocol_policy
]

-- An exception becomes the error of a response.
unfoldable pub caught :
    {World : Type 0} → Option (Result Response) × Router World → Option Response × Router World
caught (none, r) = (none, r)
caught (some (ok response), r) = (some response, r)
caught (some (err e), r) = (some (record empty_response { error = e }), r)

module _ (t : Clients) where
  open t use {World, now, h1_request, meanwhile, owner, gate_options, cache_options}

  -- The request is woken, or its wait has ended without a result.
  unfoldable pub after_wait : ℕ → ℕ → Request → Round World
  after_wait g n request r =
      if contains n (r.gates g).done then (none, r) else answered (h1_request request r)

  unfoldable pub follow : ℕ → Bytes → Request → GateAction → Bool → Round World
  unfolding store_route after_wait at_gate
  follow g key request use_h2 overflow r =
      answered (request_h2 t request false (store_route t request.url key Routes.h2_available r))
  follow g key request use_h1 overflow r =
      if overflow
      then answered (h1_request request r)
      else answered (h1_request request (store_route t request.url key Routes.h1_only r))
  follow g key request (wait n) overflow r =
      after_wait g n request (meanwhile (at_gate t g (wait_for_detection n) r))
  follow g key request detect overflow r = answered (detect_route t g key request r)

  -- `gate->enter()`.
  unfoldable pub ask_gate : Bytes → Request → Round World
  unfolding gate_of at_gate follow
  ask_gate key request r =
      let found = gate_of t key r in
      let entered = enter gate_options (now r.world) (found.1.gates found.0) in
      follow found.0 key request entered.0.action entered.0.overflow_fallback
        (at_gate t found.0 (λ s. entered.1) found.1)

  -- What `remembered_route` says.
  unfoldable pub by_route : Bytes → Request → ProtocolState → Round World
  unfolding store_route ask_gate
  by_route key request h1_only r =
      answered (h1_request request (store_route t request.url key Routes.h1_only r))
  by_route key request h2_available r =
      answered (request_h2 t request false (store_route t request.url key Routes.h2_available r))
  by_route key request unknown r = ask_gate key request r
  by_route key request detecting r = ask_gate key request r
  by_route key request h2_failed_recently r = ask_gate key request r

  unfoldable pub by_key : Bytes → Request → Round World
  unfolding by_route
  by_key key request r =
      let found = remembered_route (now r.world) key r.origins in
      by_route key request found.0 (record r { origins = found.1 })

  unfoldable pub by_origin : Result Bytes → Request → Round World
  unfolding by_key
  by_origin (ok key) request r = by_key key request r
  by_origin (err e) request r = (some (err e), r)

  -- What `lookup_tls_route` finds.
  unfoldable pub by_cache : Request → Option (Bytes × RouteProtocol) → Round World
  unfolding by_key by_origin
  by_cache request (some (key, Routes.h1_only)) r = answered (h1_request request r)
  by_cache request (some (key, Routes.h2_available)) r = answered (request_h2 t request false r)
  by_cache request (some (key, Routes.unknown)) r = by_key key request r
  by_cache request none r = by_origin (origin_key request.url) request r

  unfoldable pub auto_round : Request → Round World
  unfolding by_cache
  auto_round request r =
      let found =
        lookup_tls_route owner request.url cache_options.origin_cache_ttl r.origins.generation
          (now r.world) r.routes in
      by_cache request found.0 (record r { routes = found.1 })

  -- `none` when it has started again that many times.
  unfoldable pub request_auto : ℕ → Request → Round World
  unfolding auto_round
  request_auto zero request r = auto_round request r
  request_auto (suc rounds) request r =
      or_again (auto_round request r) (request_auto rounds request)

  -- The client that the policy of the request names.
  unfoldable pub by_policy : ℕ → Request → ProtocolPolicy → Round World
  unfolding request_auto
  by_policy rounds request force_h1 r = answered (h1_request request r)
  by_policy rounds request force_h2 r = answered (request_h2 t request true r)
  by_policy rounds request prefer_h1 r = answered (request_prefer_h1 t request r)
  by_policy rounds request prefer_h2 r = answered (request_prefer_h2 t request r)
  by_policy rounds request auto r = request_auto rounds request r

  unfoldable pub raw_request : ℕ → Request → Router World → Option Response × Router World
  unfolding by_policy policy_of caught
  raw_request rounds request r = caught (
      by_policy rounds (record request { protocol_policy = policy_of request }) (policy_of request)
        r)
