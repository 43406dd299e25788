-- ===== src/Routing.antt =====
-- How a request finds its client in src/http_client.cpp: `request_h2`, `request_prefer_h1`,
-- `request_prefer_h2`, and what `request_auto` does behind `GateAction::Detect`; the rest of it and
-- `raw_request` are in Routing/Auto. The two clients are
-- parameters: while one of them is at work other requests go on, so that a call of it may change all
-- that this one sees.
pub mod Auto
pub mod Next
pub mod Settled
use http_client.Prelude.{
  ℕ, Bool, true, false, ◌&&◌, not, Option, none, some, Bytes, Result, ok, err, ◌==◌, if◌then◌else◌,
  leb, ltb, is_nil,
}
use http_client.Request
use http_client.Request.{Request}
use http_client.Response
use http_client.Response.{Response}
use http_client.Url.{origin_key}
use http_client.Gate.{
  Gate, new_gate, GateOptions, ProtocolState, h1_only, h2_available, set_protocol, mark_h2_failed,
  record_h2_origin,
}
use http_client.Origins.{OriginCache, CacheOptions, get_gate, remember_route}
use http_client.Routes
use http_client.Routes.{RouteProtocol, RouteCache, store_tls_route}

-- The gates by their number, `origins_`, the route cache of the thread, and all else.
pub record Router (World : Type 0) : Type 0 where
  pub gates : ℕ → Gate
  pub origins : OriginCache
  pub routes : RouteCache
  pub world : World

-- What returns or throws, and the state behind it.
abbrev pub Call : Type 0 → Type 0 → Type 0
Call World A = Router World → Result A × Router World

-- `AsioHttpClient::ProbeProtocol` and `ProbeResult`.
pub data ProbeProtocol : Type 0 where
  unknown http11 h2 : ProbeProtocol

pub record ProbeResult : Type 0 where
  pub protocol : ProbeProtocol
  pub response : Response

-- `h1_.async_request`, `h1_.async_probe` and `h2_.async_request`, the clock, what others do while a
-- request waits for a detection, and the options.
pub record Clients : Type 1 where
  pub World : Type 0
  pub now : World → ℕ
  pub h1_request : Request → Call World Response
  pub h1_probe : Request → Call World ProbeResult
  pub h2_request : Request → Call World Response
  pub meanwhile : Router World → Router World
  pub owner : ℕ
  pub gate_options : GateOptions
  pub cache_options : CacheOptions

abbrev pub and_then : {W A B : Type 0} → Result A × Router W → (A → Call W B) → Result B × Router W
and_then (ok a, r) next = next a r
and_then (err e, r) next = (err e, r)

unfoldable pub is_h2 : ProbeProtocol → Bool
is_h2 h2 = true
is_h2 http11 = false
is_h2 unknown = false

unfoldable pub is_http11 : ProbeProtocol → Bool
is_http11 http11 = true
is_http11 h2 = false
is_http11 unknown = false

-- `probe.protocol == Http11 && probe.response.error.empty()`.
unfoldable pub is_adopted : ProbeResult → Bool
unfolding is_http11
is_adopted p = is_http11 p.protocol && is_nil p.response.error

module _ (t : Clients) where
  open t use {World, now, h1_request, h1_probe, h2_request, owner, gate_options, cache_options}

  -- An operation of one gate.
  unfoldable pub at_gate : ℕ → (Gate → Gate) → Router World → Router World
  at_gate g f r = record r { gates = λ n. if n == g then f (r.gates n) else r.gates n }

  abbrev pub blocked_in : Router World → ℕ → Bool
  blocked_in r n = (r.gates n).eviction_blocked

  -- The origins after a call; the gates that it has made start as new ones.
  unfoldable pub with_origins : OriginCache → Router World → Router World
  with_origins c r = record r {
    origins = c;
    gates = λ n. if leb r.origins.gates n && ltb n c.gates then new_gate else r.gates n;
  }

  -- `get_gate(key)`.
  unfoldable pub gate_of : Bytes → Router World → ℕ × Router World
  unfolding with_origins
  gate_of key r =
      let found = get_gate cache_options (blocked_in r) (now r.world) key r.origins in
      (found.0, with_origins found.1 r)

  -- `remember_route(key, protocol)`.
  unfoldable pub remember : Bytes → ProtocolState → Router World → Router World
  unfolding with_origins
  remember key protocol r =
      with_origins
        (remember_route cache_options (blocked_in r) (now r.world) key protocol r.origins) r

  -- `store_tls_route` for the url.
  unfoldable pub store_route : Bytes → Bytes → RouteProtocol → Router World → Router World
  store_route url key protocol r = record r {
    routes = store_tls_route owner url key protocol r.origins.generation (now r.world) r.routes;
  }

  -- The failure is written down, unless the caller forces HTTP/2.
  unfoldable pub note_failure : Bytes → Bool → Response → Call World Response
  unfolding gate_of at_gate
  note_failure key force response r =
      if not (is_nil response.error) && not force
      then (let found = gate_of key r in
          (ok response, at_gate found.0 (mark_h2_failed gate_options (now r.world)) found.1))
      else (ok response, r)

  unfoldable pub request_h2 : Request → Bool → Call World Response
  unfolding note_failure
  request_h2 request force r =
      and_then (origin_key request.url, r)
        (λ key r'. and_then (h2_request request r') (note_failure key force))

  -- HTTP/2 works for the origin: `record_h2_origin`, `remember_route`, with a url `store_tls_route`, and
  -- `set_protocol`.
  unfoldable pub found_h2 : ℕ → Bytes → Option Bytes → Router World → Router World
  unfolding at_gate remember store_route
  found_h2 g key url r =
      let marked = remember key h2_available (at_gate g record_h2_origin r) in
      at_gate g (set_protocol h2_available)
        (elim url [ none ↦ marked | some u ↦ store_route u key Routes.h2_available marked ])

  -- An answer over HTTP/1.1 is taken.
  unfoldable pub found_h1 : Bytes → Option Bytes → Router World → Router World
  unfolding remember store_route
  found_h1 key url r =
      let marked = remember key h1_only r in
      elim url [ none ↦ marked | some u ↦ store_route u key Routes.h1_only marked ]

  -- What follows the probe.
  unfoldable pub after_probe :
      ℕ → Bytes → Option Bytes → Request → ProbeResult → Call World Response
  unfolding found_h1 found_h2 request_h2
  after_probe g key url request probe r =
      if is_adopted probe
      then (ok probe.response, found_h1 key url r)
      else (if is_h2 probe.protocol
          then request_h2 request false (found_h2 g key url r)
          else h1_request request r)

  -- What follows the first try over HTTP/2; `failed` is what the caller does with the gate.
  unfoldable pub after_h2 :
      ℕ → Bytes → Option Bytes → (Gate → Gate) → Request → Response → Call World Response
  unfolding after_probe
  after_h2 g key url failed request response r =
      if is_nil response.error
      then (ok response, found_h2 g key url r)
      else and_then (h1_probe request (at_gate g failed r)) (after_probe g key url request)

  -- The end of `request_auto`, for the request that is told to detect.
  unfoldable pub detect_route : ℕ → Bytes → Request → Call World Response
  unfolding after_h2
  detect_route g key request r =
      and_then (request_h2 request false r)
        (after_h2 g key (some request.url) (set_protocol h1_only) request)

  -- The gate is marked at the time at which the first try has failed.
  unfoldable pub after_preferred : ℕ → Bytes → Request → Response → Call World Response
  unfolding after_h2
  after_preferred g key request response r =
      after_h2 g key none (mark_h2_failed gate_options (now r.world)) request response r

  unfoldable pub request_prefer_h2 : Request → Call World Response
  unfolding after_preferred gate_of
  request_prefer_h2 request r =
      and_then (origin_key request.url, r)
        (λ key r'.
          let found = gate_of key r' in
          and_then (request_h2 request false found.1) (after_preferred found.0 key request))

  unfoldable pub after_h1 : Bytes → Request → Response → Call World Response
  unfolding found_h1 gate_of at_gate
  after_h1 key request response r =
      if is_nil response.error
      then (let found = gate_of key (found_h1 key (some request.url) r) in
          (ok response, at_gate found.0 (set_protocol h1_only) found.1))
      else request_h2 request false r

  unfoldable pub request_prefer_h1 : Request → Call World Response
  unfolding after_h1
  request_prefer_h1 request r =
      and_then (origin_key request.url, r)
        (λ key r'. and_then (h1_request request r') (after_h1 key request))
