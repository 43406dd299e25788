-- ===== src/Lib.antt =====
-- The HTTP client library: a model of its own logic and the theorems about it.
--
-- A request is built (src/request.cpp, include/httpclient/request.hpp), given the defaults of the
-- client, sent through the policy of redirects, retries and cookies, and routed to an HTTP/1.1 or an
-- HTTP/2 client according to what is known of its origin (src/http_client.cpp); a proxy in between is
-- reached by src/proxy_support.hpp. Texts are lists of bytes.
--
-- The parts and their files:
--   Prelude      shared names, tests, lists, integers, and results: `ok` or the text of an exception
--   Text         the operations of std::string that the code uses: find, rfind, tolower, isspace
--   Base64       base64_encode and basic_auth_value
--   Form         append_urlencoded, form_urlencode, append_query_params and percent_decode, with a
--                decoder of forms in Form/Decode as the independent description
--   Headers      header lines: header_name_equal, split_header_view, and the two removals
--   Request      Request, and RequestBuilder in Request/Builder
--   Response     Response
--   Url          parse_url, origin_key, resolve_redirect_url and resolve_base_url
--   Gate         OriginGate: one function for each operation; Gate/Run has sequences of operations
--   Origins      the cache of origins with its eviction
--   Routes       the route cache of each thread
--   Routing      request_h2, request_prefer_h1 and request_prefer_h2, and the end of request_auto; the rest
--                of it and raw_request in Routing/Auto, over a record of the two clients
--   Cookies      CookieJar: the state in Cookies/Jar, the operations in Cookies/Store
--   Policy       request_with_httpx_policy behind the defaults, over a record of what it calls
--   Defaults     apply_defaults, needs_httpx_policy and the choice of the proxy
--   Proxy        parse_proxy_url and proxy_for_request; the tunnels in Proxy/Connect and Proxy/Socks
--   Pool         the connection pool of an origin in src/asio_http_client.cpp: acquire_plain, the ways
--                back of run_pooled_request, the workers of preconnect, the waiters, resets and
--                evictions, which is all that touches the plain connections; Pool/Run has the
--                events between two suspensions, and Pool/Cases the cases of one step for a property
--   Http1        the exchange over one connection in the same file: what is written in Http1, the
--                loops of run_light_h1_exchange in Http1/Exchange
--   Shards       the choice of a shard and the window of shards in the same file
--   Profile      normalize_options of src/http_client.cpp
--   Tests        the theorems at concrete inputs
--
-- How they interact: Defaults gives the request to Policy, whose record Transport stands for
-- raw_request, the jar and zlib, and is filled with the jar in Cookies/Client; Url is used by
-- Policy, Cookies, Defaults and Proxy; Headers by all that read a header line. A mutex or a strand
-- makes a call one step, so that the runs of Gate are the orders in which the strand can take the
-- calls. Routing puts the gates, the origin cache and the route cache of a thread together, and lets
-- a call of a client change them, since other requests go on meanwhile; it does not fill the record
-- Transport. Pool and Shards are used by the client of HTTP/1.1 side by side: a shard has a pool for
-- each origin, and one thread, so that a run of Pool is an order in which its coroutines go on;
-- Http1 is what a request does with the connection that it holds. The reader of a proxy's answer
-- (Proxy/Connect) and that of a server's (Http1/Exchange) share the laws of texts in pieces,
-- Text/Append.
--
-- Bounds and fuel: the loops over texts and lists are recursion on the list. The chain of redirects
-- recurs on how many may still be followed, and the attempts on how many are left, which is what the
-- code counts. The two loops that take out the oldest cookie or domain have as much fuel as there
-- are elements, and each round takes one out. Lengths and times are numbers without a bound; the
-- reads of the exchange are a list, one for each call, and the loop over header lines has the length
-- of the text as fuel, which is more than the lines it can hold. A request that waits for a
-- detection may have to start again, and request_auto is given how often. Where the code casts (a
-- length to a byte, a port to 32 bits, the cursor of the route cache, a Content-Length to 64 bits)
-- the cast is written out. The storage of the read buffer of a connection is a parameter of the
-- exchange: the capacity that it starts with (the code reserves 8192 bytes), how it grows, and what
-- a view of storage that was given up shows. The standard library's erase is taken to work in place,
-- so that a view of the text shows what has moved under it.
--
-- Not modelled: preconnect of the client, the shortcut of submit and the counters of routing; of
-- src/asio_http_client.cpp the connection actors, probe_request, the count of a preconnection's
-- workers, which pools an eviction comes to, and the exchange by Boost.Beast; src/h2_client.cpp,
-- include/asyncx/asyncx.hpp, the client over libcurl, benchmarks and tests; sockets, TLS, HTTP/2
-- framing and zlib are not of this repository. The pool of TLS connections has the code of the plain
-- one and is not modelled twice; probe_request and the connection actors, which use it too, are not
-- events of the model. Signed overflow of a time by a huge Max-Age is left out, and so are
-- the counters of statistics and the measured times of a response.
pub mod Prelude
pub mod Text
pub mod Base64
pub mod Form
pub mod Headers
pub mod Request
pub mod Response
pub mod Url
pub mod Gate
pub mod Policy
pub mod Cookies
pub mod Origins
pub mod Profile
pub mod Proxy
pub mod Pool
pub mod Http1
pub mod Shards
pub mod Defaults
pub mod Routes
pub mod Routing
pub mod Tests
