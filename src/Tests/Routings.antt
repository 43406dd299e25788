-- ===== src/Tests/Routings.antt =====
-- Routing, at concrete inputs.
use http_client.Prelude.{
  ℕ, ◌≡◌, refl, inr, true, false, [], ◌∷◌, some, Bytes, codes, ok, err, err-ne-ok, arith,
}
use http_client.Request.{Request, default_request}
use http_client.Response.{Response, empty_response}
use http_client.Text.{find_text, starts_with}
use http_client.Url.{origin_key}
use http_client.Gate.{new_gate, detecting, wait_detection, use_h1, enter}
use http_client.Routes.{new_cache}
use http_client.Routes.Lookup.{replicate-IsNew}
use http_client.Routing.{Router, Clients, found_h2, found_h1, request_h2, detect_route}
use http_client.Routing.Auto.{answered, auto_round}
use http_client.Routing.Settled.{
  IsSettled, LeavesGate, KeepsNumbers, detect_route-IsSettled, detect_route-enter,
}
use http_client.Routing.Next.{looked_up, auto_round-found}

abbrev failed : Response
failed = record empty_response { error = codes "h2 timeout" }

-- HTTP/2 fails, the probe throws, and HTTP/1.1 answers. The world is the clock.
abbrev down : Clients
down = record {
  World = ℕ;
  now = λ w. w;
  h1_request = λ q r. (ok empty_response, r);
  h1_probe = λ q r. (err (codes "h1 connect"), r);
  h2_request = λ q r. (ok failed, r);
  meanwhile = λ r. r;
  owner = 7;
  gate_options = record {
    origin_waiter_limit = 4;
    detection_overflow_policy = wait_detection;
    h2_failure_ttl = 30;
  };
  cache_options = record { max_cached_origins = 8; origin_cache_ttl = 300 };
}

abbrev a_request : Request
a_request = record default_request { url = codes "https://a.org/x" }

abbrev a_key : Bytes
a_key = codes "https://a.org:443"

-- A request detects, and another waits for it.
abbrev detecting_router : Router ℕ
detecting_router = record {
  gates = λ n. record new_gate {
    protocol = detecting;
    waiters = 0 ∷ [];
    made = 1;
    eviction_blocked = true;
  };
  origins = record { origins = []; lru = []; generation = 2; gates = 1 };
  routes = new_cache;
  world = 10;
}

down-LeavesGate : LeavesGate down 0
down-LeavesGate = record { h1 = λ q r. refl; probe = λ q r. refl; h2 = λ q r. refl }

down-KeepsNumbers : KeepsNumbers down 0
down-KeepsNumbers = record { probe = λ q r. omega arith; h2 = λ q r. omega arith }

down-failed : (request_h2 down a_request false detecting_router).0 ≡ ok failed
unfolding request_h2 origin_key find_text starts_with
down-failed = refl

detect_route-IsSettled_example :
    IsSettled ((detect_route down 0 a_key a_request detecting_router).1.gates 0)
detect_route-IsSettled_example =
    detect_route-IsSettled down 0 a_key a_request failed detecting_router down-LeavesGate
      down-failed

detect_route-enter_example :
    (enter
      (Clients.gate_options down)
      5000
      ((detect_route down 0 a_key a_request detecting_router).1.gates 0)).0.action
    ≡ use_h1
detect_route-enter_example =
    detect_route-enter down 0 (Clients.gate_options down) 5000 a_key a_request failed
      detecting_router down-LeavesGate down-KeepsNumbers (omega arith) down-failed refl
      (λ q s p e. absurd (err-ne-ok e))

auto_round-found_example :
    (auto_round down a_request
        (record (found_h2 down 0 a_key (some (codes "https://a.org/x")) detecting_router) {
          world = 12;
        })
      ≡ answered (
          request_h2 down a_request false (
            looked_up down
              (codes "https://a.org/x")
              (record (found_h2 down 0 a_key (some (codes "https://a.org/x")) detecting_router) {
                world = 12;
              }))))
    × (auto_round down a_request
          (record (found_h1 down a_key (some (codes "https://a.org/x")) detecting_router) {
            world = 12;
          })
        ≡ answered (
            Clients.h1_request down a_request (
              looked_up down
                (codes "https://a.org/x")
                (record (found_h1 down a_key (some (codes "https://a.org/x")) detecting_router) {
                  world = 12;
                }))))
auto_round-found_example =
    auto_round-found down 0 a_key a_request detecting_router 12 refl refl
      (replicate-IsNew 7 (codes "https://a.org/x") 64) (inr (omega arith))
