-- ===== src/Tests/Proxies.antt =====
-- Proxies at concrete urls and streams.
use http_client.Prelude.{◌≡◌, refl, List, [], ◌∷◌, ◌++◌, Bytes, codes, ok, arith}
use http_client.Text.{trim_front, is_space}
use http_client.Proxy.{ProxyUrl, parse_proxy_url, is_digit}
use http_client.Url.{scheme_mark}
use http_client.Proxy.Parse.{IsAddress, address_of, parse_proxy_url-print}
use http_client.Proxy.Connect.{connect_loop}
use http_client.Proxy.Chunks.{whole_answer, connect_loop-joined}
use http_client.Text.Append.{joined}
use http_client.Proxy.Socks.{
  greeting, auth_request, connect_command, target_port, stoul, signed_value, unsigned_value,
  read_digits, establish_socks5_tunnel,
}
use http_client.Proxy.Handshake.{name, with_password, establish_socks5_tunnel-Accepts}

proxy_3128-IsAddress : IsAddress (codes "127.0.0.1") (codes "3128")
proxy_3128-IsAddress = record {
  host_slash = omega arith;
  host_at = omega arith;
  nonempty = refl;
  port_slash = omega arith;
  port_at = omega arith;
  port_colon = omega arith;
}

parse_proxy_url-print_example :
    parse_proxy_url (codes "http" ++ (scheme_mark ++ address_of (codes "127.0.0.1") (codes "3128")))
    ≡ ok (record {
      scheme = codes "http";
      host = codes "127.0.0.1";
      port = codes "3128";
      username = [];
      password = [];
    })
parse_proxy_url-print_example =
    parse_proxy_url-print (codes "http") (codes "127.0.0.1") (codes "3128") (omega arith)
      proxy_3128-IsAddress

abbrev answer : List Bytes
answer = codes "HTTP/1.1 200 OK" ∷ (13 ∷ 10 ∷ 13 ∷ []) ∷ (10 ∷ codes "rest") ∷ []

connect_loop-joined_example : connect_loop answer [] ≡ whole_answer (joined answer)
connect_loop-joined_example = connect_loop-joined answer (omega arith)

abbrev socks_url : ProxyUrl
socks_url = record {
  scheme = codes "socks5";
  host = codes "proxy";
  port = codes "1080";
  username = codes "me";
  password = codes "secret";
}

port_443 : target_port (codes "443") ≡ ok 443
unfolding target_port stoul signed_value unsigned_value read_digits trim_front is_digit is_space
port_443 = refl

establish_socks5_tunnel-Accepts_example :
    establish_socks5_tunnel (codes "a.org") (codes "443") socks_url (record {
      input = (5 ∷ 2 ∷ 1 ∷ 0 ∷ []) ++ (5 ∷ 0 ∷ 0 ∷ (3 ∷ 1 ∷ codes "h") ++ (1 ∷ 2 ∷ codes "tunnel"));
      sent = [];
    })
    ≡ ok (record {
      input = codes "tunnel";
      sent = greeting socks_url ++ (auth_request socks_url ++ connect_command (codes "a.org") 443);
    })
establish_socks5_tunnel-Accepts_example =
    establish_socks5_tunnel-Accepts socks_url (codes "a.org") (codes "443") 443 (5 ∷ 2 ∷ 1 ∷ 0 ∷ [])
      (auth_request socks_url) (3 ∷ 1 ∷ codes "h") 0 1 2 (codes "tunnel") (omega arith) port_443
      (with_password (omega arith) (omega arith)) (name (codes "h") (omega arith))
