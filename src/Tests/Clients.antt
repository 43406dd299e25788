-- ===== src/Tests/Clients.antt =====
-- The defaults of a client and its route cache at concrete values.
use http_client.Prelude.{
  ◌≡◌, ◌↔◌, refl, true, false, List, [], ◌∷◌, none, some, Bytes, codes, ok, Ensures,
}
use http_client.Prelude.Int.{pos, negsuc}
use http_client.Text.{
  find, rfind, find_text, starts_with, trim_front, trim_back, is_space, to_lower,
}
use http_client.Cookies.{is_subdomain, without_dot}
use http_client.Headers.{
  lower_copy, trim_copy, find_header, is_named, header_name_equal, split_header_view,
}
use http_client.Url.{ParsedUrl, parse_url, url_of, authority_of, path_of, default_port}
use http_client.Request.{Request, default_request, header}
use http_client.Defaults.{DefaultOptions, Environment, host_matches_no_proxy, apply_defaults}
use http_client.Defaults.Proxies.{IsExcepted, host_matches_no_proxy_iff}
use http_client.Defaults.Headers.{header-apply_defaults}

abbrev exceptions : List Bytes
exceptions = codes "localhost" ∷ codes " .A.org" ∷ []

host_matches_no_proxy_iff_example :
    (host_matches_no_proxy (codes "www.a.org") exceptions ≡ true)
    ↔ IsExcepted (codes "www.a.org") exceptions
host_matches_no_proxy_iff_example = host_matches_no_proxy_iff (codes "www.a.org") exceptions

abbrev options : DefaultOptions
options = record {
  base_url = codes "http://a.org/v1/";
  timeout = record {
    total_ms = pos 900;
    connect_ms = negsuc 0;
    read_ms = negsuc 0;
    write_ms = negsuc 0;
    pool_ms = negsuc 0;
  };
  auto_decompress = true;
  default_headers = codes "Accept: text/html" ∷ codes "X-Id: 1" ∷ [];
  default_query_params = record { name = codes "k"; value = codes "v" } ∷ [];
  proxy = some (record { url = codes "http://proxy:3128" });
  trust_env_proxy = false;
  no_proxy = codes "a.org" ∷ [];
  request_hooks = [];
}

abbrev no_environment : Environment
no_environment name = none

abbrev request : Request
request = record default_request {
  url = codes "http://a.org/x";
  headers = codes "accept: */*" ∷ [];
}

abbrev parsed : ParsedUrl
parsed = record {
  scheme = codes "http";
  host = codes "a.org";
  port = codes "80";
  path = codes "/x";
}

parse_request_url : parse_url request.url ≡ ok parsed
unfolding parse_url url_of authority_of path_of find find_text rfind starts_with default_port
parse_request_url = refl

is_excepted : host_matches_no_proxy (codes "a.org") (codes "a.org" ∷ []) ≡ true
unfolding host_matches_no_proxy to_lower trim_front trim_back is_space lower_copy trim_copy
    is_subdomain without_dot
is_excepted = refl

own_accept : header (codes "Accept") request ≡ some (codes "*/*")
unfolding header find_header split_header_view header_name_equal to_lower find trim_front is_named
    is_space
own_accept = refl

header-apply_defaults_example :
    Ensures
      (λ r'. header (codes "Accept") r' ≡ some (codes "*/*"))
      (apply_defaults options no_environment request)
header-apply_defaults_example =
    header-apply_defaults options no_environment (codes "Accept") request (codes "*/*") refl
      own_accept
