-- ===== src/Request.antt =====
-- `Request` (include/httpclient/request.hpp) and its members in src/request.cpp. A `std::string` is
-- its bytes; a `shared_ptr<const std::string>` is an optional text, since nothing can write through
-- it. The caller's body handler is named by a number.
pub mod Builder
pub mod Laws
use http_client.Prelude.{
  ℕ, ◌<◌, Bool, true, false, ◌&&◌, ◌||◌, not, List, [], ◌∷◌, ◌++◌, Option, none, some, Bytes, codes,
  ◌==◌, if◌then◌else◌, length, is_nil,
}
use http_client.Prelude.Int.{ℤ, pos, negsuc}
use http_client.Headers.{find_header, remove_lines, header_line}

pub record Timeout : Type 0 where
  pub total_ms : ℤ
  pub connect_ms : ℤ
  pub read_ms : ℤ
  pub write_ms : ℤ
  pub pool_ms : ℤ

pub data ProtocolPolicy : Type 0 where
  auto force_h1 force_h2 prefer_h1 prefer_h2 : ProtocolPolicy

pub record ProxyConfig : Type 0 where
  pub url : Bytes

pub record Request : Type 0 where
  pub method : Bytes
  pub url : Bytes
  pub headers : List Bytes
  pub body : Bytes
  pub shared_body : Option Bytes
  pub timeout_ms : ℤ
  pub timeout : Timeout
  pub verify_peer : Bool
  pub verify_host : Bool
  pub disable_proxy : Bool
  pub proxy : Option ProxyConfig
  pub proxy_override : Bool
  pub fresh_connect : Bool
  pub forbid_reuse : Bool
  pub store_response_body : Bool
  pub store_response_headers : Bool
  pub measure_total_time : Bool
  pub on_body_chunk : Option ℕ
  pub protocol_policy : ProtocolPolicy
  pub follow_redirects : Option Bool
  pub max_redirects : ℤ
  pub max_retries : ℤ
  pub retry_backoff_ms : ℤ
  pub use_cookie_jar : Bool
  pub auto_decompress : Bool

abbrev no_timeout : Timeout
no_timeout = record {
  total_ms = negsuc 0;
  connect_ms = negsuc 0;
  read_ms = negsuc 0;
  write_ms = negsuc 0;
  pool_ms = negsuc 0;
}

-- A request with the members' default initialisers.
abbrev pub default_request : Request
default_request = record {
  method = codes "GET";
  url = [];
  headers = [];
  body = [];
  shared_body = none;
  timeout_ms = pos 5000;
  timeout = no_timeout;
  verify_peer = true;
  verify_host = true;
  disable_proxy = false;
  proxy = none;
  proxy_override = false;
  fresh_connect = false;
  forbid_reuse = false;
  store_response_body = true;
  store_response_headers = true;
  measure_total_time = true;
  on_body_chunk = none;
  protocol_policy = auto;
  follow_redirects = none;
  max_redirects = negsuc 0;
  max_retries = negsuc 0;
  retry_backoff_ms = negsuc 0;
  use_cookie_jar = true;
  auto_decompress = false;
}

abbrev pub shared_text : Option Bytes → Bytes
shared_text none = []
shared_text (some text) = text

unfoldable pub has_body : Request → Bool
has_body r = not (is_nil r.body) || not (is_nil (shared_text r.shared_body))

unfoldable pub body_size : Request → ℕ
body_size r = if not (is_nil r.body) then length r.body else length (shared_text r.shared_body)

unfoldable pub body_view : Request → Bytes
body_view r = if not (is_nil r.body) then r.body else shared_text r.shared_body

unfoldable pub set_body : Bytes → Request → Request
set_body value r = record r { body = value; shared_body = none }

unfoldable pub set_shared_body : Option Bytes → Request → Request
set_shared_body value r = record r { shared_body = value; body = [] }

unfoldable pub add_header_line : Bytes → Request → Request
add_header_line line r = record r { headers = r.headers ++ line ∷ [] }

unfoldable pub add_header : Bytes → Bytes → Request → Request
unfolding add_header_line
add_header name value r = add_header_line (header_line name value) r

-- The request without the lines of that name, and whether there was one.
unfoldable pub remove_header : Bytes → Request → Request × Bool
remove_header name r =
    let rest = remove_lines name r.headers in
    (record r { headers = rest }, not (length rest == length r.headers))

unfoldable pub set_header : Bytes → Bytes → Request → Request
unfolding add_header remove_header
set_header name value r = add_header name value (remove_header name r).0

-- `Request::header`.
unfoldable pub header : Bytes → Request → Option Bytes
header name r = find_header name r.headers

unfoldable pub set_content_type : Bytes → Request → Request
unfolding set_header
set_content_type value r = set_header (codes "Content-Type") value r

unfoldable pub set_accept : Bytes → Request → Request
unfolding set_header
set_accept value r = set_header (codes "Accept") value r
