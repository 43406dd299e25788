-- ===== src/Response.antt =====
-- `Response` (include/httpclient/request.hpp) and its members in src/request.cpp. The timings are
-- floating-point numbers that no decision reads, and are left out.
use http_client.Prelude.{
  ℕ, Bool, false, ◌&&◌, ◌||◌, List, [], Option, Bytes, codes, ◌==◌, leb, ltb, is_nil,
}
use http_client.Headers.{find_header, find_headers}

pub record Response : Type 0 where
  pub status : ℕ
  pub body : Bytes
  pub headers : List Bytes
  pub error : Bytes
  pub final_url : Bytes
  pub redirect_count : ℕ
  pub num_connects : ℕ
  pub http_version : ℕ
  pub reused_connection : Bool
  pub primary_ip : Bytes

abbrev pub empty_response : Response
empty_response = record {
  status = 0;
  body = [];
  headers = [];
  error = [];
  final_url = [];
  redirect_count = 0;
  num_connects = 0;
  http_version = 0;
  reused_connection = false;
  primary_ip = [];
}

-- `Response::header`.
unfoldable pub header : Bytes → Response → Option Bytes
header name r = find_header name r.headers

unfoldable pub headers_named : Bytes → Response → List Bytes
headers_named name r = find_headers name r.headers

unfoldable pub content_type : Response → Option Bytes
unfolding header
content_type r = header (codes "Content-Type") r

unfoldable pub is_success : Response → Bool
is_success r = is_nil r.error && (leb 200 r.status && ltb r.status 400)

unfoldable pub is_redirect : Response → Bool
is_redirect r =
    r.status == 301 || r.status == 302 || r.status == 303 || r.status == 307 || r.status == 308

-- Whether `raise_for_status` throws.
unfoldable pub raises_for_status : Response → Bool
raises_for_status r = is_nil r.error && leb 400 r.status
