-- ===== src/Http1.antt =====
-- The HTTP/1.1 exchange of src/asio_http_client.cpp over one connection: `parse_url`, what
-- `run_light_h1_exchange` writes, and the readers of the response's head. The reads are in Exchange.
-- `split_header`, `header_name_equals` and `parse_status_code` are the functions of Headers and Proxy
-- again. `std::toupper` and the verbs serve Boost.Beast only.
pub mod Exchange
pub mod Decimal
pub mod Fields
pub mod Lines
pub mod Body
pub mod Heads
pub mod Whole
pub mod Answer
pub mod Framing
pub mod Sent
pub mod Lost
use http_client.Prelude.{
  ℕ, zero, suc, ◌+◌, ◌-◌, ◌*◌, ◌/◌, ◌%◌, ◌^◌, Bool, true, false, ◌&&◌, ◌||◌, not, List, [], ◌∷◌,
  ◌++◌, Option, none, some, Bytes, codes, map, ◌==◌, if◌then◌else◌, ltb, take, drop, length, is_nil,
  is_some, Result, ok, err,
}
use http_client.Prelude.Int.{ℤ, is_nonneg}
use http_client.Text.{bytes_eq, find_text, starts_with, to_lower, trim_front, rfind}
use http_client.Url.{scheme_mark, authority_of, path_of}
use http_client.Headers.{split_header_view, header_name_equal, is_named}
use http_client.Proxy.{is_digit, EffectiveProxy, ProxyUrl}
use http_client.Proxy.Connect.{crlf}
use http_client.Request.{Request, Timeout, header, set_header, body_view}

-- `ParsedUrl` of this file.
pub record Http1Url : Type 0 where
  pub scheme : Bytes
  pub host : Bytes
  pub port : Bytes
  pub target : Bytes
  pub tls : Bool

unfoldable pub is_https : Bytes → Bool
is_https scheme = bytes_eq scheme (codes "https")

-- The authority is cut at its last `:`.
unfoldable pub http1_url_of : Bytes → Bytes → Bytes → Http1Url
unfolding is_https
http1_url_of scheme authority target =
    let tls = is_https scheme in
    elim (rfind b':' authority) [
      | none ↦ record {
        scheme = scheme;
        host = authority;
        port = if tls then codes "443" else codes "80";
        target = target;
        tls = tls;
      }
      | some i ↦ record {
        scheme = scheme;
        host = take i authority;
        port = drop (suc i) authority;
        target = target;
        tls = tls;
      }
    ]

unfoldable pub require_url_host : Http1Url → Result Http1Url
require_url_host u = if is_nil u.host then err (codes "url host is empty") else ok u

-- `parse_url` of this file.
unfoldable pub parse_http1_url : Bytes → Result Http1Url
unfolding is_https http1_url_of require_url_host
parse_http1_url url = elim (find_text scheme_mark url) [
  | none ↦ err (codes "url must include scheme")
  | some i ↦
      let scheme = take i url in
      let rest = drop (suc (suc (suc i))) url in
      if not (is_https scheme) && not (bytes_eq scheme (codes "http"))
      then err (codes "only http and https are supported")
      else require_url_host (http1_url_of scheme (authority_of rest) (path_of rest))
]

unfoldable pub proxy_url_as_parsed : ProxyUrl → Http1Url
unfolding is_https
proxy_url_as_parsed u = record {
  scheme = u.scheme;
  host = u.host;
  port = u.port;
  target = codes "/";
  tls = is_https u.scheme;
}

unfoldable pub absolute_uri : Http1Url → Bytes
absolute_uri u =
    let plain =
      (u.tls && bytes_eq u.port (codes "443")) || (not u.tls && bytes_eq u.port (codes "80")) in
    u.scheme ++ (scheme_mark ++ (u.host ++ ((if plain then [] else b':' ∷ u.port) ++ u.target)))

-- `stage_error(stage, e).what()`.
unfoldable pub stage_error : Bytes → Bytes → Bytes
stage_error stage what = stage ++ (codes ": " ++ what)

-- `effective_timeout`, given the value of the field.
unfoldable pub effective_timeout : ℤ → Request → ℤ
effective_timeout field r =
    if is_nonneg field
    then field
    else if is_nonneg r.timeout.total_ms
    then r.timeout.total_ms
    else r.timeout_ms

unfoldable pub add_proxy_authorization : EffectiveProxy → Request → Request
add_proxy_authorization proxy r =
    if not (is_nil proxy.authorization) && not (is_some (header (codes "Proxy-Authorization") r))
    then set_header (codes "Proxy-Authorization") proxy.authorization r
    else r

-- `std::to_string` of a number, on fuel above it.
unfoldable pub digits : ℕ → ℕ → Bytes
digits zero n = []
digits (suc f) n =
    let front = digits f (n / 10) in
    if ltb n 10 then (b'0' + n) ∷ [] else front ++ (b'0' + n % 10) ∷ []

unfoldable pub to_string : ℕ → Bytes
unfolding digits
to_string n = digits (suc n) n

-- Whether one of the request's headers has that name.
unfoldable pub has_named : Bytes → List Bytes → Bool
has_named name [] = false
has_named name (line ∷ lines) = is_named name line || has_named name lines

-- The lines that the exchange writes itself and takes from no header.
unfoldable pub is_own : Bytes → Bool
is_own name =
    is_nil name
    || (header_name_equal name (codes "host")
        || (header_name_equal name (codes "content-length")
            || header_name_equal name (codes "connection")))

unfoldable pub written_line : Bytes × Bytes → Bytes
written_line (name, value) = name ++ (codes ": " ++ value)

-- The request's headers, as they are written.
unfoldable pub written_headers : List Bytes → List Bytes
unfolding is_own written_line
written_headers [] = []
written_headers (line ∷ lines) =
    let rest = written_headers lines in
    if is_own (split_header_view line).0 then rest else written_line (split_header_view line) ∷ rest

-- The two lines that stand in for a missing `User-Agent` and `Accept`.
unfoldable pub standard_headers : List Bytes → List Bytes
unfolding has_named
standard_headers headers =
    (if has_named (codes "user-agent") headers
      then []
      else codes "User-Agent: httpclient-asio-light" ∷ [])
    ++ (if has_named (codes "accept") headers then [] else codes "Accept: */*" ∷ [])

unfoldable pub length_line : Bytes → List Bytes
unfolding to_string
length_line body =
    if is_nil body then [] else (codes "Content-Length: " ++ to_string (length body)) ∷ []

abbrev pub connection_line : Bytes
connection_line = codes "Connection: keep-alive"

unfoldable pub request_line : Http1Url → Bool → Request → Bytes
unfolding absolute_uri
request_line u absolute_target r =
    (if is_nil r.method then codes "GET" else r.method)
    ++ 32 ∷ ((if absolute_target then absolute_uri u else u.target) ++ codes " HTTP/1.1")

-- The lines of the head between the request line and `Connection`.
unfoldable pub head_lines : Http1Url → Request → List Bytes
unfolding standard_headers written_headers length_line
head_lines u r =
    (codes "Host: " ++ u.host)
    ∷ (standard_headers r.headers ++ (written_headers r.headers ++ length_line (body_view r)))

-- Lines with the `\r\n` behind each.
abbrev pub text_of : List Bytes → Bytes
text_of [] = []
text_of (line ∷ lines) = line ++ (crlf ++ text_of lines)

unfoldable pub request_head : Http1Url → Bool → Request → Bytes
unfolding request_line head_lines
request_head u absolute_target r =
    request_line u absolute_target r
    ++ (crlf ++ (text_of (head_lines u r) ++ (connection_line ++ (crlf ++ crlf))))

-- The buffers of `async_write`: a body above 4096 bytes is gathered from its place.
unfoldable pub write_buffers : Http1Url → Bool → Request → List Bytes
unfolding request_head
write_buffers u absolute_target r =
    if ltb 4096 (length (body_view r))
    then request_head u absolute_target r ∷ body_view r ∷ []
    else (request_head u absolute_target r ++ body_view r) ∷ []

abbrev pub size_modulus : ℕ
size_modulus = 2 ^ 64

-- The digits of `parse_content_length`, in a `std::size_t`.
unfoldable pub read_size : ℕ → Bytes → ℕ
unfolding is_digit
read_size len [] = len
read_size len (c ∷ cs) =
    let next = read_size ((len * 10 + (c - b'0')) % size_modulus) cs in
    if is_digit c then next else len

abbrev pub length_name : Bytes
length_name = codes "content-length:"

-- Whether a line starts with the name, under `tolower`.
unfoldable pub is_length_line : Bytes → Bool
is_length_line line = starts_with length_name (map to_lower line)

-- `parse_content_length`: behind each `\r\n` the name is looked for, unless the rest is too short.
unfoldable pub parse_content_length : Bytes → ℕ
unfolding is_length_line read_size
parse_content_length [] = 0
parse_content_length (x ∷ []) = 0
parse_content_length (x ∷ y ∷ line) = elim (x == 13 && y == 10) [
  | false ↦ parse_content_length (y ∷ line)
  | true ↦ elim (ltb (length line) 15) [
    | true ↦ 0
    | false ↦ elim (is_length_line line) [
      | true ↦ read_size 0 (trim_front (drop 15 line))
      | false ↦ parse_content_length line
    ]
  ]
]

-- The loop of `append_response_headers`, on fuel of the text's length.
unfoldable pub header_lines : ℕ → Bytes → List Bytes
header_lines zero text = []
header_lines (suc f) text = elim (find_text crlf text) [
  | none ↦ []
  | some zero ↦ []
  | some (suc i) ↦ take (suc i) text ∷ header_lines f (drop (suc (suc (suc i))) text)
]

-- The lines that it appends: those behind the first.
unfoldable pub append_response_headers : Bytes → List Bytes
unfolding header_lines
append_response_headers headers = elim (find_text crlf headers) [
  | none ↦ []
  | some i ↦ let text = drop (suc (suc i)) headers in header_lines (length text) text
]
