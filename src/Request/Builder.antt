-- ===== src/Request/Builder.antt =====
-- `RequestBuilder` of src/request.cpp: each method takes the request under construction to the new
-- one. The boundary that `multipart` draws (`make_multipart_boundary`: a clock and a counter) is an
-- argument.
use http_client.Prelude.{
  Bool, true, false, not, List, [], ◌∷◌, ◌++◌, Option, none, some, Bytes, codes, if◌then◌else◌, ℕ,
  is_nil,
}
use http_client.Prelude.Int.{ℤ, is_nonneg}
use http_client.Base64.{basic_auth_value}
use http_client.Form.{FormField, form_urlencode, append_query_params}
use http_client.Request.{
  Request, Timeout, ProtocolPolicy, default_request, set_body, set_header, set_content_type,
}

pub record MultipartPart : Type 0 where
  pub name : Bytes
  pub value : Bytes
  pub filename : Bytes
  pub content_type : Bytes

-- `method(method, url)`, and the five that fix the method.
unfoldable pub new : Bytes → Bytes → Request
new method url = record default_request { method = method; url = url }

unfoldable pub get : Bytes → Request
unfolding new
get url = new (codes "GET") url

unfoldable pub post : Bytes → Request
unfolding new
post url = new (codes "POST") url

unfoldable pub put : Bytes → Request
unfolding new
put url = new (codes "PUT") url

unfoldable pub del : Bytes → Request
unfolding new
del url = new (codes "DELETE") url

unfoldable pub patch : Bytes → Request
unfolding new
patch url = new (codes "PATCH") url

unfoldable pub with_method : Bytes → Request → Request
with_method method r = record r { method = method }

unfoldable pub with_url : Bytes → Request → Request
with_url url r = record r { url = url }

unfoldable pub query_params : List FormField → Request → Request
query_params params r = record r { url = append_query_params r.url params }

unfoldable pub query_param : Bytes → Bytes → Request → Request
unfolding query_params
query_param name value r = query_params (record { name = name; value = value } ∷ []) r

unfoldable pub basic_auth : Bytes → Bytes → Request → Request
basic_auth username password r =
    set_header (codes "Authorization") (basic_auth_value username password) r

unfoldable pub bearer_auth : Bytes → Request → Request
bearer_auth token r = set_header (codes "Authorization") (codes "Bearer " ++ token) r

-- `body(body, content_type)`; `bytes` is the same.
unfoldable pub with_body : Bytes → Bytes → Request → Request
with_body body content_type r = set_content_type content_type (set_body body r)

unfoldable pub json : Bytes → Request → Request
unfolding with_body
json text r = with_body text (codes "application/json") r

unfoldable pub form_urlencoded : List FormField → Request → Request
unfolding with_body
form_urlencoded fields r =
    with_body (form_urlencode fields) (codes "application/x-www-form-urlencoded") r

abbrev crlf : Bytes
crlf = 13 ∷ 10 ∷ []

-- One round of the loop of `multipart_form_data_body`.
multipart_part : Bytes → MultipartPart → Bytes
multipart_part boundary part =
    codes "--"
    ++ boundary
    ++ crlf
    ++ codes "Content-Disposition: form-data; name=\""
    ++ part.name
    ++ codes "\""
    ++ (if is_nil part.filename then [] else codes "; filename=\"" ++ part.filename ++ codes "\"")
    ++ crlf
    ++ (if is_nil part.content_type
        then []
        else codes "Content-Type: " ++ part.content_type ++ crlf)
    ++ crlf
    ++ part.value
    ++ crlf

unfoldable pub multipart_form_data_body : List MultipartPart → Bytes → Bytes
unfolding multipart_part
multipart_form_data_body [] boundary = codes "--" ++ boundary ++ codes "--" ++ crlf
multipart_form_data_body (part ∷ parts) boundary =
    multipart_part boundary part ++ multipart_form_data_body parts boundary

unfoldable pub multipart : List MultipartPart → Bytes → Request → Request
unfolding with_body
multipart parts boundary r =
    with_body (multipart_form_data_body parts boundary)
      (codes "multipart/form-data; boundary=" ++ boundary) r

unfoldable pub with_timeout_ms : ℤ → Request → Request
with_timeout_ms ms r = record r { timeout_ms = ms; timeout = record (r.timeout) { total_ms = ms } }

unfoldable pub with_timeout : Timeout → Request → Request
with_timeout timeout r = record r {
  timeout = timeout;
  timeout_ms = if is_nonneg timeout.total_ms then timeout.total_ms else r.timeout_ms;
}

unfoldable pub insecure : Bool → Request → Request
insecure value r = record r { verify_peer = not value; verify_host = not value }

unfoldable pub no_proxy : Bool → Request → Request
no_proxy value r =
    if value
    then record r { disable_proxy = true; proxy = none; proxy_override = false }
    else record r { disable_proxy = false }

unfoldable pub with_proxy : Bytes → Request → Request
with_proxy proxy_url r = record r {
  proxy = some (record { url = proxy_url });
  disable_proxy = false;
  proxy_override = true;
}

unfoldable pub protocol : ProtocolPolicy → Request → Request
protocol policy r = record r { protocol_policy = policy }

unfoldable pub with_follow_redirects : Bool → Request → Request
with_follow_redirects value r = record r { follow_redirects = some value }

unfoldable pub with_max_redirects : ℤ → Request → Request
with_max_redirects value r = record r { max_redirects = value }

unfoldable pub retries : ℤ → ℤ → Request → Request
retries max_retries backoff_ms r = record r {
  max_retries = max_retries;
  retry_backoff_ms = backoff_ms;
}

unfoldable pub cookie_jar : Bool → Request → Request
cookie_jar value r = record r { use_cookie_jar = value }

unfoldable pub with_auto_decompress : Bool → Request → Request
with_auto_decompress value r = record r { auto_decompress = value }

unfoldable pub with_body_chunk : Option ℕ → Request → Request
with_body_chunk handler r = record r { on_body_chunk = handler }

unfoldable pub stream_response : Option ℕ → Bool → Request → Request
stream_response handler store_body r = record r {
  on_body_chunk = handler;
  store_response_body = store_body;
}

unfoldable pub store_response : Bool → Bool → Request → Request
store_response body headers r = record r {
  store_response_body = body;
  store_response_headers = headers;
}
