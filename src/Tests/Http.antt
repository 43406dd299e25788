-- ===== src/Tests/Http.antt =====
-- Headers, requests and urls at concrete values.
use http_client.Prelude.{◌≡◌, refl, false, List, [], ◌∷◌, ◌++◌, none, some, Bytes, codes, ok, arith}
use http_client.Text.{
  trim_back, is_space, trim_front, bytes_eq, find, rfind, find_text, starts_with,
}
use http_client.Headers.{header_name_equal, lower_copy, trim_copy}
use http_client.Headers.Laws.{header_name_equal-lower_copy}
use http_client.Request.{Request, default_request}
use http_client.Url.{
  ParsedUrl, parse_url, origin_of, resolve_redirect_url, scheme_mark, url_of, authority_of, path_of,
  default_port,
}
use http_client.Url.Parse.{IsSeparated}
use http_client.Url.Redirect.{redirect_path, parse_url-origin_of, resolve_redirect_url-origin}

abbrev lines : List Bytes
lines = codes "accept: */*" ∷ codes "X-Id: 1" ∷ codes "Accept: text/html" ∷ []

abbrev request : Request
request = record default_request { headers = lines; shared_body = some (codes "text") }

header_name_equal-lower_copy_example :
    header_name_equal (codes "ACCEPT") (codes "Accept")
    ≡ bytes_eq (lower_copy (codes "ACCEPT")) (lower_copy (codes "Accept"))
header_name_equal-lower_copy_example =
    header_name_equal-lower_copy (codes "ACCEPT") (codes "Accept")

abbrev parsed : ParsedUrl
parsed = record {
  scheme = codes "https";
  host = codes "a.org";
  port = codes "443";
  path = codes "/x/y?k=v";
}

parse_parsed : parse_url (codes "https://a.org/x/y?k=v") ≡ ok parsed
unfolding parse_url url_of authority_of path_of find find_text rfind starts_with default_port
parse_parsed = refl

parsed-IsSeparated : IsSeparated parsed
parsed-IsSeparated = (omega arith, omega arith, omega arith, (codes "x/y?k=v", refl))

parse_url-origin_of_example :
    parse_url (origin_of parsed ++ b'/' ∷ codes "z")
    ≡ ok (record parsed { path = b'/' ∷ codes "z" })
parse_url-origin_of_example =
    parse_url-origin_of parsed (codes "z") parsed-IsSeparated (omega arith) (omega arith)

no_mark : find_text scheme_mark (trim_copy (codes "z?k=w")) ≡ none
unfolding find_text starts_with trim_copy trim_back trim_front is_space
no_mark = refl

not_network : starts_with (codes "//") (trim_copy (codes "z?k=w")) ≡ false
unfolding starts_with trim_copy trim_back trim_front is_space
not_network = refl

resolve_redirect_url-origin_example :
    (url : Bytes) × (resolve_redirect_url (codes "https://a.org/x/y?k=v") (codes "z?k=w") ≡ ok url)
    × (parse_url url
        ≡ ok (record parsed { path = redirect_path parsed (trim_copy (codes "z?k=w")) }))
resolve_redirect_url-origin_example =
    resolve_redirect_url-origin (codes "https://a.org/x/y?k=v") (codes "z?k=w") parsed parse_parsed
      (omega arith) (omega arith) no_mark not_network
