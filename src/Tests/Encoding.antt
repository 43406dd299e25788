-- ===== src/Tests/Encoding.antt =====
-- Encoders and decoders at concrete texts.
use http_client.Prelude.{ℕ, ◌≡◌, List, [], ◌∷◌, ◌++◌, some, codes, arith}
use http_client.Base64.{base64_encode}
use http_client.Base64.RoundTrip.{base64_decode, base64_decode-encode}
use http_client.Form.{FormField, form_urlencode, append_query_params, percent_decode, urlencode}
use http_client.Form.Decode.{form_decode, cut}
use http_client.Form.Fields.{form_decode-form_urlencode}
use http_client.Form.Query.{
  before_fragment, fragment, query_fields, append_query_params-query_fields,
}
use http_client.Form.RoundTrip.{percent_decode-urlencode}

base64_decode-encode_example :
    base64_decode (base64_encode (codes "Aladdin:open")) ≡ some (codes "Aladdin:open")
base64_decode-encode_example = base64_decode-encode (codes "Aladdin:open") (omega arith)

abbrev two_fields : List FormField
two_fields =
    record { name = codes "q"; value = codes "a b&c" }
    ∷ record { name = codes "lang"; value = 195 ∷ 188 ∷ [] }
    ∷ []

form_decode-form_urlencode_example : form_decode (form_urlencode two_fields) ≡ two_fields
form_decode-form_urlencode_example = form_decode-form_urlencode two_fields (omega arith)

abbrev one_field : FormField
one_field = record { name = codes "page"; value = codes "2" }

abbrev old_url : List ℕ
old_url = codes "http://a/x?k=v#top"

append_query_params-query_fields_example :
    (query_fields (before_fragment (append_query_params old_url (one_field ∷ two_fields)))
      ≡ query_fields (before_fragment old_url) ++ one_field ∷ two_fields)
    × ((cut b'?' (before_fragment (append_query_params old_url (one_field ∷ two_fields)))).0
        ≡ (cut b'?' (before_fragment old_url)).0)
    × (fragment (append_query_params old_url (one_field ∷ two_fields)) ≡ fragment old_url)
append_query_params-query_fields_example =
    append_query_params-query_fields old_url one_field two_fields (omega arith)

percent_decode-urlencode_example :
    percent_decode (urlencode (codes "p@ss:w/rd%")) ≡ codes "p@ss:w/rd%"
percent_decode-urlencode_example =
    percent_decode-urlencode (codes "p@ss:w/rd%") (omega arith) (omega arith)
