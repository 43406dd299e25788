-- ===== src/Form.antt =====
-- The percent encodings: `append_urlencoded`, `form_urlencode` and `append_query_params` of
-- src/request.cpp, and `percent_decode` of src/proxy_support.hpp.
pub mod Decode
pub mod RoundTrip
pub mod Fields
pub mod Query
use Prim.Native.Nat.{bit_and, bit_or}
use http_client.Prelude.{
  ℕ, ◌+◌, ◌-◌, ◌*◌, ◌/◌, Bool, ◌&&◌, ◌||◌, List, [], ◌∷◌, ◌++◌, Option, none, some, Bytes, codes,
  get_elem?, take, drop, leb, ◌==◌, if◌then◌else◌,
}
use http_client.Text.{find}

-- `is_unreserved`; `isalnum` is that of the "C" locale.
unfoldable pub is_unreserved : ℕ → Bool
is_unreserved c =
    (leb b'a' c && leb c b'z')
    || (leb b'A' c && leb c b'Z')
    || (leb b'0' c && leb c b'9')
    || c == b'-'
    || c == b'_'
    || c == b'.'
    || c == b'~'

abbrev or_zero : Option ℕ → ℕ
or_zero none = 0
or_zero (some c) = c

-- `hex[i]` for `i` below 16.
unfoldable pub hex_digit : ℕ → ℕ
hex_digit i = or_zero (get_elem? (codes "0123456789ABCDEF") i)

-- What one round of `append_urlencoded` appends.
unfoldable pub urlencode_byte : ℕ → Bytes
urlencode_byte c =
    if is_unreserved c
    then c ∷ []
    else if c == 32
    then b'+' ∷ []
    else b'%' ∷ hex_digit (c / 16) ∷ hex_digit (bit_and c 0x0f) ∷ []

-- `append_urlencoded(out, value)`, for an `out` that is empty: the loop only appends.
unfoldable pub urlencode : Bytes → Bytes
urlencode [] = []
urlencode (c ∷ value) = urlencode_byte c ++ urlencode value

pub record FormField : Type 0 where
  pub name : Bytes
  pub value : Bytes

-- `name=value`, both encoded.
unfoldable pub encode_field : FormField → Bytes
encode_field f = urlencode f.name ++ b'=' ∷ urlencode f.value

-- The rounds of the loop after the first, each with its `&`.
unfoldable pub encode_rest : List FormField → Bytes
encode_rest [] = []
encode_rest (f ∷ fields) = b'&' ∷ encode_field f ++ encode_rest fields

unfoldable pub form_urlencode : List FormField → Bytes
unfolding encode_rest
form_urlencode [] = []
form_urlencode (f ∷ fields) = encode_field f ++ encode_rest fields

-- `?` for the first parameters of a url, `&` behind others.
separator : Bytes → ℕ
separator url = elim (find b'?' url) [ none ↦ b'?' | some i ↦ b'&' ]

-- What is appended to a url that has no fragment.
with_params : Bytes → List FormField → Bytes
unfolding separator
with_params url params = url ++ separator url ∷ form_urlencode params

-- A fragment, from its `#` on, is cut off first and put back at the end.
unfoldable pub append_query_params : Bytes → List FormField → Bytes
unfolding with_params
append_query_params url [] = url
append_query_params url (p ∷ params) = elim (find b'#' url) [
  | none ↦ with_params url (p ∷ params)
  | some i ↦ with_params (take i url) (p ∷ params) ++ drop i url
]

-- `hex_value`, with `none` for -1.
unfoldable pub hex_value : ℕ → Option ℕ
hex_value c =
    if leb b'0' c && leb c b'9'
    then some (c - b'0')
    else if leb b'a' c && leb c b'f'
    then some (10 + c - b'a')
    else if leb b'A' c && leb c b'F'
    then some (10 + c - b'A')
    else none

-- `(hi << 4) | lo` where both digits are valid.
abbrev hex_pair : Option ℕ → Option ℕ → Option ℕ
hex_pair none lo = none
hex_pair (some hi) none = none
hex_pair (some hi) (some lo) = some (bit_or (hi * 16) lo)

-- The byte that `%` with the two characters stands for, or `none` where the test fails.
unfoldable pub escape_value : ℕ → ℕ → ℕ → Option ℕ
unfolding hex_value
escape_value c h l = if c == b'%' then hex_pair (hex_value h) (hex_value l) else none

-- An escape needs two characters behind the `%`; anything else is copied.
unfoldable pub percent_decode : Bytes → Bytes
percent_decode [] = []
percent_decode (c ∷ []) = c ∷ []
percent_decode (c ∷ h ∷ []) = c ∷ h ∷ []
percent_decode (c ∷ h ∷ l ∷ rest) = elim (escape_value c h l) [
  | some b ↦ b ∷ percent_decode rest
  | none ↦ c ∷ percent_decode (h ∷ l ∷ rest)
]
