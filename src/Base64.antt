-- ===== src/Base64.antt =====
-- `base64_encode` and `basic_auth_value` of src/request.cpp; src/proxy_support.hpp has the same two
-- functions once more, letter for letter.
pub mod Masks
pub mod RoundTrip
use Prim.Native.Nat.{bit_and, bit_or}
use http_client.Prelude.{
  ℕ, ◌+◌, ◌*◌, ◌/◌, List, [], ◌∷◌, ◌++◌, Option, none, some, Bytes, codes, get_elem?,
}

abbrev alphabet : Bytes
alphabet = codes "ABCDEFGHIJKLMNOPQRSTUVWXYZabcdefghijklmnopqrstuvwxyz0123456789+/"

abbrev or_zero : Option ℕ → ℕ
or_zero none = 0
or_zero (some c) = c

-- `alphabet[i]`; every index that the encoder computes is below 64.
symbol : ℕ → ℕ
symbol i = or_zero (get_elem? alphabet i)

-- `((a & 0x03) << 4) | (b >> 4)`.
second : ℕ → ℕ → ℕ
second a b = bit_or (bit_and a 0x03 * 16) (b / 16)

-- `((b & 0x0F) << 2) | (c >> 6)`.
third : ℕ → ℕ → ℕ
third b c = bit_or (bit_and b 0x0f * 4) (c / 64)

-- The loop takes three bytes a round; what is left is one of the two padded endings.
unfoldable pub base64_encode : Bytes → Bytes
unfolding symbol second third
base64_encode [] = []
base64_encode (a ∷ []) = symbol (a / 4) ∷ symbol (bit_and a 0x03 * 16) ∷ b'=' ∷ b'=' ∷ []
base64_encode (a ∷ b ∷ []) =
    symbol (a / 4) ∷ symbol (second a b) ∷ symbol (bit_and b 0x0f * 4) ∷ b'=' ∷ []
base64_encode (a ∷ b ∷ c ∷ rest) =
    symbol (a / 4)
    ∷ symbol (second a b)
    ∷ symbol (third b c)
    ∷ symbol (bit_and c 0x3f)
    ∷ base64_encode rest

-- `"Basic " + base64_encode(username + ":" + password)`.
unfoldable pub basic_auth_value : Bytes → Bytes → Bytes
unfolding base64_encode
basic_auth_value username password = codes "Basic " ++ base64_encode (username ++ b':' ∷ password)
