-- ===== src/Base64/RoundTrip.antt =====
-- A decoder of RFC 4648, and the encoder of src/request.cpp against it.
use Prim.Native.Nat.{bit_and}
use http_client.Prelude.{
  all_below, all_below_sound, and_true, ℕ, ◌+◌, ◌*◌, ◌/◌, ◌%◌, ◌-◌, ◌<◌, ◌≡◌, refl, ap, Bool, true,
  false, ◌&&◌, [], ◌∷◌, ◌++◌, Option, none, some, Bytes, length, drop, All, ◌==◌, if◌then◌else◌,
  arith, leb,
}
use http_client.Base64.Masks.{mask_03, mask_0f, mask_3f, or_16, or_4}
use http_client.Base64.{symbol, second, third, base64_encode, basic_auth_value}

abbrev pub IsByte : ℕ → Type 0
IsByte c = c < 256

-- The six bits that a symbol stands for.
value : ℕ → Option ℕ
value c =
    if leb b'A' c && leb c b'Z'
    then some (c - b'A')
    else if leb b'a' c && leb c b'z'
    then some (c - b'a' + 26)
    else if leb b'0' c && leb c b'9'
    then some (c - b'0' + 52)
    else if c == b'+'
    then some 62
    else if c == b'/'
    then some 63
    else none

infixl 5 ◌>>=◌
abbrev ◌>>=◌ {ℓ κ} : {A : Type ℓ} {B : Type κ} → Option A → (A → Option B) → Option B
none >>= f = none
some a >>= f = f a

-- One padded group, which must be the last.
last_group : ℕ → ℕ → ℕ → Option Bytes
last_group w x y =
    if y == b'=' then (do p ← value w; q ← value x; some ((p * 4 + q / 16) ∷ [])) else (do
      p ← value w
      q ← value x
      r ← value y
      some ((p * 4 + q / 16) ∷ (q % 16 * 16 + r / 4) ∷ []))

-- A full group of three bytes.
full_group : ℕ → ℕ → ℕ → ℕ → Option (ℕ × ℕ × ℕ)
full_group w x y z = do
  p ← value w
  q ← value x
  r ← value y
  s ← value z
  some (p * 4 + q / 16, q % 16 * 16 + r / 4, r % 4 * 64 + s)

abbrev prepend : Option (ℕ × ℕ × ℕ) → Option Bytes → Option Bytes
prepend none o = none
prepend (some g) none = none
prepend (some (a, b, c)) (some bytes) = some (a ∷ b ∷ c ∷ bytes)

unfoldable pub base64_decode : Bytes → Option Bytes
unfolding last_group full_group value
base64_decode [] = some []
base64_decode (w ∷ []) = none
base64_decode (w ∷ x ∷ []) = none
base64_decode (w ∷ x ∷ y ∷ []) = none
base64_decode (w ∷ x ∷ y ∷ z ∷ []) =
    if z == b'=' then last_group w x y else prepend (full_group w x y z) (some [])
base64_decode (w ∷ x ∷ y ∷ z ∷ t ∷ rest) = prepend (full_group w x y z) (base64_decode (t ∷ rest))

abbrev is_value : Option ℕ → ℕ → Bool
is_value none i = false
is_value (some j) i = j == i

is_value_sound : (o : Option ℕ) (i : ℕ) → is_value o i ≡ true → o ≡ some i
is_value_sound none i h = cc
is_value_sound (some j) i h = ground arith

symbol_table :
    all_below 64 (λ i. is_value (value (symbol i)) i && (if symbol i == b'=' then false else true))
    ≡ true
unfolding all_below symbol value
symbol_table = refl

value-symbol : (i : ℕ) → i < 64 → value (symbol i) ≡ some i
value-symbol i h = is_value_sound _ i (and_true _ _ (all_below_sound 64 _ i symbol_table h)).0

not_pad : (c : ℕ) → (if c == b'=' then false else true) ≡ true → (c == b'=') ≡ false
not_pad c h = ground arith

symbol_not_pad : (i : ℕ) → i < 64 → (symbol i == b'=') ≡ false
symbol_not_pad i h = not_pad (symbol i) (and_true _ _ (all_below_sound 64 _ i symbol_table h)).1

second_lem : (a b : ℕ) → a < 256 → b < 256 → second a b ≡ a % 4 * 16 + b / 16
unfolding second
second_lem a b ha hb = rw (mask_03 a ha) (or_16 (a % 4) (b / 16) (omega arith) (omega arith))

third_lem : (b c : ℕ) → b < 256 → c < 256 → third b c ≡ b % 16 * 4 + c / 64
unfolding third
third_lem b c hb hc = rw (mask_0f b hb) (or_4 (b % 16) (c / 64) (omega arith) (omega arith))

some_triple :
    {a b c a' b' c' : ℕ}
    → a ≡ a'
    → b ≡ b'
    → c ≡ c'
    → ◌≡◌ {A = Option (ℕ × ℕ × ℕ)} (some (a, b, c)) (some (a', b', c'))
some_triple p q r = cc

full_group_encode :
    (a b c : ℕ)
    → a < 256
    → b < 256
    → c < 256
    → full_group
        (symbol (a / 4))
        (symbol (second a b))
        (symbol (third b c))
        (symbol (bit_and c 0x3f))
      ≡ some (a, b, c)
unfolding full_group
full_group_encode a b c ha hb hc =
    rw
      (
        second_lem a b ha hb,
        third_lem b c hb hc,
        mask_3f c hc,
        value-symbol (a / 4) (omega arith),
        value-symbol (a % 4 * 16 + b / 16) (omega arith),
        value-symbol (b % 16 * 4 + c / 64) (omega arith),
        value-symbol (c % 64) (omega arith),
      )
      (some_triple (omega arith) (omega arith) (omega arith))

-- The two padded endings.
last_group_one :
    (a : ℕ)
    → a < 256
    → last_group (symbol (a / 4)) (symbol (bit_and a 0x03 * 16)) b'=' ≡ some (a ∷ [])
unfolding last_group
last_group_one a h =
    rw (mask_03 a h, value-symbol (a / 4) (omega arith), value-symbol (a % 4 * 16) (omega arith))
      (ap (λ (n : ℕ). some (n ∷ [])) (omega arith))

some_pair :
    {a b a' b' : ℕ}
    → a ≡ a'
    → b ≡ b'
    → ◌≡◌ {A = Option Bytes} (some (a ∷ b ∷ [])) (some (a' ∷ b' ∷ []))
some_pair p q = cc

last_group_two :
    (a b : ℕ)
    → a < 256
    → b < 256
    → last_group (symbol (a / 4)) (symbol (second a b)) (symbol (bit_and b 0x0f * 4))
      ≡ some (a ∷ b ∷ [])
unfolding last_group
last_group_two a b ha hb =
    rw
      (
        second_lem a b ha hb,
        mask_0f b hb,
        symbol_not_pad (b % 16 * 4) (omega arith),
        value-symbol (a / 4) (omega arith),
        value-symbol (a % 4 * 16 + b / 16) (omega arith),
        value-symbol (b % 16 * 4) (omega arith),
      )
      (some_pair (omega arith) (omega arith))

symbol_3f_not_pad : (c : ℕ) → c < 256 → (symbol (bit_and c 0x3f) == b'=') ≡ false
symbol_3f_not_pad c h = rw (mask_3f c h) (symbol_not_pad (c % 64) (omega arith))

decode_full :
    (w x y z : ℕ) (rest : Bytes)
    → (z == b'=') ≡ false
    → base64_decode (w ∷ x ∷ y ∷ z ∷ rest) ≡ prepend (full_group w x y z) (base64_decode rest)
unfolding base64_decode
decode_full w x y z [] h = rw h
decode_full w x y z (t ∷ rest) h = refl

decode_round :
    (w x y z a b c : ℕ) (rest v : Bytes)
    → (z == b'=') ≡ false
    → full_group w x y z ≡ some (a, b, c)
    → base64_decode rest ≡ some v
    → base64_decode (w ∷ x ∷ y ∷ z ∷ rest) ≡ some (a ∷ b ∷ c ∷ v)
decode_round w x y z a b c rest v h p q = rw (decode_full w x y z rest h, p, q)

-- Decoding what was encoded gives the bytes back, for every text of bytes and each length mod 3.
pub base64_decode-encode : (v : Bytes) → All IsByte v → base64_decode (base64_encode v) ≡ some v
unfolding base64_encode base64_decode
base64_decode-encode [] h = refl
base64_decode-encode (a ∷ []) h = last_group_one a h.0
base64_decode-encode (a ∷ b ∷ []) h = last_group_two a b h.0 h.1.0
base64_decode-encode (a ∷ b ∷ c ∷ rest) h =
    decode_round (symbol (a / 4)) (symbol (second a b)) (symbol (third b c))
      (symbol (bit_and c 0x3f)) a b c (base64_encode rest) rest (symbol_3f_not_pad c h.1.1.0)
      (full_group_encode a b c h.0 h.1.0 h.1.1.0) (base64_decode-encode rest h.1.1.1)

-- The encoded text has four symbols for every three bytes begun, the amount the code reserves.
pub length-base64_encode : (v : Bytes) → length (base64_encode v) ≡ (length v + 2) / 3 * 4
unfolding base64_encode
length-base64_encode [] = refl
length-base64_encode (a ∷ []) = refl
length-base64_encode (a ∷ b ∷ []) = refl
length-base64_encode (a ∷ b ∷ c ∷ rest) = omega (arith, length-base64_encode rest)

-- The value of an `Authorization` header gives the credentials back.
pub basic_auth_value-decode :
    (username password : Bytes)
    → All IsByte (username ++ b':' ∷ password)
    → (drop 6 (basic_auth_value username password) ≡ base64_encode (username ++ b':' ∷ password))
      × (base64_decode (drop 6 (basic_auth_value username password))
          ≡ some (username ++ b':' ∷ password))
unfolding basic_auth_value
basic_auth_value-decode username password h =
    (refl, base64_decode-encode (username ++ b':' ∷ password) h)
