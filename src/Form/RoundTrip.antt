-- ===== src/Form/RoundTrip.antt =====
-- What the percent encoders write is read back by the decoders.
use Prim.Native.Nat.{bit_and}
use http_client.Prelude.{
  not, ltb, all_below, all_below_sound, and_true, ℕ, ◌/◌, ◌<◌, ◌≡◌, ◌≢◌, refl, ap, ◌∙◌, inl, inr,
  Bool, true, false, ◌&&◌, [], ◌∷◌, ◌++◌, Option, none, some, Bytes, ◌==◌, arith, All, All-append,
  ==_iff, Bool-cases, ==_ne,
}
use http_client.Text.{Lacks}
use http_client.Form.{
  is_unreserved, urlencode_byte, urlencode, hex_digit, escape_value, percent_decode,
}
use http_client.Form.Decode.{plus_to_space}
use http_client.Base64.RoundTrip.{IsByte}

is_escape : ℕ → Bool
is_escape c = elim (escape_value b'%' (hex_digit (c / 16)) (hex_digit (bit_and c 0x0f))) [
  | none ↦ false
  | some d ↦ d == c
]

escape_table : all_below 256 is_escape ≡ true
unfolding all_below is_escape escape_value hex_digit
escape_table = refl

escape_sound :
    (o : Option ℕ) (c : ℕ) → elim o [ none ↦ false | some d ↦ d == c ] ≡ true → o ≡ some c
escape_sound none c h = cc
escape_sound (some d) c h = ground arith

escape_back :
    (c : ℕ) → c < 256 → escape_value b'%' (hex_digit (c / 16)) (hex_digit (bit_and c 0x0f)) ≡ some c
unfolding is_escape
escape_back c h = escape_sound _ c (all_below_sound 256 is_escape c escape_table h)

-- An escape is decoded, whatever follows.
percent_decode_escape :
    (c : ℕ) (s : Bytes)
    → c < 256
    → percent_decode (b'%' ∷ hex_digit (c / 16) ∷ hex_digit (bit_and c 0x0f) ∷ s)
      ≡ c ∷ percent_decode s
unfolding percent_decode
percent_decode_escape c s h = rw (percent_decode, escape_back c h)

escape_value_ne : (c h l : ℕ) → c ≢ b'%' → escape_value c h l ≡ none
unfolding escape_value
escape_value_ne c h l e = rw (==_ne c b'%' e)

-- Any other byte is copied.
percent_decode_copy : (c : ℕ) (s : Bytes) → c ≢ b'%' → percent_decode (c ∷ s) ≡ c ∷ percent_decode s
unfolding percent_decode
percent_decode_copy c [] h = refl
percent_decode_copy c (x ∷ []) h = refl
percent_decode_copy c (x ∷ y ∷ s) h = rw (percent_decode, escape_value_ne c x y h)

-- The bytes that the encoder writes.
abbrev pub IsPlain : ℕ → Type 0
IsPlain c =
    (c < 128)
    × (c ≢ b'&')
    × (c ≢ b'=')
    × (c ≢ b'#')
    × (c ≢ b'?')
    × (c ≢ b':')
    × (c ≢ b'@')
    × (c ≢ b'/')

unreserved-IsPlain : (c : ℕ) → is_unreserved c ≡ true → IsPlain c × (c ≢ b'%') × (c ≢ b'+')
unfolding is_unreserved
unreserved-IsPlain c h = ground arith

abbrev is_plain : ℕ → Bool
is_plain c =
    ltb c 128
    && (not (c == b'&')
        && (not (c == b'=')
            && (not (c == b'#')
                && (not (c == b'?')
                    && (not (c == b':')
                        && (not (c == b'@') && (not (c == b'/') && not (c == b'+'))))))))

is_plain_sound : (c : ℕ) → is_plain c ≡ true → IsPlain c × (c ≢ b'+')
is_plain_sound c h = ground arith

hex_table :
    all_below 256 (λ c. is_plain (hex_digit (c / 16)) && is_plain (hex_digit (bit_and c 0x0f)))
    ≡ true
unfolding all_below hex_digit
hex_table = refl

hex-IsPlain :
    (c : ℕ)
    → c < 256
    → (IsPlain (hex_digit (c / 16)) × (hex_digit (c / 16) ≢ b'+'))
      × (IsPlain (hex_digit (bit_and c 0x0f)) × (hex_digit (bit_and c 0x0f) ≢ b'+'))
hex-IsPlain c h =
    let both = and_true _ _ (all_below_sound 256 _ c hex_table h) in
    (is_plain_sound _ both.0, is_plain_sound _ both.1)

-- The three forms of an encoded byte.
data Encoding (c : ℕ) : Bytes → Type 0 where
  copied : IsPlain c → c ≢ b'%' → c ≢ b'+' → Encoding c (c ∷ [])
  space : c ≡ 32 → Encoding c (b'+' ∷ [])
  escaped :
      c < 256 → c ≢ 32 → Encoding c (b'%' ∷ hex_digit (c / 16) ∷ hex_digit (bit_and c 0x0f) ∷ [])

urlencode_byte-Encoding : (c : ℕ) → c < 256 → Encoding c (urlencode_byte c)
unfolding urlencode_byte
urlencode_byte-Encoding c h = elim (Bool-cases (is_unreserved c)) [
  | inl e ↦ let (p, k, l) = unreserved-IsPlain c e in rw e (copied p k l)
  | inr e ↦ rw e (elim (Bool-cases (c == 32)) [
    | inl q ↦ rw q (space ((==_iff c 32).0 q))
    | inr q ↦ rw q (escaped h (λ z. ground arith))
  ])
]

Encoding-IsPlain : {c : ℕ} {s : Bytes} → Encoding c s → All IsPlain s
Encoding-IsPlain (copied p a b) = (p, tt)
Encoding-IsPlain (space e) = omega arith
Encoding-IsPlain {c} (escaped h n) = let p = hex-IsPlain c h in (omega arith, (p.0.0, (p.1.0, tt)))

-- The encoder writes only ASCII and none of `&`, `=`, `#`, `?`, `:`, `@` and `/`.
pub urlencode-IsPlain : (v : Bytes) → All IsByte v → All IsPlain (urlencode v)
unfolding urlencode
urlencode-IsPlain [] h = tt
urlencode-IsPlain (c ∷ v) h =
    All-append IsPlain (urlencode_byte c) (urlencode v)
      (Encoding-IsPlain (urlencode_byte-Encoding c h.0)) (urlencode-IsPlain v h.1)

Encoding-percent_decode :
    {c : ℕ} {s : Bytes}
    → Encoding c s
    → c ≢ 32
    → (rest : Bytes) → percent_decode (s ++ rest) ≡ c ∷ percent_decode rest
Encoding-percent_decode {c} (copied p a b) n rest = percent_decode_copy c rest a
Encoding-percent_decode (space e) n rest = absurd (n e)
Encoding-percent_decode {c} (escaped h e) n rest = percent_decode_escape c rest h

-- The proxy's `percent_decode` undoes the request's encoder on texts without a space.
pub percent_decode-urlencode :
    (v : Bytes) → All IsByte v → Lacks 32 v → percent_decode (urlencode v) ≡ v
unfolding urlencode
percent_decode-urlencode [] h n = unfold percent_decode in refl
percent_decode-urlencode (c ∷ v) h n =
    Encoding-percent_decode (urlencode_byte-Encoding c h.0) n.0 (urlencode v)
    ∙ ap (◌∷◌ c) (percent_decode-urlencode v h.1 n.1)

Encoding-read :
    {c : ℕ} {s : Bytes}
    → Encoding c s
    → (rest : Bytes)
    → percent_decode (plus_to_space (s ++ rest)) ≡ c ∷ percent_decode (plus_to_space rest)
unfolding plus_to_space
Encoding-read {c} (copied p a b) rest =
    rw (==_ne c b'+' b) (percent_decode_copy c (plus_to_space rest) a)
Encoding-read {c} (space e) rest = rw e (percent_decode_copy 32 (plus_to_space rest) (omega arith))
Encoding-read {c} (escaped h e) rest =
    let p = hex-IsPlain c h in
    rw (==_ne _ b'+' p.0.1, ==_ne _ b'+' p.1.1) (percent_decode_escape c (plus_to_space rest) h)

pub read_urlencode : (v : Bytes) → All IsByte v → percent_decode (plus_to_space (urlencode v)) ≡ v
unfolding urlencode
read_urlencode [] h = unfold percent_decode plus_to_space in refl
read_urlencode (c ∷ v) h =
    Encoding-read (urlencode_byte-Encoding c h.0) (urlencode v) ∙ ap (◌∷◌ c) (read_urlencode v h.1)
