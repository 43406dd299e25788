-- ===== src/Base64/Masks.antt =====
-- The masks and shifts of `base64_encode` as remainders and products, on bytes.
use Prim.Native.Nat.{bit_and, bit_or}
use http_client.Prelude.{
  all_below, all_below_sound, and_true, ℕ, ◌+◌, ◌*◌, ◌%◌, ◌<◌, ◌≡◌, refl, true, ◌&&◌, ◌==◌, ==_iff,
}

mask_table :
    all_below 256
      (λ x. bit_and x 0x03 == x % 4 && (bit_and x 0x0f == x % 16 && bit_and x 0x3f == x % 64))
    ≡ true
unfolding all_below
mask_table = refl

pub mask_03 : (x : ℕ) → x < 256 → bit_and x 0x03 ≡ x % 4
mask_03 x h = (==_iff _ _).0 (and_true _ _ (all_below_sound 256 _ x mask_table h)).0

pub mask_0f : (x : ℕ) → x < 256 → bit_and x 0x0f ≡ x % 16
mask_0f x h =
    (==_iff _ _).0 (and_true _ _ (and_true _ _ (all_below_sound 256 _ x mask_table h)).1).0

pub mask_3f : (x : ℕ) → x < 256 → bit_and x 0x3f ≡ x % 64
mask_3f x h =
    (==_iff _ _).0 (and_true _ _ (and_true _ _ (all_below_sound 256 _ x mask_table h)).1).1

-- Two fields in six bits: the high one and the low one do not meet.
or_table_16 : all_below 4 (λ a. all_below 16 (λ b. bit_or (a * 16) b == a * 16 + b)) ≡ true
unfolding all_below
or_table_16 = refl

or_table_4 : all_below 16 (λ a. all_below 4 (λ b. bit_or (a * 4) b == a * 4 + b)) ≡ true
unfolding all_below
or_table_4 = refl

pub or_16 : (a b : ℕ) → a < 4 → b < 16 → bit_or (a * 16) b ≡ a * 16 + b
or_16 a b ha hb = (==_iff _ _).0 (all_below_sound 16 _ b (all_below_sound 4 _ a or_table_16 ha) hb)

pub or_4 : (a b : ℕ) → a < 16 → b < 4 → bit_or (a * 4) b ≡ a * 4 + b
or_4 a b ha hb = (==_iff _ _).0 (all_below_sound 4 _ b (all_below_sound 16 _ a or_table_4 ha) hb)
