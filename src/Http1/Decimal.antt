-- ===== src/Http1/Decimal.antt =====
-- Sizes in decimal: what is written is read back.
use http_client.Prelude.{
  ℕ, zero, suc, ◌+◌, ◌-◌, ◌*◌, ◌/◌, ◌%◌, ◌≡◌, ◌<◌, refl, ap, sym, ◌∙◌, inl, inr, true, false, [],
  ◌∷◌, ◌++◌, Bytes, ltb, arith, append_assoc, Bool-cases, All, All-append, if-both, ◌≢◌,
}
use http_client.Text.{Lacks, is_space, trim_front}
use http_client.Proxy.{is_digit}
use http_client.Http1.{digits, to_string, read_size, size_modulus}

-- The text does not go on with a digit.
abbrev pub EndsNumber : Bytes → Type 0
EndsNumber [] = Unit {0}
EndsNumber (c ∷ cs) = is_digit c ≡ false

digit-is_digit : (n : ℕ) → n < 10 → is_digit (b'0' + n) ≡ true
unfolding is_digit
digit-is_digit n h = ground arith

read_size-digit :
    (len n : ℕ) (rest : Bytes)
    → n < 10
    → len * 10 + n < size_modulus
    → read_size len ((b'0' + n) ∷ rest) ≡ read_size (len * 10 + n) rest
unfolding read_size
read_size-digit len n rest h fits =
    let e : (len * 10 + (b'0' + n - b'0')) % size_modulus ≡ len * 10 + n = omega arith in
    rw (digit-is_digit n h, e) refl

read_size-digits :
    (f n : ℕ) (rest : Bytes)
    → n < f
    → n < size_modulus
    → read_size 0 (digits f n ++ rest) ≡ read_size n rest
unfolding digits
read_size-digits zero n rest h fits = absurd (omega arith)
read_size-digits (suc f) n rest h fits = elim (Bool-cases (ltb n 10)) [
  | inl e ↦ rw e (
      read_size-digit 0 n rest (ground arith) (omega arith)
      ∙ ap (λ (x : ℕ). read_size x rest) (omega arith))
  | inr e ↦
      let big : 9 < n = ground arith in
      let last = (b'0' + n % 10) ∷ [] in
      rw e (
        ap (read_size 0) (append_assoc (digits f (n / 10)) last rest)
        ∙ read_size-digits f (n / 10) ((b'0' + n % 10) ∷ rest) (omega arith) (omega arith)
        ∙ read_size-digit (n / 10) (n % 10) rest (omega arith) (omega arith)
        ∙ ap (λ (x : ℕ). read_size x rest) (omega arith))
]

read_size-EndsNumber : (n : ℕ) (rest : Bytes) → EndsNumber rest → read_size n rest ≡ n
unfolding read_size
read_size-EndsNumber n [] h = refl
read_size-EndsNumber n (c ∷ cs) h = rw h refl

-- A size that fits the machine's is read back, up to the first byte that is no digit.
pub read_size-to_string :
    (n : ℕ) (rest : Bytes)
    → n < size_modulus
    → EndsNumber rest
    → read_size 0 (to_string n ++ rest) ≡ n
unfolding to_string
read_size-to_string n rest h e =
    read_size-digits (suc n) n rest (omega arith) h ∙ read_size-EndsNumber n rest e

digit-trim : (n : ℕ) (rest : Bytes) → trim_front ((b'0' + n) ∷ rest) ≡ (b'0' + n) ∷ rest
unfolding trim_front is_space
digit-trim n rest = ground arith

-- A number starts with no white space, so that trimming stops there.
digits-trim :
    (f n : ℕ) (rest : Bytes) → n < f → trim_front (digits f n ++ rest) ≡ digits f n ++ rest
unfolding digits
digits-trim zero n rest h = absurd (omega arith)
digits-trim (suc f) n rest h = elim (Bool-cases (ltb n 10)) [
  | inl e ↦ rw e (digit-trim n rest)
  | inr e ↦
      let big : 9 < n = ground arith in
      let last = (b'0' + n % 10) ∷ [] in
      rw e (
        ap trim_front (append_assoc (digits f (n / 10)) last rest)
        ∙ digits-trim f (n / 10) (last ++ rest) (omega arith)
        ∙ sym (append_assoc (digits f (n / 10)) last rest))
]

pub to_string-trim : (n : ℕ) (rest : Bytes) → trim_front (to_string n ++ rest) ≡ to_string n ++ rest
unfolding to_string
to_string-trim n rest = digits-trim (suc n) n rest (omega arith)

pub trim_front-spaces :
    (pad t : Bytes) → All (λ c. is_space c ≡ true) pad → trim_front (pad ++ t) ≡ trim_front t
unfolding trim_front
trim_front-spaces [] t h = refl
trim_front-spaces (c ∷ pad) t (hc, h) = rw hc (trim_front-spaces pad t h)

digits-Lacks : (f n : ℕ) → Lacks 13 (digits f n)
unfolding digits
digits-Lacks zero n = tt
digits-Lacks (suc f) n =
    if-both (Lacks 13) (ltb n 10) ((b'0' + n) ∷ []) (digits f (n / 10) ++ (b'0' + n % 10) ∷ [])
      (λ _. (λ e. omega arith, tt))
      (λ _.
        All-append (λ b. b ≢ 13) (digits f (n / 10)) ((b'0' + n % 10) ∷ [])
          (digits-Lacks f (n / 10)) (λ e. omega arith, tt))

pub to_string-Lacks : (n : ℕ) → Lacks 13 (to_string n)
unfolding to_string
to_string-Lacks n = digits-Lacks (suc n) n
