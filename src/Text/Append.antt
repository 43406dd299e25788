-- ===== src/Text/Append.antt =====
-- Texts that come in pieces: a search finds no less when more follows.
use http_client.Prelude.{
  ℕ, zero, suc, ◌+◌, ◌-◌, ◌≡◌, ◌≤◌, refl, sym, ap, ◌∙◌, inl, inr, true, List, [], ◌∷◌, ◌++◌, some,
  Bytes, take, drop, length, arith, append_assoc, append-nil, Option-cases, Bool-cases,
}
use http_client.Text.Defs.{find_text, starts_with}

-- All that was read, in one text.
abbrev pub joined : List Bytes → Bytes
joined [] = []
joined (chunk ∷ chunks) = chunk ++ joined chunks

pub starts_with-append : (p s t : Bytes) → starts_with p s ≡ true → starts_with p (s ++ t) ≡ true
unfolding starts_with
starts_with-append [] s t h = refl
starts_with-append (x ∷ p) [] t h = cc
starts_with-append (x ∷ p) (y ∷ s) t h = ground (arith, starts_with-append p s t)

pub length-starts_with : (p s : Bytes) → starts_with p s ≡ true → length p ≤ length s
unfolding starts_with
length-starts_with [] s h = omega arith
length-starts_with (x ∷ p) [] h = cc
length-starts_with (x ∷ p) (y ∷ s) h = ground (arith, length-starts_with p s)

pub starts_with_short :
    (p s t : Bytes) → length p ≤ length s → starts_with p (s ++ t) ≡ true → starts_with p s ≡ true
unfolding starts_with
starts_with_short [] s t n h = refl
starts_with_short (x ∷ p) [] t n h = absurd (omega arith)
starts_with_short (x ∷ p) (y ∷ s) t n h = ground (arith, starts_with_short p s t)

pub find_text-length : (p s : Bytes) (i : ℕ) → find_text p s ≡ some i → length p + i ≤ length s
unfolding find_text
find_text-length p [] i h = ground (arith, length-starts_with p [])
find_text-length p (x ∷ s) zero h = ground (arith, length-starts_with p (x ∷ s))
find_text-length p (x ∷ s) (suc i) h = elim (Option-cases (find_text p s)) [
  | inl e ↦ ground (arith, e)
  | inr (j, e) ↦ ground (arith, e, find_text-length p s j e)
]

-- What is found is found again when more follows.
pub find_text-append :
    (p s t : Bytes) (i : ℕ) → find_text p s ≡ some i → find_text p (s ++ t) ≡ some i
unfolding find_text starts_with
find_text-append [] [] [] i h = h
find_text-append [] [] (y ∷ t) i h = h
find_text-append (z ∷ p) [] t i h = unfold starts_with in cc
find_text-append p (x ∷ s) t i h = elim (Bool-cases (starts_with p (x ∷ s))) [
  | inl e ↦ ground (arith, e, starts_with-append p (x ∷ s) t e)
  | inr e ↦ elim (Option-cases (find_text p s)) [
    | inl g ↦ ground (arith, e, g)
    | inr (j, g) ↦ ground (
      arith,
      e,
      g,
      find_text-append p s t j g,
      find_text-length p s j g,
      starts_with_short p (x ∷ s) t,
    )
  ]
]

pub take-append_le {ℓ} :
    {A : Type ℓ} (n : ℕ) (s t : List A) → n ≤ length s → take n (s ++ t) ≡ take n s
take-append_le zero s t h = refl
take-append_le (suc n) [] t h = absurd (omega arith)
take-append_le (suc n) (x ∷ s) t h = rw (take-append_le n s t (omega arith)) refl

-- A search that succeeds where what is found lies in the first part, succeeds in that part.
pub find_text_within :
    (p s t : Bytes) (i : ℕ)
    → find_text p (s ++ t) ≡ some i
    → length p + i ≤ length s
    → find_text p s ≡ some i
unfolding find_text starts_with
find_text_within [] [] [] i h n = ground arith
find_text_within [] [] (y ∷ t) i h n = ground arith
find_text_within (z ∷ p) [] t i h n = absurd (omega arith)
find_text_within p (x ∷ s) t i h n = elim (Bool-cases (starts_with p (x ∷ (s ++ t)))) [
  | inl e ↦
      let zero_at : zero ≡ i = ground (arith, e) in
      rw (starts_with_short p (x ∷ s) t (omega arith) e) (ap some zero_at)
  | inr e ↦ elim (Option-cases (find_text p (s ++ t))) [
    | inl g ↦ ground (arith, e, g)
    | inr (j, g) ↦ ground (arith, e, g, starts_with-append p (x ∷ s) t, find_text_within p s t j g)
  ]
]

pub joined-append : (cs : List Bytes) (c : Bytes) → joined (cs ++ c ∷ []) ≡ joined cs ++ c
joined-append [] c = append-nil c
joined-append (x ∷ cs) c = rw (joined-append cs c) (sym (append_assoc x (joined cs) c))

take_nil {ℓ} : {A : Type ℓ} (n : ℕ) → ◌≡◌ {A = List A} [] (take n [])
take_nil zero = refl
take_nil (suc n) = refl

drop_nil {ℓ} : {A : Type ℓ} (n : ℕ) → ◌≡◌ {A = List A} (drop n []) []
drop_nil zero = refl
drop_nil (suc n) = refl

pub take-add {ℓ} :
    {A : Type ℓ} (m j : ℕ) (s : List A) → take (m + j) s ≡ take m s ++ take j (drop m s)
take-add zero j s = let e : 0 + j ≡ j = omega arith in rw e refl
take-add (suc m) j [] = let e : suc m + j ≡ suc (m + j) = omega arith in rw e (take_nil j)
take-add (suc m) j (x ∷ s) =
    let e : suc m + j ≡ suc (m + j) = omega arith in rw e (ap (◌∷◌ x) (take-add m j s))

pub drop-add {ℓ} : {A : Type ℓ} (m j : ℕ) (s : List A) → drop (m + j) s ≡ drop j (drop m s)
drop-add zero j s = let e : 0 + j ≡ j = omega arith in rw e refl
drop-add (suc m) j [] = drop_nil (suc m + j) ∙ sym (drop_nil j)
drop-add (suc m) j (x ∷ s) = let e : suc m + j ≡ suc (m + j) = omega arith in rw e (drop-add m j s)

pub drop-append_le {ℓ} :
    {A : Type ℓ} (n : ℕ) (s t : List A) → n ≤ length s → drop n (s ++ t) ≡ drop n s ++ t
drop-append_le zero s t h = refl
drop-append_le (suc n) [] t h = absurd (omega arith)
drop-append_le (suc n) (x ∷ s) t h = drop-append_le n s t (omega arith)

pub take-append_sub {ℓ} :
    {A : Type ℓ} (n : ℕ) (s t : List A) → take n (s ++ t) ≡ take n s ++ take (n - length s) t
take-append_sub n [] t =
    let e : n - 0 ≡ n = omega arith in rw e (ap (λ x. x ++ take n t) (take_nil n))
take-append_sub zero (x ∷ s) t = let e : 0 - suc (length s) ≡ 0 = omega arith in rw e refl
take-append_sub (suc n) (x ∷ s) t =
    let e : suc n - suc (length s) ≡ n - length s = omega arith in
    rw e (ap (◌∷◌ x) (take-append_sub n s t))

pub take-take {ℓ} : {A : Type ℓ} (n : ℕ) (s : List A) → take n (take n s) ≡ take n s
take-take zero s = refl
take-take (suc n) [] = refl
take-take (suc n) (x ∷ s) = ap (◌∷◌ x) (take-take n s)

-- The first `n` bytes are there, if what they lack is added.
pub take-append_missing {ℓ} :
    {A : Type ℓ} (n : ℕ) (s t : List A) → take n (s ++ take (n - length s) t) ≡ take n (s ++ t)
take-append_missing n s t =
    take-append_sub n s (take (n - length s) t)
    ∙ ap (◌++◌ (take n s)) (take-take (n - length s) t)
    ∙ sym (take-append_sub n s t)
