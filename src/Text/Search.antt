-- ===== src/Text/Search.antt =====
-- Laws of the searches.
use http_client.Prelude.{
  ℕ, zero, suc, ◌≡◌, refl, true, [], ◌∷◌, ◌++◌, none, some, Bytes, arith, take, drop, length,
  ==_refl, ==_ne,
}
use http_client.Text.Defs.{Lacks, find, rfind, starts_with}

pub find-Lacks : (c : ℕ) (s : Bytes) → Lacks c s → find c s ≡ none
unfolding find
find-Lacks c [] h = refl
find-Lacks c (x ∷ xs) h = rw (==_ne x c h.0, find-Lacks c xs h.1)

pub find-append : (c : ℕ) (p s : Bytes) → Lacks c p → find c (p ++ c ∷ s) ≡ some (length p)
unfolding find
find-append c [] s h = rw (==_refl c)
find-append c (x ∷ xs) s h = rw (==_ne x c h.0, find-append c xs s h.1)

-- What stands before the first occurrence lacks the byte, and the text is put together again.
pub find-some :
    (c : ℕ) (s : Bytes) (i : ℕ)
    → find c s ≡ some i
    → Lacks c (take i s) × (s ≡ take i s ++ c ∷ drop (suc i) s)
unfolding find
find-some c [] i h = cc
find-some c (x ∷ xs) zero h = ground (arith)
find-some c (x ∷ xs) (suc i) h = ground (arith, find-some c xs i)

pub find-drop : (c : ℕ) (s : Bytes) (i : ℕ) → find c s ≡ some i → drop i s ≡ c ∷ drop (suc i) s
unfolding find
find-drop c [] i h = cc
find-drop c (x ∷ xs) zero h = ground arith
find-drop c (x ∷ xs) (suc i) h = ground (arith, find-drop c xs i)

pub find-none : (c : ℕ) (s : Bytes) → find c s ≡ none → Lacks c s
unfolding find
find-none c [] h = tt
find-none c (x ∷ xs) h = ground (arith, find-none c xs)

pub rfind-Lacks : (c : ℕ) (s : Bytes) → Lacks c s → rfind c s ≡ none
unfolding rfind
rfind-Lacks c [] h = refl
rfind-Lacks c (x ∷ xs) h = rw (rfind-Lacks c xs h.1, ==_ne x c h.0)

pub rfind-append : (c : ℕ) (p s : Bytes) → Lacks c s → rfind c (p ++ c ∷ s) ≡ some (length p)
unfolding rfind
rfind-append c [] s h = rw (rfind-Lacks c s h, ==_refl c)
rfind-append c (x ∷ xs) s h = rw (rfind-append c xs s h)

pub rfind-none : (c : ℕ) (s : Bytes) → rfind c s ≡ none → Lacks c s
unfolding rfind
rfind-none c [] h = tt
rfind-none c (x ∷ xs) h = ground (arith, rfind-none c xs)

pub rfind-some :
    (c : ℕ) (s : Bytes) (i : ℕ)
    → rfind c s ≡ some i
    → Lacks c (drop (suc i) s) × (s ≡ take i s ++ c ∷ drop (suc i) s)
unfolding rfind
rfind-some c [] i h = cc
rfind-some c (x ∷ xs) zero h = ground (arith, rfind-none c xs)
rfind-some c (x ∷ xs) (suc i) h = ground (arith, rfind-some c xs i)

pub starts_with_self : (p s : Bytes) → starts_with p (p ++ s) ≡ true
unfolding starts_with
starts_with_self [] s = refl
starts_with_self (x ∷ xs) s = rw (==_refl x) (starts_with_self xs s)

pub starts_with_sound : (p s : Bytes) → starts_with p s ≡ true → s ≡ p ++ drop (length p) s
unfolding starts_with
starts_with_sound [] s h = refl
starts_with_sound (x ∷ xs) [] h = cc
starts_with_sound (x ∷ xs) (y ∷ ys) h = ground (arith, starts_with_sound xs ys)
