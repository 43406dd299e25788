-- ===== src/Pool/Weights.antt =====
-- The waiters of a pool: how they are found, sums over them, and occurrences of a connection in a list.
use http_client.Prelude.{
  ℕ, zero, suc, ◌+◌, ◌≤◌, ◌≡◌, refl, inl, inr, true, List, [], ◌∷◌, ◌++◌, some, arith, ◌==◌,
  if◌then◌else◌, length, get_elem?, set, Bool-cases, Option-cases,
}
use http_client.Pool.{Waiter, Pool, first_live}
use http_client.Pool.Run.{is_held, take_out, suspended_at}

module _ (f : Waiter → ℕ) where
  unfoldable pub total : List Waiter → ℕ
  total [] = 0
  total (w ∷ ws) = f w + total ws

  pub total-set :
      (ws : List Waiter) (n : ℕ) (w v : Waiter)
      → get_elem? ws n ≡ some w
      → total (set ws n v) + f w ≡ total ws + f v
  unfolding total
  total-set [] n w v h = cc
  total-set (x ∷ ws) zero w v h = ground arith
  total-set (x ∷ ws) (suc n) w v h = ground (arith, total-set ws n w v h)

  pub total-append : (ws : List Waiter) (v : Waiter) → total (ws ++ v ∷ []) ≡ total ws + f v
  unfolding total
  total-append [] v = omega arith
  total-append (x ∷ ws) v = omega (arith, total-append ws v)

  pub le-total : (ws : List Waiter) (n : ℕ) (w : Waiter) → get_elem? ws n ≡ some w → f w ≤ total ws
  unfolding total
  le-total [] n w h = cc
  le-total (x ∷ ws) zero w h = ground arith
  le-total (x ∷ ws) (suc n) w h = ground (arith, le-total ws n w h)

pub length-take_out :
    (c : ℕ) (xs : List ℕ) → is_held c xs ≡ true → suc (length (take_out c xs)) ≡ length xs
unfolding is_held take_out
length-take_out c [] h = cc
length-take_out c (x ∷ xs) h = ground (arith, length-take_out c xs)

-- How often a connection stands in a list.
unfoldable pub count : ℕ → List ℕ → ℕ
count c [] = 0
count c (x ∷ xs) = (if x == c then 1 else 0) + count c xs

pub count-take_out :
    (c d : ℕ) (xs : List ℕ)
    → is_held c xs ≡ true
    → count d (take_out c xs) + (if c == d then 1 else 0) ≡ count d xs
unfolding count is_held take_out
count-take_out c d [] h = cc
count-take_out c d (x ∷ xs) h = ground (arith, count-take_out c d xs)

pub get_elem?-set_self :
    (ws : List Waiter) (n : ℕ) (w v : Waiter)
    → get_elem? ws n ≡ some w
    → get_elem? (set ws n v) n ≡ some v
get_elem?-set_self [] n w v h = cc
get_elem?-set_self (x ∷ ws) zero w v h = refl
get_elem?-set_self (x ∷ ws) (suc n) w v h = get_elem?-set_self ws n w v h

pub first_live-get_elem? :
    (ws : List Waiter) (queue : List ℕ) (n : ℕ) (w : Waiter)
    → first_live ws queue ≡ some (n, w)
    → get_elem? ws n ≡ some w
unfolding first_live
first_live-get_elem? ws [] n w h = cc
first_live-get_elem? ws (m ∷ queue) n w h = elim (Option-cases (get_elem? ws m)) [
  | inl e ↦ first_live-get_elem? ws queue n w (rw (first_live, e) at h)
  | inr (v, e) ↦ elim (Bool-cases v.cancelled) [
    | inl c ↦ first_live-get_elem? ws queue n w (rw (first_live, e, c) at h)
    | inr c ↦ ground (arith, e, c)
  ]
]

pub suspended_at-get_elem? :
    (n : ℕ) (p : Pool) (w : Waiter)
    → suspended_at n p ≡ some w
    → (get_elem? p.waiters n ≡ some w) × (w.suspended ≡ true)
unfolding suspended_at
suspended_at-get_elem? n p w h = elim (Option-cases (get_elem? p.waiters n)) [
  | inl e ↦ ground (arith, e)
  | inr (v, e) ↦ elim (Bool-cases v.suspended) [
    | inl c ↦ ground (arith, e, c)
    | inr c ↦ ground (arith, e, c)
  ]
]
