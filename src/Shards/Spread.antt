-- ===== src/Shards/Spread.antt =====
-- How the connections of `preconnect` are spread over the shards.
use native.Mathlib.Nat.{mul-add-div, div-eq_of_lt, div-add-mod, mod-lt}
use http_client.Prelude.{
  ℕ, zero, suc, ◌+◌, ◌-◌, ◌*◌, ◌/◌, ◌%◌, ◌≡◌, ◌≤◌, ◌<◌, ap, ◌∙◌, inl, inr, min, ltb, if◌then◌else◌,
  arith, Bool-cases,
}
use http_client.Shards.{target_count, targets_sum}

-- A quotient, from the division that it solves.
quotient : (n q t x : ℕ) → t < n → x ≡ n * q + t → x / n ≡ q
quotient n q t x h e =
    ap (λ (y : ℕ). y / n) e
    ∙ mul-add-div (omega arith) q t
    ∙ ap (λ (y : ℕ). q + y) (div-eq_of_lt h)
    ∙ omega arith

-- Behind the first `r` shards, whether or not the count reaches so far.
few : (count n i q r : ℕ) → i < n → n * q + r ≡ count → r ≤ i → target_count count n i ≡ q
unfolding target_count
few count n i zero r h d ge = quotient n 0 (n - 1) ((count - i) + n - 1) (omega arith) (grind arith)
few count n i (suc q) r h d ge =
    let big : n * suc q ≡ n * q + n = grind arith in
    quotient n (suc q) (n - 1 - (i - r)) ((count - i) + n - 1) (omega arith) (omega arith)

-- The first `count % n` of the shards get one connection more.
target_count_lem :
    (count n i : ℕ)
    → i < n
    → target_count count n i ≡ count / n + (if ltb i (count % n) then 1 else 0)
unfolding target_count
target_count_lem count n i h =
    let q = count / n in
    let r = count % n in
    let d : n * q + r ≡ count = div-add-mod count n in
    let small : r < n = mod-lt count (omega arith) in
    elim (Bool-cases (ltb i r)) [
      | inl e ↦
          let lt : i < r = ground arith in
          let more : n * (q + 1) ≡ n * q + n = grind arith in
          rw e (quotient n (q + 1) (r - i - 1) ((count - i) + n - 1) (omega arith) (omega arith))
      | inr e ↦ let ge : r ≤ i = ground arith in rw e (few count n i q r h d ge ∙ omega arith)
    ]

targets_sum_lem :
    (count n k : ℕ) → k ≤ n → targets_sum count n k ≡ k * (count / n) + min k (count % n)
unfolding targets_sum
targets_sum_lem count n zero h = omega arith
targets_sum_lem count n (suc k) h =
    let ih = targets_sum_lem count n k (omega arith) in
    let one = target_count_lem count n k (omega arith) in ground (arith, ih, one)

-- Over any number of shards, the connections that `preconnect` asks of them add up to the count.
pub targets_sum-count : (count n : ℕ) → 0 < n → targets_sum count n n ≡ count
targets_sum-count count n h =
    let d = div-add-mod count n in
    let small = mod-lt count h in omega (arith, targets_sum_lem count n n (omega arith), d, small)
