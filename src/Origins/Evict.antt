-- ===== src/Origins/Evict.antt =====
-- What an eviction takes out of the cache and what it leaves.
use mathlib.Core.List.{reverse, reverse_aux}
use http_client.Prelude.{
  ℕ, suc, ◌≤◌, ◌≡◌, refl, ◌≢◌, ◌⊎◌, ◌==◌, true, List, [], ◌∷◌, some, Bytes, length, All, arith,
  subst, sym, ◌<◌, ==_ne, Bool-cases, Option-cases, inl, inr,
}
use http_client.Text.{bytes_eq, bytes_eq_iff}
use http_client.Origins.{
  CachedOrigin, OriginCache, CacheOptions, Blocked, find_origin, erase_origin, Verdict, drop_link,
  evict, leave_off, go_on, verdict, scan, evict_cached_origins, get_gate, insert_origin, touch,
}
use http_client.Origins.Routes.{find_origin-erase_origin}

-- The gates that the flag keeps are not taken out.
verdict_blocked :
    (o : CacheOptions) (b : Blocked) (now : ℕ) (l : List (Bytes × CachedOrigin)) (k : Bytes)
    (e : CachedOrigin)
    → find_origin k l ≡ some e
    → b e.gate ≡ true
    → verdict o b now l k ≢ evict
unfolding verdict
verdict_blocked o b now l k e h g = rw (h, verdict) (ground (arith, g))

-- One round: an entry with a blocked gate is still found.
erase_blocked :
    (o : CacheOptions) (b : Blocked) (now : ℕ) (l : List (Bytes × CachedOrigin)) (key k : Bytes)
    (e : CachedOrigin)
    → find_origin k l ≡ some e
    → b e.gate ≡ true
    → verdict o b now l key ≡ evict
    → find_origin k (erase_origin key l) ≡ some e
erase_blocked o b now l key k e h g v = elim (Bool-cases (bytes_eq key k)) [
  | inl q ↦ ground (arith, verdict_blocked o b now l k e h g, bytes_eq_iff key k)
  | inr q ↦ ground (arith, find_origin-erase_origin key k l, bytes_eq_iff key k)
]

scan-blocked :
    (o : CacheOptions) (b : Blocked) (now : ℕ) (keys : List Bytes) (l : List (Bytes × CachedOrigin))
    (n : ℕ) (k : Bytes) (e : CachedOrigin)
    → find_origin k l ≡ some e
    → b e.gate ≡ true
    → find_origin k (scan o b now keys l n).1 ≡ some e
unfolding scan
scan-blocked o b now [] l n k e h g = h
scan-blocked o b now (key ∷ keys) l n k e h g = ground (
  arith,
  erase_blocked o b now l key k e h g,
  scan-blocked o b now keys l n k e h g,
  scan-blocked o b now keys (erase_origin key l) (suc n) k e,
)

-- An entry whose gate is in use is in the map after every eviction, unchanged.
pub evict_cached_origins-blocked :
    (o : CacheOptions) (b : Blocked) (now : ℕ) (c : OriginCache) (k : Bytes) (e : CachedOrigin)
    → find_origin k c.origins ≡ some e
    → b e.gate ≡ true
    → find_origin k (evict_cached_origins o b now c).origins ≡ some e
unfolding evict_cached_origins
evict_cached_origins-blocked o b now c k e h g =
    ground (arith, scan-blocked o b now (reverse c.lru) c.origins c.generation k e)

-- An entry with its gate in use.
abbrev pub IsInUse : Blocked → List (Bytes × CachedOrigin) → Bytes → Type 0
IsInUse b l k = (e : CachedOrigin) × (find_origin k l ≡ some e) × (b e.gate ≡ true)

verdict_go_on :
    (o : CacheOptions) (b : Blocked) (now : ℕ) (l : List (Bytes × CachedOrigin)) (k : Bytes)
    → verdict o b now l k ≡ go_on
    → IsInUse b l k
unfolding verdict
verdict_go_on o b now l k v = elim (Option-cases (find_origin k l)) [
  | inl h ↦ absurd (ground (arith, h))
  | inr (e, h) ↦ (e, h, ground (arith, h))
]

verdict_leave_off :
    (o : CacheOptions) (b : Blocked) (now : ℕ) (l : List (Bytes × CachedOrigin)) (k : Bytes)
    → verdict o b now l k ≡ leave_off
    → length l ≤ o.max_cached_origins
unfolding verdict
verdict_leave_off o b now l k v = ground arith

Verdict-cases : (v : Verdict) → ((v ≡ drop_link) ⊎ (v ≡ evict)) ⊎ ((v ≡ leave_off) ⊎ (v ≡ go_on))
Verdict-cases drop_link = inl (inl refl)
Verdict-cases evict = inl (inr refl)
Verdict-cases leave_off = inr (inl refl)
Verdict-cases go_on = inr (inr refl)

-- The loop at a key that stays.
scan-go_on :
    (o : CacheOptions) (b : Blocked) (now : ℕ) (key : Bytes) (keys : List Bytes)
    (l : List (Bytes × CachedOrigin)) (n : ℕ)
    → verdict o b now l key ≡ go_on
    → scan o b now (key ∷ keys) l n
      ≡ (key ∷ (scan o b now keys l n).0, (scan o b now keys l n).1, (scan o b now keys l n).2)
unfolding scan
scan-go_on o b now key keys l n v = ground arith

scan-evict :
    (o : CacheOptions) (b : Blocked) (now : ℕ) (key : Bytes) (keys : List Bytes)
    (l : List (Bytes × CachedOrigin)) (n : ℕ)
    → verdict o b now l key ≡ evict
    → scan o b now (key ∷ keys) l n ≡ scan o b now keys (erase_origin key l) (suc n)
unfolding scan
scan-evict o b now key keys l n v = ground arith

scan-drop_link :
    (o : CacheOptions) (b : Blocked) (now : ℕ) (key : Bytes) (keys : List Bytes)
    (l : List (Bytes × CachedOrigin)) (n : ℕ)
    → verdict o b now l key ≡ drop_link
    → scan o b now (key ∷ keys) l n ≡ scan o b now keys l n
unfolding scan
scan-drop_link o b now key keys l n v = ground arith

scan-leave_off :
    (o : CacheOptions) (b : Blocked) (now : ℕ) (key : Bytes) (keys : List Bytes)
    (l : List (Bytes × CachedOrigin)) (n : ℕ)
    → verdict o b now l key ≡ leave_off
    → scan o b now (key ∷ keys) l n ≡ (key ∷ keys, l, n)
unfolding scan
scan-leave_off o b now key keys l n v = ground arith

-- What the loop leaves: few enough entries, or links to entries in use and nothing else.
Settled : CacheOptions → Blocked → List Bytes × List (Bytes × CachedOrigin) × ℕ → Type 0
Settled o b (kept, l, n) = (length l ≤ o.max_cached_origins) ⊎ All (IsInUse b l) kept

scan-Settled :
    (o : CacheOptions) (b : Blocked) (now : ℕ) (keys : List Bytes) (l : List (Bytes × CachedOrigin))
    (n : ℕ)
    → Settled o b (scan o b now keys l n)
unfolding scan Settled
scan-Settled o b now [] l n = inr tt
scan-Settled o b now (key ∷ keys) l n = elim (Verdict-cases (verdict o b now l key)) [
  | inl (inl v) ↦
      subst (Settled o b) (sym (scan-drop_link o b now key keys l n v))
        (scan-Settled o b now keys l n)
  | inl (inr v) ↦
      subst (Settled o b) (sym (scan-evict o b now key keys l n v))
        (scan-Settled o b now keys (erase_origin key l) (suc n))
  | inr (inl v) ↦
      subst (Settled o b) (sym (scan-leave_off o b now key keys l n v))
        (inl (verdict_leave_off o b now l key v))
  | inr (inr v) ↦ subst (Settled o b) (sym (scan-go_on o b now key keys l n v)) (
      let (e, h, g) = verdict_go_on o b now l key v in
      elim (scan-Settled o b now keys l n) [
        | inl few ↦ inl few
        | inr used ↦ inr ((e, scan-blocked o b now keys l n key e h g, g), used)
      ])
]

All-reverse_aux :
    (P : Bytes → Type 0) (ks done : List Bytes)
    → All P ks
    → All P done
    → All P (reverse_aux ks done)
All-reverse_aux P [] done h g = g
All-reverse_aux P (k ∷ ks) done (p, h) g = All-reverse_aux P ks (k ∷ done) h (p, g)

-- After an eviction with a limit, the map is within the limit, or every key that is left in the list
-- has an entry whose gate is in use.
pub length-evict_cached_origins :
    (o : CacheOptions) (b : Blocked) (now : ℕ) (c : OriginCache)
    → 0 < o.max_cached_origins
    → (length (evict_cached_origins o b now c).origins ≤ o.max_cached_origins)
      ⊎ All
          (IsInUse b (evict_cached_origins o b now c).origins)
          (evict_cached_origins o b now c).lru
unfolding evict_cached_origins Settled
length-evict_cached_origins o b now c h =
    rw (==_ne o.max_cached_origins 0 (omega arith))
      (elim (scan-Settled o b now (reverse c.lru) c.origins c.generation) [
        | inl few ↦ inl few
        | inr used ↦ inr (All-reverse_aux _ _ [] used tt)
      ])

-- The eviction makes no gate, and a lookup one at most.
evict-gates :
    (o : CacheOptions) (blocked : Blocked) (now : ℕ) (c : OriginCache)
    → (evict_cached_origins o blocked now c).gates ≡ c.gates
unfolding evict_cached_origins
evict-gates o blocked now c = elim (Bool-cases (o.max_cached_origins == 0)) [
  | inl e ↦ rw e refl
  | inr e ↦ rw e refl
]

pub get_gate-gates :
    (o : CacheOptions) (blocked : Blocked) (now : ℕ) (key : Bytes) (c : OriginCache)
    → c.gates ≤ (get_gate o blocked now key c).1.gates
unfolding get_gate insert_origin touch
get_gate-gates o blocked now key c = elim (Option-cases (find_origin key c.origins)) [
  | inl e ↦ rw (get_gate, e) (omega (arith, evict-gates o blocked now c))
  | inr (d, e) ↦ rw (get_gate, e) (omega arith)
]
