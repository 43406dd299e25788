-- ===== src/Cookies/Match.antt =====
-- What the two matching tests accept.
use http_client.Prelude.{
  ℕ, zero, suc, ◌-◌, ◌≡◌, refl, sym, ap, ◌∙◌, ◌⊎◌, inl, inr, ◌↔◌, and_true, ltb→lt, lt→ltb,
  drop-append_cons, Bool, true, false, ◌||◌, [], ◌∷◌, ◌++◌, some, Bytes, ◌==◌, ltb, is_nil, length,
  take, drop, get_elem?, arith, Bool-cases, length-append, subst,
}
use http_client.Text.{bytes_eq, bytes_eq_sound, bytes_eq_refl, starts_with, front_is, back_is}
use http_client.Text.Search.{starts_with_self, starts_with_sound}
use http_client.Headers.{lower_copy}
use http_client.Cookies.{is_byte, is_subdomain, without_dot, domain_match, path_match}

-- `h` is the domain, or some labels, a `.` and the domain.
abbrev pub IsSubdomain : Bytes → Bytes → Type 0
IsSubdomain h d = (h ≡ d) ⊎ ((p : Bytes) × (h ≡ p ++ b'.' ∷ d))

drop_split :
    (n : ℕ) (h : Bytes) (c : ℕ)
    → is_byte c (get_elem? h n) ≡ true
    → h ≡ take n h ++ c ∷ drop (suc n) h
drop_split n [] c e = cc
drop_split zero (x ∷ h) c e = ground arith
drop_split (suc n) (x ∷ h) c e = ap (◌∷◌ x) (drop_split n h c e)

get_elem?-append : (p s : Bytes) (c : ℕ) → get_elem? (p ++ c ∷ s) (length p) ≡ some c
get_elem?-append [] s c = refl
get_elem?-append (x ∷ p) s c = get_elem?-append p s c

or_right : (a b : Bool) → a ≡ false → (a || b) ≡ true → b ≡ true
or_right a b h e = ground arith

or_true : (a : Bool) → (a || true) ≡ true
or_true a = ground arith

pub is_subdomain_sound : (h d : Bytes) → is_subdomain h d ≡ true → IsSubdomain h d
unfolding is_subdomain
is_subdomain_sound h d e = elim (Bool-cases (bytes_eq h d)) [
  | inl same ↦ inl (bytes_eq_sound h d same)
  | inr other ↦
      let (lt, tail) = and_true _ _ (or_right _ _ other e) in
      let (same, dot) = and_true _ _ tail in
      let n = length h - length d - 1 in
      let shift : suc n ≡ length h - length d = omega (arith, ltb→lt (length d) (length h) lt) in
      inr (
        take n h,
        subst (λ (s : Bytes). h ≡ take n h ++ b'.' ∷ s)
            (ap (λ k. drop k h) shift ∙ bytes_eq_sound (drop (length h - length d) h) d same)
            (drop_split n h b'.' dot),
      )
]

pub is_subdomain_complete : (h d : Bytes) → IsSubdomain h d → is_subdomain h d ≡ true
unfolding is_subdomain
is_subdomain_complete h d (inl e) = rw (e, bytes_eq_refl d)
is_subdomain_complete h d (inr (p, e)) =
    let behind : length (p ++ b'.' ∷ d) - length d ≡ suc (length p) =
      omega (arith, length-append p (b'.' ∷ d)) in
    let at : suc (length p) - 1 ≡ length p = omega arith in
    let longer : ltb (length d) (length (p ++ b'.' ∷ d)) ≡ true =
      lt→ltb _ _ (omega (arith, length-append p (b'.' ∷ d))) in
    rw
      (e, longer, behind, at, drop-append_cons p d b'.', bytes_eq_refl d, get_elem?-append p d b'.')
      (or_true (bytes_eq (p ++ b'.' ∷ d) d))

-- A host matches a domain exactly when, in lower case, it is the domain without a leading `.`, or ends
-- in a `.` and that domain.
pub domain_match_iff :
    (host domain : Bytes)
    → (domain_match host domain ≡ true)
      ↔ IsSubdomain (lower_copy host) (without_dot (lower_copy domain))
unfolding domain_match
domain_match_iff host domain = (is_subdomain_sound _ _, is_subdomain_complete _ _)

-- The path-match of RFC 6265, section 5.1.4: the paths are the same, or the cookie's path is a prefix
-- that ends in `/` or is followed by one.
abbrev pub PathMatches : Bytes → Bytes → Type 0
PathMatches request_path cookie_path =
    (rest : Bytes) × (request_path ≡ cookie_path ++ rest)
    × ((rest ≡ []) ⊎ (back_is b'/' cookie_path ≡ true) ⊎ (front_is b'/' rest ≡ true))

front-get_elem? : (p s : Bytes) → is_byte b'/' (get_elem? (p ++ s) (length p)) ≡ front_is b'/' s
unfolding front_is
front-get_elem? [] [] = refl
front-get_elem? [] (x ∷ s) = refl
front-get_elem? (x ∷ p) s = front-get_elem? p s

length-append_nil : (p s : Bytes) → (length (p ++ s) == length p) ≡ is_nil s
length-append_nil p [] = ground (arith, length-append p [])
length-append_nil p (x ∷ s) = ground (arith, length-append p (x ∷ s))

path_match-append :
    (c : ℕ) (p rest : Bytes)
    → path_match ((c ∷ p) ++ rest) (c ∷ p)
      ≡ (is_nil rest || back_is b'/' (c ∷ p) || front_is b'/' rest)
unfolding path_match
path_match-append c p rest = rw (
  path_match,
  starts_with_self (c ∷ p) rest,
  length-append_nil (c ∷ p) rest,
  front-get_elem? (c ∷ p) rest,
)

path_match_starts :
    (request_path : Bytes) (c : ℕ) (p : Bytes)
    → path_match request_path (c ∷ p) ≡ true
    → starts_with (c ∷ p) request_path ≡ true
unfolding path_match
path_match_starts request_path c p h = ground arith

three_cases :
    (rest : Bytes) (b f : Bool)
    → (is_nil rest || b || f) ≡ true
    → (rest ≡ []) ⊎ (b ≡ true) ⊎ (f ≡ true)
three_cases [] b f h = inl refl
three_cases (x ∷ rest) true f h = inr (inl refl)
three_cases (x ∷ rest) false f h = inr (inr h)

cases_three :
    (rest : Bytes) (b f : Bool)
    → (rest ≡ []) ⊎ (b ≡ true) ⊎ (f ≡ true)
    → (is_nil rest || b || f) ≡ true
cases_three [] b f h = refl
cases_three (x ∷ rest) b f h = ground arith

-- For a cookie with a path, `path_match` is true exactly when the paths are the same, or the cookie's path
-- is a prefix that ends in `/` or is followed by one.
pub path_match_iff :
    (request_path : Bytes) (c : ℕ) (p : Bytes)
    → (path_match request_path (c ∷ p) ≡ true) ↔ PathMatches request_path (c ∷ p)
path_match_iff request_path c p = (
  λ h.
      let split = starts_with_sound (c ∷ p) request_path (path_match_starts request_path c p h) in
      let rest = drop (length (c ∷ p)) request_path in
      (
        rest,
        split,
        three_cases rest (back_is b'/' (c ∷ p)) (front_is b'/' rest) (
            sym (path_match-append c p rest)
            ∙ ap (λ (u : Bytes). path_match u (c ∷ p)) (sym split)
            ∙ h),
      ),
  λ (rest, e, h).
      ap (λ (u : Bytes). path_match u (c ∷ p)) e
      ∙ path_match-append c p rest
      ∙ cases_three rest _ _ h,
)
