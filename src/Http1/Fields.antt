-- ===== src/Http1/Fields.antt =====
-- `parse_content_length` on the lines of a head.
use http_client.Prelude.{
  ℕ, suc, ◌≡◌, ◌≤◌, ◌<◌, refl, sym, subst, ap, ◌∙◌, inl, inr, true, false, ◌&&◌, List, [], ◌∷◌,
  ◌++◌, Bytes, map, drop, length, ltb, ◌==◌, arith, append_assoc, Bool-cases, All, ==_ne,
  drop-append, if◌then◌else◌,
}
use http_client.Text.{Lacks, starts_with, to_lower, trim_front, is_space}
use http_client.Text.Append.{length-starts_with}
use http_client.Text.Search.{starts_with_self}
use http_client.Proxy.Connect.{crlf}
use http_client.Http1.{
  parse_content_length, is_length_line, length_name, read_size, size_modulus, text_of, to_string,
}
use http_client.Http1.Lines.{text_of-cons}
use http_client.Http1.Decimal.{EndsNumber, read_size-to_string, to_string-trim, trim_front-spaces}

scan_step :
    (x y : ℕ) (line : Bytes)
    → (x == 13 && y == 10) ≡ false
    → parse_content_length (x ∷ y ∷ line) ≡ parse_content_length (y ∷ line)
unfolding parse_content_length
scan_step x y line e = rw (parse_content_length, e) refl

-- A line is passed over up to its end.
scan_line :
    (line rest : Bytes)
    → Lacks 13 line
    → parse_content_length (line ++ (crlf ++ rest)) ≡ parse_content_length (crlf ++ rest)
scan_line [] rest h = refl
scan_line (x ∷ []) rest h = scan_step x 13 (10 ∷ rest) (rw (==_ne x 13 h.0) refl)
scan_line (x ∷ y ∷ line) rest h =
    scan_step x y (line ++ (crlf ++ rest)) (rw (==_ne x 13 h.0) refl)
    ∙ scan_line (y ∷ line) rest h.1

length-map_lower : (s : Bytes) → length (map to_lower s) ≡ length s
length-map_lower [] = refl
length-map_lower (x ∷ s) = ap suc (length-map_lower s)

is_length_line-length : (s : Bytes) → is_length_line s ≡ true → 15 ≤ length s
unfolding is_length_line
is_length_line-length s h =
    omega (arith, length-starts_with length_name (map to_lower s) h, length-map_lower s)

-- Fewer bytes than the name has hold no length.
scan_short : (s : Bytes) → length s < 15 → parse_content_length s ≡ 0
unfolding parse_content_length
scan_short [] h = refl
scan_short (x ∷ []) h = refl
scan_short (x ∷ y ∷ line) h = elim (Bool-cases (x == 13 && y == 10)) [
  | inr e ↦ scan_step x y line e ∙ scan_short (y ∷ line) (omega arith)
  | inl e ↦
      let few : ltb (length line) 15 ≡ true = ground arith in rw (parse_content_length, e, few) refl
]

-- Behind a line's end the next line decides.
scan_crlf :
    (line : Bytes)
    → parse_content_length (crlf ++ line) ≡ (
        if is_length_line line
        then read_size 0 (trim_front (drop 15 line))
        else parse_content_length line)
unfolding parse_content_length
scan_crlf line = elim (Bool-cases (ltb (length line) 15)) [
  | inl e ↦ elim (Bool-cases (is_length_line line)) [
    | inl q ↦ absurd (ground (arith, is_length_line-length line q))
    | inr q ↦ rw (parse_content_length, e, q) (sym (scan_short line (ground arith)))
  ]
  | inr e ↦ elim (Bool-cases (is_length_line line)) [
    | inl q ↦ rw (parse_content_length, e, q) refl
    | inr q ↦ rw (parse_content_length, e, q) refl
  ]
]

pub map-append_lower : (s t : Bytes) → map to_lower (s ++ t) ≡ map to_lower s ++ map to_lower t
map-append_lower [] t = refl
map-append_lower (x ∷ s) t = ap (◌∷◌ (to_lower x)) (map-append_lower s t)

-- A text without a line end that a line starts with does not reach over its end.
starts_with_line : (p s t : Bytes) → Lacks 13 p → starts_with p (s ++ 13 ∷ t) ≡ starts_with p s
unfolding starts_with
starts_with_line [] s t h = refl
starts_with_line (x ∷ p) [] t h = rw (==_ne x 13 h.0) refl
starts_with_line (x ∷ p) (y ∷ s) t h = ap (◌&&◌ (x == y)) (starts_with_line p s t h.1)

length_name-Lacks : Lacks 13 length_name
length_name-Lacks = omega arith

is_length_line-crlf :
    (line rest : Bytes) → is_length_line (line ++ (crlf ++ rest)) ≡ is_length_line line
unfolding is_length_line starts_with to_lower
is_length_line-crlf line rest =
    ap (starts_with length_name) (map-append_lower line (crlf ++ rest))
    ∙ starts_with_line length_name (map to_lower line) _ length_name-Lacks

-- A line that holds no length.
abbrev pub HasNoLength : Bytes → Type 0
HasNoLength line = Lacks 13 line × (is_length_line line ≡ false)

pub scan_lines :
    (first : Bytes) (lines : List Bytes) (rest : Bytes)
    → Lacks 13 first
    → All HasNoLength lines
    → parse_content_length (first ++ (crlf ++ (text_of lines ++ rest)))
      ≡ parse_content_length (crlf ++ rest)
scan_lines first [] rest h a = scan_line first rest h
scan_lines first (line ∷ lines) rest h a =
    let tail = crlf ++ (text_of lines ++ rest) in
    scan_line first (text_of (line ∷ lines) ++ rest) h
    ∙ ap (λ t. parse_content_length (crlf ++ t)) (text_of-cons line lines rest)
    ∙ scan_crlf (line ++ tail)
    ∙ rw (is_length_line-crlf line (text_of lines ++ rest) ∙ a.0.1)
        (scan_lines line lines rest a.0.0 a.1)

-- A field of that name, its value behind white space.
abbrev pub length_field : Bytes → Bytes → ℕ → Bytes
length_field name pad n = name ++ (pad ++ to_string n)

is_length_line-name :
    (name t : Bytes) → map to_lower name ≡ length_name → is_length_line (name ++ t) ≡ true
unfolding is_length_line
is_length_line-name name t h =
    ap (starts_with length_name) (map-append_lower name t ∙ ap (λ x. x ++ map to_lower t) h)
    ∙ starts_with_self length_name (map to_lower t)

drop-name : (name t : Bytes) → map to_lower name ≡ length_name → drop 15 (name ++ t) ≡ t
drop-name name t h =
    let len : length name ≡ 15 = sym (length-map_lower name) ∙ ap length h in
    subst (λ (k : ℕ). drop k (name ++ t) ≡ t) len (drop-append name t)

-- The length is that of the first field with the name, in any case of letters.
pub parse_content_length-field :
    (first : Bytes) (before : List Bytes) (name pad rest : Bytes) (n : ℕ)
    → Lacks 13 first
    → All HasNoLength before
    → map to_lower name ≡ length_name
    → All (λ c. is_space c ≡ true) pad
    → n < size_modulus
    → EndsNumber rest
    → parse_content_length
        (first ++ (crlf ++ (text_of before ++ (length_field name pad n ++ rest))))
      ≡ n
parse_content_length-field first before name pad rest n h a q sp small ends =
    let value = to_string n ++ rest in
    let e : length_field name pad n ++ rest ≡ name ++ (pad ++ value) =
      append_assoc name (pad ++ to_string n) rest
      ∙ ap (◌++◌ name) (append_assoc pad (to_string n) rest) in
    scan_lines first before (length_field name pad n ++ rest) h a
    ∙ ap (λ t. parse_content_length (crlf ++ t)) e
    ∙ scan_crlf (name ++ (pad ++ value))
    ∙ rw (is_length_line-name name (pad ++ value) q, drop-name name (pad ++ value) q)
        (ap (read_size 0) (trim_front-spaces pad value sp ∙ to_string-trim n rest)
          ∙ read_size-to_string n rest small ends)
