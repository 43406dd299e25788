-- ===== src/Headers/Laws.antt =====
-- Laws of the header lines.
use http_client.Prelude.{
  suc, ◌≡◌, refl, sym, ap, ◌∙◌, ◌↔◌, inl, inr, true, false, List, [], ◌∷◌, ◌++◌, none, some, Bytes,
  map, ◌==◌, arith, take, length, remove_if, take-append, drop-append_cons, Bool-cases,
  Option-cases,
}
use http_client.Text.{
  Lacks, bytes_eq, bytes_eq_refl, bytes_eq_iff, find, to_lower, is_space, trim_front,
}
use http_client.Text.Search.{find-append}
use http_client.Headers.{
  same_letters, header_name_equal, split_header_view, header_line, is_named, find_header,
  find_headers, remove_lines, lower_copy, is_lower_named,
}

same_letters-bytes_eq :
    (a b : Bytes)
    → length a ≡ length b
    → same_letters a b ≡ bytes_eq (map to_lower a) (map to_lower b)
unfolding same_letters
same_letters-bytes_eq [] [] e = refl
same_letters-bytes_eq [] (y ∷ b) e = absurd (omega arith)
same_letters-bytes_eq (x ∷ a) [] e = absurd (omega arith)
same_letters-bytes_eq (x ∷ a) (y ∷ b) e = rw (same_letters-bytes_eq a b (omega arith))

bytes_eq-length :
    (a b : Bytes) → (length a ≡ length b → ⊥) → bytes_eq (map to_lower a) (map to_lower b) ≡ false
bytes_eq-length [] [] h = absurd (h refl)
bytes_eq-length [] (y ∷ b) h = refl
bytes_eq-length (x ∷ a) [] h = refl
bytes_eq-length (x ∷ a) (y ∷ b) h = rw (bytes_eq-length a b (λ e. h (ap suc e))) (ground arith)

-- Names are compared as texts in lower case.
pub header_name_equal-lower_copy :
    (a b : Bytes) → header_name_equal a b ≡ bytes_eq (lower_copy a) (lower_copy b)
unfolding header_name_equal lower_copy
header_name_equal-lower_copy a b = elim (Bool-cases (length a == length b)) [
  | inl e ↦ rw e (same_letters-bytes_eq a b (ground arith))
  | inr e ↦ rw e (sym (bytes_eq-length a b (λ q. ground arith)))
]

pub is_named-lower : (name line : Bytes) → is_named name line ≡ is_lower_named name line
unfolding is_named split_header_view is_lower_named
is_named-lower name line = elim (Option-cases (find b':' line)) [
  | inl e ↦
      rw (is_named, split_header_view, is_lower_named, e) (header_name_equal-lower_copy line name)
  | inr (i, e) ↦
      rw (is_named, split_header_view, is_lower_named, e)
        (header_name_equal-lower_copy (take i line) name)
]

trim_front-space : (s : Bytes) → trim_front (32 ∷ s) ≡ trim_front s
unfolding trim_front is_space
trim_front-space s = refl

header_line_lem : (name value : Bytes) → header_line name value ≡ name ++ b':' ∷ 32 ∷ value
unfolding header_line
header_line_lem name value = refl

-- A line written by `header_line` is split into its parts, if the name has no `:`.
pub split_header_view-header_line :
    (name value : Bytes)
    → Lacks b':' name
    → split_header_view (header_line name value) ≡ (name, trim_front value)
unfolding split_header_view header_line trim_front
split_header_view-header_line name value h =
    rw
      (
        header_line_lem name value,
        split_header_view,
        find-append b':' name (32 ∷ value) h,
        take-append name (b':' ∷ 32 ∷ value),
        drop-append_cons name (32 ∷ value) b':',
      )
      (ap (λ v. (name, v)) (trim_front-space value))

pub header_name_equal_self : (s : Bytes) → header_name_equal s s ≡ true
header_name_equal_self s = rw (header_name_equal-lower_copy s s) (bytes_eq_refl (lower_copy s))

-- A line of that name is recognised by every spelling that agrees up to case.
pub is_named-header_line :
    (name other value : Bytes)
    → Lacks b':' name
    → is_named other (header_line name value) ≡ header_name_equal name other
unfolding is_named
is_named-header_line name other value h = rw (is_named, split_header_view-header_line name value h)

pub find_header-append :
    (name : Bytes) (xs ys : List Bytes)
    → find_header name xs ≡ none
    → find_header name (xs ++ ys) ≡ find_header name ys
unfolding find_header
find_header-append name [] ys h = refl
find_header-append name (x ∷ xs) ys h = ground (arith, find_header-append name xs ys)

pub find_header-append_some :
    (name : Bytes) (xs ys : List Bytes) (v : Bytes)
    → find_header name xs ≡ some v
    → find_header name (xs ++ ys) ≡ some v
unfolding find_header
find_header-append_some name [] ys v h = cc
find_header-append_some name (x ∷ xs) ys v h = ground (arith, find_header-append_some name xs ys v)

-- After a removal no line of that name is left.
pub find_header-remove :
    (name : Bytes) (lines : List Bytes) → find_header name (remove_lines name lines) ≡ none
unfolding find_header remove_lines
find_header-remove name [] = refl
find_header-remove name (x ∷ xs) = ground (arith, find_header-remove name xs)

pub find_headers-remove :
    (name : Bytes) (lines : List Bytes) → find_headers name (remove_lines name lines) ≡ []
unfolding find_headers remove_lines
find_headers-remove name [] = refl
find_headers-remove name (x ∷ xs) = ground (arith, find_headers-remove name xs)

pub find_headers-append :
    (name : Bytes) (xs ys : List Bytes)
    → find_headers name (xs ++ ys) ≡ find_headers name xs ++ find_headers name ys
unfolding find_headers
find_headers-append name [] ys = refl
find_headers-append name (x ∷ xs) ys = ground (arith, find_headers-append name xs ys)

pub header_name_equal_iff :
    (a b : Bytes) → (header_name_equal a b ≡ true) ↔ (lower_copy a ≡ lower_copy b)
header_name_equal_iff a b =
    rw (header_name_equal-lower_copy a b) (bytes_eq_iff (lower_copy a) (lower_copy b))

absurd_test : false ≡ true → ⊥
absurd_test e = cc

-- A line of one name is not a line of another.
is_named-other :
    (name other line : Bytes)
    → header_name_equal name other ≡ false
    → is_named name line ≡ true
    → is_named other line ≡ false
unfolding is_named
is_named-other name other line d h = elim (Bool-cases (is_named other line)) [
  | inr e ↦ e
  | inl e ↦ absurd (
      absurd_test (
        sym d
        ∙ (header_name_equal_iff name other).1
            (sym ((header_name_equal_iff _ name).0 h) ∙ (header_name_equal_iff _ other).0 e)))
]

-- A removal leaves the lines of the other names as they are.
pub find_header-remove_other :
    (name other : Bytes) (lines : List Bytes)
    → header_name_equal name other ≡ false
    → find_header other (remove_lines name lines) ≡ find_header other lines
unfolding find_header remove_lines
find_header-remove_other name other [] d = refl
find_header-remove_other name other (x ∷ xs) d =
    ground (arith, find_header-remove_other name other xs d, is_named-other name other x d)

-- The two removals of the code, one in request.cpp and one in http_client.cpp, do the same.
pub remove_if-is_named :
    (name : Bytes) (lines : List Bytes)
    → remove_if (is_lower_named name) lines ≡ remove_lines name lines
unfolding remove_lines
remove_if-is_named name [] = refl
remove_if-is_named name (x ∷ xs) = rw (sym (is_named-lower name x), remove_if-is_named name xs)
