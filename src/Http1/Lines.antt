-- ===== src/Http1/Lines.antt =====
-- The lines of a head, and where it ends.
use http_client.Prelude.{
  ℕ, zero, suc, ◌+◌, ◌≡◌, ◌≤◌, ◌<◌, ◌≢◌, refl, sym, ap, ◌∙◌, List, [], ◌∷◌, ◌++◌, some, Bytes, drop,
  length, arith, append_assoc, ==_ne, All, length-append, take-append,
}
use mathlib.Core.Option
use http_client.Text.{Lacks, find_text, starts_with}
use http_client.Proxy.Connect.{crlf, crlf_twice}
use http_client.Http1.{text_of, header_lines, append_response_headers}

-- A line that can stand in a head.
abbrev pub IsLine : Bytes → Type 0
IsLine line = Lacks 13 line × (0 < length line)

-- A head: its first line, the others, and the empty line.
abbrev pub head_text : Bytes → List Bytes → Bytes
head_text first lines = first ++ (crlf ++ (text_of lines ++ crlf))

pub find_crlf :
    (line rest : Bytes)
    → Lacks 13 line
    → find_text crlf (line ++ (crlf ++ rest)) ≡ some (length line)
unfolding find_text starts_with
find_crlf [] rest h = refl
find_crlf (x ∷ line) rest h = rw (==_ne 13 x (λ e. h.0 (sym e)), find_crlf line rest h.1)

pub text_of-cons :
    (line : Bytes) (lines : List Bytes) (rest : Bytes)
    → text_of (line ∷ lines) ++ rest ≡ line ++ (crlf ++ (text_of lines ++ rest))
text_of-cons line lines rest = append_assoc line (crlf ++ text_of lines) rest

-- What stands on a line is passed over.
find_twice-line :
    (line rest : Bytes) (j : ℕ)
    → Lacks 13 line
    → find_text crlf_twice rest ≡ some j
    → find_text crlf_twice (line ++ rest) ≡ some (length line + j)
unfolding find_text starts_with
find_twice-line [] rest j h e = e ∙ ap some (omega arith)
find_twice-line (x ∷ line) rest j h e =
    rw (==_ne 13 x (λ q. h.0 (sym q)), find_twice-line line rest j h.1 e) (ap some (omega arith))

find_twice-step :
    (x : ℕ) (rest : Bytes)
    → x ≢ 13
    → find_text crlf_twice (x ∷ rest) ≡ Option.map suc (find_text crlf_twice rest)
unfolding find_text starts_with
find_twice-step x rest h = rw (==_ne 13 x (λ q. h (sym q))) refl

-- A line end that another line follows is not the end.
find_twice-next :
    (x : ℕ) (rest : Bytes) (j : ℕ)
    → x ≢ 13
    → find_text crlf_twice (x ∷ rest) ≡ some j
    → find_text crlf_twice (crlf ++ x ∷ rest) ≡ some (2 + j)
unfolding find_text starts_with
find_twice-next x rest j h e = rw (==_ne 13 x (λ q. h (sym q))) (
    ap (λ o. Option.map suc (Option.map suc o)) (sym (find_twice-step x rest h) ∙ e)
    ∙ ap some (omega arith))

pub find_text-head :
    (first : Bytes) (lines : List Bytes) (rest : Bytes)
    → Lacks 13 first
    → All IsLine lines
    → find_text crlf_twice (first ++ (crlf ++ (text_of lines ++ (crlf ++ rest))))
      ≡ some (length first + length (text_of lines))
find_text-head first [] rest h a =
    find_twice-line first (crlf ++ (crlf ++ rest)) 0 h (unfold find_text starts_with in refl)
find_text-head first ([] ∷ lines) rest h a = absurd (omega (arith, a.0.1))
find_text-head first ((x ∷ line) ∷ lines) rest h a =
    let ih = find_text-head (x ∷ line) lines rest a.0.0 a.1 in
    let next =
      find_twice-next x (line ++ (crlf ++ (text_of lines ++ (crlf ++ rest)))) _ a.0.0.0 ih in
    rw (text_of-cons (x ∷ line) lines (crlf ++ rest)) (
      find_twice-line first _ _ h next
      ∙ ap some (omega (arith, length-append line (crlf ++ text_of lines))))

drop-crlf : (line rest : Bytes) → drop (suc (suc (length line))) (line ++ (crlf ++ rest)) ≡ rest
drop-crlf [] rest = refl
drop-crlf (x ∷ line) rest = drop-crlf line rest

header_lines-cons :
    (f x : ℕ) (line rest : Bytes)
    → Lacks 13 (x ∷ line)
    → header_lines (suc f) (x ∷ (line ++ (crlf ++ rest))) ≡ (x ∷ line) ∷ header_lines f rest
unfolding header_lines
header_lines-cons f x line rest h =
    rw (header_lines, find_crlf (x ∷ line) rest h)
      (ap (λ l. (x ∷ l) ∷ header_lines f (drop (suc (suc (length line))) (line ++ (crlf ++ rest))))
          (take-append line (crlf ++ rest))
        ∙ ap (λ t. (x ∷ line) ∷ header_lines f t) (drop-crlf line rest))

-- The loop of `append_response_headers` reads the lines back, on enough fuel.
header_lines-text_of :
    (f : ℕ) (lines : List Bytes)
    → length lines < f
    → All IsLine lines
    → header_lines f (text_of lines ++ crlf) ≡ lines
header_lines-text_of zero lines n a = absurd (omega arith)
header_lines-text_of (suc f) [] n a = unfold header_lines find_text starts_with in refl
header_lines-text_of (suc f) ([] ∷ lines) n a = absurd (omega (arith, a.0.1))
header_lines-text_of (suc f) ((x ∷ line) ∷ lines) n a =
    ap (header_lines (suc f)) (text_of-cons (x ∷ line) lines crlf)
    ∙ header_lines-cons f x line (text_of lines ++ crlf) a.0.0
    ∙ ap (◌∷◌ (x ∷ line)) (header_lines-text_of f lines (omega arith) a.1)

-- Every line is at least two bytes of text.
length-text_of : (lines : List Bytes) → length lines ≤ length (text_of lines)
length-text_of [] = omega arith
length-text_of (line ∷ lines) =
    omega (arith, length-text_of lines, length-append line (crlf ++ text_of lines))

pub append_response_headers-head_text :
    (first : Bytes) (lines : List Bytes)
    → Lacks 13 first
    → All IsLine lines
    → append_response_headers (head_text first lines) ≡ lines
unfolding append_response_headers
append_response_headers-head_text first lines h a =
    let text = text_of lines ++ crlf in
    let e : drop (suc (suc (length first))) (head_text first lines) ≡ text = drop-crlf first text in
    rw (append_response_headers, find_crlf first text h)
      (rw e (
        header_lines-text_of (length text) lines
          (omega (arith, length-text_of lines, length-append (text_of lines) crlf)) a))
