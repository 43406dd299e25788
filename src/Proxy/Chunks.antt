-- ===== src/Proxy/Chunks.antt =====
-- The answer to CONNECT does not depend on how it was cut into reads.
use http_client.Prelude.{
  ℕ, ◌+◌, ◌≡◌, ◌≤◌, refl, sym, ap, ◌∙◌, inl, inr, false, List, [], ◌∷◌, ◌++◌, none, some, Bytes,
  codes, length, ltb, arith, append_assoc, subst, append-nil, length-append, Option-cases, Result,
  err,
}
use http_client.Text.{find_text, starts_with}
use http_client.Text.Append.{joined, find_text-length, find_text-append, take-append_le}
use http_client.Proxy.Connect.{crlf_twice, connect_status, connect_loop}

-- The answer as one text: the status where the headers end, an error where they do not.
abbrev pub whole_answer : Bytes → Result ℕ
whole_answer s = elim (find_text crlf_twice s) [
  | none ↦ err (codes "End of file")
  | some end ↦ connect_status s end
]

-- More bytes do not change an answer whose headers have ended.
whole_answer-append :
    (s t : Bytes) (i : ℕ)
    → find_text crlf_twice s ≡ some i
    → whole_answer (s ++ t) ≡ connect_status s i
whole_answer-append s t i h =
    rw (whole_answer, find_text-append crlf_twice s t i h)
      (unfold connect_status in
        rw (take-append_le (4 + i) s t (omega (arith, find_text-length crlf_twice s i h))) refl)

short :
    (s c : Bytes) (cs : List Bytes)
    → length (s ++ (c ++ joined cs)) ≤ 65536
    → ltb 65536 (length (s ++ c)) ≡ false
short s c cs h =
    ground (arith, length-append s (c ++ joined cs), length-append c (joined cs), length-append s c)

-- The loop, behind a text in which the headers have not ended.
connect_loop-whole :
    (chunks : List Bytes) (s : Bytes)
    → length (s ++ joined chunks) ≤ 65536
    → find_text crlf_twice s ≡ none
    → connect_loop chunks s ≡ whole_answer (s ++ joined chunks)
unfolding connect_loop
connect_loop-whole [] s h n = rw (append-nil s) (rw (whole_answer, n) refl)
connect_loop-whole (chunk ∷ chunks) s h n =
    let e = append_assoc s chunk (joined chunks) in
    elim (Option-cases (find_text crlf_twice (s ++ chunk))) [
      | inl q ↦
          rw (connect_loop, q, short s chunk chunks h)
            (connect_loop-whole chunks (s ++ chunk) (subst (λ x. length x ≤ 65536) (sym e) h) q
              ∙ ap whole_answer e)
      | inr (i, q) ↦
          rw (connect_loop, q)
            (sym (whole_answer-append (s ++ chunk) (joined chunks) i q) ∙ ap whole_answer e)
    ]

-- The tunnel's outcome on an answer of at most 65536 bytes, closed by the proxy behind it, is that of the
-- answer read in one piece, wherever the reads cut it.
pub connect_loop-joined :
    (chunks : List Bytes)
    → length (joined chunks) ≤ 65536
    → connect_loop chunks [] ≡ whole_answer (joined chunks)
connect_loop-joined chunks h = connect_loop-whole chunks [] h (unfold find_text starts_with in refl)
