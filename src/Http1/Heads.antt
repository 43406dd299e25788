-- ===== src/Http1/Heads.antt =====
-- The first loop of the exchange: it finds the head of an answer that arrives in pieces.
use http_client.Prelude.{
  ℕ, suc, ◌+◌, ◌≡◌, ◌≤◌, ◌<◌, refl, sym, subst, ap, ◌∙◌, inl, inr, false, List, [], ◌∷◌, ◌++◌, none,
  some, Bytes, min, ltb, take, drop, length, arith, append_assoc, append-nil, take-append-drop,
  Bool-cases, Option-cases, All, ok, length-drop,
}
use http_client.Text.{find_text}
use http_client.Text.Append.{find_text-append, find_text-length, find_text_within}
use http_client.Proxy.Connect.{crlf_twice}
use http_client.Http1.Exchange.{Storage, fit, Read, got, failed, Head, read_headers}
use http_client.Http1.Body.{IsGot, read_some_got}

-- An append takes at least the storage that it needs.
pub record IsStorage (m : Storage) : Type 0 where
  pub grows : (room size : ℕ) → size ≤ m.grow room size

le-fit :
    (m : Storage) (room size : ℕ)
    → IsStorage m
    → (size ≤ fit m room size) × (room ≤ fit m room size)
unfolding fit
le-fit m room size v = elim (Bool-cases (ltb room size)) [
  | inl e ↦ rw e (v.grows room size, ground (arith, e, v.grows room size))
  | inr e ↦ rw e (ground (arith, e), omega arith)
]

-- The first loop has found the end of the head, and lost nothing of the text.
pub record Finds (m : Storage) (whole : Bytes) (end : ℕ) (h : Head) : Type 0 where
  pub parts : h.read_buf ++ h.unread ≡ whole
  pub header_end : h.header_end ≡ end
  pub enough : 4 + end ≤ length h.read_buf
  pub got : All IsGot h.reads
  pub left : length h.unread ≤ length h.reads
  pub room : length h.read_buf ≤ h.capacity
  pub kept : m.capacity ≤ h.capacity

abbrev asked : ℕ → ℕ
asked k = min 32768 (suc k)

pieces : (b s : Bytes) (m : ℕ) → (b ++ take m s) ++ drop m s ≡ b ++ s
pieces b s m = append_assoc b (take m s) (drop m s) ∙ ap (◌++◌ b) (take-append-drop m s)

-- As long as the end of the head is not there, the buffer is below the limit.
not_too_large :
    (b t : Bytes) (end : ℕ)
    → find_text crlf_twice b ≡ none
    → find_text crlf_twice (b ++ t) ≡ some end
    → 4 + end ≤ 65536
    → ltb 65536 (length b) ≡ false
not_too_large b t end n f h = elim (Bool-cases (ltb 65536 (length b))) [
  | inr e ↦ e
  | inl e ↦ ground (arith, n, find_text_within crlf_twice b t end f (ground (arith, e)))
]

nonempty :
    (b s : Bytes) (end : ℕ)
    → find_text crlf_twice b ≡ none
    → find_text crlf_twice (b ++ s) ≡ some end
    → 0 < length s
nonempty b [] end n f = let e = ap (find_text crlf_twice) (append-nil b) in cc
nonempty b (x ∷ s) end n f = omega arith

pub read_headers-Finds :
    (m : Storage) (room : ℕ) (rs : List Read) (s b : Bytes) (end : ℕ)
    → IsStorage m
    → m.capacity ≤ room
    → All IsGot rs
    → length s ≤ length rs
    → find_text crlf_twice b ≡ none
    → find_text crlf_twice (b ++ s) ≡ some end
    → 4 + end ≤ 65536
    → (h : Head) × (read_headers m room rs s b ≡ ok h) × Finds m (b ++ s) end h
unfolding read_headers
read_headers-Finds m room [] s b end v c g l n f h = absurd (omega (arith, nonempty b s end n f))
read_headers-Finds m room (failed what ∷ rs) s b end v c g l n f h = elim (g.0) [ ]
read_headers-Finds m room (got k ∷ rs) s b end v c g l n f h =
    let j = asked k in
    let whole = pieces b s j in
    let room' = fit m room (length (b ++ take j s)) in
    let (fits, more) = le-fit m room (length (b ++ take j s)) v in
    let some_left = nonempty b s end n f in
    let f' = subst (λ x. find_text crlf_twice x ≡ some end) (sym whole) f in
    elim (Option-cases (find_text crlf_twice (b ++ take j s))) [
      | inr (i, q) ↦
          let same : i ≡ end = cc (find_text-append crlf_twice (b ++ take j s) (drop j s) i q) in
          (
            record {
              read_buf = b ++ take j s;
              capacity = room';
              header_end = i;
              unread = drop j s;
              reads = rs;
            },
            rw (read_headers, read_some_got 32768 k s some_left, q) refl,
            record {
              parts = whole;
              header_end = same;
              enough = omega (arith, same, find_text-length crlf_twice (b ++ take j s) i q);
              got = g.1;
              left = omega (arith, some_left, length-drop j s);
              room = fits;
              kept = omega (arith, more);
            },
          )
      | inl q ↦
          let (x, eq, found) =
            read_headers-Finds m room' rs (drop j s) (b ++ take j s) end v (omega (arith, more)) g.1
              (omega (arith, some_left, length-drop j s)) q f' h in
          (
            x,
            rw
                (
                  read_headers,
                  read_some_got 32768 k s some_left,
                  q,
                  not_too_large (b ++ take j s) (drop j s) end q f' h,
                )
                eq,
            subst (λ t. Finds m t end x) whole found,
          )
    ]
