-- ===== src/Http1/Body.antt =====
-- The second loop of the exchange, on a stream that brings the whole body.
use http_client.Prelude.{
  ℕ, suc, ◌+◌, ◌-◌, ◌≡◌, ◌≤◌, ◌<◌, refl, sym, subst, ap, ◌∙◌, inl, inr, Bool, true, false, List, [],
  ◌∷◌, ◌++◌, Bytes, min, if◌then◌else◌, ltb, take, drop, length, arith, append_assoc, append-nil,
  Bool-cases, All, ok, length-take, length-drop,
}
use http_client.Text.Append.{joined, joined-append, take-add, drop-add}
use http_client.Http1.Exchange.{Read, got, failed, read_some, BodyState, on_chunk, read_body}

-- The read returns bytes.
abbrev pub IsGot : Read → Type 0
IsGot (got k) = Unit {0}
IsGot (failed what) = ⊥

-- The loop's variables, with `n` more bytes of the stream.
pub record Reads (store handler : Bool) (b : BodyState) (n : ℕ) (c : BodyState) : Type 0 where
  pub read_buf : c.read_buf ≡ (if store then b.read_buf ++ take n b.unread else b.read_buf)
  pub chunks :
      joined c.chunks ≡ (if handler then joined b.chunks ++ take n b.unread else joined b.chunks)
  pub unread : c.unread ≡ drop n b.unread
  pub have_body : c.have_body ≡ b.have_body + n

-- How many bytes one read takes, when `left` are asked for.
abbrev taken : ℕ → ℕ → ℕ
taken left k = min (min 32768 left) (suc k)

pub read_some_got :
    (asked k : ℕ) (s : Bytes)
    → 0 < length s
    → read_some asked (got k) s ≡ ok (take (min asked (suc k)) s, drop (min asked (suc k)) s)
unfolding read_some
read_some_got asked k [] h = absurd (omega arith)
read_some_got asked k (x ∷ s) h = refl

joined-on_chunk :
    (handler : Bool) (c : Bytes) (cs : List Bytes)
    → joined (on_chunk handler c cs) ≡ (if handler then joined cs ++ c else joined cs)
unfolding on_chunk
joined-on_chunk false c cs = refl
joined-on_chunk true [] cs = sym (append-nil (joined cs))
joined-on_chunk true (x ∷ c) cs = joined-append cs (x ∷ c)

Reads-zero : (store handler : Bool) (b : BodyState) → Reads store handler b 0 b
Reads-zero true true b = record {
  read_buf = sym (append-nil b.read_buf);
  chunks = sym (append-nil (joined b.chunks));
  unread = refl;
  have_body = omega arith;
}
Reads-zero true false b = record {
  read_buf = sym (append-nil b.read_buf);
  chunks = refl;
  unread = refl;
  have_body = omega arith;
}
Reads-zero false true b = record {
  read_buf = refl;
  chunks = sym (append-nil (joined b.chunks));
  unread = refl;
  have_body = omega arith;
}
Reads-zero false false b = record {
  read_buf = refl;
  chunks = refl;
  unread = refl;
  have_body = omega arith;
}

-- Two pieces of the stream, one after the other, on a text that is kept or not.
append_pieces :
    (keep : Bool) (a s : Bytes) (m j : ℕ)
    → (if keep
        then (if keep then a ++ take m s else a) ++ take j (drop m s)
        else (if keep then a ++ take m s else a))
      ≡ (if keep then a ++ take (m + j) s else a)
append_pieces false a s m j = refl
append_pieces true a s m j =
    append_assoc a (take m s) (take j (drop m s)) ∙ ap (◌++◌ a) (sym (take-add m j s))

-- The loop's variables behind one read of `m` bytes.
abbrev after_read : Bool → Bool → ℕ → BodyState → BodyState
after_read store handler m b = record {
  read_buf = if store then b.read_buf ++ take m b.unread else b.read_buf;
  have_body = b.have_body + length (take m b.unread);
  chunks = on_chunk handler (take m b.unread) b.chunks;
  unread = drop m b.unread;
}

Reads-after_read :
    (store handler : Bool) (m j : ℕ) (b c : BodyState)
    → m ≤ length b.unread
    → Reads store handler (after_read store handler m b) j c
    → Reads store handler b (m + j) c
Reads-after_read store handler m j b c h r = record {
  read_buf = r.read_buf ∙ append_pieces store b.read_buf b.unread m j;
  chunks =
      r.chunks
      ∙ ap (λ x. if handler then x ++ take j (drop m b.unread) else x)
          (joined-on_chunk handler (take m b.unread) b.chunks)
      ∙ append_pieces handler (joined b.chunks) b.unread m j;
  unread = r.unread ∙ sym (drop-add m j b.unread);
  have_body = omega (arith, r.have_body, length-take m b.unread);
}

-- On a stream that holds what is missing of the body the loop ends, with just that.
pub read_body-Reads :
    (store handler : Bool) (cl : ℕ) (rs : List Read) (b : BodyState)
    → All IsGot rs
    → cl - b.have_body ≤ length b.unread
    → cl - b.have_body ≤ length rs
    → (c : BodyState) × (read_body store handler cl rs b ≡ ok c)
      × Reads store handler b (cl - b.have_body) c
unfolding read_body
read_body-Reads store handler cl [] b g h n =
    let none_left : cl - b.have_body ≡ 0 = omega arith in
    let done : ltb b.have_body cl ≡ false = ground arith in
    (b, rw done refl, rw none_left (Reads-zero store handler b))
read_body-Reads store handler cl (failed what ∷ rs) b g h n = elim (g.0) [ ]
read_body-Reads store handler cl (got k ∷ rs) b g h n = elim (Bool-cases (ltb b.have_body cl)) [
  | inr e ↦
      let none_left : cl - b.have_body ≡ 0 = ground arith in
      (b, rw (read_body, e) refl, rw none_left (Reads-zero store handler b))
  | inl e ↦
      let m = taken (cl - b.have_body) k in
      let fits : m ≤ length b.unread = omega arith in
      let b' = after_read store handler m b in
      let len : b'.have_body ≡ b.have_body + m = omega (arith, length-take m b.unread) in
      let (c, eq, r) =
        read_body-Reads store handler cl rs b' g.1 (ground (arith, e, len, length-drop m b.unread))
          (ground (arith, e, len)) in
      let sum : m + (cl - b'.have_body) ≡ cl - b.have_body = ground (arith, e, len) in
      (
        c,
        rw
            (
              read_body,
              e,
              read_some_got (min 32768 (cl - b.have_body)) k b.unread (ground (arith, e)),
            )
            eq,
        subst (λ (x : ℕ). Reads store handler b x c) sum
            (Reads-after_read store handler m (cl - b'.have_body) b c fits r),
      )
]
